-- ===== src/Gossip/Engine/Oldest.antt =====
-- The hard cap of a cleanup drops the oldest entries: the loops that collect them.
use mathlib.Core.Path.{subst, subst₂}
use dtvn.Prelude.{
  ℕ, zero, suc, ◌+◌, ◌≤◌, String, [], ◌∷◌, ◌++◌, ◌≡◌, refl, sym, ◌⊎◌, inl, inr, false,
  if◌then◌else◌, ◌<◌, ltb, length, nat_eq, string_eq, arith, Bool-cases,
}
use dtvn.Prelude.Arrays.{get_or, set}
use dtvn.Gossip.Engine.Cleanup.{Entries, length-replace_newest}
use dtvn.Gossip.Engine.{newest_from, newest, replace_newest, collect}

-- No entry is newer than `v`.
abbrev pub IsBelow : ℕ → Entries → Type 0
IsBelow v [] = Unit
IsBelow v ((k, w) ∷ m) = (w ≤ v) × IsBelow v m

-- No entry is older than `v`.
abbrev pub IsAbove : ℕ → Entries → Type 0
IsAbove v [] = Unit
IsAbove v ((k, w) ∷ m) = (v ≤ w) × IsAbove v m

abbrev pub Has : String → ℕ → Entries → Type 0
Has k v [] = ⊥
Has k v ((j, w) ∷ m) = ((j ≡ k) × (w ≡ v)) ⊎ Has k v m

IsBelow-trans : (u v : ℕ) (m : Entries) → u ≤ v → IsBelow u m → IsBelow v m
IsBelow-trans u v [] h b = tt
IsBelow-trans u v ((k, w) ∷ m) h b = (omega (arith, b.0), IsBelow-trans u v m h b.1)

pub IsBelow-Has : (k : String) (v u : ℕ) (m : Entries) → IsBelow u m → Has k v m → v ≤ u
IsBelow-Has k v u [] b p = elim p [ ]
IsBelow-Has k v u ((j, w) ∷ m) b (inl p) = omega (arith, b.0, p.1)
IsBelow-Has k v u ((j, w) ∷ m) b (inr p) = IsBelow-Has k v u m b.1 p

-- What the inner loop finds: the best so far, or an entry that is newer than all.
abbrev Found : ℕ → ℕ → ℕ → Entries → ℕ → Type 0
Found best best_ts i m r =
    ((r ≡ best) × IsBelow best_ts m)
    ⊎ ((j : ℕ) × (r ≡ i + j)
        × (best_ts ≤ (get_or m ("", 0) j).1)
        × IsBelow (get_or m ("", 0) j).1 m)

newest_from-Found :
    (best best_ts i : ℕ) (m : Entries) → Found best best_ts i m (newest_from best best_ts i m)
unfolding newest_from
newest_from-Found best best_ts i [] = inl (refl, tt)
newest_from-Found best best_ts i ((k, w) ∷ m) = elim (Bool-cases (ltb best_ts w)) [
  | inl e ↦ rw e (elim (newest_from-Found i w (suc i) m) [
    | inl (p, b) ↦ inr (0, omega (arith, p), ground arith, (omega arith, b))
    | inr (j, p, h, b) ↦ inr (suc j, omega (arith, p), ground (arith, h), (h, b))
  ])
  | inr e ↦ rw e (elim (newest_from-Found best best_ts (suc i) m) [
    | inl (p, b) ↦ inl (p, (ground arith, b))
    | inr (j, p, h, b) ↦ inr (suc j, omega (arith, p), h, (ground (arith, h), b))
  ])
]

IsBelow-newest : (o : Entries) → IsBelow (get_or o ("", 0) (newest o)).1 o
unfolding newest
IsBelow-newest [] = tt
IsBelow-newest ((k, w) ∷ o) = elim (newest_from-Found 0 w 1 o) [
  | inl (p, b) ↦ found 0 p (omega arith, b)
  | inr (j, p, h, b) ↦ found (suc j) (omega (arith, p)) (h, b)
]
  where
    found :
        (i : ℕ)
        → newest_from 0 w 1 o ≡ i
        → IsBelow (get_or ((k, w) ∷ o) ("", 0) i).1 ((k, w) ∷ o)
        → IsBelow (get_or ((k, w) ∷ o) ("", 0) (newest_from 0 w 1 o)).1 ((k, w) ∷ o)
    found i p = subst (λ r. IsBelow (get_or ((k, w) ∷ o) ("", 0) r).1 ((k, w) ∷ o)) (sym p)

IsBelow-set :
    (u : ℕ) (k : String) (v i : ℕ) (o : Entries) → v ≤ u → IsBelow u o → IsBelow u (set o i (k, v))
IsBelow-set u k v i [] h b = tt
IsBelow-set u k v zero (e ∷ o) h b = (h, b.1)
IsBelow-set u k v (suc i) (e ∷ o) h b = (b.0, IsBelow-set u k v i o h b.1)

IsBelow-get_or : (u i : ℕ) (o : Entries) → IsBelow u o → (get_or o ("", 0) i).1 ≤ u
IsBelow-get_or u i [] b = omega arith
IsBelow-get_or u zero (e ∷ o) b = b.0
IsBelow-get_or u (suc i) (e ∷ o) b = IsBelow-get_or u i o b.1

IsBelow-replace_newest :
    (u : ℕ) (k : String) (v : ℕ) (o : Entries) → IsBelow u o → IsBelow u (replace_newest o (k, v))
unfolding replace_newest
IsBelow-replace_newest u k v o b = elim (Bool-cases (ltb v (get_or o ("", 0) (newest o)).1)) [
  | inl e ↦
      rw e (IsBelow-set u k v (newest o) o (ground (arith, IsBelow-get_or u (newest o) o b)) b)
  | inr e ↦ rw e b
]

IsBelow-collect :
    (u excess : ℕ) (o m : Entries)
    → excess ≤ length o
    → IsBelow u o
    → IsBelow u (collect excess o m)
unfolding collect
IsBelow-collect u excess o [] h b = b
IsBelow-collect u excess o ((k, v) ∷ m) h b =
    let full : ltb (length o) excess ≡ false = ground arith in
    rw full (
      IsBelow-collect u excess (replace_newest o (k, v)) m
        (omega (arith, length-replace_newest o (k, v))) (IsBelow-replace_newest u k v o b))

-- An entry that is not collected is not older than those that are.
abbrev pub Passed : String → ℕ → Entries → Type 0
Passed k v o = Has k v o ⊎ IsBelow v o

Has-snoc : (k : String) (v : ℕ) (e : String × ℕ) (o : Entries) → Has k v o → Has k v (o ++ e ∷ [])
Has-snoc k v e [] p = elim p [ ]
Has-snoc k v e (x ∷ o) (inl p) = inl p
Has-snoc k v e (x ∷ o) (inr p) = inr (Has-snoc k v e o p)

Has-snoc_self : (k : String) (v : ℕ) (o : Entries) → Has k v (o ++ (k, v) ∷ [])
Has-snoc_self k v [] = inl (refl, refl)
Has-snoc_self k v (x ∷ o) = inr (Has-snoc_self k v o)

Has-set_self :
    (k : String) (v i : ℕ) (o : Entries) → v < (get_or o ("", 0) i).1 → Has k v (set o i (k, v))
Has-set_self k v i [] h = absurd (omega (arith, h))
Has-set_self k v zero (x ∷ o) h = inl (refl, refl)
Has-set_self k v (suc i) (x ∷ o) h = inr (Has-set_self k v i o h)

Has-set :
    (k : String) (v i : ℕ) (e : String × ℕ) (o : Entries)
    → Has k v o
    → Has k v (set o i e) ⊎ ((get_or o ("", 0) i).1 ≡ v)
Has-set k v i e [] p = elim p [ ]
Has-set k v zero e (x ∷ o) (inl p) = inr p.1
Has-set k v zero e (x ∷ o) (inr p) = inl (inr p)
Has-set k v (suc i) e (x ∷ o) (inl p) = inl (inl p)
Has-set k v (suc i) e (x ∷ o) (inr p) = elim (Has-set k v i e o p) [
  | inl q ↦ inl (inr q)
  | inr q ↦ inr q
]

Passed-set :
    (k : String) (v : ℕ) (j : String) (w : ℕ) (o : Entries)
    → w < (get_or o ("", 0) (newest o)).1
    → Has k v o
    → Passed k v (set o (newest o) (j, w))
Passed-set k v j w o h p = elim (Has-set k v (newest o) (j, w) o p) [
  | inl q ↦ inl q
  | inr q ↦ inr (
      IsBelow-set v j w (newest o) o (omega (arith, q))
        (subst (λ u. IsBelow u o) q (IsBelow-newest o)))
]

Passed-replace_newest :
    (k : String) (v : ℕ) (j : String) (w : ℕ) (o : Entries)
    → Has k v o
    → Passed k v (replace_newest o (j, w))
unfolding replace_newest
Passed-replace_newest k v j w o p = elim (Bool-cases (ltb w (get_or o ("", 0) (newest o)).1)) [
  | inl e ↦ rw e (Passed-set k v j w o (ground arith) p)
  | inr e ↦ rw e (inl p)
]

Passed-replace_newest_self :
    (k : String) (v : ℕ) (o : Entries) → Passed k v (replace_newest o (k, v))
unfolding replace_newest
Passed-replace_newest_self k v o = elim (Bool-cases (ltb v (get_or o ("", 0) (newest o)).1)) [
  | inl e ↦ rw e (inl (Has-set_self k v (newest o) o (ground arith)))
  | inr e ↦
      rw e
        (inr (IsBelow-trans (get_or o ("", 0) (newest o)).1 v o (ground arith) (IsBelow-newest o)))
]

module _ (k : String) (v excess : ℕ) where
  Passed-collect : (o m : Entries) → Has k v o → Passed k v (collect excess o m)
  unfolding collect
  Passed-collect o [] p = inl p
  Passed-collect o ((j, w) ∷ m) p = elim (Bool-cases (ltb (length o) excess)) [
    | inl e ↦ rw e (Passed-collect (o ++ (j, w) ∷ []) m (Has-snoc k v (j, w) o p))
    | inr e ↦ rw e (elim (Passed-replace_newest k v j w o p) [
      | inl q ↦ Passed-collect (replace_newest o (j, w)) m q
      | inr q ↦ inr (
          IsBelow-collect v excess (replace_newest o (j, w)) m
            (ground (arith, length-replace_newest o (j, w))) q)
    ])
  ]

  Passed-collect_full :
      (o m : Entries) → excess ≤ length o → Passed k v o → Passed k v (collect excess o m)
  Passed-collect_full o m h (inl p) = Passed-collect o m p
  Passed-collect_full o m h (inr p) = inr (IsBelow-collect v excess o m h p)

Passed-collect_head :
    (k : String) (v excess : ℕ) (o m : Entries) → Passed k v (collect excess o ((k, v) ∷ m))
unfolding collect
Passed-collect_head k v excess o m = elim (Bool-cases (ltb (length o) excess)) [
  | inl e ↦ rw e (Passed-collect k v excess (o ++ (k, v) ∷ []) m (Has-snoc_self k v o))
  | inr e ↦ rw e (
      Passed-collect_full k v excess (replace_newest o (k, v)) m
        (ground (arith, length-replace_newest o (k, v))) (Passed-replace_newest_self k v o))
]

-- Every entry of the map is collected, or is not older than those that are.
pub Passed-collect_rest :
    (k : String) (v excess : ℕ) (o m : Entries) → Has k v m → Passed k v (collect excess o m)
unfolding collect
Passed-collect_rest k v excess o [] p = elim p [ ]
Passed-collect_rest k v excess o ((j, w) ∷ m) (inl p) =
    subst₂ (λ a b. Passed a b (collect excess o ((j, w) ∷ m))) p.0 p.1
      (Passed-collect_head j w excess o m)
Passed-collect_rest k v excess o ((j, w) ∷ m) (inr p) =
    Passed-collect_rest k v excess
      (if ltb (length o) excess then o ++ (j, w) ∷ [] else replace_newest o (j, w)) m p
