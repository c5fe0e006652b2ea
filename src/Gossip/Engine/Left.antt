-- ===== src/Gossip/Engine/Left.antt =====
-- What the hard cap of a cleanup leaves of the messages sent: the entries that are not older.

use dtvn.Prelude.{
  ℕ, zero, suc, ◌≤◌, String, true, [], ◌∷◌, ◌++◌, ◌≡◌, refl, ◌⊎◌, inl, inr, if◌then◌else◌, ◌==◌,
  ltb, length, nat_eq, string_eq, arith, Bool-cases, none, some,
}
use dtvn.Prelude.Arrays.{get_or, set}
use dtvn.Prelude.GoMap.{lookup, delete, delete_where, IsMap}
use dtvn.Prelude.GoMap.Laws.{is_some, lookup-delete, IsMap-delete, lookup_of_IsFresh}
use dtvn.Gossip.Engine.{replace_newest, newest, collect, delete_all}
use dtvn.Gossip.Engine.Oldest.{Has, IsAbove, IsBelow-Has, Passed-collect_rest}
use dtvn.Gossip.Engine.Cleanup.{Entries}

Has-set_inv :
    (k : String) (v i : ℕ) (j : String) (w : ℕ) (o : Entries)
    → Has k v (set o i (j, w))
    → Has k v o ⊎ ((j ≡ k) × (w ≡ v))
Has-set_inv k v i j w [] p = elim p [ ]
Has-set_inv k v zero j w (x ∷ o) (inl p) = inr p
Has-set_inv k v zero j w (x ∷ o) (inr p) = inl (inr p)
Has-set_inv k v (suc i) j w (x ∷ o) (inl p) = inl (inl p)
Has-set_inv k v (suc i) j w (x ∷ o) (inr p) = elim (Has-set_inv k v i j w o p) [
  | inl q ↦ inl (inr q)
  | inr q ↦ inr q
]

Has-snoc_inv :
    (k : String) (v : ℕ) (j : String) (w : ℕ) (o : Entries)
    → Has k v (o ++ (j, w) ∷ [])
    → Has k v o ⊎ ((j ≡ k) × (w ≡ v))
Has-snoc_inv k v j w [] (inl p) = inr p
Has-snoc_inv k v j w [] (inr p) = elim p [ ]
Has-snoc_inv k v j w (x ∷ o) (inl p) = inl (inl p)
Has-snoc_inv k v j w (x ∷ o) (inr p) = elim (Has-snoc_inv k v j w o p) [
  | inl q ↦ inl (inr q)
  | inr q ↦ inr q
]

Has-replace_newest_inv :
    (k : String) (v : ℕ) (j : String) (w : ℕ) (o : Entries)
    → Has k v (replace_newest o (j, w))
    → Has k v o ⊎ ((j ≡ k) × (w ≡ v))
unfolding replace_newest
Has-replace_newest_inv k v j w o = elim (Bool-cases (ltb w (get_or o ("", 0) (newest o)).1)) [
  | inl e ↦ rw e (Has-set_inv k v (newest o) j w o)
  | inr e ↦ rw e (λ p. inl p)
]

pub Has-collect_inv :
    (k : String) (v excess : ℕ) (o m : Entries)
    → Has k v (collect excess o m)
    → Has k v o ⊎ Has k v m
unfolding collect
Has-collect_inv k v excess o [] = inl
Has-collect_inv k v excess o ((j, w) ∷ m) = elim (Bool-cases (ltb (length o) excess)) [
  | inl e ↦ rw e (λ p. elim (Has-collect_inv k v excess (o ++ (j, w) ∷ []) m p) [
    | inl q ↦ elim (Has-snoc_inv k v j w o q) [ inl a ↦ inl a | inr a ↦ inr (inl a) ]
    | inr q ↦ inr (inr q)
  ])
  | inr e ↦ rw e (λ p. elim (Has-collect_inv k v excess (replace_newest o (j, w)) m p) [
    | inl q ↦ elim (Has-replace_newest_inv k v j w o q) [ inl a ↦ inl a | inr a ↦ inr (inl a) ]
    | inr q ↦ inr (inr q)
  ])
]

pub Has-lookup : (k : String) (v : ℕ) (m : Entries) → lookup k m ≡ some v → Has k v m
unfolding lookup
Has-lookup k v [] h = cc
Has-lookup k v ((j, w) ∷ m) h = ground (arith, string_eq.beq_iff j k, Has-lookup k v m)

pub lookup-Has : (k : String) (v : ℕ) (m : Entries) → IsMap m → Has k v m → lookup k m ≡ some v
unfolding lookup
lookup-Has k v [] d p = elim p [ ]
lookup-Has k v ((j, w) ∷ m) d (inl p) = ground (arith, string_eq.beq_iff j k, p)
lookup-Has k v ((j, w) ∷ m) d (inr p) =
    ground (arith, string_eq.beq_iff j k, lookup-Has k v m d.1 p, lookup_of_IsFresh j m d.0)

is_some-Has : (k : String) (v : ℕ) (m : Entries) → Has k v m → is_some (lookup k m) ≡ true
unfolding lookup
is_some-Has k v [] p = elim p [ ]
is_some-Has k v ((j, w) ∷ m) (inl p) = ground (arith, string_eq.beq_iff j k, p)
is_some-Has k v ((j, w) ∷ m) (inr p) = ground (arith, is_some-Has k v m p)

pub lookup-delete_all :
    (k : String) (o m : Entries)
    → lookup k (delete_all o m) ≡ (if is_some (lookup k o) then none else lookup k m)
unfolding delete_all lookup
lookup-delete_all k [] m = ground arith
lookup-delete_all k ((j, w) ∷ o) m = ground (
  arith,
  lookup-delete_all k o (delete j m),
  lookup-delete j k m,
  string_eq.beq_iff j k,
  string_eq.beq_iff k j,
)

Has-delete : (k : String) (v : ℕ) (j : String) (m : Entries) → Has k v (delete j m) → Has k v m
unfolding delete delete_where
Has-delete k v j [] = λ p. p
Has-delete k v j ((i, w) ∷ m) = elim (Bool-cases (i == j)) [
  | inl e ↦ rw e (λ p. inr (Has-delete k v j m p))
  | inr e ↦ rw e (λ p. elim p [ inl q ↦ inl q | inr q ↦ inr (Has-delete k v j m q) ])
]

Has-delete_all : (k : String) (v : ℕ) (o m : Entries) → Has k v (delete_all o m) → Has k v m
unfolding delete_all
Has-delete_all k v [] m p = p
Has-delete_all k v ((j, w) ∷ o) m p = Has-delete k v j m (Has-delete_all k v o (delete j m) p)

pub IsMap-delete_all : (o m : Entries) → IsMap m → IsMap (delete_all o m)
unfolding delete_all
IsMap-delete_all [] m d = d
IsMap-delete_all ((j, w) ∷ o) m d = IsMap-delete_all o (delete j m) (IsMap-delete j m d)

IsAbove-Has : (u : ℕ) (m : Entries) → ((k : String) (v : ℕ) → Has k v m → u ≤ v) → IsAbove u m
IsAbove-Has u [] h = tt
IsAbove-Has u ((j, w) ∷ m) h = (h j w (inl (refl, refl)), IsAbove-Has u m (λ k v p. h k v (inr p)))

Has-disjoint :
    (k : String) (v w : ℕ) (o m : Entries) → IsMap m → Has k v (delete_all o m) → Has k w o → ⊥
Has-disjoint k v w o m d p q =
    let kept = lookup-Has k v (delete_all o m) (IsMap-delete_all o m d) p in
    ground (arith, kept, lookup-delete_all k o m, is_some-Has k w o q)

-- What is left is not older than what has been collected.
pub IsAbove-delete_all :
    (u excess : ℕ) (id : String) (m : Entries)
    → IsMap m
    → Has id u (collect excess [] m)
    → IsAbove u (delete_all (collect excess [] m) m)
IsAbove-delete_all u excess id m d h = IsAbove-Has u kept newer
  where
    kept : Entries
    kept = delete_all (collect excess [] m) m

    newer : (k : String) (v : ℕ) → Has k v kept → u ≤ v
    newer k v p =
        elim (Passed-collect_rest k v excess [] m (Has-delete_all k v (collect excess [] m) m p)) [
          | inl q ↦ absurd (Has-disjoint k v v (collect excess [] m) m d p q)
          | inr q ↦ IsBelow-Has id u v (collect excess [] m) q h
        ]
