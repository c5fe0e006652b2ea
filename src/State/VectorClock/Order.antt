-- ===== src/State/VectorClock/Order.antt =====
-- `Compare` decides the pointwise order of the clocks.
use dtvn.Prelude.{
  ℕ, ◌≤◌, String, Bool, true, false, ◌&&◌, ◌||◌, some, [], ◌∷◌, ◌≡◌, refl, ltb, leb, if◌then◌else◌,
  Option-cases, inl, inr, arith, string_eq, leb→le,
}
use dtvn.Prelude.GoMap.{GoMap, lookup, IsMap, all_entries}
use dtvn.Prelude.GoMap.Laws.{all_entries-lookup, lookup-all_entries}
use dtvn.State.VectorClock.{
  Ordering, before, after, equal, concurrent, VectorClock, read, Flags, go_on, compare_this,
  compare_other, is_bound, verdict, compare, get,
}

-- No counter of the first clock is ahead of the second's.
abbrev pub Le : VectorClock → VectorClock → Type 0
Le a b = (k : String) → get a k ≤ get b k

abbrev all_le : GoMap String ℕ → GoMap String ℕ → Bool
all_le this other = all_entries (λ k c. leb c (read k other)) this

abbrev all_ge : GoMap String ℕ → GoMap String ℕ → Bool
all_ge this other = all_entries (λ k c. leb (read k other) c) this

abbrev all_old : GoMap String ℕ → GoMap String ℕ → Bool
all_old this other = all_entries (λ k c. is_bound (lookup k this) || leb c 0) other

abbrev finish : Bool → Bool → Flags
finish le ge = go_on le ge (some (le, ge))

-- One round of the first loop, over what the rest of the loop returns for each pair of flags.
this_round :
    (c o : ℕ) (le ge L G : Bool) (rest : Bool → Bool → Flags)
    → (le || ge) ≡ true
    → rest true true ≡ finish L G
    → rest false true ≡ finish false G
    → rest true false ≡ finish L false
    → let ge' = if ltb c o then false else ge in
      let le' = if ltb o c then false else le in
      go_on le' ge' (rest le' ge') ≡ finish (le && (leb c o && L)) (ge && (leb o c && G))
this_round c o le ge L G rest h tt' ft tf = ground arith

compare_this_lem :
    (this other : GoMap String ℕ) (le ge : Bool)
    → (le || ge) ≡ true
    → compare_this this other le ge ≡ finish (le && all_le this other) (ge && all_ge this other)
unfolding compare_this all_entries
compare_this_lem [] other le ge h = ground arith
compare_this_lem ((k, c) ∷ m) other le ge h =
    this_round c (read k other) le ge (all_le m other) (all_ge m other) (compare_this m other) h
      (compare_this_lem m other true true refl) (compare_this_lem m other false true refl)
      (compare_this_lem m other true false refl)

compare_other_lem :
    (this other : GoMap String ℕ) (le ge : Bool)
    → (le || ge) ≡ true
    → compare_other this other le ge ≡ finish le (ge && all_old this other)
unfolding compare_other all_entries
compare_other_lem this [] le ge h = ground arith
compare_other_lem this ((k, c) ∷ m) le ge h = ground (
  arith,
  compare_other_lem this m true true refl,
  compare_other_lem this m false true refl,
  compare_other_lem this m true false refl,
)

compare_flags :
    (a b : VectorClock)
    → compare a b
      ≡ verdict (all_le a.clocks b.clocks) (all_ge a.clocks b.clocks && all_old a.clocks b.clocks)
unfolding compare
compare_flags a b = ground (
  arith,
  compare_this_lem a.clocks b.clocks true true refl,
  compare_other_lem a.clocks b.clocks true true refl,
  compare_other_lem a.clocks b.clocks false true refl,
  compare_other_lem a.clocks b.clocks true false refl,
)

-- A clock reads 0 where it has no entry.
read_le :
    (k : String) (n : ℕ) (m : GoMap String ℕ)
    → ((v : ℕ) → lookup k m ≡ some v → v ≤ n)
    → read k m ≤ n
read_le k n m h = elim (Option-cases (lookup k m)) [
  | inl e ↦ rw e (omega arith)
  | inr (v, e) ↦ rw e (h v e)
]

module _ (a b : VectorClock) where
  all_le-Le : all_le a.clocks b.clocks ≡ true → Le a b
  all_le-Le h k =
      read_le k (get b k) a.clocks
        λ v l. leb→le v _ (all_entries-lookup (λ k c. leb c (read k b.clocks)) a.clocks k v h l)

  Le-all_le : IsMap a.clocks → Le a b → all_le a.clocks b.clocks ≡ true
  Le-all_le d h = lookup-all_entries _ a.clocks d (λ k v l. ground (arith, h k))

  all_ge-Le : all_ge a.clocks b.clocks ≡ true → all_old a.clocks b.clocks ≡ true → Le b a
  all_ge-Le g o k = read_le k (get a k) b.clocks λ v l. ground (
    arith,
    all_entries-lookup (λ k c. leb (read k b.clocks) c) a.clocks k (get a k) g,
    all_entries-lookup (λ k c. is_bound (lookup k a.clocks) || leb c 0) b.clocks k v o l,
  )

  Le-all_ge : IsMap a.clocks → Le b a → all_ge a.clocks b.clocks ≡ true
  Le-all_ge d h = lookup-all_entries _ a.clocks d (λ k v l. ground (arith, h k))

  Le-all_old : IsMap b.clocks → Le b a → all_old a.clocks b.clocks ≡ true
  Le-all_old d h = lookup-all_entries _ b.clocks d (λ k v l. ground (arith, h k))

-- What each verdict of `Compare` says of the pointwise order.
abbrev pub Compares : VectorClock → VectorClock → Ordering → Type 0
Compares a b before = Le a b × ¬ Le b a
Compares a b after = (¬ Le a b) × Le b a
Compares a b equal = Le a b × Le b a
Compares a b concurrent = (¬ Le a b) × ¬ Le b a

verdict-Compares :
    (a b : VectorClock)
    → IsMap a.clocks
    → IsMap b.clocks
    → Compares a b
        (verdict (all_le a.clocks b.clocks) (all_ge a.clocks b.clocks && all_old a.clocks b.clocks))
verdict-Compares a b d d' =
    ground
      (arith, all_le-Le a b, Le-all_le a b d, all_ge-Le a b, Le-all_ge a b d, Le-all_old a b d')

-- Where both clocks are maps, the verdict of `Compare` is true of the pointwise order of the two
-- clocks, an absent entry read as 0.
pub compare-Compares :
    (a b : VectorClock) → IsMap a.clocks → IsMap b.clocks → Compares a b (compare a b)
compare-Compares a b d d' = rw (compare_flags a b) (verdict-Compares a b d d')

pub Compares-unique : (a b : VectorClock) (x y : Ordering) → Compares a b x → Compares a b y → x ≡ y
Compares-unique a b before before h k = refl
Compares-unique a b after after h k = refl
Compares-unique a b equal equal h k = refl
Compares-unique a b concurrent concurrent h k = refl
Compares-unique a b before equal h k = absurd (h.1 k.1)
Compares-unique a b before _ h k = absurd (k.0 h.0)
Compares-unique a b after before h k = absurd (h.0 k.0)
Compares-unique a b after equal h k = absurd (h.0 k.0)
Compares-unique a b after concurrent h k = absurd (k.1 h.1)
Compares-unique a b equal before h k = absurd (k.1 h.1)
Compares-unique a b equal after h k = absurd (k.0 h.0)
Compares-unique a b equal concurrent h k = absurd (k.0 h.0)
Compares-unique a b concurrent before h k = absurd (h.0 k.0)
Compares-unique a b concurrent after h k = absurd (h.1 k.1)
Compares-unique a b concurrent equal h k = absurd (h.0 k.0)

abbrev pub flip : Ordering → Ordering
flip before = after
flip after = before
flip equal = equal
flip concurrent = concurrent

Compares-flip : (a b : VectorClock) (x : Ordering) → Compares a b x → Compares b a (flip x)
Compares-flip a b before h = (h.1, h.0)
Compares-flip a b after h = (h.1, h.0)
Compares-flip a b equal h = (h.1, h.0)
Compares-flip a b concurrent h = (h.1, h.0)

module _ (a b : VectorClock) (d : IsMap a.clocks) (d' : IsMap b.clocks) where
  -- Where both clocks are maps, comparing them the other way round turns Before into After and
  -- After into Before, and leaves Equal and Concurrent.
  pub compare-flip : compare b a ≡ flip (compare a b)
  compare-flip =
      Compares-unique b a _ _ (compare-Compares b a d' d)
        (Compares-flip a b _ (compare-Compares a b d d'))

  pub compare_of_Compares : (x : Ordering) → Compares a b x → compare a b ≡ x
  compare_of_Compares x h = Compares-unique a b _ x (compare-Compares a b d d') h

  pub Compares-of_compare : (x : Ordering) → compare a b ≡ x → Compares a b x
  Compares-of_compare x e = rw e at (compare-Compares a b d d')

-- For clocks that are maps, if the first is Before the second and the second Before the third,
-- then the first is Before the third.
compare-before_trans :
    (a b c : VectorClock)
    → IsMap a.clocks
    → IsMap b.clocks
    → IsMap c.clocks
    → compare a b ≡ before
    → compare b c ≡ before
    → compare a c ≡ before
compare-before_trans a b c da db dc p q =
    let h = Compares-of_compare a b da db before p in
    let k = Compares-of_compare b c db dc before q in
    compare_of_Compares a c da dc before
      (λ i. omega (arith, h.0 i, k.0 i), λ l. h.1 (λ i. omega (arith, k.0 i, l i)))
