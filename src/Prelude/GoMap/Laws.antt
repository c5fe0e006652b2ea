-- ===== src/Prelude/GoMap/Laws.antt =====
-- What a write does to the reads, the size and the keys of a map.
use Prim.Native.Nat.{suc, ◌≤◌}
use mathlib.Core.Path.{◌≡◌, refl, sym, ◌∙◌, subst₂}
use mathlib.Core.Logic.{◌≢◌, inl, inr}
use mathlib.Core.Bool.{Bool, true, false}
use mathlib.Core.Option.{Option, none, some}
use mathlib.Core.List.{[], ◌∷◌}
use native.Mathlib.Omega.{arith}
use dtvn.Prelude.Tests.{if◌then◌else◌, Eq, ◌==◌, Bool-cases, beq_refl}
use dtvn.Prelude.Lists.{length}
use dtvn.Prelude.GoMap.{
  GoMap, lookup, insert, delete_where, delete, IsFresh, IsMap, all_entries, copy_loop,
}

abbrev pub is_some {ℓ} : {A : Type ℓ} → Option A → Bool
is_some none = false
is_some (some a) = true

pub beq_ne {ℓ} : {K : Type ℓ} ⦃e : Eq K⦄ (j k : K) → (j == k) ≡ false → j ≢ k
beq_ne ⦃e⦄ j k h p = cc (sym h ∙ (e.beq_iff j k).1 p)

module _ {ℓ κ} {K : Type ℓ} {V : Type κ} ⦃e : Eq K⦄ where
  pub lookup-insert :
      (new key : K) (v : V) (entries : GoMap K V)
      → lookup key (insert new v entries) ≡ (if new == key then some v else lookup key entries)
  unfolding lookup insert
  lookup-insert new key v [] = refl
  lookup-insert new key v ((at, old) ∷ entries) = ground (
    arith,
    lookup-insert new key v entries,
    e.beq_iff at new,
    e.beq_iff at key,
    e.beq_iff new key,
  )

  pub lookup-insert_self : (k : K) (v : V) (m : GoMap K V) → lookup k (insert k v m) ≡ some v
  lookup-insert_self k v m = ground (arith, lookup-insert k k v m, beq_refl k)

  -- Deleting by a test on the key.
  pub lookup-delete_where :
      (drop : K → Bool) (k : K) (m : GoMap K V)
      → lookup k (delete_where drop m) ≡ (if drop k then none else lookup k m)
  unfolding lookup delete_where
  lookup-delete_where drop k [] = ground arith
  lookup-delete_where drop k ((j, w) ∷ m) =
      ground (arith, e.beq_iff j k, lookup-delete_where drop k m)

  pub lookup-delete :
      (k j : K) (m : GoMap K V) → lookup j (delete k m) ≡ (if j == k then none else lookup j m)
  unfolding delete
  lookup-delete k j m = lookup-delete_where (λ i. i == k) j m

  -- A write to a new key adds one entry, a write to a bound key none.
  pub length-insert :
      (k : K) (v : V) (m : GoMap K V)
      → length (insert k v m) ≡ (if is_some (lookup k m) then length m else suc (length m))
  unfolding lookup insert
  length-insert k v [] = refl
  length-insert k v ((j, w) ∷ m) = ground (arith, length-insert k v m)

  pub lookup_of_IsFresh : (k : K) (m : GoMap K V) → IsFresh k m → lookup k m ≡ none
  unfolding lookup
  lookup_of_IsFresh k [] h = refl
  lookup_of_IsFresh k ((j, w) ∷ m) h = ground (arith, e.beq_iff j k, lookup_of_IsFresh k m h.1)

  IsFresh-insert :
      (i k : K) (v : V) (m : GoMap K V) → k ≢ i → IsFresh i m → IsFresh i (insert k v m)
  unfolding insert
  IsFresh-insert i k v [] h f = (h, tt)
  IsFresh-insert i k v ((j, w) ∷ m) h f = ground (arith, IsFresh-insert i k v m h f.1)

  pub IsMap-insert : (k : K) (v : V) (m : GoMap K V) → IsMap m → IsMap (insert k v m)
  unfolding insert
  IsMap-insert k v [] h = (tt, tt)
  IsMap-insert k v ((j, w) ∷ m) h = elim (Bool-cases (j == k)) [
    | inl p ↦ rw p h
    | inr p ↦ rw p (IsFresh-insert j k v m (λ q. beq_ne j k p (sym q)) h.0, IsMap-insert k v m h.1)
  ]

module _ {ℓ κ} {K : Type ℓ} {V : Type κ} (drop : K → Bool) where
  IsFresh-delete_where : (i : K) (m : GoMap K V) → IsFresh i m → IsFresh i (delete_where drop m)
  unfolding delete_where
  IsFresh-delete_where i [] f = tt
  IsFresh-delete_where i ((j, w) ∷ m) f = ground (arith, IsFresh-delete_where i m f.1)

  pub IsMap-delete_where : (m : GoMap K V) → IsMap m → IsMap (delete_where drop m)
  unfolding delete_where
  IsMap-delete_where [] h = tt
  IsMap-delete_where ((j, w) ∷ m) h =
      ground (arith, IsFresh-delete_where j m h.0, IsMap-delete_where m h.1)

  pub length-delete_where-le : (m : GoMap K V) → length (delete_where drop m) ≤ length m
  unfolding delete_where
  length-delete_where-le [] = omega arith
  length-delete_where-le ((j, w) ∷ m) = ground (arith, length-delete_where-le m)

pub IsMap-delete {ℓ κ} :
    {K : Type ℓ} {V : Type κ} ⦃e : Eq K⦄ (k : K) (m : GoMap K V) → IsMap m → IsMap (delete k m)
unfolding delete
IsMap-delete k m h = IsMap-delete_where (λ j. j == k) m h

module _ {ℓ κ} {K : Type ℓ} {V : Type κ} ⦃e : Eq K⦄ (p : K → V → Bool) where
  pub all_entries-lookup :
      (m : GoMap K V) (k : K) (v : V) → all_entries p m ≡ true → lookup k m ≡ some v → p k v ≡ true
  unfolding all_entries lookup
  all_entries-lookup [] k v h l = cc
  all_entries-lookup ((j, w) ∷ m) k v h l = ground (arith, e.beq_iff j k, all_entries-lookup m k v)

  pub lookup-all_entries :
      (m : GoMap K V)
      → IsMap m
      → ((k : K) (v : V) → lookup k m ≡ some v → p k v ≡ true)
      → all_entries p m ≡ true
  unfolding all_entries lookup
  lookup-all_entries [] d h = refl
  lookup-all_entries ((j, w) ∷ m) d h = rw (h j w (rw (beq_refl j)), lookup-all_entries m d.1 below)
    where
      below : (k : K) (v : V) → lookup k m ≡ some v → p k v ≡ true
      below k v l = h k v (ground (arith, e.beq_iff j k, lookup_of_IsFresh j m d.0))

module _ {ℓ κ} {K : Type ℓ} {V : Type κ} ⦃e : Eq K⦄ where
  pub lookup-copy_loop :
      (k : K) (copied m : GoMap K V)
      → IsMap m
      → lookup k (copy_loop copied m)
        ≡ (elim (lookup k m) [ none ↦ lookup k copied | some v ↦ some v ])
  unfolding copy_loop lookup
  lookup-copy_loop k copied [] d = refl
  lookup-copy_loop k copied ((j, v) ∷ m) d = ground (
    arith,
    e.beq_iff j k,
    lookup-copy_loop k (insert j v copied) m d.1,
    lookup-insert j k v copied,
    lookup_of_IsFresh j m d.0,
  )

  pub IsMap-copy_loop : (copied m : GoMap K V) → IsMap copied → IsMap (copy_loop copied m)
  unfolding copy_loop
  IsMap-copy_loop copied [] d = d
  IsMap-copy_loop copied ((j, v) ∷ m) d =
      IsMap-copy_loop (insert j v copied) m (IsMap-insert j v copied d)

  -- What holds of every entry.
  abbrev pub Each {λ'} : (K → V → Type λ') → GoMap K V → Type (ℓ ⊔ κ ⊔ λ')
  Each P m = (k : K) (v : V) → lookup k m ≡ some v → P k v

  pub Each-insert {λ'} :
      (P : K → V → Type λ') (k : K) (v : V) (m : GoMap K V)
      → P k v
      → Each P m
      → Each P (insert k v m)
  Each-insert P k v m h each j w l = elim (Bool-cases (k == j)) [
    | inl p ↦ subst₂ P ((e.beq_iff k j).0 p) (ground (arith, lookup-insert k j v m)) h
    | inr p ↦ each j w (ground (arith, lookup-insert k j v m))
  ]

  pub Each-delete_where {λ'} :
      (P : K → V → Type λ') (drop : K → Bool) (m : GoMap K V)
      → Each P m
      → Each P (delete_where drop m)
  Each-delete_where P drop m each j w l = each j w (ground (arith, lookup-delete_where drop j m))
