-- ===== src/Prelude/Lists.antt =====
-- Lists measured by the native numbers, under the library's names.
use Prim.Native.Nat.{ℕ, suc, ◌+◌, ◌≤◌, ◌<◌}
use mathlib.Core.Path.{◌≡◌, refl}
use mathlib.Core.Bool.{Bool, true, false, ◌&&◌}
use mathlib.Core.List.{List, [], ◌∷◌, ◌++◌}
use native.Mathlib.Omega.{arith}
use dtvn.Prelude.Tests.{if◌then◌else◌}

module _ {ℓ} {A : Type ℓ} where
  abbrev pub length : List A → ℕ
  length [] = 0
  length (x ∷ xs) = suc (length xs)

  pub length-append : (xs ys : List A) → length (xs ++ ys) ≡ length xs + length ys
  length-append [] ys = omega arith
  length-append (x ∷ xs) ys = omega (arith, length-append xs ys)

  -- The library's `filter` wants a decision; the source's loops make Boolean tests.
  abbrev pub filter : (A → Bool) → List A → List A
  filter p [] = []
  filter p (x ∷ xs) = let rest = filter p xs in if p x then x ∷ rest else rest

  pub length-filter-le : (p : A → Bool) (xs : List A) → length (filter p xs) ≤ length xs
  length-filter-le p [] = omega arith
  length-filter-le p (x ∷ xs) = ground (arith, length-filter-le p xs)

  -- A statement about every element.
  abbrev pub All {κ} : (A → Type κ) → List A → Type κ
  All P [] = Unit
  All P (x ∷ xs) = P x × All P xs

  abbrev pub count_where : (A → Bool) → List A → ℕ
  count_where p [] = 0
  count_where p (x ∷ xs) = let rest = count_where p xs in if p x then suc rest else rest

  pub count_where-append :
      (p : A → Bool) (xs ys : List A)
      → count_where p (xs ++ ys) ≡ count_where p xs + count_where p ys
  count_where-append p [] ys = omega arith
  count_where-append p (x ∷ xs) ys = ground (arith, count_where-append p xs ys)

  pub All-append {κ} : (P : A → Type κ) (xs ys : List A) → All P xs → All P ys → All P (xs ++ ys)
  All-append P [] ys h k = k
  All-append P (x ∷ xs) ys h k = (h.0, All-append P xs ys h.1 k)

-- Counting the nodes of a list by tests.
module _ {ℓ} {A : Type ℓ} (p q : A → Bool) where
  -- Two sets of a list overlap in all that does not fit beside one another.
  pub count_where-and :
      (xs : List A)
      → count_where p xs + count_where q xs ≤ length xs + count_where (λ x. p x && q x) xs
  count_where-and [] = omega arith
  count_where-and (x ∷ xs) = ground (arith, count_where-and xs)

  -- The larger of two sets holds an element that the other lacks.
  pub count_where-lt :
      (xs : List A) → count_where q xs < count_where p xs → (x : A) × (p x ≡ true) × (q x ≡ false)
  count_where-lt [] h = absurd (omega arith)
  count_where-lt (x ∷ xs) h = go (p x) (q x) refl refl (count_where-lt xs)
    where
      go :
          (b c : Bool)
          → p x ≡ b
          → q x ≡ c
          → (count_where q xs < count_where p xs → (x : A) × (p x ≡ true) × (q x ≡ false))
          → (x : A) × (p x ≡ true) × (q x ≡ false)
      go true false e d rest = (x, e, d)
      go true true e d rest = rest (ground arith)
      go false true e d rest = rest (ground arith)
      go false false e d rest = rest (ground arith)
