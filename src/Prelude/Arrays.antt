-- ===== src/Prelude/Arrays.antt =====
-- Slices that are read and written by an index in range.
use Prim.Native.Nat.{ℕ, zero, suc, ◌<◌, ◌≤◌}
use mathlib.Core.Path.{◌≡◌, refl}
use mathlib.Core.List.{List, [], ◌∷◌}
use native.Mathlib.Omega.{arith}
use dtvn.Prelude.Tests.{if◌then◌else◌, ◌==◌, nat_eq}
use dtvn.Prelude.Lists.{length}

module _ {ℓ} {A : Type ℓ} where
  abbrev pub replicate : ℕ → A → List A
  replicate zero a = []
  replicate (suc n) a = a ∷ replicate n a

  -- `xs[i]`; Go panics out of range, where this is the default.
  abbrev pub get_or : List A → A → ℕ → A
  get_or [] d i = d
  get_or (x ∷ xs) d zero = x
  get_or (x ∷ xs) d (suc i) = get_or xs d i

  -- `xs[i] = v`
  abbrev pub set : List A → ℕ → A → List A
  set [] i v = []
  set (x ∷ xs) zero v = v ∷ xs
  set (x ∷ xs) (suc i) v = x ∷ set xs i v

  abbrev pub take : ℕ → List A → List A
  take zero xs = []
  take (suc n) [] = []
  take (suc n) (x ∷ xs) = x ∷ take n xs

  pub length-replicate : (n : ℕ) (a : A) → length (replicate n a) ≡ n
  length-replicate zero a = refl
  length-replicate (suc n) a = ground (arith, length-replicate n a)

  pub length-set : (xs : List A) (i : ℕ) (v : A) → length (set xs i v) ≡ length xs
  length-set [] i v = refl
  length-set (x ∷ xs) zero v = refl
  length-set (x ∷ xs) (suc i) v = ground (arith, length-set xs i v)

  pub get_or-set :
      (xs : List A) (d v : A) (i j : ℕ)
      → i < length xs
      → get_or (set xs i v) d j ≡ (if i == j then v else get_or xs d j)
  get_or-set [] d v i j h = absurd (omega arith)
  get_or-set (x ∷ xs) d v zero zero h = ground arith
  get_or-set (x ∷ xs) d v zero (suc j) h = ground arith
  get_or-set (x ∷ xs) d v (suc i) zero h = ground arith
  get_or-set (x ∷ xs) d v (suc i) (suc j) h = ground (arith, get_or-set xs d v i j)

  pub take_of_length-le : (n : ℕ) (xs : List A) → length xs ≤ n → take n xs ≡ xs
  take_of_length-le zero [] h = refl
  take_of_length-le zero (x ∷ xs) h = absurd (omega arith)
  take_of_length-le (suc n) [] h = refl
  take_of_length-le (suc n) (x ∷ xs) h = ground (arith, take_of_length-le n xs)
