-- ===== src/Prelude/GoMap.antt =====
-- Go's built-in map: an association list in which a key is bound once. Go iterates over a map in no
-- fixed order; the list's order stands for one such order, and nothing of a map but `lookup`, its
-- size and its set of keys is meant by a statement.
pub mod Laws
pub mod Count
use mathlib.Core.Logic.{◌≢◌}
use mathlib.Core.Bool.{Bool, true, ◌&&◌}
use mathlib.Core.Option.{Option, none, some}
use mathlib.Core.List.{List, [], ◌∷◌}
use dtvn.Prelude.Tests.{if◌then◌else◌, Eq, ◌==◌}

abbrev pub GoMap {ℓ κ} : Type ℓ → Type κ → Type (ℓ ⊔ κ)
GoMap K V = List (K × V)

module _ {ℓ κ} {K : Type ℓ} {V : Type κ} ⦃e : Eq K⦄ where
  -- `v, ok := m[k]`
  unfoldable pub lookup : K → GoMap K V → Option V
  lookup k [] = none
  lookup k ((j, v) ∷ m) = if j == k then some v else lookup k m

  -- `m[k] = v`
  unfoldable pub insert : K → V → GoMap K V → GoMap K V
  insert k v [] = (k, v) ∷ []
  insert k v ((j, w) ∷ m) = if j == k then (j, v) ∷ m else (j, w) ∷ insert k v m

  -- `for k, v := range m { copied[k] = v }`
  unfoldable pub copy_loop : GoMap K V → GoMap K V → GoMap K V
  unfolding insert
  copy_loop copied [] = copied
  copy_loop copied ((k, v) ∷ m) = copy_loop (insert k v copied) m

module _ {ℓ κ} {K : Type ℓ} {V : Type κ} where
  -- `for k := range m { if drop(k) { delete(m, k) } }`
  unfoldable pub delete_where : (K → Bool) → GoMap K V → GoMap K V
  delete_where drop [] = []
  delete_where drop ((j, w) ∷ m) =
      let rest = delete_where drop m in if drop j then rest else (j, w) ∷ rest

  -- No key is bound twice.
  abbrev pub IsFresh : K → GoMap K V → Type ℓ
  IsFresh k [] = Unit
  IsFresh k ((j, v) ∷ m) = (j ≢ k) × IsFresh k m

  abbrev pub IsMap : GoMap K V → Type ℓ
  IsMap [] = Unit
  IsMap ((j, v) ∷ m) = IsFresh j m × IsMap m

-- `delete(m, k)`
unfoldable pub delete {ℓ κ} : {K : Type ℓ} {V : Type κ} ⦃e : Eq K⦄ → K → GoMap K V → GoMap K V
unfolding delete_where
delete k = delete_where (λ j. j == k)

-- A test on every entry.
unfoldable pub all_entries {ℓ κ} : {K : Type ℓ} {V : Type κ} → (K → V → Bool) → GoMap K V → Bool
all_entries p [] = true
all_entries p ((k, v) ∷ m) = p k v && all_entries p m
