-- ===== src/Prelude/GoMap/Count.antt =====
-- The size of a map whose keys come from a list of nodes.
use Prim.Native.Nat.{suc, ◌≤◌}
use mathlib.Core.Path.{◌≡◌}
use mathlib.Core.Bool.{Bool, true, false}
use mathlib.Core.Option.{none}
use mathlib.Core.List.{List, [], ◌∷◌}
use native.Mathlib.Omega.{arith}
use dtvn.Prelude.Tests.{if◌then◌else◌, Eq, ◌==◌}
use dtvn.Prelude.Lists.{length, All, count_where}
use dtvn.Prelude.GoMap.{GoMap, lookup, IsMap}
use dtvn.Prelude.GoMap.Laws.{is_some, lookup_of_IsFresh}

module _ {ℓ κ} {K : Type ℓ} {V : Type κ} ⦃e : Eq K⦄ where
  -- Whether a node has an entry.
  abbrev pub has : GoMap K V → K → Bool
  has m k = is_some (lookup k m)

module _ {ℓ} {K : Type ℓ} ⦃e : Eq K⦄ where
  unfoldable pub contains : List K → K → Bool
  contains [] k = false
  contains (j ∷ js) k = if j == k then true else contains js k

module _ {ℓ κ} {K : Type ℓ} {V : Type κ} ⦃e : Eq K⦄ where
  -- Every key is a node.
  abbrev pub IsWithin : List K → GoMap K V → Type 0
  IsWithin nodes m = All (λ entry. contains nodes entry.0 ≡ true) m

  has-cons-le :
      (k : K) (v : V) (m : GoMap K V) (nodes : List K)
      → count_where (has m) nodes ≤ count_where (has ((k, v) ∷ m)) nodes
  unfolding lookup
  has-cons-le k v m [] = omega arith
  has-cons-le k v m (n ∷ nodes) = ground (arith, has-cons-le k v m nodes)

  has-cons-lt :
      (k : K) (v : V) (m : GoMap K V) (nodes : List K)
      → lookup k m ≡ none
      → contains nodes k ≡ true
      → suc (count_where (has m) nodes) ≤ count_where (has ((k, v) ∷ m)) nodes
  unfolding lookup contains
  has-cons-lt k v m [] h c = cc
  has-cons-lt k v m (n ∷ nodes) h c =
      ground
        (arith, e.beq_iff n k, e.beq_iff k n, has-cons-le k v m nodes, has-cons-lt k v m nodes h)

  -- A map has no more entries than there are nodes that have one.
  pub length-le-count_where :
      (nodes : List K) (m : GoMap K V)
      → IsMap m
      → IsWithin nodes m
      → length m ≤ count_where (has m) nodes
  length-le-count_where nodes [] d w = omega arith
  length-le-count_where nodes ((k, v) ∷ m) d w = omega (
    arith,
    length-le-count_where nodes m d.1 w.1,
    has-cons-lt k v m nodes (lookup_of_IsFresh k m d.0) w.0,
  )
