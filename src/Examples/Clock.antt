-- ===== src/Examples/Clock.antt =====
-- Clocks of two nodes.

use dtvn.Prelude.{ℕ, ◌≢◌, ◌↔◌, String, false, [], ◌∷◌, ◌==◌, ◌≡◌, refl, arith, string_eq}
use dtvn.Prelude.GoMap.{IsMap}
use dtvn.State.VectorClock.{VectorClock, compare, merge}
use dtvn.State.VectorClock.Order.{Le, Compares, compare-Compares}
use dtvn.State.VectorClock.Merge.{merge-Le}

abbrev clock : ℕ → ℕ → VectorClock
clock a b = record { node_id = "node0"; clocks = ("node0", a) ∷ ("node1", b) ∷ [] }

pub differ : (a b : String) → (a == b) ≡ false → a ≢ b
differ a b h e = ground (arith, string_eq.beq_iff a b)

clock-IsMap : (a b : ℕ) → IsMap (clock a b).clocks
clock-IsMap a b = ((differ "node1" "node0" refl, tt), (tt, tt))

compare-Compares_example : Compares (clock 2 1) (clock 1 3) (compare (clock 2 1) (clock 1 3))
compare-Compares_example =
    compare-Compares (clock 2 1) (clock 1 3) (clock-IsMap 2 1) (clock-IsMap 1 3)

merge-Le_example :
    Le (merge (clock 2 1) (clock 1 3)) (clock 2 3)
    ↔ (Le (clock 2 1) (clock 2 3) × Le (clock 1 3) (clock 2 3))
merge-Le_example = merge-Le (clock 2 1) (clock 1 3) (clock 2 3) (clock-IsMap 1 3)
