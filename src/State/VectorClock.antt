-- ===== src/State/VectorClock.antt =====
-- pkg/state/vectorclock.go. The mutex makes each method atomic, and `mu` has no counterpart here.
-- A method that changes the receiver returns the new clock. Counters are `uint64`: an increment
-- wraps at 2^64.
pub mod Order
pub mod Merge
use dtvn.Prelude.{
  ℕ, ◌+◌, ◌%◌, ◌^◌, String, Bool, true, false, not, ◌&&◌, Option, none, some, List, [], ◌∷◌, ltb,
  if◌then◌else◌, ◌==◌, length, string_eq,
}
use dtvn.Prelude.GoMap.{GoMap, lookup, insert, copy_loop}

pub data Ordering : Type 0 where
  before after equal concurrent : Ordering

pub record VectorClock : Type 0 where
  pub node_id : String
  pub clocks : GoMap String ℕ

abbrev pub uint64 : ℕ → ℕ
uint64 n = n % 2 ^ 64

-- `m[k]`, which is 0 where `k` is not bound
abbrev pub value_or_zero : Option ℕ → ℕ
value_or_zero none = 0
value_or_zero (some n) = n

abbrev pub read : String → GoMap String ℕ → ℕ
read k m = value_or_zero (lookup k m)

unfoldable pub new : String → VectorClock
new node_id = record { node_id = node_id; clocks = (node_id, 0) ∷ [] }

unfoldable pub increment : VectorClock → VectorClock
increment vc = record vc {
  clocks = insert vc.node_id (uint64 (read vc.node_id vc.clocks + 1)) vc.clocks;
}

-- the test of `Update` and of the body of `Merge`: `!exists || value > current`
abbrev pub is_newer : Option ℕ → ℕ → Bool
is_newer none value = true
is_newer (some current) value = ltb current value

unfoldable pub raise : String → ℕ → GoMap String ℕ → GoMap String ℕ
raise k value m = if is_newer (lookup k m) value then insert k value m else m

unfoldable pub update : VectorClock → String → ℕ → VectorClock
unfolding raise
update vc k value = record vc { clocks = raise k value vc.clocks }

-- the loop of `Merge` over the entries of the other clock
unfoldable pub merge_loop : GoMap String ℕ → GoMap String ℕ → GoMap String ℕ
unfolding raise
merge_loop m [] = m
merge_loop m ((k, value) ∷ others) = merge_loop (raise k value m) others

unfoldable pub merge : VectorClock → VectorClock → VectorClock
unfolding merge_loop
merge vc other = record vc { clocks = merge_loop vc.clocks other.clocks }

-- the two flags of `Compare`; `none` is the early exit with `Concurrent`
abbrev pub Flags : Type 0
Flags = Option (Bool × Bool)

-- `if !lessOrEqual && !greaterOrEqual { return Concurrent }`, before the next round
abbrev pub go_on : Bool → Bool → Flags → Flags
go_on le ge rest = if not le && not ge then none else rest

-- the first loop: the entries of `vc` against `other`
unfoldable pub compare_this : GoMap String ℕ → GoMap String ℕ → Bool → Bool → Flags
compare_this [] other le ge = some (le, ge)
compare_this ((k, this_clock) ∷ m) other le ge =
    let other_clock = read k other in
    let ge' = if ltb this_clock other_clock then false else ge in
    let le' = if ltb other_clock this_clock then false else le in
    let rest = compare_this m other le' ge' in go_on le' ge' rest

abbrev pub is_bound : Option ℕ → Bool
is_bound none = false
is_bound (some n) = true

-- the second loop: the entries of `other` that `vc` lacks
unfoldable pub compare_other : GoMap String ℕ → GoMap String ℕ → Bool → Bool → Flags
compare_other this [] le ge = some (le, ge)
compare_other this ((k, other_clock) ∷ m) le ge =
    let skipped = compare_other this m le ge in
    let ge' = if ltb 0 other_clock then false else ge in
    let rest = compare_other this m le ge' in
    if is_bound (lookup k this) then skipped else go_on le ge' rest

abbrev pub verdict : Bool → Bool → Ordering
verdict le ge = if le && ge then equal else if le then before else if ge then after else concurrent

unfoldable pub compare : VectorClock → VectorClock → Ordering
unfolding compare_this compare_other
compare vc other = elim (compare_this vc.clocks other.clocks true true) [
  | none ↦ concurrent
  | some (le, ge) ↦ elim (compare_other vc.clocks other.clocks le ge) [
    | none ↦ concurrent
    | some (le', ge') ↦ verdict le' ge'
  ]
]

abbrev pub get : VectorClock → String → ℕ
get vc k = read k vc.clocks

-- `GetAll` and `Copy` build a new map from the entries of the old one.
unfoldable pub get_all : VectorClock → GoMap String ℕ
unfolding copy_loop
get_all vc = copy_loop [] vc.clocks

unfoldable pub copy : VectorClock → VectorClock
unfolding copy_loop
copy vc = record { node_id = vc.node_id; clocks = copy_loop [] vc.clocks }

abbrev is_before : Ordering → Bool
is_before before = true
is_before _ = false

abbrev is_after : Ordering → Bool
is_after after = true
is_after _ = false

abbrev is_concurrent : Ordering → Bool
is_concurrent concurrent = true
is_concurrent _ = false

abbrev is_equal : Ordering → Bool
is_equal equal = true
is_equal _ = false

abbrev happened_before : VectorClock → VectorClock → Bool
happened_before vc other = is_before (compare vc other)

abbrev happened_after : VectorClock → VectorClock → Bool
happened_after vc other = is_after (compare vc other)

abbrev concurrent_with : VectorClock → VectorClock → Bool
concurrent_with vc other = is_concurrent (compare vc other)

abbrev equal_to : VectorClock → VectorClock → Bool
equal_to vc other = is_equal (compare vc other)

abbrev size : VectorClock → ℕ
size vc = length vc.clocks
