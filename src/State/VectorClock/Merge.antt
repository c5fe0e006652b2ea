-- ===== src/State/VectorClock/Merge.antt =====
-- What the methods that change a clock do to its counters.
use Prim.Native.Nat.{max}
use dtvn.Prelude.{
  ℕ, ◌+◌, ◌^◌, ◌<◌, String, [], ◌∷◌, ◌≡◌, if◌then◌else◌, ◌==◌, ◌↔◌, arith, string_eq, beq_refl,
}
use dtvn.Prelude.GoMap.{GoMap, lookup, IsMap}
use dtvn.Prelude.GoMap.Laws.{
  lookup-copy_loop, IsMap-copy_loop, lookup-insert, IsMap-insert, lookup_of_IsFresh,
}
use dtvn.State.VectorClock.{
  before, after, VectorClock, read, raise, merge_loop, merge, update, uint64, increment, copy,
  compare, get,
}
use dtvn.State.VectorClock.Order.{Le, compare_of_Compares}

read-raise :
    (j k : String) (v : ℕ) (m : GoMap String ℕ)
    → read k (raise j v m) ≡ (if j == k then max (read k m) v else read k m)
unfolding raise
read-raise j k v m = ground (arith, string_eq.beq_iff j k, lookup-insert j k v m)

IsMap-raise : (j : String) (v : ℕ) (m : GoMap String ℕ) → IsMap m → IsMap (raise j v m)
unfolding raise
IsMap-raise j v m d = ground (arith, IsMap-insert j v m d)

read-merge_loop :
    (k : String) (m others : GoMap String ℕ)
    → IsMap others
    → read k (merge_loop m others) ≡ max (read k m) (read k others)
unfolding merge_loop lookup
read-merge_loop k m [] d = omega arith
read-merge_loop k m ((j, v) ∷ others) d = ground (
  arith,
  string_eq.beq_iff j k,
  read-raise j k v m,
  read-merge_loop k (raise j v m) others d.1,
  lookup_of_IsFresh j others d.0,
)

IsMap-merge_loop : (m others : GoMap String ℕ) → IsMap m → IsMap (merge_loop m others)
unfolding merge_loop
IsMap-merge_loop m [] d = d
IsMap-merge_loop m ((j, v) ∷ others) d = IsMap-merge_loop (raise j v m) others (IsMap-raise j v m d)

pub IsMap-merge : (a b : VectorClock) → IsMap a.clocks → IsMap (merge a b).clocks
unfolding merge
IsMap-merge a b d = IsMap-merge_loop a.clocks b.clocks d

-- Each counter of the merged clock is the larger of the two.
pub get-merge :
    (a b : VectorClock) (k : String) → IsMap b.clocks → get (merge a b) k ≡ max (get a k) (get b k)
unfolding merge
get-merge a b k d = read-merge_loop k a.clocks b.clocks d

-- Where the second clock is a map, the merged clock is below a clock exactly when both of the
-- clocks that were merged are: it is their least upper bound.
pub merge-Le : (a b c : VectorClock) → IsMap b.clocks → Le (merge a b) c ↔ (Le a c × Le b c)
merge-Le a b c d = (
  λ h. (λ k. omega (arith, h k, get-merge a b k d), λ k. omega (arith, h k, get-merge a b k d)),
  λ h k. omega (arith, h.0 k, h.1 k, get-merge a b k d),
)

-- `Update` raises one counter to the given value, if that is larger, and leaves every other
-- counter.
get-update :
    (a : VectorClock) (j : String) (v : ℕ) (k : String)
    → get (update a j v) k ≡ (if j == k then max (get a k) v else get a k)
unfolding update
get-update a j v k = read-raise j k v a.clocks

pub IsMap-update :
    (a : VectorClock) (j : String) (v : ℕ) → IsMap a.clocks → IsMap (update a j v).clocks
unfolding update
IsMap-update a j v d = IsMap-raise j v a.clocks d

pub get-increment :
    (a : VectorClock) (k : String)
    → get (increment a) k ≡ (if a.node_id == k then uint64 (get a a.node_id + 1) else get a k)
unfolding increment
get-increment a k =
    ground (arith, lookup-insert a.node_id k (uint64 (get a a.node_id + 1)) a.clocks)

pub IsMap-increment : (a : VectorClock) → IsMap a.clocks → IsMap (increment a).clocks
unfolding increment
IsMap-increment a d = IsMap-insert a.node_id _ a.clocks d

-- The local counter has not reached the largest `uint64`.
abbrev pub CanTick : VectorClock → Type 0
CanTick a = get a a.node_id + 1 < 2 ^ 64

pub Le-increment : (a : VectorClock) → CanTick a → Le a (increment a)
Le-increment a h k = ground (arith, string_eq.beq_iff a.node_id k, get-increment a k)

-- An increment moves a clock that is a map strictly forward, if its own counter is not the largest
-- `uint64`.
compare-increment :
    (a : VectorClock) → IsMap a.clocks → CanTick a → compare a (increment a) ≡ before
compare-increment a d h = compare_of_Compares a (increment a) d (IsMap-increment a d) before (
  Le-increment a h,
  λ l. ground (arith, l a.node_id, beq_refl a.node_id, get-increment a a.node_id),
)

-- Where the own counter of a clock that is a map is the largest `uint64`, the clock compares as
-- After its own increment.
compare-increment_wrap :
    (a : VectorClock)
    → IsMap a.clocks
    → get a a.node_id + 1 ≡ 2 ^ 64
    → compare a (increment a) ≡ after
compare-increment_wrap a d h = compare_of_Compares a (increment a) d (IsMap-increment a d) after (
  λ l. ground (arith, l a.node_id, beq_refl a.node_id, get-increment a a.node_id),
  λ k. ground (arith, string_eq.beq_iff a.node_id k, get-increment a k),
)

pub IsMap-copy : (a : VectorClock) → IsMap (copy a).clocks
unfolding copy
IsMap-copy a = IsMap-copy_loop [] a.clocks tt

-- A copy reads as the original.
pub get-copy : (a : VectorClock) (k : String) → IsMap a.clocks → get (copy a) k ≡ get a k
unfolding copy lookup
get-copy a k d = ground (arith, lookup-copy_loop k [] a.clocks d)
