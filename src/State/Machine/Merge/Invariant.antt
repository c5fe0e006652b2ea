-- ===== src/State/Machine/Merge/Invariant.antt =====
-- `MergeState` keeps the machine valid, whatever tickets another node sends.
use mathlib.Core.Path.{refl}
use native.Mathlib.Nat.{le_refl}
use dtvn.Prelude.{String, List, [], ◌∷◌, inl, inr, Option-cases, arith, string_eq, All}
use dtvn.Prelude.GoMap.{GoMap, lookup, IsMap}
use dtvn.Prelude.GoMap.Laws.{Each, Each-insert, IsMap-insert}
use dtvn.State.VectorClock.{VectorClock, get, Ordering, before, after, equal, concurrent}
use dtvn.State.VectorClock
use dtvn.State.VectorClock.Order.{Le}
use dtvn.State.VectorClock.Merge.{merge-Le, IsMap-merge}
use dtvn.State.Machine.{StateMachine, Ticket}
use dtvn.State.Machine.Invariant.{IsSound, IsValid, IsSound-copy, IsSound-mono}
use dtvn.State.Machine.Merge.{adopt, resolve, take_in, merge_tickets, merge_clocks, merge_state}

module _ (clock : VectorClock) (remote : Ticket) (d : IsMap remote.vector_clock.clocks)
    (h : Le remote.vector_clock clock) where
  resolve-IsSound :
      (o : Ordering) (id : String) (local : Ticket)
      → IsSound clock id local
      → IsSound clock id (resolve o local remote)
  unfolding resolve
  resolve-IsSound concurrent id local s = ground (arith, adopted)
    where
      adopted : IsSound clock id (adopt local remote)
      adopted = IsSound-copy clock remote.vector_clock id _ s.named refl d h
  resolve-IsSound before id local s = IsSound-copy clock remote.vector_clock id _ s.named refl d h
  resolve-IsSound after id local s = s
  resolve-IsSound equal id local s = s

  take_in-IsSound :
      (tickets : GoMap String Ticket)
      → IsMap tickets
      → Each (IsSound clock) tickets
      → IsMap (take_in tickets remote) × Each (IsSound clock) (take_in tickets remote)
  unfolding take_in
  take_in-IsSound tickets m s = elim (Option-cases (lookup remote.id tickets)) [
    | inl e ↦
        rw (e, take_in)
          (
            IsMap-insert remote.id _ tickets m,
            Each-insert _ remote.id _ tickets
                (IsSound-copy clock remote.vector_clock remote.id _ refl refl d h) s,
          )
    | inr (u, e) ↦
        rw (e, take_in)
          (
            IsMap-insert remote.id _ tickets m,
            Each-insert _ remote.id _ tickets (resolve-IsSound _ remote.id u (s remote.id u e)) s,
          )
  ]

-- What a Go map always is: the clock of each ticket binds a node once.
abbrev pub AreMaps : List Ticket → Type 0
AreMaps = All (λ t. IsMap t.vector_clock.clocks)

merge_tickets-IsSound :
    (clock : VectorClock) (tickets : GoMap String Ticket) (ts : List Ticket)
    → AreMaps ts
    → All (λ t. Le t.vector_clock clock) ts
    → IsMap tickets
    → Each (IsSound clock) tickets
    → IsMap (merge_tickets tickets ts) × Each (IsSound clock) (merge_tickets tickets ts)
unfolding merge_tickets
merge_tickets-IsSound clock tickets [] d h m s = (m, s)
merge_tickets-IsSound clock tickets (t ∷ ts) d h m s =
    let (m', s') = take_in-IsSound clock t d.0 h.0 tickets m s in
    merge_tickets-IsSound clock (take_in tickets t) ts d.1 h.1 m' s'

IsMap-merge_clocks :
    (clock : VectorClock) (ts : List Ticket)
    → IsMap clock.clocks
    → IsMap (merge_clocks clock ts).clocks
unfolding merge_clocks
IsMap-merge_clocks clock [] d = d
IsMap-merge_clocks clock (t ∷ ts) d =
    IsMap-merge_clocks (VectorClock.merge clock t.vector_clock) ts
      (IsMap-merge clock t.vector_clock d)

-- The merged clock is above the machine's and every ticket's.
pub merge_clocks-above :
    (clock : VectorClock) (ts : List Ticket)
    → AreMaps ts
    → Le clock (merge_clocks clock ts) × All (λ t. Le t.vector_clock (merge_clocks clock ts)) ts
unfolding merge_clocks
merge_clocks-above clock [] d = ((λ k. le_refl _), tt)
merge_clocks-above clock (t ∷ ts) d =
    let (above, rest) = merge_clocks-above (VectorClock.merge clock t.vector_clock) ts d.1 in
    let (p, q) =
      (merge-Le clock t.vector_clock (merge_clocks (VectorClock.merge clock t.vector_clock) ts)
          d.0).0
        above in
    (p, (q, rest))

-- Whatever tickets a valid machine is sent, if each one's clock is a map, merging them keeps the
-- machine valid, and no counter of its clock falls.
pub merge_state-IsValid :
    (sm : StateMachine) (ts : List Ticket)
    → IsValid sm
    → AreMaps ts
    → IsValid (merge_state sm ts) × Le sm.vector_clock (merge_state sm ts).vector_clock
unfolding merge_state
merge_state-IsValid sm ts v d =
    let (grows, above) = merge_clocks-above sm.vector_clock ts d in
    let (m, s) =
      merge_tickets-IsSound (merge_clocks sm.vector_clock ts) sm.current_state ts d above
        v.tickets_map (λ k t l. IsSound-mono sm.vector_clock _ k t grows (v.sound k t l)) in
    (
      record {
        tickets_map = m;
        clock_map = IsMap-merge_clocks sm.vector_clock ts v.clock_map;
        sound = s;
      },
      grows,
    )
