-- ===== src/State/Machine/Merge.antt =====
-- pkg/state/machine.go, `MergeState`: the tickets of another node are taken in one by one, then
-- their clocks are merged into the machine's.
pub mod Invariant
pub mod Converge
use dtvn.Prelude.{
  String, Bool, true, false, Option, none, some, List, [], ◌∷◌, if◌then◌else◌, string_eq,
}
use dtvn.Prelude.Int.{ltb_ℤ}
use dtvn.Prelude.GoMap.{GoMap, lookup, insert}
use dtvn.State.VectorClock.{VectorClock, Ordering, before, after, equal, concurrent}
use dtvn.State.VectorClock
use dtvn.State.Machine.{Ticket, StateMachine, copy_ticket}

-- the four assignments of the cases that take the remote ticket over
unfoldable pub adopt : Ticket → Ticket → Ticket
adopt local remote = record local {
  state = remote.state;
  validator_id = remote.validator_id;
  timestamp = remote.timestamp;
  vector_clock = VectorClock.copy remote.vector_clock;
}

-- the `switch` on the comparison of the two clocks
unfoldable pub resolve : Ordering → Ticket → Ticket → Ticket
unfolding adopt
resolve concurrent local remote =
    if ltb_ℤ local.timestamp remote.timestamp then adopt local remote else local
resolve before local remote = adopt local remote
resolve after local remote = local
resolve equal local remote = local

unfoldable pub merge_ticket : Ticket → Ticket → Ticket
unfolding resolve
merge_ticket local remote =
    resolve (VectorClock.compare local.vector_clock remote.vector_clock) local remote

-- the body of the first loop
unfoldable pub take_in : GoMap String Ticket → Ticket → GoMap String Ticket
unfolding merge_ticket copy_ticket
take_in tickets remote = elim (lookup remote.id tickets) [
  | none ↦ insert remote.id (copy_ticket remote) tickets
  | some local ↦ insert remote.id (merge_ticket local remote) tickets
]

unfoldable pub merge_tickets : GoMap String Ticket → List Ticket → GoMap String Ticket
unfolding take_in
merge_tickets tickets [] = tickets
merge_tickets tickets (t ∷ ts) = merge_tickets (take_in tickets t) ts

-- the second loop
unfoldable pub merge_clocks : VectorClock → List Ticket → VectorClock
merge_clocks clock [] = clock
merge_clocks clock (t ∷ ts) = merge_clocks (VectorClock.merge clock t.vector_clock) ts

unfoldable pub merge_state : StateMachine → List Ticket → StateMachine
unfolding merge_tickets merge_clocks
merge_state sm tickets = record sm {
  current_state = merge_tickets sm.current_state tickets;
  vector_clock = merge_clocks sm.vector_clock tickets;
}
