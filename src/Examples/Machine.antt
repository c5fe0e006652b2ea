-- ===== src/Examples/Machine.antt =====
-- A machine that issues, validates and consumes a ticket, and takes in the tickets of another.
use dtvn.Prelude.{
  ℕ, ◌≤◌, ◌≢◌, String, true, false, List, [], ◌∷◌, ◌==◌, ◌≡◌, refl, arith, inl, string_eq,
}
use dtvn.Prelude.Int.{pos}
use dtvn.Prelude.GoMap.{lookup, insert, IsMap}
use dtvn.Prelude.GoMap.Laws.{Each, Each-insert}
use dtvn.State.VectorClock.{VectorClock, compare}
use dtvn.State.VectorClock.Order.{Le}
use dtvn.State.Machine.{
  StateMachine, Ticket, TicketState, issued, validated, consumed, Error, not_validated,
  consume_ticket,
}
use dtvn.State.Machine
use dtvn.State.Machine.Ops.{Op, issue, validate, consume, apply, run}
use dtvn.State.Machine.Lifecycle.{consumptions, consumptions-run-new}
use dtvn.State.Machine.Errors.{apply_refused, IsLegal, run-IsLegal}
use dtvn.State.Machine.Invariant.{IsSound, IsValid, apply-IsValid}
use dtvn.State.Machine.Merge.{merge_ticket, merge_state}
use dtvn.State.Machine.Merge.Invariant.{merge_state-IsValid}
use dtvn.State.Machine.Merge.Converge.{Agree, merge_ticket-Agree}

abbrev ops : List Op
ops =
    issue "t1" "data" (pos 1)
    ∷ validate "t1" "node1" (pos 2)
    ∷ consume "t1" "node2" (pos 3)
    ∷ consume "t1" "node3" (pos 4)
    ∷ []

consumptions-run-new_example : consumptions "t1" (run (Machine.new "node0") ops) ≤ 1
consumptions-run-new_example = consumptions-run-new "node0" "t1" ops

run-IsLegal_example : IsLegal (run (Machine.new "node0") ops)
unfolding Machine.new
run-IsLegal_example = run-IsLegal (Machine.new "node0") ops tt

differ : (a b : String) → (a == b) ≡ false → a ≢ b
differ a b h e = ground (arith, string_eq.beq_iff a b)

abbrev clock : ℕ → ℕ → VectorClock
clock a b = record { node_id = "node0"; clocks = ("node0", a) ∷ ("node1", b) ∷ [] }

clock-IsMap : (a b : ℕ) → IsMap (clock a b).clocks
clock-IsMap a b = ((differ "node1" "node0" refl, tt), (tt, tt))

abbrev ticket : TicketState → String → ℕ → VectorClock → Ticket
ticket state by now vector_clock = record {
  id = "t1";
  state = state;
  payload = "data";
  validator_id = by;
  timestamp = pos now;
  vector_clock = vector_clock;
  metadata = [];
}

abbrev local_ticket : Ticket
local_ticket = ticket issued "" 1 (clock 1 0)

abbrev machine : StateMachine
machine = record {
  node_id = "node0";
  current_state = ("t1", local_ticket) ∷ [];
  transitions = [];
  vector_clock = clock 2 1;
  handlers = [];
  has_publisher = true;
  published = [];
}

clock-Le : Le (clock 1 0) (clock 2 1)
unfolding lookup
clock-Le k = ground arith

none-IsSound : Each (IsSound (clock 2 1)) []
unfolding lookup
none-IsSound k t l = cc

machine-IsValid : IsValid machine
unfolding insert
machine-IsValid = record {
  tickets_map = (tt, tt);
  clock_map = clock-IsMap 2 1;
  sound =
      Each-insert (IsSound (clock 2 1)) "t1" local_ticket []
        (record { named = refl; clock_map = clock-IsMap 1 0; behind = clock-Le }) none-IsSound;
}

apply_refused_example : (apply machine (consume "t1" "node2" (pos 3))).0 ≡ machine
unfolding apply consume_ticket lookup
apply_refused_example =
    apply_refused machine (consume "t1" "node2" (pos 3)) (not_validated issued) refl refl

apply-IsValid_example : IsValid (apply machine (validate "t1" "node2" (pos 3))).0
unfolding lookup
apply-IsValid_example =
    apply-IsValid machine (validate "t1" "node2" (pos 3)) machine-IsValid (omega arith)

abbrev remote_ticket : Ticket
remote_ticket = ticket consumed "node2" 9 (clock 1 4)

merge_state-IsValid_example :
    IsValid (merge_state machine (remote_ticket ∷ []))
    × Le machine.vector_clock (merge_state machine (remote_ticket ∷ [])).vector_clock
merge_state-IsValid_example =
    merge_state-IsValid machine (remote_ticket ∷ []) machine-IsValid (clock-IsMap 1 4, tt)

merge_ticket-Agree_example :
    Agree (merge_ticket local_ticket remote_ticket) (merge_ticket remote_ticket local_ticket)
unfolding compare lookup
merge_ticket-Agree_example =
    merge_ticket-Agree local_ticket remote_ticket (clock-IsMap 1 0) (clock-IsMap 1 4) (inl refl)

abbrev disputed_ticket : Ticket
disputed_ticket = ticket validated "node3" 9 (clock 2 3)
