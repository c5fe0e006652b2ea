-- ===== src/State/Machine/Errors.antt =====
-- What an operation that fails leaves behind, and which transitions the log can hold.

use dtvn.Prelude.{
  String, Bool, true, false, some, List, [], ◌∷◌, ◌≡◌, inl, inr, Option-cases, arith, string_eq,
  All, All-append,
}
use dtvn.Prelude.GoMap.{lookup}
use dtvn.State.Machine.{
  StateMachine, Ticket, TicketState, issued, validated, consumed, disputed, Error, handler_error,
  issue_ticket, seed_tickets, record_transition, with_transition, validate_ticket, consume_ticket,
  dispute_ticket, sync_ticket, with_synced,
}
use dtvn.State.Machine.Ops.{
  Op, issue, seed, validate, consume, dispute, sync, apply, run, validate_cases, consume_cases,
  dispute_cases, sync_cases, issue_cases,
}
use dtvn.State.Machine.Lifecycle.{transitions-record_transition}

abbrev pub is_handler_error : Error → Bool
is_handler_error (handler_error e) = true
is_handler_error _ = false

record_transition_error :
    (sm : StateMachine) (j : String) (t : Ticket) (old : TicketState) (by : String) (x : Error)
    → (record_transition sm j t old by).1 ≡ some x
    → is_handler_error x ≡ true
unfolding record_transition
record_transition_error sm j t old by x h = ground arith

-- An operation that is refused, by any error but a handler's, leaves the machine as it was.
pub apply_refused :
    (sm : StateMachine) (op : Op) (x : Error)
    → (apply sm op).1 ≡ some x
    → is_handler_error x ≡ false
    → (apply sm op).0 ≡ sm
unfolding apply issue_ticket sync_ticket validate_ticket consume_ticket dispute_ticket
apply_refused sm (issue j payload now) x h g = ground arith
apply_refused sm (seed tickets) x h g = ground arith
apply_refused sm (validate j by now) x h g = elim (Option-cases (lookup j sm.current_state)) [
  | inl e ↦ rw (e, validate_ticket)
  | inr (t, e) ↦ ground (
    arith,
    record_transition_error sm j
        (record t { state = validated; validator_id = by; timestamp = now }) t.state by x,
  )
]
apply_refused sm (consume j by now) x h g = elim (Option-cases (lookup j sm.current_state)) [
  | inl e ↦ rw (e, consume_ticket)
  | inr (t, e) ↦ ground (
    arith,
    record_transition_error sm j (record t { state = consumed; timestamp = now }) t.state by x,
  )
]
apply_refused sm (dispute j by now) x h g = elim (Option-cases (lookup j sm.current_state)) [
  | inl e ↦ rw (e, dispute_ticket)
  | inr (t, e) ↦ ground (
    arith,
    record_transition_error sm j (record t { state = disputed; timestamp = now }) t.state by x,
  )
]
apply_refused sm (sync j by payload now) x h g = ground arith

-- The edges of the life of a ticket.
pub data Edge : TicketState → TicketState → Type 0 where
  validates : Edge issued validated
  consumes : Edge validated consumed
  disputes : {s : TicketState} → Edge s disputed

-- Every transition that the log holds is an edge.
abbrev pub IsLegal : StateMachine → Type 0
IsLegal sm = All (λ t. Edge t.from_state t.to_state) sm.transitions

record_transition-IsLegal :
    (sm : StateMachine) (j : String) (t : Ticket) (old : TicketState) (by : String)
    → IsLegal sm
    → Edge old t.state
    → IsLegal (record_transition sm j t old by).0
unfolding with_transition
record_transition-IsLegal sm j t old by l e =
    rw (transitions-record_transition sm j t old by) (All-append _ sm.transitions _ l (e, tt))

apply-IsLegal : (sm : StateMachine) (op : Op) → IsLegal sm → IsLegal (apply sm op).0
unfolding apply seed_tickets with_synced
apply-IsLegal sm (issue j payload now) l = issue_cases IsLegal sm j "" now payload l λ e. l
apply-IsLegal sm (seed tickets) l = l
apply-IsLegal sm (validate j by now) l =
    validate_cases IsLegal sm j by now l
      λ u e was. record_transition-IsLegal sm j _ u.state by l (rw was Edge.validates)
apply-IsLegal sm (consume j by now) l =
    consume_cases IsLegal sm j by now l
      λ u e was. record_transition-IsLegal sm j _ u.state by l (rw was Edge.consumes)
apply-IsLegal sm (dispute j by now) l =
    dispute_cases IsLegal sm j by now l
      λ u e. record_transition-IsLegal sm j _ u.state by l Edge.disputes
apply-IsLegal sm (sync j by payload now) l =
    sync_cases IsLegal sm j by now payload l
      λ e. All-append _ sm.transitions _ l (Edge.validates, tt)

-- If the log holds only edges of the life of a ticket, ISSUED to VALIDATED, VALIDATED to CONSUMED
-- and any state to DISPUTED, then so does the log after any sequence of operations on the node's
-- own tickets, whether they fail or not.
pub run-IsLegal : (sm : StateMachine) (ops : List Op) → IsLegal sm → IsLegal (run sm ops)
unfolding run
run-IsLegal sm [] l = l
run-IsLegal sm (op ∷ ops) l = run-IsLegal (apply sm op).0 ops (apply-IsLegal sm op l)
