-- ===== src/State/Machine/Lifecycle/Left.antt =====
-- Whether a ticket can still be consumed: no operation makes that of one that could not be.
use native.Mathlib.Nat.{le_refl}
use dtvn.Prelude.{
  ℕ, ◌≤◌, String, true, Option, none, some, ◌≡◌, refl, ap, ◌∙◌, inl, inr, Option-cases, Bool-cases,
  arith, string_eq, beq_refl,
}
use dtvn.Prelude.Int.{ℤ}
use dtvn.Prelude.GoMap.{lookup}
use dtvn.State.Machine.{
  StateMachine, Ticket, TicketState, issued, validated, consumed, disputed, pending, other,
  record_transition, seed_tickets, with_synced, synced_ticket, consume_ticket,
}
use dtvn.State.Machine
use dtvn.State.Machine.Ops.{
  Op, issue, seed, validate, consume, dispute, sync, apply, validate_cases, consume_cases,
  dispute_cases, sync_cases, issue_cases,
}
use dtvn.State.Machine.Lifecycle.{
  left, left-record_transition, left-insert, left-seed_loop, consumable, consumable_le,
}

abbrev pub left_of : String → StateMachine → ℕ
left_of id sm = left (lookup id sm.current_state)

pub left_of-le : (id : String) (sm : StateMachine) → left_of id sm ≤ 1
left_of-le id sm = go (lookup id sm.current_state)
  where
    go : (t : Option Ticket) → left t ≤ 1
    go none = omega arith
    go (some t) = consumable_le t.state

left_of-record_transition :
    (sm : StateMachine) (j : String) (t : Ticket) (old : TicketState) (by id : String) (u : Ticket)
    → lookup j sm.current_state ≡ some u
    → consumable t.state ≤ consumable u.state
    → left_of id (record_transition sm j t old by).0 ≤ left_of id sm
left_of-record_transition sm j t old by id u e h =
    rw (left-record_transition sm j t old by id) (ground (arith, string_eq.beq_iff j id))

left_of-with_synced :
    (id j by payload : String) (now : ℤ) (sm : StateMachine)
    → lookup j sm.current_state ≡ none
    → left_of id (with_synced sm j by payload now) ≤ left_of id sm
unfolding with_synced
left_of-with_synced id j by payload now sm e =
    left-insert j id (synced_ticket sm j by payload now) sm.current_state e

pub left_of-apply :
    (id : String) (sm : StateMachine) (op : Op) → left_of id (apply sm op).0 ≤ left_of id sm
unfolding apply seed_tickets
left_of-apply id sm op = go op
  where
    Kept : StateMachine → Type 0
    Kept sm' = left_of id sm' ≤ left_of id sm

    go : (op : Op) → Kept (apply sm op).0
    go (issue j payload now) =
        issue_cases Kept sm j "" now payload (le_refl _)
          (λ e. left-insert j id _ sm.current_state e)
    go (seed tickets) = left-seed_loop id sm.vector_clock sm.current_state 0 tickets
    go (validate j by now) =
        validate_cases Kept sm j by now (le_refl _)
          λ u e was. left_of-record_transition sm j _ u.state by id u e (ground arith)
    go (consume j by now) =
        consume_cases Kept sm j by now (le_refl _)
          λ u e was. left_of-record_transition sm j _ u.state by id u e (ground arith)
    go (dispute j by now) =
        dispute_cases Kept sm j by now (le_refl _)
          λ u e. left_of-record_transition sm j _ u.state by id u e (ground arith)
    go (sync j by payload now) =
        sync_cases Kept sm j by now payload (le_refl _)
          λ e. left_of-with_synced id j by payload now sm e

is_validated-consumable : (s : TicketState) → Machine.is_validated s ≡ true → consumable s ≡ 1
is_validated-consumable validated v = refl
is_validated-consumable issued v = absurd (ground arith)
is_validated-consumable consumed v = absurd (ground arith)
is_validated-consumable disputed v = absurd (ground arith)
is_validated-consumable pending v = absurd (ground arith)
is_validated-consumable (other s) v = absurd (ground arith)

-- A ticket that is consumed without an error could be consumed before, and cannot be again.
pub left_of-consume_ticket :
    (sm : StateMachine) (id by : String) (now : ℤ)
    → (consume_ticket sm id by now).1 ≡ none
    → (left_of id sm ≡ 1) × (left_of id (consume_ticket sm id by now).0 ≡ 0)
unfolding consume_ticket
left_of-consume_ticket sm id by now h = elim (Option-cases (lookup id sm.current_state)) [
  | inl e ↦ absurd (ground arith)
  | inr (t, e) ↦ elim (Bool-cases (Machine.is_validated t.state)) [
    | inr v ↦ absurd (ground arith)
    | inl v ↦ (
      ap left e ∙ is_validated-consumable t.state v,
      rw (e, consume_ticket, v)
          (left-record_transition sm id (record t { state = consumed; timestamp = now }) t.state by
              id
            ∙ (rw (beq_refl id) refl)),
    )
  ]
]
