-- ===== src/State/Machine/Ops.antt =====
-- The operations of one node on its own tickets, as data: every method of `StateMachine` that
-- changes a ticket, but `MergeState`.
use dtvn.Prelude.{String, none, some, List, [], ◌∷◌, ◌≡◌, inl, inr, Option-cases, string_eq, arith}
use dtvn.Prelude.GoMap.{lookup, insert}
use dtvn.Prelude.Int.{ℤ}
use dtvn.State.Machine.{
  StateMachine, Ticket, Outcome, issue_ticket, seed_tickets, validate_ticket, consume_ticket,
  dispute_ticket, sync_ticket, with_synced, issued_ticket, record_transition, issued, validated,
  consumed, disputed,
}

pub data Op : Type 0 where
  issue : String → String → ℤ → Op
  seed : List Ticket → Op
  validate consume dispute : String → String → ℤ → Op
  sync : String → String → String → ℤ → Op

unfoldable pub apply : StateMachine → Op → Outcome
apply sm (issue id payload now) = issue_ticket sm id payload now
apply sm (seed tickets) = ((seed_tickets sm tickets).0, none)
apply sm (validate id by now) = validate_ticket sm id by now
apply sm (consume id by now) = consume_ticket sm id by now
apply sm (dispute id by now) = dispute_ticket sm id by now
apply sm (sync id by payload now) = sync_ticket sm id by payload now

-- Any sequence of operations, whether they fail or not.
unfoldable pub run : StateMachine → List Op → StateMachine
unfolding apply
run sm [] = sm
run sm (op ∷ ops) = run (apply sm op).0 ops

-- What holds of a machine after an operation, from what holds if it is refused and if it is made.
module _ {ℓ} (P : StateMachine → Type ℓ) (sm : StateMachine) (id by : String) (now : ℤ) where
  pub validate_cases :
      P sm
      → ((t : Ticket)
          → lookup id sm.current_state ≡ some t
          → t.state ≡ issued
          → P
              (record_transition sm id
                (record t { state = validated; validator_id = by; timestamp = now })
                t.state
                by).0)
      → P (validate_ticket sm id by now).0
  unfolding validate_ticket
  validate_cases refused made = elim (Option-cases (lookup id sm.current_state)) [
    | inl e ↦ rw (e, validate_ticket) refused
    | inr (t, e) ↦ rw (e, validate_ticket) (ground (arith, made t e))
  ]

  pub consume_cases :
      P sm
      → ((t : Ticket)
          → lookup id sm.current_state ≡ some t
          → t.state ≡ validated
          → P
              (record_transition sm id
                (record t { state = consumed; timestamp = now })
                t.state
                by).0)
      → P (consume_ticket sm id by now).0
  unfolding consume_ticket
  consume_cases refused made = elim (Option-cases (lookup id sm.current_state)) [
    | inl e ↦ rw (e, consume_ticket) refused
    | inr (t, e) ↦ rw (e, consume_ticket) (ground (arith, made t e))
  ]

  pub dispute_cases :
      P sm
      → ((t : Ticket)
          → lookup id sm.current_state ≡ some t
          → P
              (record_transition sm id
                (record t { state = disputed; timestamp = now })
                t.state
                by).0)
      → P (dispute_ticket sm id by now).0
  unfolding dispute_ticket
  dispute_cases refused made = elim (Option-cases (lookup id sm.current_state)) [
    | inl e ↦ rw (e, dispute_ticket) refused
    | inr (t, e) ↦ rw (e, dispute_ticket) (made t e)
  ]

  pub sync_cases :
      (payload : String)
      → P sm
      → (lookup id sm.current_state ≡ none → P (with_synced sm id by payload now))
      → P (sync_ticket sm id by payload now).0
  unfolding sync_ticket
  sync_cases payload refused made = elim (Option-cases (lookup id sm.current_state)) [
    | inl e ↦ rw (e, sync_ticket) (made e)
    | inr (t, e) ↦ rw (e, sync_ticket) refused
  ]

  pub issue_cases :
      (payload : String)
      → P sm
      → (lookup id sm.current_state ≡ none
          → P (record sm {
            current_state = insert id (issued_ticket sm id payload now) sm.current_state;
          }))
      → P (issue_ticket sm id payload now).0
  unfolding issue_ticket
  issue_cases payload refused made = elim (Option-cases (lookup id sm.current_state)) [
    | inl e ↦ rw (e, issue_ticket) (made e)
    | inr (t, e) ↦ rw (e, issue_ticket) refused
  ]
