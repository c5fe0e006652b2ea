-- ===== src/State/Machine/Lifecycle.antt =====
-- A ticket's way through its states: which transitions are recorded, and how often.
pub mod Left
use dtvn.Prelude.{
  ℕ, suc, ◌+◌, ◌≤◌, String, Bool, true, false, ◌&&◌, Option, none, some, List, [], ◌∷◌, ◌≡◌, inl,
  inr, Option-cases, if◌then◌else◌, ◌==◌, arith, string_eq, count_where, count_where-append, inl,
  inr, Option-cases,
}
use native.Mathlib.Nat.{le_trans, le_refl, add-le-add}
use dtvn.Prelude.Int.{ℤ}
use dtvn.Prelude.GoMap.{GoMap, lookup, insert}
use dtvn.Prelude.GoMap.Laws.{lookup-insert}
use dtvn.State.VectorClock.{VectorClock}
use dtvn.State.VectorClock
use dtvn.State.Machine.{
  StateMachine, Ticket, TicketState, issued, validated, consumed, disputed, pending, other, stamp,
  with_transition, with_synced, synced_ticket, seed_loop, seed_ticket, seed_tickets,
  record_transition, new,
}
use dtvn.State.Machine.Ops.{
  Op, issue, seed, validate, consume, dispute, sync, apply, run, validate_cases, consume_cases,
  dispute_cases, sync_cases, issue_cases,
}

abbrev is_consumed : TicketState → Bool
is_consumed consumed = true
is_consumed _ = false

-- How often the log says that a ticket was consumed.
abbrev pub consumptions : String → StateMachine → ℕ
consumptions id sm = count_where (λ t. t.ticket_id == id && is_consumed t.to_state) sm.transitions

-- How often the ticket may still be consumed.
abbrev pub consumable : TicketState → ℕ
consumable issued = 1
consumable validated = 1
consumable _ = 0

pub consumable_le : (s : TicketState) → consumable s ≤ 1
consumable_le issued = omega arith
consumable_le validated = omega arith
consumable_le consumed = omega arith
consumable_le disputed = omega arith
consumable_le pending = omega arith
consumable_le (other s) = omega arith

abbrev pub left : Option Ticket → ℕ
left none = 1
left (some t) = consumable t.state

abbrev pub budget : String → StateMachine → ℕ
budget id sm = consumptions id sm + left (lookup id sm.current_state)

module _ (sm : StateMachine) (j : String) (t : Ticket) (old : TicketState) (by : String) where
  -- Whether a handler fails and whether an update is published, the transition is made.
  pub current_state-record_transition :
      (record_transition sm j t old by).0.current_state ≡ insert j (stamp sm t) sm.current_state
  unfolding record_transition
  current_state-record_transition = ground arith

  pub transitions-record_transition :
      (record_transition sm j t old by).0.transitions ≡ (with_transition sm j t old by).transitions
  unfolding record_transition
  transitions-record_transition = ground arith

  pub vector_clock-record_transition :
      (record_transition sm j t old by).0.vector_clock ≡ VectorClock.increment sm.vector_clock
  unfolding record_transition
  vector_clock-record_transition = ground arith

  consumptions-record_transition :
      (id : String)
      → consumptions id (record_transition sm j t old by).0
        ≡ consumptions id sm + (if j == id && is_consumed t.state then 1 else 0)
  unfolding with_transition
  consumptions-record_transition id =
      rw transitions-record_transition (rw (count_where-append _ sm.transitions _) (ground arith))

  pub left-record_transition :
      (id : String)
      → left (lookup id (record_transition sm j t old by).0.current_state)
        ≡ (if j == id then consumable t.state else left (lookup id sm.current_state))
  unfolding stamp
  left-record_transition id =
      rw current_state-record_transition
        (ground (arith, lookup-insert j id (stamp sm t) sm.current_state))

  budget-record_transition :
      (id : String) (u : Ticket)
      → lookup j sm.current_state ≡ some u
      → (if is_consumed t.state then 1 else 0) + consumable t.state ≤ consumable u.state
      → budget id (record_transition sm j t old by).0 ≤ budget id sm
  budget-record_transition id u e h =
      rw (consumptions-record_transition id, left-record_transition id)
        (ground (arith, string_eq.beq_iff j id))

-- A ticket that is new to the node.
pub left-insert :
    (j id : String) (t : Ticket) (tickets : GoMap String Ticket)
    → lookup j tickets ≡ none
    → left (lookup id (insert j t tickets)) ≤ left (lookup id tickets)
left-insert j id t tickets e = ground (arith, lookup-insert j id t tickets, string_eq.beq_iff j id)

pub left-seed_loop :
    (id : String) (clock : VectorClock) (tickets : GoMap String Ticket) (n : ℕ) (ts : List Ticket)
    → left (lookup id (seed_loop clock tickets n ts).0) ≤ left (lookup id tickets)
unfolding seed_loop
left-seed_loop id clock tickets n [] = omega arith
left-seed_loop id clock tickets n (t ∷ ts) = elim (Option-cases (lookup t.id tickets)) [
  | inl e ↦
      rw (e, seed_loop)
        (le_trans (left-seed_loop id clock (seed_ticket clock tickets t) (suc n) ts)
          (left-insert t.id id _ tickets e))
  | inr (u, e) ↦ rw (e, seed_loop) (left-seed_loop id clock tickets n ts)
]

budget-with_synced :
    (id j by payload : String) (now : ℤ) (sm : StateMachine)
    → lookup j sm.current_state ≡ none
    → budget id (with_synced sm j by payload now) ≤ budget id sm
unfolding with_synced
budget-with_synced id j by payload now sm e =
    rw (count_where-append _ sm.transitions _)
      (ground (arith, left-insert j id (synced_ticket sm j by payload now) sm.current_state e))

-- No operation adds to what was consumed and may still be.
pub budget-apply :
    (id : String) (sm : StateMachine) (op : Op) → budget id (apply sm op).0 ≤ budget id sm
unfolding apply seed_tickets
budget-apply id sm op = go op
  where
    Kept : StateMachine → Type 0
    Kept sm' = budget id sm' ≤ budget id sm

    go : (op : Op) → Kept (apply sm op).0
    go (issue j payload now) =
        issue_cases Kept sm j "" now payload (le_refl _)
          λ e. add-le-add (le_refl (consumptions id sm)) (left-insert j id _ sm.current_state e)
    go (seed tickets) =
        add-le-add (le_refl (consumptions id sm))
          (left-seed_loop id sm.vector_clock sm.current_state 0 tickets)
    go (validate j by now) =
        validate_cases Kept sm j by now (le_refl _)
          λ u e was. budget-record_transition sm j _ u.state by id u e (ground arith)
    go (consume j by now) =
        consume_cases Kept sm j by now (le_refl _)
          λ u e was. budget-record_transition sm j _ u.state by id u e (ground arith)
    go (dispute j by now) =
        dispute_cases Kept sm j by now (le_refl _)
          λ u e. budget-record_transition sm j _ u.state by id u e (ground arith)
    go (sync j by payload now) =
        sync_cases Kept sm j by now payload (le_refl _)
          λ e. budget-with_synced id j by payload now sm e

budget-run :
    (id : String) (sm : StateMachine) (ops : List Op) → budget id (run sm ops) ≤ budget id sm
unfolding run
budget-run id sm [] = omega arith
budget-run id sm (op ∷ ops) =
    omega (arith, budget-apply id sm op, budget-run id (apply sm op).0 ops)

-- A ticket that was not consumed can be consumed once.
pub budget_unconsumed :
    (id : String) (sm : StateMachine) → consumptions id sm ≡ 0 → budget id sm ≤ 1
budget_unconsumed id sm e = go (lookup id sm.current_state)
  where
    go : (t : Option Ticket) → consumptions id sm + left t ≤ 1
    go none = omega (arith, e)
    go (some t) = omega (arith, e, consumable_le t.state)

pub consumptions-budget-le : (id : String) (sm : StateMachine) → consumptions id sm ≤ budget id sm
consumptions-budget-le id sm = omega arith

-- However the operations that a new node runs on its own tickets are ordered, whichever of them
-- fail, its log records at most one transition of a ticket to CONSUMED.
pub consumptions-run-new :
    (node id : String) (ops : List Op) → consumptions id (run (new node) ops) ≤ 1
unfolding new lookup
consumptions-run-new node id ops = omega (arith, budget-run id (new node) ops)
