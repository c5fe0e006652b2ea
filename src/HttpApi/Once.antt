-- ===== src/HttpApi/Once.antt =====
-- The API over a validator node: how often a ticket is consumed.

use native.Mathlib.Nat.{le_refl}
use dtvn.Prelude.{
  ℕ, ◌+◌, ◌≤◌, String, Bool, true, false, ◌&&◌, ◌==◌, Option, none, some, List, [], ◌∷◌, inl, inr,
  not, if◌then◌else◌, ◌≡◌, refl, sym, ◌∙◌, arith, Bool-cases, string_eq,
}
use dtvn.Prelude.Int.{ℤ}
use dtvn.Prelude.GoMap.{lookup}
use dtvn.State.Machine.{
  StateMachine, Ticket, TicketState, issued, validated, consumed, disputed, pending, other,
  consume_ticket, dispute_ticket,
}
use dtvn.State.Machine
use dtvn.State.Machine.Ops
use dtvn.State.Machine.Ops.{Op, apply}
use dtvn.State.Machine.Lifecycle.{left, consumable}
use dtvn.State.Machine.Lifecycle.Left.{left_of, left_of-le, left_of-apply, left_of-consume_ticket}
use dtvn.Storage.{Bolt, Json}
use dtvn.Validator.{ValidatorNode, call, consume, dispute}
use dtvn.Validator.Seed.{seed_all, seeds_from, seed_count, seed}
use dtvn.Validator.Sync.Safe.{state_machine-call}
use dtvn.Validator.Sync.{PbStateUpdate, handle_state_update}
use dtvn.Validator.Replay.{hooked, error-call}
use dtvn.HttpApi.{
  ValidatorInterface, Server, Response, Event, done, ticket_event, answer, handle_consume_ticket,
  handle_dispute_ticket, handle_seed_tickets,
}

module _ {Db Bytes : Type 0} (bolt : Bolt Db Bytes) (json : Json Bytes) where
  -- What a node fills the interface with. `ValidateTicket`, which waits for consensus, is an
  -- argument.
  abbrev pub node_interface :
      (ValidatorNode Db → ℤ → String → String → ValidatorNode Db × Option Machine.Error)
      → ValidatorInterface (ValidatorNode Db) Ticket Machine.Error
  node_interface validate = record {
    validate_ticket = validate;
    consume_ticket = λ n now ticket_id. consume bolt json n ticket_id now;
    dispute_ticket = λ n now ticket_id. dispute bolt json n ticket_id now;
    seed_tickets = λ n now. let (n', count) = seed_all bolt json n now in (n', inr count);
    get_ticket = λ n ticket_id. Machine.get_ticket n.state_machine ticket_id;
  }

  -- A request; an operation of the machine, as consensus and a peer's response have the node do
  -- it; or an update of another node, whose tickets are merged.
  pub data Input : Type 0 where
    consume_request dispute_request : ℤ → Option String → Input
    seed_request : ℤ → Input
    elsewhere : String → Op → Input
    gossip : PbStateUpdate → Input

  module _
      (validate : ValidatorNode Db
        → ℤ
        → String
        → String
        → ValidatorNode Db × Option Machine.Error) where
    abbrev Api : Type 0
    Api = Server (ValidatorNode Db)

    abbrev pub replied :
        Api × Response Ticket Machine.Error → Api × Option (Response Ticket Machine.Error)
    replied (s, response) = (s, some response)

    abbrev pub step : Api → Input → Api × Option (Response Ticket Machine.Error)
    step s (consume_request now body) =
        replied (handle_consume_ticket (node_interface validate) s now body)
    step s (dispute_request now body) =
        replied (handle_dispute_ticket (node_interface validate) s now body)
    step s (seed_request now) = replied (handle_seed_tickets (node_interface validate) s now)
    step s (elsewhere id op) =
        (record s { validator = (call bolt json s.validator id (λ sm. apply sm op)).0 }, none)
    step s (gossip update) =
        (record s { validator = handle_state_update bolt json s.validator update }, none)

    abbrev is_done : Option (Response Ticket Machine.Error) → Bool
    is_done (some done) = true
    is_done _ = false

    -- whether a request is one to consume the ticket
    abbrev asks : String → Input → Bool
    asks id (consume_request now (some ticket_id)) = ticket_id == id
    asks id _ = false

    -- How many requests to consume the ticket are answered with success.
    abbrev pub consumed_times : String → Api → List Input → ℕ
    consumed_times id s [] = 0
    consumed_times id s (input ∷ inputs) =
        (if asks id input && is_done (step s input).1 then 1 else 0)
        + consumed_times id (step s input).0 inputs

    -- A ticket can be consumed once it is validated, and validated while it is issued. No other
    -- state leads there.
    abbrev is_final : TicketState → Bool
    is_final issued = false
    is_final validated = false
    is_final _ = true

    -- Whether the node has the ticket, in a state from which it cannot come to be consumed.
    abbrev is_spent : Option Ticket → Bool
    is_spent none = false
    is_spent (some t) = is_final t.state

    abbrev pub spent_at : String → Api → Bool
    spent_at id s = is_spent (lookup id s.validator.state_machine.current_state)

    abbrev is_gossip : Input → Bool
    is_gossip (gossip update) = true
    is_gossip _ = false

    -- How many updates of other nodes take the ticket back from such a state.
    abbrev pub reopened_times : String → Api → List Input → ℕ
    reopened_times id s [] = 0
    reopened_times id s (input ∷ inputs) =
        (if is_gossip input && (spent_at id s && not (spent_at id (step s input).0)) then 1 else 0)
        + reopened_times id (step s input).0 inputs

    abbrev left_at : String → Api → ℕ
    left_at id s = left_of id s.validator.state_machine

    -- What an answer costs: one, where it is the success of a request to consume the ticket.
    answer-cost :
        (id ticket_id : String) (s : Api) (r : ValidatorNode Db × Option Machine.Error)
        (event : Event)
        → left_of id r.0.state_machine ≤ left_at id s
        → ((ticket_id == id) ≡ true → r.1 ≡ none → 1 + left_of id r.0.state_machine ≤ left_at id s)
        → (if ticket_id == id && is_done (some (answer (node_interface validate) s r event).1)
              then 1
              else 0)
            + left_at id (answer (node_interface validate) s r event).0
          ≤ left_at id s
    answer-cost id ticket_id s (n, some e) event kept used = ground arith
    answer-cost id ticket_id s (n, none) event kept used = elim (Bool-cases (ticket_id == id)) [
      | inl same ↦ rw same (used same refl)
      | inr apart ↦ rw apart (omega (arith, kept))
    ]

    answer-kept :
        (id : String) (s : Api) (r : ValidatorNode Db × Option Machine.Error) (event : Event)
        → left_of id r.0.state_machine ≤ left_at id s
        → left_at id (answer (node_interface validate) s r event).0 ≤ left_at id s
    answer-kept id s (n, some e) event kept = kept
    answer-kept id s (n, none) event kept = kept

    left_at-call :
        (id ticket_id : String) (n : ValidatorNode Db) (op : Op)
        → left_of id (call bolt json n ticket_id (λ sm. apply sm op)).0.state_machine
          ≤ left_of id n.state_machine
    left_at-call id ticket_id n op =
        rw (state_machine-call bolt json n ticket_id (λ sm. apply sm op))
          (left_of-apply id (hooked bolt json n) op)

    -- A call of `consume` that succeeds uses up what is left of its ticket.
    left_of-consume :
        (id ticket_id : String) (now : ℤ) (n : ValidatorNode Db)
        → (ticket_id == id) ≡ true
        → (consume bolt json n ticket_id now).1 ≡ none
        → 1 + left_of id (consume bolt json n ticket_id now).0.state_machine
          ≤ left_of id n.state_machine
    unfolding consume
    left_of-consume id ticket_id now n same ok =
        let method = λ (sm : StateMachine). consume_ticket sm ticket_id n.node_id now in
        let (before, after) =
          left_of-consume_ticket (hooked bolt json n) ticket_id n.node_id now
            (sym (error-call bolt json n ticket_id method) ∙ ok) in
        rw
          (
            sym ((string_eq.beq_iff ticket_id id).0 same),
            state_machine-call bolt json n ticket_id method,
          )
          (omega (arith, before, after))

    consume-kept :
        (id ticket_id : String) (now : ℤ) (n : ValidatorNode Db)
        → left_of id (consume bolt json n ticket_id now).0.state_machine
          ≤ left_of id n.state_machine
    unfolding consume apply
    consume-kept id ticket_id now n =
        left_at-call id ticket_id n (Ops.consume ticket_id n.node_id now)

    dispute-kept :
        (id ticket_id : String) (now : ℤ) (n : ValidatorNode Db)
        → left_of id (dispute bolt json n ticket_id now).0.state_machine
          ≤ left_of id n.state_machine
    unfolding dispute apply
    dispute-kept id ticket_id now n =
        left_at-call id ticket_id n (Ops.dispute ticket_id n.node_id now)

    -- What a request to consume may lower.
    consumed-left :
        (id ticket_id : String) (now : ℤ) (s : Api)
        → (if ticket_id == id
                && is_done (
                    some (handle_consume_ticket (node_interface validate) s now (some ticket_id)).1)
              then 1
              else 0)
            + left_at id (handle_consume_ticket (node_interface validate) s now (some ticket_id)).0
          ≤ left_at id s
    unfolding handle_consume_ticket
    consumed-left id ticket_id now s = elim (Bool-cases (ticket_id == "")) [
      | inl e ↦ rw (handle_consume_ticket, e) (ground arith)
      | inr e ↦
          rw (handle_consume_ticket, e)
            (answer-cost id ticket_id s (consume bolt json s.validator ticket_id now)
              (ticket_event "ticket_consumed" ticket_id) (consume-kept id ticket_id now s.validator)
              (left_of-consume id ticket_id now s.validator))
    ]

    disputed-left :
        (id ticket_id : String) (now : ℤ) (s : Api)
        → left_at id (handle_dispute_ticket (node_interface validate) s now (some ticket_id)).0
          ≤ left_at id s
    unfolding handle_dispute_ticket
    disputed-left id ticket_id now s = elim (Bool-cases (ticket_id == "")) [
      | inl e ↦ rw (handle_dispute_ticket, e) (le_refl _)
      | inr e ↦
          rw (handle_dispute_ticket, e)
            (answer-kept id s (dispute bolt json s.validator ticket_id now)
              (ticket_event "ticket_disputed" ticket_id)
              (dispute-kept id ticket_id now s.validator))
    ]

    seed-kept :
        (id : String) (now : ℤ) (n : ValidatorNode Db)
        → left_of id (seed_all bolt json n now).0.state_machine ≤ left_of id n.state_machine
    unfolding seed_all seed apply
    seed-kept id now n = left_of-apply id n.state_machine (Ops.seed (seeds_from seed_count 1 now))

    left_lem : (t : Option Ticket) → left t ≡ (if is_spent t then 0 else 1)
    left_lem none = refl
    left_lem (some t) = go t.state
      where
        go : (state : TicketState) → consumable state ≡ (if is_final state then 0 else 1)
        go issued = refl
        go validated = refl
        go consumed = refl
        go disputed = refl
        go pending = refl
        go (other x) = refl

    -- Whatever a merge makes of a ticket.
    merged-left :
        (t u : Option Ticket) → left u ≤ left t + (if is_spent t && not (is_spent u) then 1 else 0)
    merged-left t u = ground (arith, left_lem t, left_lem u)

    step-left :
        (id : String) (s : Api) (input : Input)
        → (if asks id input && is_done (step s input).1 then 1 else 0) + left_at id (step s input).0
          ≤ left_at id s
            + (if is_gossip input && (spent_at id s && not (spent_at id (step s input).0))
                then 1
                else 0)
    unfolding handle_consume_ticket handle_dispute_ticket handle_seed_tickets
    step-left id s (elsewhere j op) = omega (arith, left_at-call id j s.validator op)
    step-left id s (gossip update) =
        let before = s.validator.state_machine in
        let after = (handle_state_update bolt json s.validator update).state_machine in
        omega (arith, merged-left (lookup id before.current_state) (lookup id after.current_state))
    step-left id s (consume_request now none) = omega arith
    step-left id s (consume_request now (some ticket_id)) =
        omega (arith, consumed-left id ticket_id now s)
    step-left id s (dispute_request now none) = omega arith
    step-left id s (dispute_request now (some ticket_id)) =
        omega (arith, disputed-left id ticket_id now s)
    step-left id s (seed_request now) = omega (arith, seed-kept id now s.validator)

    -- Over any sequence of requests to a node to consume, dispute and seed tickets, of operations
    -- on its own machine and of updates of other nodes, which it merges, the requests to consume a
    -- ticket that are answered with success are at most one more than the updates by which the
    -- ticket leaves a state from which it could not come to be consumed.
    pub consumed_times-le :
        (id : String) (s : Api) (inputs : List Input)
        → consumed_times id s inputs ≤ 1 + reopened_times id s inputs
    consumed_times-le id s inputs =
        omega (arith, go s inputs, left_of-le id s.validator.state_machine)
      where
        go :
            (s : Api) (inputs : List Input)
            → consumed_times id s inputs ≤ left_at id s + reopened_times id s inputs
        go s [] = omega arith
        go s (input ∷ inputs) = omega (arith, step-left id s input, go (step s input).0 inputs)
