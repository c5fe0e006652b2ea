-- ===== src/Validator/Replay.antt =====
-- The consensus handler on a request that it gets a second time.
pub mod Once
use dtvn.Prelude.{
  ◌↔◌, ◌≢◌, String, Bool, true, Option, none, some, if◌then◌else◌, ◌==◌, ◌≡◌, refl, ap, sym, ◌∙◌,
  inl, inr, string_eq, arith, Bool-cases, Option-cases,
}
use mathlib.Core.Path.{subst}
use dtvn.Prelude.Int.{ℤ}
use dtvn.Prelude.GoMap.{lookup}
use dtvn.Prelude.GoMap.Laws.{lookup-insert_self}
use dtvn.State.Machine.{
  StateMachine, Ticket, TicketState, issued, pending, validated, consumed, disputed, other, stamp,
  record_transition, validate_ticket, validate_guard, consume_ticket, not_validated,
}
use dtvn.State.Machine
use dtvn.State.Machine.Lifecycle.{current_state-record_transition}
use dtvn.Consensus.Types.{Request}
use dtvn.Storage.{Bolt, Json}
use dtvn.Validator.{
  ValidatorNode, call, apply_request, after_request, consensus_handler, is_idempotent,
  machine_handlers,
}
use dtvn.Validator.Sync.Safe.{state_machine-call, state_machine-persist_ticket}

-- The outcomes of the machine that the handler takes as success.
abbrev passes : Option Machine.Error → Bool
passes none = true
passes (some e) = is_idempotent e

-- The machine has the ticket in a state.
abbrev pub Holds : (TicketState → Type 0) → String → StateMachine → Type 0
Holds P id sm = (t : Ticket) × (lookup id sm.current_state ≡ some t) × P t.state

-- Validated, or consumed since.
abbrev IsSettled : TicketState → Type 0
IsSettled validated = Unit
IsSettled consumed = Unit
IsSettled _ = ⊥

module _ (sm : StateMachine) (id by : String) (now : ℤ) where
  Holds-record_transition :
      (P : TicketState → Type 0) (t : Ticket) (old : TicketState)
      → P t.state
      → Holds P id (record_transition sm id t old by).0
  unfolding stamp
  Holds-record_transition P t old p = (
    stamp sm t,
    ap (lookup id) (current_state-record_transition sm id t old by)
        ∙ lookup-insert_self id (stamp sm t) sm.current_state,
    p,
  )

  -- What `ValidateTicket` does after its test of the ticket's state.
  abbrev guarded : Ticket → Option Machine.Error → Machine.Outcome
  guarded t none =
      record_transition sm id (record t { state = validated; validator_id = by; timestamp = now })
        t.state by
  guarded t (some e) = (sm, some e)

  validate_ticket_found :
      (t : Ticket)
      → lookup id sm.current_state ≡ some t
      → validate_ticket sm id by now ≡ guarded t (validate_guard t.state)
  unfolding validate_ticket
  validate_ticket_found t e = elim (Option-cases (validate_guard t.state)) [
    | inl g ↦ rw (e, validate_ticket, g) refl
    | inr (x, g) ↦ rw (e, validate_ticket, g) refl
  ]

  guarded-passes :
      (t : Ticket) (s : TicketState)
      → t.state ≡ s
      → lookup id sm.current_state ≡ some t
      → passes (guarded t (validate_guard s)).1 ≡ true
      → Holds IsSettled id (guarded t (validate_guard s)).0
  guarded-passes t issued q e h =
      Holds-record_transition IsSettled
        (record t { state = validated; validator_id = by; timestamp = now }) t.state tt
  guarded-passes t validated q e h = (t, e, subst IsSettled (sym q) tt)
  guarded-passes t consumed q e h = (t, e, subst IsSettled (sym q) tt)
  guarded-passes t disputed q e h = absurd (ground arith)
  guarded-passes t pending q e h = absurd (ground arith)
  guarded-passes t (other s) q e h = absurd (ground arith)

  validate_ticket-passes :
      passes (validate_ticket sm id by now).1 ≡ true
      → Holds IsSettled id (validate_ticket sm id by now).0
  unfolding validate_ticket
  validate_ticket-passes h = elim (Option-cases (lookup id sm.current_state)) [
    | inl e ↦ absurd (ground arith)
    | inr (t, e) ↦
        let found = validate_ticket_found t e in
        subst (λ (o : Machine.Outcome). Holds IsSettled id o.0) (sym found)
          (guarded-passes t t.state refl e
            (ap (λ (o : Machine.Outcome). passes o.1) (sym found) ∙ h))
  ]

  guard_settled :
      (s : TicketState)
      → IsSettled s
      → (x : Machine.Error) × (validate_guard s ≡ some x) × (is_idempotent x ≡ true)
  guard_settled validated h = (Machine.Error.already_validated, refl, refl)
  guard_settled consumed h = (Machine.Error.already_consumed, refl, refl)
  guard_settled issued h = absurd h
  guard_settled pending h = absurd h
  guard_settled disputed h = absurd h
  guard_settled (other s) h = absurd h

  validate_ticket_settled :
      Holds IsSettled id sm
      → (x : Machine.Error) × (validate_ticket sm id by now ≡ (sm, some x))
        × (is_idempotent x ≡ true)
  validate_ticket_settled (t, e, settled) =
      let (x, g, i) = guard_settled t.state settled in
      (x, validate_ticket_found t e ∙ ap (guarded t) g, i)

  consume_ticket_consumed :
      Holds (λ s. s ≡ consumed) id sm
      → consume_ticket sm id by now ≡ (sm, some (not_validated consumed))
  unfolding consume_ticket
  consume_ticket_consumed (t, e, c) = rw (e, consume_ticket, c) refl

  consume_ticket-passes :
      passes (consume_ticket sm id by now).1 ≡ true
      → Holds (λ s. s ≡ consumed) id (consume_ticket sm id by now).0
  unfolding consume_ticket
  consume_ticket-passes h = elim (Option-cases (lookup id sm.current_state)) [
    | inl e ↦ absurd (ground arith)
    | inr (t, e) ↦ elim (Bool-cases (Machine.is_validated t.state)) [
      | inr v ↦ absurd (ground arith)
      | inl v ↦
          rw (e, consume_ticket, v)
            (Holds-record_transition (λ s. s ≡ consumed)
              (record t { state = consumed; timestamp = now }) t.state refl)
    ]
  ]

module _ {Db Bytes : Type 0} (bolt : Bolt Db Bytes) (json : Json Bytes) where
  -- the validator of a request
  abbrev by_of : ValidatorNode Db → Request → String
  by_of n req = if req.node_id == "" then n.node_id else req.node_id

  -- the machine that the methods are called on
  abbrev pub hooked : ValidatorNode Db → StateMachine
  hooked n = record n.state_machine { handlers = machine_handlers bolt json n.storage }

  apply_validate :
      (n : ValidatorNode Db) (req : Request) (now : ℤ)
      → req.operation ≡ "VALIDATE"
      → apply_request bolt json n req now
        ≡ call bolt json n req.ticket_id (λ sm. validate_ticket sm req.ticket_id (by_of n req) now)
  unfolding apply_request
  apply_validate n req now op = rw (apply_request, op) refl

  apply_consume :
      (n : ValidatorNode Db) (req : Request) (now : ℤ)
      → req.operation ≡ "CONSUME"
      → apply_request bolt json n req now
        ≡ call bolt json n req.ticket_id (λ sm. consume_ticket sm req.ticket_id (by_of n req) now)
  unfolding apply_request
  apply_consume n req now op = rw (apply_request, op) refl

  pub error-call :
      (n : ValidatorNode Db) (id : String) (method : StateMachine → Machine.Outcome)
      → (call bolt json n id method).1 ≡ (method (hooked n)).1
  unfolding call
  error-call n id method = refl

  after_request_error :
      (id : String) (n : ValidatorNode Db) (e : Option Machine.Error)
      → ((after_request bolt json id (n, e)).1 ≡ none) ↔ (passes e ≡ true)
  unfolding after_request
  after_request_error id n none = ground arith
  after_request_error id n (some x) = ground arith

  after_request_machine :
      (id : String) (n : ValidatorNode Db) (e : Option Machine.Error)
      → (after_request bolt json id (n, e)).0.state_machine ≡ n.state_machine
  unfolding after_request
  after_request_machine id n none = state_machine-persist_ticket bolt json n id
  after_request_machine id n (some x) = elim (Bool-cases (is_idempotent x)) [
    | inl i ↦ rw (after_request, i) (state_machine-persist_ticket bolt json n id)
    | inr i ↦ rw (after_request, i) refl
  ]

  -- The handler is a method of the machine: its machine, and whether it returns an error.
  handler_method :
      (n : ValidatorNode Db) (req : Request) (now : ℤ) (method : StateMachine → Machine.Outcome)
      → apply_request bolt json n req now ≡ call bolt json n req.ticket_id method
      → ((consensus_handler bolt json n req now).0.state_machine ≡ (method (hooked n)).0)
        × (((consensus_handler bolt json n req now).1 ≡ none)
            ↔ (passes (method (hooked n)).1 ≡ true))
  unfolding consensus_handler
  handler_method n req now method e =
      let called = call bolt json n req.ticket_id method in
      (
        ap
              (λ (o : ValidatorNode Db × Option Machine.Error).
                (after_request bolt json req.ticket_id o).0.state_machine)
              e
            ∙ after_request_machine req.ticket_id called.0 called.1
            ∙ state_machine-call bolt json n req.ticket_id method,
        subst
            (λ (o : ValidatorNode Db × Option Machine.Error).
              ((after_request bolt json req.ticket_id o).1 ≡ none)
              ↔ (passes (method (hooked n)).1 ≡ true))
            (sym e)
            (subst
              (λ x. ((after_request bolt json req.ticket_id called).1 ≡ none) ↔ (passes x ≡ true))
              (error-call n req.ticket_id method)
              (after_request_error req.ticket_id called.0 called.1)),
      )

  -- After a VALIDATE that the consensus handler took without an error, another VALIDATE of that
  -- ticket is taken without an error too, and changes nothing of the machine but which handlers
  -- are set.
  consensus_handler_again :
      (n : ValidatorNode Db) (req again : Request) (now later : ℤ)
      → req.operation ≡ "VALIDATE"
      → again.operation ≡ "VALIDATE"
      → again.ticket_id ≡ req.ticket_id
      → (consensus_handler bolt json n req now).1 ≡ none
      → let n' = (consensus_handler bolt json n req now).0 in
        ((consensus_handler bolt json n' again later).1 ≡ none)
        × ((consensus_handler bolt json n' again later).0.state_machine ≡ hooked n')
  consensus_handler_again n req again now later op op' same h =
      let n' = (consensus_handler bolt json n req now).0 in
      let (machine, passed) =
        handler_method n req now (λ sm. validate_ticket sm req.ticket_id (by_of n req) now)
          (apply_validate n req now op) in
      let (machine', passed') =
        handler_method n' again later
          (λ sm. validate_ticket sm again.ticket_id (by_of n' again) later)
          (apply_validate n' again later op') in
      let settled : Holds IsSettled again.ticket_id n'.state_machine =
        subst (λ id. Holds IsSettled id n'.state_machine) (sym same)
          (subst (Holds IsSettled req.ticket_id) (sym machine)
            (validate_ticket-passes (hooked n) req.ticket_id (by_of n req) now (passed.0 h))) in
      let (x, refused, i) =
        validate_ticket_settled (hooked n') again.ticket_id (by_of n' again) later settled in
      (
        passed'.1 (ap (λ (o : Machine.Outcome). passes o.1) refused ∙ i),
        machine' ∙ ap (λ (o : Machine.Outcome). o.0) refused,
      )

  -- After a CONSUME that the consensus handler took without an error, the same request fails.
  consensus_handler_consume_again :
      (n : ValidatorNode Db) (req : Request) (now later : ℤ)
      → req.operation ≡ "CONSUME"
      → (consensus_handler bolt json n req now).1 ≡ none
      → (consensus_handler bolt json (consensus_handler bolt json n req now).0 req later).1 ≢ none
  consensus_handler_consume_again n req now later op h fine =
      let n' = (consensus_handler bolt json n req now).0 in
      let (machine, passed) =
        handler_method n req now (λ sm. consume_ticket sm req.ticket_id (by_of n req) now)
          (apply_consume n req now op) in
      let (machine', passed') =
        handler_method n' req later (λ sm. consume_ticket sm req.ticket_id (by_of n' req) later)
          (apply_consume n' req later op) in
      let used : Holds (λ s. s ≡ consumed) req.ticket_id n'.state_machine =
        subst (Holds (λ s. s ≡ consumed) req.ticket_id) (sym machine)
          (consume_ticket-passes (hooked n) req.ticket_id (by_of n req) now (passed.0 h)) in
      let refused = consume_ticket_consumed (hooked n') req.ticket_id (by_of n' req) later used in
      cc (sym (ap (λ (o : Machine.Outcome). passes o.1) refused) ∙ passed'.0 fine)
