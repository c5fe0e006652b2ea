-- ===== src/Validator.antt =====
-- cmd/validator/main.go, a validator node: the state machine, the notifier and the ticket store put
-- together. `bolt` and `json` are the store's parameters. What the node sends is returned as a
-- message; marshalling it and the network are left out. What the node prints is left out.
pub mod Convert
pub mod Sync
pub mod Restart
pub mod Seed
pub mod Api
pub mod Replay
use dtvn.Prelude.{
  ℕ, String, Bool, true, false, Option, none, some, List, [], ◌∷◌, if◌then◌else◌, ◌==◌, map,
  string_eq,
}
use dtvn.Prelude.Int.{ℤ}
use dtvn.Prelude.GoMap.{GoMap, lookup}
use dtvn.State.VectorClock.{VectorClock}
use dtvn.State.VectorClock
use dtvn.State.Machine.{
  StateMachine, StateChangeHandler, Ticket, TicketState, handler_error, validate_ticket,
  consume_ticket, dispute_ticket,
}
use dtvn.State.Machine
use dtvn.State.Machine.Merge.{merge_state}
use dtvn.State.Notifier.{StateNotifier}
use dtvn.State.Notifier
use dtvn.Consensus.Types.{Request}
use dtvn.Storage.{Bolt, Json, TicketRecord, ok, err}
use dtvn.Storage
use dtvn.Validator.Convert.{record_of, ticket_of}

pub record ValidatorNode (Db : Type 0) : Type 0 where
  pub node_id : String
  pub state_machine : StateMachine
  pub state_notifier : StateNotifier
  pub storage : Db

-- what a storage error says
abbrev error_text : Option Storage.Error → Option String
error_text none = none
error_text (some Storage.Error.bucket_not_found) = some "bucket tickets not found"
error_text (some Storage.Error.marshal_failed) = some "failed to marshal ticket"
error_text (some _) = some "database"

-- Whether a method of the machine came as far as the loop over its handlers.
abbrev called_handlers : Option Machine.Error → Bool
called_handlers none = true
called_handlers (some (handler_error e)) = true
called_handlers (some _) = false

-- The errors that the consensus handler passes over: `ValidateTicket` says "already validated" and
-- "already consumed", and no method says "already disputed". The tests on the text are taken not to
-- be met by a ticket's name or by a handler's error.
abbrev pub is_idempotent : Machine.Error → Bool
is_idempotent Machine.Error.already_validated = true
is_idempotent Machine.Error.already_consumed = true
is_idempotent _ = false

module _ {Db Bytes : Type 0} (bolt : Bolt Db Bytes) (json : Json Bytes) where
  abbrev Node : Type 0
  Node = ValidatorNode Db

  -- the two handlers of the machine: the notifier's never fails, the other stores the ticket
  abbrev machine_handlers : Db → List StateChangeHandler
  machine_handlers db =
      (λ ticket old_state new_state. none)
      ∷ (λ ticket old_state new_state.
          error_text (Storage.save_ticket bolt json db (record_of ticket)).1)
      ∷ []

  -- what the two handlers do, the ticket being the one that the machine holds by then
  unfoldable pub after_handlers : Node → Option Ticket → Node
  after_handlers n none = n
  after_handlers n (some ticket) = record n {
    state_notifier = Notifier.notify n.state_notifier ticket.id ticket.state;
    storage = (Storage.save_ticket bolt json n.storage (record_of ticket)).0;
  }

  -- a call of a method of the machine, for a ticket
  unfoldable pub call :
      Node → String → (StateMachine → Machine.Outcome) → Node × Option Machine.Error
  unfolding after_handlers
  call n ticket_id method =
      let (machine, error) =
        method (record n.state_machine { handlers = machine_handlers n.storage }) in
      let moved = record n { state_machine = machine } in
      (
        if called_handlers error
            then after_handlers moved (lookup ticket_id machine.current_state)
            else moved,
        error,
      )

  unfoldable pub persist_ticket : Node → String → Node
  persist_ticket n ticket_id = elim (Machine.get_ticket n.state_machine ticket_id) [
    | none ↦ n
    | some ticket ↦ record n {
      storage = (Storage.save_ticket bolt json n.storage (record_of ticket)).0;
    }
  ]

  -- the `switch` of the consensus handler; an operation of another name does nothing
  unfoldable pub apply_request : Node → Request → ℤ → Node × Option Machine.Error
  unfolding call
  apply_request n req now =
      let validator_id = if req.node_id == "" then n.node_id else req.node_id in
      if req.operation == "VALIDATE"
      then call n req.ticket_id (λ sm. validate_ticket sm req.ticket_id validator_id now)
      else if req.operation == "CONSUME"
      then call n req.ticket_id (λ sm. consume_ticket sm req.ticket_id validator_id now)
      else if req.operation == "DISPUTE"
      then call n req.ticket_id (λ sm. dispute_ticket sm req.ticket_id validator_id now)
      else (n, none)

  unfoldable pub after_request : String → Node × Option Machine.Error → Node × Option Machine.Error
  unfolding persist_ticket
  after_request ticket_id (n, none) = (persist_ticket n ticket_id, none)
  after_request ticket_id (n, some e) =
      if is_idempotent e then (persist_ticket n ticket_id, none) else (n, some e)

  -- the handler that the node registers with consensus
  unfoldable pub consensus_handler : Node → Request → ℤ → Node × Option Machine.Error
  unfolding apply_request after_request
  consensus_handler n req now = after_request req.ticket_id (apply_request n req now)

  unfoldable pub load_tickets_from_store : Node → Node
  load_tickets_from_store n = elim (Storage.get_all_tickets bolt json n.storage) [
    | err e ↦ n
    | ok records ↦ record n {
      state_machine = merge_state n.state_machine (map (ticket_of n.node_id) records);
    }
  ]

  -- the two calls of the API that do not go through consensus
  unfoldable pub consume : Node → String → ℤ → Node × Option Machine.Error
  unfolding call
  consume n ticket_id now = call n ticket_id (λ sm. consume_ticket sm ticket_id n.node_id now)

  unfoldable pub dispute : Node → String → ℤ → Node × Option Machine.Error
  unfolding call
  dispute n ticket_id now = call n ticket_id (λ sm. dispute_ticket sm ticket_id n.node_id now)
