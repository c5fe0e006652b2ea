-- ===== src/State/Machine.antt =====
-- pkg/state/machine.go, the `StateMachine`. The mutex makes each method atomic. A method returns the
-- new machine and its error, `none` for nil. `currentState` holds pointers to tickets that only the
-- machine writes through, so a write through one is a write to the map; the handlers are taken not
-- to change the ticket that they are shown. `now` is the clock's `time.Now().Unix()`.
pub mod Merge
pub mod Ops
pub mod Lifecycle
pub mod Errors
pub mod Invariant
use dtvn.Prelude.{
  ℕ, suc, String, Bool, true, false, Option, none, some, List, [], ◌∷◌, ◌++◌, if◌then◌else◌, map,
  string_eq,
}
use dtvn.Prelude.Int.{ℤ}
use mathlib.Core.Option
use dtvn.Prelude.GoMap.{GoMap, lookup, insert, copy_loop}
use dtvn.Prelude.GoMap.Laws.{is_some}
use dtvn.State.VectorClock.{VectorClock}
use dtvn.State.VectorClock

-- A Go string type: `other` stands for the strings that no constant names.
pub data TicketState : Type 0 where
  issued pending validated consumed disputed : TicketState
  other : String → TicketState

-- `data` is a keyword: the field `Data` is `payload`.
pub record Ticket : Type 0 where
  pub id : String
  pub state : TicketState
  pub payload : String
  pub validator_id : String
  pub timestamp : ℤ
  pub vector_clock : VectorClock
  pub metadata : GoMap String String

-- `SyncTicket` records a transition with no clock.
pub record StateTransition : Type 0 where
  pub ticket_id : String
  pub from_state : TicketState
  pub to_state : TicketState
  pub validator_id : String
  pub timestamp : ℤ
  pub vector_clock : Option VectorClock

pub data Error : Type 0 where
  already_exists not_found already_validated already_consumed is_disputed : Error
  cannot_be_validated not_validated : TicketState → Error
  handler_error : String → Error

abbrev pub StateChangeHandler : Type 0
StateChangeHandler = Ticket → TicketState → TicketState → Option String

-- The arguments of a call of `publishUpdate`.
pub record StateUpdate : Type 0 where
  pub ticket_id : String
  pub state : TicketState
  pub validator_id : String
  pub timestamp : ℤ

-- `has_publisher` says whether `publishUpdate` is set; `published` lists its calls, newest first.
-- The error that it returns is printed and changes nothing.
pub record StateMachine : Type 0 where
  pub node_id : String
  pub current_state : GoMap String Ticket
  pub transitions : List StateTransition
  pub vector_clock : VectorClock
  pub handlers : List StateChangeHandler
  pub has_publisher : Bool
  pub published : List StateUpdate

unfoldable pub new : String → StateMachine
new node_id = record {
  node_id = node_id;
  current_state = [];
  transitions = [];
  vector_clock = VectorClock.new node_id;
  handlers = [];
  has_publisher = false;
  published = [];
}

unfoldable pub copy_metadata : GoMap String String → GoMap String String
unfolding copy_loop
copy_metadata = copy_loop []

abbrev pub Outcome : Type 0
Outcome = StateMachine × Option Error

-- the new ticket of `IssueTicket`
abbrev pub issued_ticket : StateMachine → String → String → ℤ → Ticket
issued_ticket sm ticket_id payload now = record {
  id = ticket_id;
  state = issued;
  payload = payload;
  validator_id = "";
  timestamp = now;
  vector_clock = VectorClock.copy sm.vector_clock;
  metadata = [];
}

unfoldable pub issue_ticket : StateMachine → String → String → ℤ → Outcome
issue_ticket sm ticket_id payload now = elim (lookup ticket_id sm.current_state) [
  | some t ↦ (sm, some already_exists)
  | none ↦
      let ticket = issued_ticket sm ticket_id payload now in
      (record sm { current_state = insert ticket_id ticket sm.current_state }, none)
]

-- the body of the loop of `SeedTickets`
unfoldable pub seed_ticket : VectorClock → GoMap String Ticket → Ticket → GoMap String Ticket
unfolding copy_metadata
seed_ticket clock tickets t = insert t.id seeded tickets
  where
    seeded : Ticket
    seeded = record t {
      state = issued;
      validator_id = "";
      vector_clock = VectorClock.copy clock;
      metadata = copy_metadata t.metadata;
    }

unfoldable pub seed_loop :
    VectorClock → GoMap String Ticket → ℕ → List Ticket → GoMap String Ticket × ℕ
unfolding seed_ticket
seed_loop clock tickets seeded [] = (tickets, seeded)
seed_loop clock tickets seeded (t ∷ ts) = elim (lookup t.id tickets) [
  | some _ ↦ seed_loop clock tickets seeded ts
  | none ↦ seed_loop clock (seed_ticket clock tickets t) (suc seeded) ts
]

unfoldable pub seed_tickets : StateMachine → List Ticket → StateMachine × ℕ
unfolding seed_loop
seed_tickets sm tickets =
    let (current_state, seeded) = seed_loop sm.vector_clock sm.current_state 0 tickets in
    (record sm { current_state = current_state }, seeded)

-- the loop over the handlers, which the first error ends
unfoldable pub call_handlers :
    List StateChangeHandler → Ticket → TicketState → TicketState → Option String
call_handlers [] t old new_state = none
call_handlers (h ∷ hs) t old new_state = elim (h t old new_state) [
  | some e ↦ some e
  | none ↦ call_handlers hs t old new_state
]

-- `sm.vectorClock.Increment()` and `ticket.VectorClock = sm.vectorClock.Copy()`
unfoldable pub stamp : StateMachine → Ticket → Ticket
stamp sm t = record t { vector_clock = VectorClock.copy (VectorClock.increment sm.vector_clock) }

-- The part that `ValidateTicket`, `ConsumeTicket` and `DisputeTicket` write out alike, from the
-- increment up to the calls of the handlers: `t` is the ticket with its new state, validator and
-- time, and `validator_id` the argument of the method.
unfoldable pub with_transition :
    StateMachine → String → Ticket → TicketState → String → StateMachine
unfolding stamp
with_transition sm ticket_id t old validator_id = record sm {
  vector_clock = VectorClock.increment sm.vector_clock;
  current_state = insert ticket_id (stamp sm t) sm.current_state;
  transitions = sm.transitions ++ transition ∷ [];
}
  where
    transition : StateTransition
    transition = record {
      ticket_id = ticket_id;
      from_state = old;
      to_state = t.state;
      validator_id = validator_id;
      timestamp = t.timestamp;
      vector_clock = some (VectorClock.copy (stamp sm t).vector_clock);
    }

abbrev publish : StateMachine → StateUpdate → StateMachine
publish sm update = if sm.has_publisher then record sm { published = update ∷ sm.published } else sm

-- The rest of the three methods: a handler's error ends it, with the transition already made.
unfoldable pub record_transition : StateMachine → String → Ticket → TicketState → String → Outcome
unfolding with_transition call_handlers
record_transition sm ticket_id t old validator_id =
    elim (call_handlers sm.handlers (stamp sm t) old t.state) [
      | some e ↦ (with_transition sm ticket_id t old validator_id, some (handler_error e))
      | none ↦ (publish (with_transition sm ticket_id t old validator_id) update, none)
    ]
  where
    update : StateUpdate
    update = record {
      ticket_id = ticket_id;
      state = t.state;
      validator_id = validator_id;
      timestamp = t.timestamp;
    }

-- the `switch` of `ValidateTicket`; `none` is the case that proceeds
abbrev pub validate_guard : TicketState → Option Error
validate_guard issued = none
validate_guard validated = some already_validated
validate_guard consumed = some already_consumed
validate_guard disputed = some is_disputed
validate_guard s = some (cannot_be_validated s)

unfoldable pub validate_ticket : StateMachine → String → String → ℤ → Outcome
validate_ticket sm ticket_id validator_id now = elim (lookup ticket_id sm.current_state) [
  | none ↦ (sm, some not_found)
  | some t ↦ elim (validate_guard t.state) [
    | some e ↦ (sm, some e)
    | none ↦
        record_transition sm ticket_id
          (record t { state = validated; validator_id = validator_id; timestamp = now }) t.state
          validator_id
  ]
]

-- `ticket.State != StateValidated`
abbrev pub is_validated : TicketState → Bool
is_validated validated = true
is_validated _ = false

unfoldable pub consume_ticket : StateMachine → String → String → ℤ → Outcome
consume_ticket sm ticket_id validator_id now = elim (lookup ticket_id sm.current_state) [
  | none ↦ (sm, some not_found)
  | some t ↦
      if is_validated t.state
      then record_transition sm ticket_id (record t { state = consumed; timestamp = now }) t.state
          validator_id
      else (sm, some (not_validated t.state))
]

unfoldable pub dispute_ticket : StateMachine → String → String → ℤ → Outcome
dispute_ticket sm ticket_id validator_id now = elim (lookup ticket_id sm.current_state) [
  | none ↦ (sm, some not_found)
  | some t ↦
      record_transition sm ticket_id (record t { state = disputed; timestamp = now }) t.state
        validator_id
]

-- the new ticket of `SyncTicket`
abbrev pub synced_ticket : StateMachine → String → String → String → ℤ → Ticket
synced_ticket sm ticket_id validator_id payload now = record {
  id = ticket_id;
  state = validated;
  payload = payload;
  validator_id = validator_id;
  timestamp = now;
  vector_clock = VectorClock.copy sm.vector_clock;
  metadata = insert "synced_from" validator_id (insert "synced" "true" []);
}

-- what `SyncTicket` writes, before it calls the handlers
unfoldable pub with_synced : StateMachine → String → String → String → ℤ → StateMachine
with_synced sm ticket_id validator_id payload now = record sm {
  current_state =
      insert ticket_id (synced_ticket sm ticket_id validator_id payload now) sm.current_state;
  transitions = sm.transitions ++ transition ∷ [];
}
  where
    transition : StateTransition
    transition = record {
      ticket_id = ticket_id;
      from_state = issued;
      to_state = validated;
      validator_id = validator_id;
      timestamp = now;
      vector_clock = none;
    }

-- `SyncTicket` makes a ticket in state VALIDATED; it calls the handlers and does not publish.
unfoldable pub sync_ticket : StateMachine → String → String → String → ℤ → Outcome
unfolding call_handlers
sync_ticket sm ticket_id validator_id payload now = elim (lookup ticket_id sm.current_state) [
  | some t ↦ (sm, some already_exists)
  | none ↦
      let ticket = synced_ticket sm ticket_id validator_id payload now in
      (
        with_synced sm ticket_id validator_id payload now,
        Option.map handler_error (call_handlers sm.handlers ticket issued validated),
      )
]

unfoldable pub register_handler : StateMachine → StateChangeHandler → StateMachine
register_handler sm handler = record sm { handlers = sm.handlers ++ handler ∷ [] }

unfoldable pub register_publisher : StateMachine → StateMachine
register_publisher sm = record sm { has_publisher = true }

-- the copies that `GetTicket` and `GetAllTickets` hand out, and that `MergeState` stores
unfoldable pub copy_ticket : Ticket → Ticket
unfolding copy_metadata
copy_ticket t = record t {
  vector_clock = VectorClock.copy t.vector_clock;
  metadata = copy_metadata t.metadata;
}

unfoldable pub get_ticket : StateMachine → String → Option Ticket
unfolding copy_ticket
get_ticket sm ticket_id = Option.map copy_ticket (lookup ticket_id sm.current_state)

unfoldable pub get_all_tickets : StateMachine → List Ticket
unfolding copy_ticket
get_all_tickets sm = map (λ e. copy_ticket e.1) sm.current_state

unfoldable pub get_transitions : StateMachine → List StateTransition
get_transitions sm = sm.transitions

unfoldable pub get_vector_clock : StateMachine → VectorClock
get_vector_clock sm = VectorClock.copy sm.vector_clock

unfoldable pub has_ticket : StateMachine → String → Bool
has_ticket sm ticket_id = is_some (lookup ticket_id sm.current_state)
