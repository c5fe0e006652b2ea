-- ===== src/Validator/Sync.antt =====
-- cmd/validator/main.go: the updates that a node sends and takes in, the synchronization with a
-- peer, and `SeedTickets`. A message that a handler gets is taken as decoded.
pub mod Safe
use Prim.Native.String.{◌++◌ as str_append}
use dtvn.Prelude.{
  ℕ, zero, suc, ◌+◌, ◌-◌, ◌*◌, ◌/◌, ◌%◌, String, Bool, true, false, ◌||◌, not, Option, none, some,
  List, [], ◌∷◌, ◌++◌, if◌then◌else◌, ◌==◌, map, string_eq, ltb,
}
use dtvn.Prelude.Int.{ℤ, pos, ltb_ℤ}
use dtvn.Prelude.GoMap.{GoMap, lookup}
use dtvn.State.VectorClock
use dtvn.State.Machine.{
  StateMachine, Ticket, TicketState, StateUpdate, sync_ticket, has_ticket, get_all_tickets,
  get_ticket, seed_tickets,
}
use dtvn.State.Machine
use dtvn.State.Machine.Merge.{merge_state}
use dtvn.Storage.{Bolt, Json, TicketRecord}
use dtvn.Storage
use dtvn.Validator.{ValidatorNode, call, persist_ticket}
use dtvn.Validator.Convert.{
  PbState, PbTicket, proto_to_state, state_to_proto, state_string, update_all,
}

-- `StateUpdate` of proto/messages.proto
pub record PbStateUpdate : Type 0 where
  pub tickets : List PbTicket
  pub node_id : String

pub record StateSyncRequest : Type 0 where
  pub requester_id : String
  pub last_sequence : ℤ
  pub timestamp : ℤ

pub record StateSyncResponse : Type 0 where
  pub responder_id : String
  pub current_sequence : ℤ
  pub current_view : ℤ
  pub validated_tickets : List PbTicket
  pub consensus_log : List String
  pub timestamp : ℤ

-- the value of a map at a key, which is the zero of the enum where the key is missing
abbrev pub or_zero : Option PbState → PbState
or_zero none = PbState.issued
or_zero (some s) = s

-- the update that the publisher makes of a call of `publishUpdate`
unfoldable pub published_update : String → StateUpdate → PbStateUpdate
published_update node_id update = record {
  tickets =
      (record {
        ticket_id = update.ticket_id;
        state = or_zero (state_to_proto update.state);
        last_updated = update.timestamp;
        validator_id = update.validator_id;
        vector_clock = none;
        metadata = "";
      })
      ∷ [];
  node_id = node_id;
}

abbrev pub or_pending : Option PbState → PbState
or_pending none = PbState.pending
or_pending (some s) = s

-- the update that the replicator makes after a commit; `none` is its error
unfoldable pub replicated_update : String → StateMachine → String → Option PbStateUpdate
replicated_update node_id sm ticket_id = elim (get_ticket sm ticket_id) [
  | none ↦ none
  | some ticket ↦ some (record {
    tickets =
        (record {
          ticket_id = ticket.id;
          state = or_pending (state_to_proto ticket.state);
          last_updated = ticket.timestamp;
          validator_id = ticket.validator_id;
          vector_clock = some (VectorClock.get_all ticket.vector_clock);
          metadata = ticket.payload;
        })
        ∷ [];
    node_id = node_id;
  })
]

abbrev pub clocks_or_empty : Option (GoMap String ℕ) → GoMap String ℕ
clocks_or_empty none = []
clocks_or_empty (some clocks) = clocks

-- the ticket that the state handler makes of one on the wire
unfoldable pub received_ticket : String → PbTicket → Ticket
received_ticket node_id ts = record {
  id = ts.ticket_id;
  state = proto_to_state ts.state;
  payload = ts.metadata;
  validator_id = ts.validator_id;
  timestamp = ts.last_updated;
  vector_clock = update_all (VectorClock.new node_id) (clocks_or_empty ts.vector_clock);
  metadata = [];
}

-- the loop over the tickets that a peer holds, for the response: what consensus has not decided is
-- left out
abbrev pub is_undecided : TicketState → Bool
is_undecided TicketState.issued = true
is_undecided TicketState.pending = true
is_undecided _ = false

unfoldable pub synced_tickets : List Ticket → List PbTicket
synced_tickets [] = []
synced_tickets (t ∷ ts) =
    let rest = synced_tickets ts in
    if is_undecided t.state then rest else elim (state_to_proto t.state) [
      | none ↦ rest
      | some s ↦
          (record {
            ticket_id = t.id;
            state = s;
            last_updated = t.timestamp;
            validator_id = t.validator_id;
            vector_clock = none;
            metadata = t.payload;
          })
          ∷ rest
    ]

unfoldable pub synced_log : List Ticket → List String
synced_log [] = []
synced_log (t ∷ ts) =
    let rest = synced_log ts in if Machine.is_validated t.state then t.id ∷ rest else rest

-- the response of `handleStateSyncRequest`; the sequence number and the view are consensus's
unfoldable pub sync_response : String → StateMachine → ℤ → ℤ → ℤ → StateSyncResponse
unfolding synced_tickets synced_log
sync_response node_id sm sequence view now = record {
  responder_id = node_id;
  current_sequence = sequence;
  current_view = view;
  validated_tickets = synced_tickets (get_all_tickets sm);
  consensus_log = synced_log (get_all_tickets sm);
  timestamp = now;
}

-- the request of `requestStateSync`
abbrev pub sync_request : String → ℤ → ℤ → StateSyncRequest
sync_request peer_id sequence now = record {
  requester_id = peer_id;
  last_sequence = sequence;
  timestamp = now;
}

abbrev is_validated : PbState → Bool
is_validated PbState.validated = true
is_validated _ = false

module _ {Db Bytes : Type 0} (bolt : Bolt Db Bytes) (json : Json Bytes) where
  -- the loop that persists the tickets of an update
  unfoldable pub persist_all : ValidatorNode Db → List Ticket → ValidatorNode Db
  persist_all n [] = n
  persist_all n (t ∷ ts) = persist_all (persist_ticket bolt json n t.id) ts

  -- the state handler, which gets the updates of other nodes
  unfoldable pub handle_state_update : ValidatorNode Db → PbStateUpdate → ValidatorNode Db
  unfolding received_ticket persist_all
  handle_state_update n update =
      let tickets = map (received_ticket n.node_id) update.tickets in
      persist_all (record n { state_machine = merge_state n.state_machine tickets }) tickets

  -- `SyncTicket`, and `persistTicket` if it returned no error
  unfoldable pub sync_one : ValidatorNode Db → String → PbTicket → ℤ → ValidatorNode Db
  sync_one n responder_id t now =
      let (n', error) =
        call bolt json n t.ticket_id
          (λ sm. sync_ticket sm t.ticket_id responder_id t.metadata now) in
      elim error [ none ↦ persist_ticket bolt json n' t.ticket_id | some e ↦ n' ]

  -- the loop over the tickets of a response
  unfoldable pub sync_loop : ValidatorNode Db → String → List PbTicket → ℤ → ValidatorNode Db
  unfolding sync_one
  sync_loop n responder_id [] now = n
  sync_loop n responder_id (t ∷ ts) now =
      let known = has_ticket n.state_machine t.ticket_id in
      sync_loop (if known || not (is_validated t.state) then n else sync_one n responder_id t now)
        responder_id ts now

  unfoldable pub handle_state_sync_response :
      ValidatorNode Db → ℤ → StateSyncResponse → ℤ → ValidatorNode Db
  unfolding sync_loop
  handle_state_sync_response n sequence response now =
      if ltb_ℤ sequence response.current_sequence
      then sync_loop n response.responder_id response.validated_tickets now
      else n
