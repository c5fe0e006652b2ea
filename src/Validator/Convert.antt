-- ===== src/Validator/Convert.antt =====
-- cmd/validator/main.go: the forms of a ticket, in the machine, in the store and on the wire. The
-- messages of proto/messages.proto are records, with the fields that the code sets or reads.
use dtvn.Prelude.{String, Option, none, some, [], ◌∷◌, if◌then◌else◌, ◌==◌, ℕ, string_eq}
use dtvn.Prelude.Int.{ℤ}
use dtvn.Prelude.GoMap.{GoMap}
use dtvn.State.VectorClock.{VectorClock}
use dtvn.State.VectorClock
use dtvn.State.Machine.{Ticket, TicketState}
use dtvn.Storage.{TicketRecord}

-- `string(ticket.State)`
unfoldable pub state_string : TicketState → String
state_string TicketState.issued = "ISSUED"
state_string TicketState.pending = "PENDING"
state_string TicketState.validated = "VALIDATED"
state_string TicketState.consumed = "CONSUMED"
state_string TicketState.disputed = "DISPUTED"
state_string (TicketState.other s) = s

-- `state.TicketState(rec.State)`
unfoldable pub string_state : String → TicketState
string_state s =
    if s == "ISSUED"
    then TicketState.issued
    else if s == "PENDING"
    then TicketState.pending
    else if s == "VALIDATED"
    then TicketState.validated
    else if s == "CONSUMED"
    then TicketState.consumed
    else if s == "DISPUTED"
    then TicketState.disputed
    else TicketState.other s

-- the record that `persistTicket` and the machine's handler write
unfoldable pub record_of : Ticket → TicketRecord
unfolding state_string
record_of t = record {
  id = t.id;
  state = state_string t.state;
  payload = t.payload;
  validator_id = t.validator_id;
  timestamp = t.timestamp;
  vector_clock = VectorClock.get_all t.vector_clock;
  metadata = t.metadata;
}

-- `for k, v := range clocks { vc.Update(k, v) }`
unfoldable pub update_all : VectorClock → GoMap String ℕ → VectorClock
update_all vc [] = vc
update_all vc ((k, v) ∷ clocks) = update_all (VectorClock.update vc k v) clocks

-- the ticket that `loadTicketsFromStore` makes of a record
unfoldable pub ticket_of : String → TicketRecord → Ticket
unfolding string_state update_all
ticket_of node_id rec = record {
  id = rec.id;
  state = string_state rec.state;
  payload = rec.payload;
  validator_id = rec.validator_id;
  timestamp = rec.timestamp;
  vector_clock = update_all (VectorClock.new node_id) rec.vector_clock;
  metadata = rec.metadata;
}

-- The enum of states; protobuf keeps a number that no name is given to.
pub data PbState : Type 0 where
  issued pending validated consumed disputed : PbState
  unnamed : ℤ → PbState

pub record PbTicket : Type 0 where
  pub ticket_id : String
  pub state : PbState
  pub last_updated : ℤ
  pub validator_id : String
  pub vector_clock : Option (GoMap String ℕ)
  pub metadata : String

-- `protoToState`; a key that is missing gives the empty string
unfoldable pub proto_to_state : PbState → TicketState
proto_to_state PbState.issued = TicketState.issued
proto_to_state PbState.pending = TicketState.pending
proto_to_state PbState.validated = TicketState.validated
proto_to_state PbState.consumed = TicketState.consumed
proto_to_state PbState.disputed = TicketState.disputed
proto_to_state (PbState.unnamed k) = TicketState.other ""

-- `stateToProto`
unfoldable pub state_to_proto : TicketState → Option PbState
state_to_proto TicketState.issued = some PbState.issued
state_to_proto TicketState.pending = some PbState.pending
state_to_proto TicketState.validated = some PbState.validated
state_to_proto TicketState.consumed = some PbState.consumed
state_to_proto TicketState.disputed = some PbState.disputed
state_to_proto (TicketState.other s) = none
