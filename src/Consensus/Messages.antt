-- ===== src/Consensus/Messages.antt =====
-- pkg/consensus/messages.go. The messages of proto/messages.proto are records here; their fields
-- that the code neither sets nor reads are left out. `Marshal` and `Unmarshal` belong to the
-- protobuf library and are a parameter, `Protobuf`. An error's text is dropped: `none` is an error.
pub mod RoundTrip
use dtvn.Prelude.{ℕ, String, Bool, Option, none, some, ◌==◌, if◌then◌else◌, string_eq}
use mathlib.Core.Option
use dtvn.Prelude.Int.{ℤ, pos}
use dtvn.Prelude.Decimal.{format_int}
use dtvn.Consensus.Types.{Request, PrePrepareMsg, PrepareMsg, CommitMsg, ViewChangeMsg, Checkpoint}

-- The enum of operations; protobuf keeps a number that no name is given to.
pub data TicketOperation : Type 0 where
  validate consume dispute query : TicketOperation
  unnamed : ℤ → TicketOperation

pub record PbRequest : Type 0 where
  pub request_id : String
  pub ticket_id : String
  pub operation : TicketOperation
  pub ticket_data : String
  pub timestamp : ℤ
  pub client_signature : String

pub record PbPrePrepare : Type 0 where
  pub view : ℤ
  pub sequence : ℤ
  pub digest : String
  pub request : Option PbRequest

-- `Prepare` and `Commit` have the same fields.
pub record PbPhase : Type 0 where
  pub view : ℤ
  pub sequence : ℤ
  pub digest : String
  pub node_id : String

pub record PbViewChange : Type 0 where
  pub new_view : ℤ
  pub node_id : String

pub record PbCheckpoint : Type 0 where
  pub sequence : ℤ
  pub state_digest : String
  pub node_id : String
  pub timestamp : ℤ

pub record ValidatorMessage : Type 0 where
  pub kind : ℕ
  pub payload : String
  pub timestamp : ℤ
  pub sender_id : String

-- `Marshal` and `Unmarshal` at one message type.
pub record Codec (M : Type 0) : Type 0 where
  pub marshal : M → Option String
  pub unmarshal : String → Option M

pub record Protobuf : Type 0 where
  pub validator_message : Codec ValidatorMessage
  pub pre_prepare : Codec PbPrePrepare
  pub prepare : Codec PbPhase
  pub commit : Codec PbPhase
  pub request : Codec PbRequest
  pub view_change : Codec PbViewChange
  pub checkpoint : Codec PbCheckpoint

unfoldable pub operation_to_proto : String → TicketOperation
operation_to_proto op =
    if op == "CONSUME"
    then consume
    else if op == "DISPUTE"
    then dispute
    else if op == "QUERY"
    then query
    else validate

-- `TicketOperation.String()`
unfoldable pub operation_string : TicketOperation → String
operation_string validate = "VALIDATE"
operation_string consume = "CONSUME"
operation_string dispute = "DISPUTE"
operation_string query = "QUERY"
operation_string (unnamed n) = format_int n

-- the test `len(data) == 0` of most `Deserialize` functions
abbrev pub unless_empty {ℓ} : {A : Type ℓ} → String → Option A → Option A
unless_empty data_ result = if data_ == "" then none else result

-- the request of a PRE-PREPARE, which is sent without its `NodeID`
unfoldable pub proposed_request : Request → PbRequest
unfolding operation_to_proto
proposed_request r = record {
  request_id = r.request_id;
  ticket_id = r.ticket_id;
  operation = operation_to_proto r.operation;
  ticket_data = r.payload;
  timestamp = r.timestamp;
  client_signature = "";
}

-- the request that a `Deserialize` function reads out of a message
unfoldable pub received_request : PbRequest → Request
unfolding operation_string
received_request r = record {
  request_id = r.request_id;
  ticket_id = r.ticket_id;
  operation = operation_string r.operation;
  payload = r.ticket_data;
  timestamp = r.timestamp;
  node_id = r.client_signature;
}

module _ (pb : Protobuf) where
  unfoldable pub serialize_pbft_message : ℕ → String → String → Option String
  serialize_pbft_message kind payload sender_id =
      pb.validator_message.marshal
        (record { kind = kind; payload = payload; timestamp = pos 0; sender_id = sender_id })

  unfoldable pub deserialize_validator_message : String → Option ValidatorMessage
  deserialize_validator_message bytes = pb.validator_message.unmarshal bytes

  unfoldable pub serialize_pre_prepare : PrePrepareMsg → Option String
  unfolding proposed_request
  serialize_pre_prepare m = pb.pre_prepare.marshal (record {
    view = m.view;
    sequence = m.sequence;
    digest = m.digest;
    request = some (proposed_request m.request);
  })

  -- the part of `DeserializePrePrepare` behind `Unmarshal`
  abbrev received_pre_prepare : PbPrePrepare → Option PrePrepareMsg
  received_pre_prepare m = elim m.request [
    | none ↦ none
    | some r ↦ some (record {
      view = m.view;
      sequence = m.sequence;
      digest = m.digest;
      request = received_request r;
    })
  ]

  unfoldable pub deserialize_pre_prepare : String → Option PrePrepareMsg
  unfolding received_request
  deserialize_pre_prepare bytes =
      unless_empty bytes
        (elim (pb.pre_prepare.unmarshal bytes) [ none ↦ none | some m ↦ received_pre_prepare m ])

  unfoldable pub serialize_prepare : PrepareMsg → Option String
  serialize_prepare m =
      pb.prepare.marshal
        (record { view = m.view; sequence = m.sequence; digest = m.digest; node_id = m.node_id })

  unfoldable pub deserialize_prepare : String → Option PrepareMsg
  deserialize_prepare bytes = unless_empty bytes (
      Option.map
        (λ m. record {
          view = m.view;
          sequence = m.sequence;
          digest = m.digest;
          node_id = m.node_id;
        })
        (pb.prepare.unmarshal bytes))

  unfoldable pub serialize_commit : CommitMsg → Option String
  serialize_commit m =
      pb.commit.marshal
        (record { view = m.view; sequence = m.sequence; digest = m.digest; node_id = m.node_id })

  -- `DeserializeCommit` has no test for an empty payload.
  unfoldable pub deserialize_commit : String → Option CommitMsg
  deserialize_commit bytes =
      Option.map
        (λ m. record {
          view = m.view;
          sequence = m.sequence;
          digest = m.digest;
          node_id = m.node_id;
        })
        (pb.commit.unmarshal bytes)

  -- `SerializeRequest` carries the `NodeID` in the field of the client's signature.
  unfoldable pub serialize_request : Request → Option String
  unfolding operation_to_proto
  serialize_request r = pb.request.marshal (record {
    request_id = r.request_id;
    ticket_id = r.ticket_id;
    operation = operation_to_proto r.operation;
    ticket_data = r.payload;
    timestamp = r.timestamp;
    client_signature = r.node_id;
  })

  unfoldable pub deserialize_request : String → Option Request
  unfolding received_request
  deserialize_request bytes = Option.map received_request (pb.request.unmarshal bytes)

  unfoldable pub serialize_view_change : ViewChangeMsg → Option String
  serialize_view_change m =
      pb.view_change.marshal (record { new_view = m.new_view; node_id = m.node_id })

  unfoldable pub deserialize_view_change : String → Option ViewChangeMsg
  deserialize_view_change bytes = unless_empty bytes (
      Option.map (λ m. record { new_view = m.new_view; node_id = m.node_id })
        (pb.view_change.unmarshal bytes))

  unfoldable pub serialize_checkpoint : Checkpoint → Option String
  serialize_checkpoint m = pb.checkpoint.marshal (record {
    sequence = m.sequence;
    state_digest = m.state_digest;
    node_id = m.node_id;
    timestamp = m.timestamp;
  })

  unfoldable pub deserialize_checkpoint : String → Option Checkpoint
  deserialize_checkpoint bytes = unless_empty bytes (
      Option.map
        (λ m. record {
          sequence = m.sequence;
          state_digest = m.state_digest;
          node_id = m.node_id;
          timestamp = m.timestamp;
        })
        (pb.checkpoint.unmarshal bytes))
