-- ===== src/Examples/Wire.antt =====
-- A protobuf library that knows one message of each type, for the examples.
use dtvn.Prelude.{
  String, Bool, true, false, ◌&&◌, Option, none, some, ◌==◌, ◌≡◌, refl, if◌then◌else◌, string_eq,
  arith, nat_eq,
}
use dtvn.Prelude.Int.{pos, int_eq}
use dtvn.Consensus.Messages.{
  Codec, Protobuf, PbRequest, PbPrePrepare, PbPhase, PbViewChange, PbCheckpoint, ValidatorMessage,
  TicketOperation, validate, consume, dispute, query, unnamed,
}
use dtvn.Consensus.Messages.RoundTrip.{IsFaithful}

-- The codec of a type of which one message is known.
abbrev pub known : {M : Type 0} → M → (M → Bool) → Codec M
known m0 is_m0 = record {
  marshal = λ m. if is_m0 m then some "bytes" else none;
  unmarshal = λ bytes. some m0;
}

pub known-IsFaithful :
    {M : Type 0} (m0 : M) (is_m0 : M → Bool)
    → ((m : M) → is_m0 m ≡ true → some m0 ≡ some m)
    → IsFaithful (known m0 is_m0)
known-IsFaithful m0 is_m0 h m bytes e = h m (ground arith)

abbrev pub phase : PbPhase
phase = record { view = pos 0; sequence = pos 7; digest = "digest"; node_id = "node1" }

abbrev is_phase : PbPhase → Bool
is_phase m = m.view == pos 0 && m.sequence == pos 7 && m.digest == "digest" && m.node_id == "node1"

is_phase-eq : (m : PbPhase) → is_phase m ≡ true → some phase ≡ some m
is_phase-eq m h = ground (
  arith,
  int_eq.beq_iff m.view (pos 0),
  int_eq.beq_iff m.sequence (pos 7),
  string_eq.beq_iff m.digest "digest",
  string_eq.beq_iff m.node_id "node1",
)

pub phase-IsFaithful : IsFaithful (known phase is_phase)
phase-IsFaithful = known-IsFaithful phase is_phase is_phase-eq

abbrev pub request : PbRequest
request = record {
  request_id = "r1";
  ticket_id = "t1";
  operation = validate;
  ticket_data = "data";
  timestamp = pos 5;
  client_signature = "node2";
}

abbrev is_validate : TicketOperation → Bool
is_validate validate = true
is_validate _ = false

is_validate-eq : (op : TicketOperation) → is_validate op ≡ true → validate ≡ op
is_validate-eq validate h = refl
is_validate-eq consume h = cc
is_validate-eq dispute h = cc
is_validate-eq query h = cc
is_validate-eq (unnamed n) h = cc

-- A request with a given signature.
abbrev is_request : String → PbRequest → Bool
is_request signature m =
    m.request_id == "r1"
    && m.ticket_id == "t1"
    && is_validate m.operation
    && m.ticket_data == "data"
    && m.timestamp == pos 5
    && m.client_signature == signature

is_request-eq :
    (signature : String) (m : PbRequest)
    → is_request signature m ≡ true
    → some (record request { client_signature = signature }) ≡ some m
is_request-eq signature m h = ground (
  arith,
  string_eq.beq_iff m.request_id "r1",
  string_eq.beq_iff m.ticket_id "t1",
  is_validate-eq m.operation,
  string_eq.beq_iff m.ticket_data "data",
  int_eq.beq_iff m.timestamp (pos 5),
  string_eq.beq_iff m.client_signature signature,
)

pub request-IsFaithful : IsFaithful (known request (is_request "node2"))
request-IsFaithful = known-IsFaithful request (is_request "node2") (is_request-eq "node2")

abbrev pub pre_prepare : PbPrePrepare
pre_prepare = record {
  view = pos 0;
  sequence = pos 1;
  digest = "digest";
  request = some (record request { client_signature = "" });
}

abbrev is_unsigned : Option PbRequest → Bool
is_unsigned none = false
is_unsigned (some m) = is_request "" m

is_unsigned-eq : (m : Option PbRequest) → is_unsigned m ≡ true → pre_prepare.request ≡ m
is_unsigned-eq none h = cc
is_unsigned-eq (some m) h = is_request-eq "" m h

abbrev is_pre_prepare : PbPrePrepare → Bool
is_pre_prepare m =
    m.view == pos 0 && m.sequence == pos 1 && m.digest == "digest" && is_unsigned m.request

is_pre_prepare-eq : (m : PbPrePrepare) → is_pre_prepare m ≡ true → some pre_prepare ≡ some m
is_pre_prepare-eq m h = ground (
  arith,
  int_eq.beq_iff m.view (pos 0),
  int_eq.beq_iff m.sequence (pos 1),
  string_eq.beq_iff m.digest "digest",
  is_unsigned-eq m.request,
)

pub pre_prepare-IsFaithful : IsFaithful (known pre_prepare is_pre_prepare)
pre_prepare-IsFaithful = known-IsFaithful pre_prepare is_pre_prepare is_pre_prepare-eq

abbrev pub view_change : PbViewChange
view_change = record { new_view = pos 1; node_id = "node1" }

abbrev is_view_change : PbViewChange → Bool
is_view_change m = m.new_view == pos 1 && m.node_id == "node1"

is_view_change-eq : (m : PbViewChange) → is_view_change m ≡ true → some view_change ≡ some m
is_view_change-eq m h =
    ground (arith, int_eq.beq_iff m.new_view (pos 1), string_eq.beq_iff m.node_id "node1")

pub view_change-IsFaithful : IsFaithful (known view_change is_view_change)
view_change-IsFaithful = known-IsFaithful view_change is_view_change is_view_change-eq

abbrev pub checkpoint : PbCheckpoint
checkpoint = record {
  sequence = pos 10;
  state_digest = "digest";
  node_id = "node1";
  timestamp = pos 3;
}

abbrev is_checkpoint : PbCheckpoint → Bool
is_checkpoint m =
    m.sequence == pos 10
    && m.state_digest == "digest"
    && m.node_id == "node1"
    && m.timestamp == pos 3

is_checkpoint-eq : (m : PbCheckpoint) → is_checkpoint m ≡ true → some checkpoint ≡ some m
is_checkpoint-eq m h = ground (
  arith,
  int_eq.beq_iff m.sequence (pos 10),
  string_eq.beq_iff m.state_digest "digest",
  string_eq.beq_iff m.node_id "node1",
  int_eq.beq_iff m.timestamp (pos 3),
)

pub checkpoint-IsFaithful : IsFaithful (known checkpoint is_checkpoint)
checkpoint-IsFaithful = known-IsFaithful checkpoint is_checkpoint is_checkpoint-eq

abbrev wrapped : ValidatorMessage
wrapped = record { kind = 0; payload = "bytes"; timestamp = pos 0; sender_id = "node1" }

-- The envelope of any message is marshalled, and of each other type the one message above.
abbrev pub protobuf : Protobuf
protobuf = record {
  validator_message = known wrapped (λ m. true);
  pre_prepare = known pre_prepare is_pre_prepare;
  prepare = known phase is_phase;
  commit = known phase is_phase;
  request = known request (is_request "node2");
  view_change = known view_change is_view_change;
  checkpoint = known checkpoint is_checkpoint;
}
