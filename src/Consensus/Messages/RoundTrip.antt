-- ===== src/Consensus/Messages/RoundTrip.antt =====
-- What a message says after it was sent.
use dtvn.Prelude.{String, Bool, ◌||◌, if◌then◌else◌, some, ◌≡◌, ◌≢◌, ◌==◌, string_eq, arith}
use dtvn.Consensus.Types.{Request, PrePrepareMsg, PrepareMsg, CommitMsg, ViewChangeMsg, Checkpoint}
use dtvn.Consensus.Messages.{
  Codec, Protobuf, operation_to_proto, operation_string, serialize_pre_prepare,
  deserialize_pre_prepare, serialize_request, deserialize_request, serialize_prepare,
  deserialize_prepare, serialize_commit, deserialize_commit, serialize_view_change,
  deserialize_view_change, serialize_checkpoint, deserialize_checkpoint,
}

-- Protobuf's promise for one message type: what is marshalled is read back.
abbrev pub IsFaithful : {M : Type 0} → Codec M → Type 0
IsFaithful {M} c = (m : M) (bytes : String) → c.marshal m ≡ some bytes → c.unmarshal bytes ≡ some m

-- The operations that protobuf's enum has a number for. Any other is sent as VALIDATE.
abbrev is_known : String → Bool
is_known op = op == "CONSUME" || op == "DISPUTE" || op == "QUERY"

abbrev pub sent_operation : String → String
sent_operation op = if is_known op then op else "VALIDATE"

operation_string-operation_to_proto :
    (op : String) → operation_string (operation_to_proto op) ≡ sent_operation op
unfolding operation_string operation_to_proto
operation_string-operation_to_proto op = ground (
  arith,
  string_eq.beq_iff op "CONSUME",
  string_eq.beq_iff op "DISPUTE",
  string_eq.beq_iff op "QUERY",
)

module _ (pb : Protobuf) where
  -- A PRE-PREPARE that is serialized to a text that is not empty, by a protobuf library that reads
  -- back what it writes, is deserialized with the `NodeID` of its request empty, its operation as
  -- it was if that is CONSUME, DISPUTE or QUERY, and else VALIDATE, and otherwise as it was.
  pub deserialize-serialize_pre_prepare :
      (m : PrePrepareMsg) (bytes : String)
      → IsFaithful pb.pre_prepare
      → serialize_pre_prepare pb m ≡ some bytes
      → bytes ≢ ""
      → deserialize_pre_prepare pb bytes
        ≡ some (record m {
          request = record m.request {
            operation = sent_operation m.request.operation;
            node_id = "";
          };
        })
  unfolding serialize_pre_prepare deserialize_pre_prepare
  deserialize-serialize_pre_prepare m bytes faithful e ne = rw (faithful _ bytes e) (
      ground (
        arith,
        string_eq.beq_iff bytes "",
        operation_string-operation_to_proto m.request.operation,
      ))

  -- A client request that is serialized, by a protobuf library that reads back what it writes, is
  -- deserialized with its operation normalized, and otherwise, its `NodeID` included, as it was.
  deserialize-serialize_request :
      (r : Request) (bytes : String)
      → IsFaithful pb.request
      → serialize_request pb r ≡ some bytes
      → deserialize_request pb bytes ≡ some (record r { operation = sent_operation r.operation })
  unfolding serialize_request deserialize_request
  deserialize-serialize_request r bytes faithful e =
      rw (faithful _ bytes e) (ground (arith, operation_string-operation_to_proto r.operation))

  -- A PREPARE that is serialized to a text that is not empty, by a protobuf library that reads
  -- back what it writes, is deserialized as it was.
  deserialize-serialize_prepare :
      (m : PrepareMsg) (bytes : String)
      → IsFaithful pb.prepare
      → serialize_prepare pb m ≡ some bytes
      → bytes ≢ ""
      → deserialize_prepare pb bytes ≡ some m
  unfolding serialize_prepare deserialize_prepare
  deserialize-serialize_prepare m bytes faithful e ne =
      rw (faithful _ bytes e) (ground (arith, string_eq.beq_iff bytes ""))

  -- A COMMIT that is serialized, to any text, by a protobuf library that reads back what it
  -- writes, is deserialized as it was.
  deserialize-serialize_commit :
      (m : CommitMsg) (bytes : String)
      → IsFaithful pb.commit
      → serialize_commit pb m ≡ some bytes
      → deserialize_commit pb bytes ≡ some m
  unfolding serialize_commit deserialize_commit
  deserialize-serialize_commit m bytes faithful e = rw (faithful _ bytes e)

  -- A VIEW-CHANGE that is serialized to a text that is not empty, by a protobuf library that reads
  -- back what it writes, is deserialized as it was.
  deserialize-serialize_view_change :
      (m : ViewChangeMsg) (bytes : String)
      → IsFaithful pb.view_change
      → serialize_view_change pb m ≡ some bytes
      → bytes ≢ ""
      → deserialize_view_change pb bytes ≡ some m
  unfolding serialize_view_change deserialize_view_change
  deserialize-serialize_view_change m bytes faithful e ne =
      rw (faithful _ bytes e) (ground (arith, string_eq.beq_iff bytes ""))

  -- A CHECKPOINT that is serialized to a text that is not empty, by a protobuf library that reads
  -- back what it writes, is deserialized as it was.
  deserialize-serialize_checkpoint :
      (m : Checkpoint) (bytes : String)
      → IsFaithful pb.checkpoint
      → serialize_checkpoint pb m ≡ some bytes
      → bytes ≢ ""
      → deserialize_checkpoint pb bytes ≡ some m
  unfolding serialize_checkpoint deserialize_checkpoint
  deserialize-serialize_checkpoint m bytes faithful e ne =
      rw (faithful _ bytes e) (ground (arith, string_eq.beq_iff bytes ""))
