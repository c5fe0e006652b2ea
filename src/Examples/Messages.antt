-- ===== src/Examples/Messages.antt =====
-- Messages that are sent and received.
use dtvn.Prelude.{String, some, ◌≡◌, ◌≢◌, refl, arith, string_eq}
use dtvn.Prelude.Int.{pos}
use dtvn.Consensus.Types.{Request, PrePrepareMsg, PrepareMsg, CommitMsg, ViewChangeMsg, Checkpoint}
use dtvn.Consensus.Messages.{deserialize_pre_prepare, serialize_pre_prepare}
use dtvn.Consensus.Messages.RoundTrip.{sent_operation, deserialize-serialize_pre_prepare}
use dtvn.Examples.Wire.{protobuf, pre_prepare-IsFaithful}

abbrev client_request : Request
client_request = record {
  request_id = "r1";
  ticket_id = "t1";
  operation = "VALIDATE";
  payload = "data";
  timestamp = pos 5;
  node_id = "node2";
}

abbrev proposal : PrePrepareMsg
proposal = record { view = pos 0; sequence = pos 1; digest = "digest"; request = client_request }

abbrev prepare_msg : PrepareMsg
prepare_msg = record { view = pos 0; sequence = pos 7; digest = "digest"; node_id = "node1" }

abbrev commit_msg : CommitMsg
commit_msg = record { view = pos 0; sequence = pos 7; digest = "digest"; node_id = "node1" }

abbrev view_change_msg : ViewChangeMsg
view_change_msg = record { new_view = pos 1; node_id = "node1" }

abbrev checkpoint_msg : Checkpoint
checkpoint_msg = record {
  sequence = pos 10;
  state_digest = "digest";
  node_id = "node1";
  timestamp = pos 3;
}

not_empty : ◌≢◌ {A = String} "bytes" ""
not_empty e = ground (arith, string_eq.beq_iff "bytes" "")

deserialize-serialize_pre_prepare_example :
    deserialize_pre_prepare protobuf "bytes"
    ≡ some (record proposal {
      request = record client_request { operation = sent_operation "VALIDATE"; node_id = "" };
    })
unfolding serialize_pre_prepare
deserialize-serialize_pre_prepare_example =
    deserialize-serialize_pre_prepare protobuf proposal "bytes" pre_prepare-IsFaithful refl
      not_empty
