-- ===== src/Examples/Router.antt =====
-- A COMMIT on its way from the wire to a node.
use dtvn.Prelude.{Bool, ◌&&◌, none, some, ◌==◌, ◌≡◌, refl, nat_eq, string_eq, arith, true}
use dtvn.Prelude.Int.{pos, int_eq}
use dtvn.Consensus.Messages.{Codec, ValidatorMessage, serialize_pbft_message}
use dtvn.Consensus.Pbft.{Env}
use dtvn.Consensus.Pbft.Network.{handle_network_message}
use dtvn.Validator.Sync.{PbStateUpdate}
use dtvn.Network.Router
use dtvn.Network.Router.{returned, route_message, register_pbft_handler}
use dtvn.Network.Router.Delivery.{route_message-serialize_pbft_message}
use dtvn.Examples.Wire.{protobuf, known, known-IsFaithful}
use dtvn.Examples.Pbft.{env, node}

abbrev envelope : ValidatorMessage
envelope = record { kind = 2; payload = "bytes"; timestamp = pos 0; sender_id = "node1" }

abbrev is_envelope : ValidatorMessage → Bool
is_envelope m =
    m.kind == 2 && m.payload == "bytes" && m.timestamp == pos 0 && m.sender_id == "node1"

is_envelope-eq : (m : ValidatorMessage) → is_envelope m ≡ true → some envelope ≡ some m
is_envelope-eq m h = ground (
  arith,
  string_eq.beq_iff m.payload "bytes",
  int_eq.beq_iff m.timestamp (pos 0),
  string_eq.beq_iff m.sender_id "node1",
)

abbrev wire : Env
wire = record env { protobuf = record protobuf { validator_message = known envelope is_envelope } }

-- No update of the state is known.
abbrev no_updates : Codec PbStateUpdate
no_updates = record { marshal = λ m. none; unmarshal = λ bytes. none }

route_message-serialize_pbft_message_example :
    route_message wire.protobuf no_updates
      (register_pbft_handler Router.new (λ k p m. handle_network_message wire m k p))
      "bytes"
      node
    ≡ returned (handle_network_message wire node 2 "bytes")
unfolding serialize_pbft_message
route_message-serialize_pbft_message_example =
    route_message-serialize_pbft_message wire no_updates Router.new node 2 "bytes" "node1" "bytes"
      (known-IsFaithful envelope is_envelope is_envelope-eq) refl refl
