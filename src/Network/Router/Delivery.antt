-- ===== src/Network/Router/Delivery.antt =====
-- What a node wraps for consensus reaches the consensus of the node that gets it.
use dtvn.Prelude.{ℕ, String, Bool, true, ◌||◌, some, ◌==◌, ◌≡◌, leb, nat_eq, arith}
use dtvn.Consensus.Messages.{Codec, serialize_pbft_message, deserialize_validator_message}
use dtvn.Consensus.Messages.RoundTrip.{IsFaithful}
use dtvn.Consensus.Pbft.{PbftNode, Env}
use dtvn.Consensus.Pbft
use dtvn.Consensus.Pbft.Network.{handle_network_message}
use dtvn.Validator.Sync.{PbStateUpdate}
use dtvn.Network.Router.{
  MessageRouter, returned, route_kind, route_to_pbft, route_message, register_pbft_handler,
}

-- The types of the messages of consensus.
abbrev pub is_pbft : ℕ → Bool
is_pbft kind = leb kind 4 || kind == 6 || kind == 7

module _ {S E : Type 0} (codec : Codec PbStateUpdate) (r : MessageRouter S E) where
  route_kind-pbft :
      (kind : ℕ) (payload : String) (s : S)
      → is_pbft kind ≡ true
      → route_kind codec r kind payload s ≡ route_to_pbft r kind payload s
  unfolding route_kind
  route_kind-pbft kind payload s h = ground arith

module _ {App : Type 0} (env : Env) (codec : Codec PbStateUpdate) where
  -- What a node wraps as a message of consensus, by a protobuf library that reads back the
  -- envelope that it writes, a router whose handler is `HandleNetworkMessage` gives to it with the
  -- same type and payload, and returns its error.
  pub route_message-serialize_pbft_message :
      (r : MessageRouter (PbftNode App) Pbft.Error) (n : PbftNode App) (kind : ℕ)
      (payload sender bytes : String)
      → IsFaithful env.protobuf.validator_message
      → is_pbft kind ≡ true
      → serialize_pbft_message env.protobuf kind payload sender ≡ some bytes
      → route_message env.protobuf codec
          (register_pbft_handler r (λ k p m. handle_network_message env m k p))
          bytes
          n
        ≡ returned (handle_network_message env n kind payload)
  unfolding route_message register_pbft_handler route_to_pbft serialize_pbft_message
      deserialize_validator_message
  route_message-serialize_pbft_message r n kind payload sender bytes faithful h s =
      rw (faithful _ bytes s, route_message)
        (route_kind-pbft codec (register_pbft_handler r (λ k p m. handle_network_message env m k p))
          kind payload n h)
