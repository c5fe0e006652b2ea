-- ===== src/Network/Router.antt =====
-- pkg/network/router.go, the `MessageRouter`. A handler is a function on a state, here the node that
-- it belongs to; `none` is a handler that was not registered. The type of a message is its number
-- in proto/messages.proto.
pub mod Delivery
use dtvn.Prelude.{
  ℕ, String, Bool, true, false, ◌||◌, Option, none, some, if◌then◌else◌, ◌==◌, leb, nat_eq,
}
use dtvn.Consensus.Messages.{Codec, Protobuf, ValidatorMessage, deserialize_validator_message}
use dtvn.Validator.Sync.{PbStateUpdate}

-- `S` is the state that the handlers work on, `E` their errors.
pub record MessageRouter (S E : Type 0) : Type 0 where
  pub pbft_handler : Option (ℕ → String → S → S × Option E)
  pub state_handler : Option (PbStateUpdate → S → S × Option E)
  pub state_sync_handler : Option (ℕ → String → S → S × Option E)

pub data Error (E : Type 0) : Type 0 where
  deserialize_failed no_pbft_handler no_state_handler no_state_sync_handler : Error E
  unknown_type : ℕ → Error E
  handler_failed : E → Error E

module _ {S E : Type 0} where
  unfoldable pub new : MessageRouter S E
  new = record { pbft_handler = none; state_handler = none; state_sync_handler = none }

  unfoldable pub register_pbft_handler :
      MessageRouter S E → (ℕ → String → S → S × Option E) → MessageRouter S E
  register_pbft_handler r handler = record r { pbft_handler = some handler }

  unfoldable pub register_state_handler :
      MessageRouter S E → (PbStateUpdate → S → S × Option E) → MessageRouter S E
  register_state_handler r handler = record r { state_handler = some handler }

  unfoldable pub register_state_sync_handler :
      MessageRouter S E → (ℕ → String → S → S × Option E) → MessageRouter S E
  register_state_sync_handler r handler = record r { state_sync_handler = some handler }

  -- what a handler returns, as the router returns it
  abbrev pub returned : S × Option E → S × Option (Error E)
  returned (s, none) = (s, none)
  returned (s, some e) = (s, some (handler_failed e))

  -- the cases that go to the handler of consensus
  unfoldable pub route_to_pbft : MessageRouter S E → ℕ → String → S → S × Option (Error E)
  route_to_pbft r kind payload s = elim r.pbft_handler [
    | none ↦ (s, some no_pbft_handler)
    | some handler ↦ returned (handler kind payload s)
  ]

  unfoldable pub route_to_state :
      Codec PbStateUpdate → MessageRouter S E → String → S → S × Option (Error E)
  route_to_state codec r payload s = elim r.state_handler [
    | none ↦ (s, some no_state_handler)
    | some handler ↦ elim (codec.unmarshal payload) [
      | none ↦ (s, some deserialize_failed)
      | some update ↦ returned (handler update s)
    ]
  ]

  unfoldable pub route_to_state_sync : MessageRouter S E → ℕ → String → S → S × Option (Error E)
  route_to_state_sync r kind payload s = elim r.state_sync_handler [
    | none ↦ (s, some no_state_sync_handler)
    | some handler ↦ returned (handler kind payload s)
  ]

  -- the `switch` on the type
  unfoldable pub route_kind :
      Codec PbStateUpdate → MessageRouter S E → ℕ → String → S → S × Option (Error E)
  unfolding route_to_pbft route_to_state route_to_state_sync
  route_kind codec r kind payload s =
      if leb kind 2
      then route_to_pbft r kind payload s
      else if kind == 5
      then route_to_state codec r payload s
      else if kind == 7
      then route_to_pbft r kind payload s
      else if kind == 3 || kind == 4 || kind == 6
      then route_to_pbft r kind payload s
      else if kind == 8 || kind == 9
      then route_to_state_sync r kind payload s
      else (s, some (unknown_type kind))

  -- `data` is a keyword: the argument is `bytes`
  unfoldable pub route_message :
      Protobuf → Codec PbStateUpdate → MessageRouter S E → String → S → S × Option (Error E)
  unfolding route_kind
  route_message pb codec r bytes s = elim (deserialize_validator_message pb bytes) [
    | none ↦ (s, some deserialize_failed)
    | some msg ↦ route_kind codec r msg.kind msg.payload s
  ]
