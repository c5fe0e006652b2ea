-- ===== src/Consensus/Pbft/Network.antt =====
-- pkg/consensus/pbft.go: `HandleNetworkMessage`, and the queue that `processMessages` empties.
use dtvn.Prelude.{
  ℕ, String, not, Option, none, some, List, [], ◌∷◌, ◌++◌, if◌then◌else◌, ◌==◌, ltb, length, nat_eq,
}
use mathlib.Core.Option
use dtvn.Consensus.Types.{ConsensusMessage}
use dtvn.Consensus.Messages.{
  deserialize_pre_prepare, deserialize_prepare, deserialize_commit, deserialize_view_change,
  deserialize_checkpoint, deserialize_request,
}
use dtvn.Consensus.Pbft.{
  PbftNode, Env, Outcome, deserialize_failed, queue_full, unsupported_type, notify_pending_request,
}
use dtvn.Consensus.Pbft.Phases.{handle_pre_prepare, handle_prepare, handle_commit, propose_request}
use dtvn.Consensus.Pbft.Views.{handle_view_change}
use dtvn.Consensus.Pbft.Checkpoints.{handle_checkpoint}

-- The capacity of `messageQueue`.
abbrev pub queue_capacity : ℕ
queue_capacity = 1000

module _ {App : Type 0} where
  -- the `select` at the end: a full queue drops the message
  unfoldable pub enqueue : PbftNode App → Option ConsensusMessage → Outcome App
  enqueue n none = (n, some deserialize_failed)
  enqueue n (some msg) =
      if ltb (length n.message_queue) queue_capacity
      then (record n { message_queue = n.message_queue ++ msg ∷ [] }, none)
      else (n, some queue_full)

  unfoldable pub handle_network_message : Env → PbftNode App → ℕ → String → Outcome App
  unfolding enqueue
  handle_network_message env n kind payload =
      if kind == 0
      then enqueue n
          (Option.map ConsensusMessage.pre_prepare (deserialize_pre_prepare env.protobuf payload))
      else if kind == 1
      then enqueue n
          (Option.map ConsensusMessage.prepare (deserialize_prepare env.protobuf payload))
      else if kind == 2
      then enqueue n (Option.map ConsensusMessage.commit (deserialize_commit env.protobuf payload))
      else if kind == 3
      then elim (deserialize_view_change env.protobuf payload) [
        | none ↦ (n, some deserialize_failed)
        | some msg ↦ (handle_view_change n msg, none)
      ]
      else if kind == 4
      then elim (deserialize_checkpoint env.protobuf payload) [
        | none ↦ (n, some deserialize_failed)
        | some ckpt ↦ (handle_checkpoint n ckpt, none)
      ]
      else if kind == 6
      then (n, none)
      else if kind == 7
      then elim (deserialize_request env.protobuf payload) [
        | none ↦ (n, some deserialize_failed)
        | some req ↦
            if not n.is_primary then (notify_pending_request n, none) else propose_request env n req
      ]
      else (n, some (unsupported_type kind))

  -- the `switch` of `processMessages` on one message
  unfoldable pub process : Env → PbftNode App → ConsensusMessage → Outcome App
  process env n (ConsensusMessage.pre_prepare m) = handle_pre_prepare env n m
  process env n (ConsensusMessage.prepare m) = handle_prepare env n m
  process env n (ConsensusMessage.commit m) = handle_commit env n m

  -- one round of `processMessages`: the oldest message is taken and handled, its error printed
  unfoldable pub process_next : Env → PbftNode App → List ConsensusMessage → PbftNode App
  unfolding process
  process_next env n [] = n
  process_next env n (m ∷ ms) = (process env (record n { message_queue = ms }) m).0
