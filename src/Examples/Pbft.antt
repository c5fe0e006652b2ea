-- ===== src/Examples/Pbft.antt =====
-- A node of four that has two of the three COMMITs that it needs, and the third in its queue.
use dtvn.Prelude.{ℕ, ◌+◌, List, String, true, none, [], ◌∷◌, string_eq}
use dtvn.Prelude.Int.{pos, int_eq}
use dtvn.Consensus.Types.{Request, CommitMsg, ConsensusMessage, ViewChangeMsg, Checkpoint}
use dtvn.Consensus.Pbft.{PbftNode, Env, ConsensusHandler, votes_at, put_vote}
use dtvn.Consensus.Pbft
use dtvn.Consensus.Pbft.Execute.{execute_request}
use dtvn.Consensus.Pbft.Executed.{Executed, execute_request-Executed}
use dtvn.Consensus.Pbft.Views.{handle_view_change}
use dtvn.Consensus.Pbft.Views.Moves.{Moved, handle_view_change-Moved}
use dtvn.Consensus.Pbft.Checkpoints.{handle_checkpoint}
use dtvn.Consensus.Pbft.Checkpoints.Stable.{Checkpointed, handle_checkpoint-Checkpointed}
use dtvn.Consensus.Pbft.Inputs.{Input, step, dequeue, timeout, propose}
use dtvn.Consensus.Pbft.Phases.Quorate.{Quorate}
use dtvn.Consensus.Pbft.Safety.{step-Quorate}
use dtvn.Examples.Wire.{protobuf}

abbrev pub env : Env
env = record { peer_count = 3; now = pos 100; sha256_hex = λ text. text; protobuf = protobuf }

abbrev request : Request
request = record {
  request_id = "r1";
  ticket_id = "t1";
  operation = "CONSUME";
  payload = "data";
  timestamp = pos 5;
  node_id = "node2";
}

abbrev commit_of : String → CommitMsg
commit_of node_id = record { view = pos 0; sequence = pos 1; digest = "digest"; node_id = node_id }

-- A handler that counts the requests.
abbrev counter : ConsensusHandler ℕ
counter req count = (count + 1, none)

abbrev pub node : PbftNode ℕ
node = record {
  node_id = "node0";
  view = pos 0;
  sequence = pos 1;
  state = Pbft.commit;
  f = 1;
  total_nodes = 4;
  is_primary = true;
  prepare_log = [];
  commit_log = (pos 1, ("node0", commit_of "node0") ∷ ("node1", commit_of "node1") ∷ []) ∷ [];
  request_log = (pos 1, request) ∷ [];
  message_queue = ConsensusMessage.commit (commit_of "node2") ∷ [];
  handlers = counter ∷ [];
  checkpoints = [];
  checkpoint_votes = [];
  last_stable_checkpoint = pos 0;
  view_change_log = [];
  has_pending_client_request = true;
  request_callbacks = ("r1", true) ∷ [];
  has_replicator = true;
  app = 0;
  effects = [];
}

step-Quorate_example : Quorate node (step env node dequeue)
step-Quorate_example = step-Quorate env node dequeue

execute_request-Executed_example :
    Executed node (pos 1) (execute_request env node (pos 1)).0 (execute_request env node (pos 1)).1
execute_request-Executed_example = execute_request-Executed env node (pos 1)

abbrev view_change_msg : ViewChangeMsg
view_change_msg = record { new_view = pos 1; node_id = "node1" }

handle_view_change-Moved_example :
    Moved node view_change_msg (handle_view_change node view_change_msg)
handle_view_change-Moved_example = handle_view_change-Moved node view_change_msg

abbrev checkpoint_msg : Checkpoint
checkpoint_msg = record {
  sequence = pos 10;
  state_digest = "digest";
  node_id = "node1";
  timestamp = pos 3;
}

handle_checkpoint-Checkpointed_example :
    Checkpointed node checkpoint_msg (handle_checkpoint node checkpoint_msg)
handle_checkpoint-Checkpointed_example = handle_checkpoint-Checkpointed node checkpoint_msg

abbrev inputs : List (Env × Input ℕ)
inputs = (env, dequeue) ∷ (env, timeout) ∷ (env, propose request) ∷ []
