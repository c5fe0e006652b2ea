-- ===== src/Consensus/Pbft/Inputs.antt =====
-- Everything that can happen to a node, as data, and a node's life as a list of such inputs. The
-- lock makes each one a step; what a call finds outside the node may differ from step to step.
use dtvn.Prelude.{ℕ, String, Bool, List, [], ◌∷◌}
use dtvn.Consensus.Types.{Request}
use dtvn.Consensus.Pbft.{
  PbftNode, Env, ConsensusHandler, notify_pending_request, clear_pending_request, register_handler,
  register_callback, register_state_replicator,
}
use dtvn.Consensus.Pbft.Phases.{propose_request}
use dtvn.Consensus.Pbft.Views.{initiate_view_change}
use dtvn.Consensus.Pbft.Network.{handle_network_message, process_next}

pub data Input (App : Type 0) : Type 0 where
  -- a message arrives, of a type and with a payload
  network : ℕ → String → Input App
  -- `processMessages` takes the next message from the queue
  dequeue : Input App
  -- the view timer of `monitorViewTimeout` fires
  timeout : Input App
  propose : Request → Input App
  notify : Input App
  clear : Input App
  handler : ConsensusHandler App → Input App
  callback : String → Bool → Input App
  replicator : Input App

module _ {App : Type 0} where
  unfoldable pub step : Env → PbftNode App → Input App → PbftNode App
  step env n (network kind payload) = (handle_network_message env n kind payload).0
  step env n dequeue = process_next env n n.message_queue
  step env n timeout = initiate_view_change env n
  step env n (propose req) = (propose_request env n req).0
  step env n notify = notify_pending_request n
  step env n clear = clear_pending_request n
  step env n (handler h) = register_handler n h
  step env n (callback id f) = register_callback n id f
  step env n replicator = register_state_replicator n

  unfoldable pub run : PbftNode App → List (Env × Input App) → PbftNode App
  run n [] = n
  run n ((env, input) ∷ inputs) = run (step env n input) inputs
