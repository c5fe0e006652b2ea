-- ===== src/Consensus/Pbft/Core.antt =====
-- What the phases of consensus are about, without the callbacks, the timer, the messages sent and
-- the node's own checkpoints; and what leaves it alone.
use dtvn.Prelude.{
  ℕ, String, Bool, true, false, Option, none, some, List, [], ◌∷◌, ◌==◌, ◌≡◌, ◌∙◌, inl, inr,
  string_eq, arith, Bool-cases, Option-cases,
}
use dtvn.Prelude.Int.{ℤ, pos, int_eq, rem_ℤ}
use dtvn.Prelude.GoMap.{GoMap, lookup}
use dtvn.Consensus.Types.{Request, PrepareMsg, CommitMsg, ViewChangeMsg, ConsensusMessage}
use dtvn.Consensus.Messages.{serialize_pbft_message}
use dtvn.Consensus.Pbft.{PbftNode, Env, ConsensusHandler, Effect, executed, broadcast, emit, send}
use dtvn.Consensus.Pbft.Execute.{
  call_handlers, invoke_callback, create_checkpoint, finish_request, replicate, settle, run_request,
  execute_request, checkpoint_interval,
}

-- The executions among the effects, newest first.
unfoldable pub executed_requests : List Effect → List (ℤ × Request)
executed_requests [] = []
executed_requests (executed seq req ∷ effects) = (seq, req) ∷ executed_requests effects
executed_requests (_ ∷ effects) = executed_requests effects

-- What the node has handed to its handlers: each request with its sequence number.
abbrev pub executions : {App : Type 0} → PbftNode App → List (ℤ × Request)
executions n = executed_requests n.effects

pub record Core (App : Type 0) : Type 0 where
  pub node_id : String
  pub view : ℤ
  pub sequence : ℤ
  pub f : ℕ
  pub total_nodes : ℕ
  pub is_primary : Bool
  pub prepare_log : GoMap ℤ (GoMap String PrepareMsg)
  pub commit_log : GoMap ℤ (GoMap String CommitMsg)
  pub view_change_log : GoMap ℤ (GoMap String ViewChangeMsg)
  pub last_stable_checkpoint : ℤ
  pub message_queue : List ConsensusMessage
  pub handlers : List (ConsensusHandler App)
  pub app : App
  pub executions : List (ℤ × Request)

abbrev pub core : {App : Type 0} → PbftNode App → Core App
core n = record {
  node_id = n.node_id;
  view = n.view;
  sequence = n.sequence;
  f = n.f;
  total_nodes = n.total_nodes;
  is_primary = n.is_primary;
  prepare_log = n.prepare_log;
  commit_log = n.commit_log;
  view_change_log = n.view_change_log;
  last_stable_checkpoint = n.last_stable_checkpoint;
  message_queue = n.message_queue;
  handlers = n.handlers;
  app = n.app;
  executions = executions n;
}

module _ {App : Type 0} where
  -- What `send` returns, if it succeeds, is the node with one more broadcast.
  pub send-eq-some :
      (env : Env) (kind : ℕ) (payload : Option String) (n : PbftNode App) {n' : PbftNode App}
      → send env kind payload n ≡ some n'
      → (bytes : String) × (n' ≡ emit (broadcast bytes) n)
  unfolding send
  send-eq-some env kind none n h = cc
  send-eq-some env kind (some body) n h =
      elim (Option-cases (serialize_pbft_message env.protobuf kind body n.node_id)) [
        | inl e ↦ absurd (ground arith)
        | inr (bytes, e) ↦ (bytes, ground arith)
      ]

  core-invoke_callback :
      (id : String) (success : Bool) (n : PbftNode App)
      → core (invoke_callback id success n) ≡ core n
  unfolding invoke_callback executed_requests
  core-invoke_callback id success n = ground arith

  core-create_checkpoint :
      (env : Env) (n : PbftNode App) (seq : ℤ) → core (create_checkpoint env n seq) ≡ core n
  unfolding create_checkpoint send executed_requests
  core-create_checkpoint env n seq = ground arith

  core-replicate : (n : PbftNode App) (req : Request) → core (replicate n req) ≡ core n
  unfolding replicate executed_requests
  core-replicate n req = ground arith

  core-settle : (n : PbftNode App) (seq : ℤ) (req : Request) → core (settle n seq req) ≡ core n
  unfolding settle executed_requests
  core-settle n seq req =
      core-invoke_callback req.request_id true (replicate n req) ∙ core-replicate n req

  core-finish_request :
      (env : Env) (n : PbftNode App) (seq : ℤ) (req : Request)
      → core (finish_request env n seq req) ≡ core n
  unfolding finish_request
  core-finish_request env n seq req = elim (Bool-cases (rem_ℤ seq checkpoint_interval == pos 0)) [
    | inl e ↦
        rw (e, finish_request)
          (core-create_checkpoint env (settle n seq req) seq ∙ core-settle n seq req)
    | inr e ↦ rw (e, finish_request) (core-settle n seq req)
  ]

  pub core-run_request :
      (env : Env) (n : PbftNode App) (seq : ℤ) (req : Request)
      → core (run_request env n seq req).0 ≡ record (core n) {
        app = (call_handlers n.handlers req n.app).0;
        executions = (seq, req) ∷ executions n;
      }
  unfolding run_request executed_requests
  core-run_request env n seq req = elim (Option-cases (call_handlers n.handlers req n.app).1) [
    | inl e ↦ rw (e, run_request) (core-finish_request env _ seq req)
    | inr (x, e) ↦ rw (e, run_request) (core-invoke_callback req.request_id false _)
  ]

  -- If no request is stored at the sequence number, executing it changes none of the parts of the
  -- node that `Core` names. If one is, it is counted as executed once, even when a handler fails,
  -- the application's state is what the handlers made of it up to the first failure, and the votes
  -- and the other parts that `Core` names stay.
  pub core-execute_request :
      (env : Env) (n : PbftNode App) (seq : ℤ)
      → core (execute_request env n seq).0 ≡ (elim (lookup seq n.request_log) [
        | none ↦ core n
        | some req ↦ record (core n) {
          app = (call_handlers n.handlers req n.app).0;
          executions = (seq, req) ∷ executions n;
        }
      ])
  unfolding execute_request
  core-execute_request env n seq = elim (Option-cases (lookup seq n.request_log)) [
    | inl e ↦ rw (e, execute_request)
    | inr (req, e) ↦ rw (e, execute_request) (core-run_request env n seq req)
  ]
