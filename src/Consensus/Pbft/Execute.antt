-- ===== src/Consensus/Pbft/Execute.antt =====
-- pkg/consensus/pbft.go: executing a request, the callbacks and a node's own checkpoints.
use dtvn.Prelude.{
  ℕ, String, Bool, true, false, Option, none, some, List, [], ◌∷◌, if◌then◌else◌, ◌==◌, string_eq,
}
use dtvn.Prelude.Int.{ℤ, pos, int_eq, rem_ℤ}
use dtvn.Prelude.Decimal.{format_int}
use dtvn.Prelude.GoMap.{GoMap, lookup, insert, delete}
use dtvn.Consensus.Types.{Request, Checkpoint}
use dtvn.Consensus.Messages.{serialize_checkpoint}
use dtvn.Consensus.Pbft.{
  PbftNode, Env, Outcome, ConsensusHandler, idle, committed, request_not_found, handler_failed,
  Effect, executed, replicated, called_back, timer_reset, emit, put_vote, send,
}

-- const checkpointInterval
abbrev pub checkpoint_interval : ℕ
checkpoint_interval = 10

-- the loop of `failPendingCallbacks`: a callback that is not nil is started
unfoldable pub fail_all : GoMap String Bool → List Effect → List Effect
fail_all [] effects = effects
fail_all ((request_id, callback) ∷ callbacks) effects =
    fail_all callbacks (if callback then called_back request_id false ∷ effects else effects)

module _ {App : Type 0} where
  -- the loop over the handlers, which the first error ends
  unfoldable pub call_handlers : List (ConsensusHandler App) → Request → App → App × Option String
  call_handlers [] req app = (app, none)
  call_handlers (h ∷ hs) req app =
      let (app', err) = h req app in
      elim err [ some e ↦ (app', some e) | none ↦ call_handlers hs req app' ]

  -- `invokeCallback`: the callback is removed, and started if it is not nil
  unfoldable pub invoke_callback : String → Bool → PbftNode App → PbftNode App
  invoke_callback request_id success n = elim (lookup request_id n.request_callbacks) [
    | none ↦ n
    | some callback ↦
        let n' = record n { request_callbacks = delete request_id n.request_callbacks } in
        if callback then emit (called_back request_id success) n' else n'
  ]

  unfoldable pub fail_pending_callbacks : PbftNode App → PbftNode App
  unfolding fail_all
  fail_pending_callbacks n = record n {
    request_callbacks = [];
    effects = fail_all n.request_callbacks n.effects;
  }

  own_checkpoint : Env → PbftNode App → ℤ → Checkpoint
  own_checkpoint env n seq = record {
    sequence = seq;
    state_digest = env.sha256_hex (format_int seq);
    node_id = n.node_id;
    timestamp = env.now;
  }

  -- A checkpoint that cannot be serialized is kept, and not sent.
  abbrev or_unsent : Option (PbftNode App) → PbftNode App → PbftNode App
  or_unsent none n = n
  or_unsent (some sent) n = sent

  unfoldable pub create_checkpoint : Env → PbftNode App → ℤ → PbftNode App
  unfolding own_checkpoint
  create_checkpoint env n seq =
      let ckpt = own_checkpoint env n seq in
      let stored = record n {
        checkpoints = insert seq ckpt n.checkpoints;
        checkpoint_votes = put_vote seq n.node_id ckpt n.checkpoint_votes;
      } in
      or_unsent (send env 4 (serialize_checkpoint env.protobuf ckpt) stored) stored

  -- the call of the replicator, whose error is printed and changes nothing
  unfoldable pub replicate : PbftNode App → Request → PbftNode App
  replicate n req = if n.has_replicator then emit (replicated req) n else n

  -- from the success of the callback to the removal of the request
  unfoldable pub settle : PbftNode App → ℤ → Request → PbftNode App
  unfolding replicate
  settle n seq req =
      let told = invoke_callback req.request_id true (replicate n req) in
      emit timer_reset (record told {
        state = idle;
        has_pending_client_request = false;
        request_log = delete seq told.request_log;
      })

  -- the part of `executeRequest` behind the handlers, when they all accept
  unfoldable pub finish_request : Env → PbftNode App → ℤ → Request → PbftNode App
  unfolding settle
  finish_request env n seq req =
      let settled = settle n seq req in
      if rem_ℤ seq checkpoint_interval == pos 0 then create_checkpoint env settled seq else settled

  -- the rest of `executeRequest`, where the request is there
  unfoldable pub run_request : Env → PbftNode App → ℤ → Request → Outcome App
  unfolding call_handlers
  run_request env n seq req =
      let (app', err) = call_handlers n.handlers req n.app in
      let applied = emit (executed seq req) (record n { state = committed; app = app' }) in
      elim err [
        | some e ↦ (invoke_callback req.request_id false applied, some (handler_failed e))
        | none ↦ (finish_request env applied seq req, none)
      ]

  unfoldable pub execute_request : Env → PbftNode App → ℤ → Outcome App
  execute_request env n seq = elim (lookup seq n.request_log) [
    | none ↦ (n, some request_not_found)
    | some req ↦ run_request env n seq req
  ]
