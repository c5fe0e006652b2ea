-- ===== src/Consensus/Pbft/Safety.antt =====
-- No input makes a node execute a request without a quorum of COMMITs.
pub mod Runs
use dtvn.Prelude.{
  ℕ, String, Bool, false, not, ◌&&◌, Option, none, some, List, [], ◌∷◌, if◌then◌else◌, ◌==◌, ◌≡◌,
  refl, ap, ◌∙◌, inl, inr, nat_eq, arith, Bool-cases, length, leb, ltb, if_elim,
}
use mathlib.Core.Option
use dtvn.Prelude.Int.{ℤ, leb_ℤ}
use dtvn.Prelude.GoMap.{GoMap}
use dtvn.Consensus.Types.{Request, ViewChangeMsg, Checkpoint, ConsensusMessage}
use dtvn.Consensus.Messages.{
  deserialize_pre_prepare, deserialize_prepare, deserialize_commit, deserialize_view_change,
  deserialize_checkpoint, deserialize_request,
}
use dtvn.Consensus.Pbft
use dtvn.Consensus.Pbft.{
  PbftNode, Env, Outcome, Effect, timer_reset, called_back, send, votes_at, required, put_vote,
  notify_pending_request, clear_pending_request, register_handler, register_callback,
  register_state_replicator,
}
use dtvn.Consensus.Pbft.Execute.{fail_all, fail_pending_callbacks}
use dtvn.Consensus.Pbft.Core.{executed_requests}
use dtvn.Consensus.Pbft.Views.{
  is_idle, or_unsent, vote_for, adopt_view, store_view_change, initiate_view_change,
  handle_view_change,
}
use dtvn.Consensus.Pbft.Checkpoints.{
  store_checkpoint, stabilize, stable_loop, tally, handle_checkpoint,
}
use dtvn.Consensus.Pbft.Network.{enqueue, handle_network_message, process_next}
use dtvn.Consensus.Pbft.Phases.{propose_request}
use dtvn.Consensus.Pbft.Phases.Quorate.{
  Work, work, Quorate, unexecuted, Quorate-after, propose_request-Quorate, process-Quorate,
}
use dtvn.Consensus.Pbft.Inputs.{
  Input, network, dequeue, timeout, propose, notify, clear, handler, callback, replicator, step,
}

executed-fail_all :
    (callbacks : GoMap String Bool) (effects : List Effect)
    → executed_requests (fail_all callbacks effects) ≡ executed_requests effects
unfolding fail_all executed_requests
executed-fail_all [] effects = refl
executed-fail_all ((id, f) ∷ callbacks) effects = ground (
  arith,
  executed-fail_all callbacks effects,
  executed-fail_all callbacks (called_back id false ∷ effects),
)

module _ {App : Type 0} where
  work-fail_pending_callbacks : (n : PbftNode App) → work (fail_pending_callbacks n) ≡ work n
  unfolding fail_pending_callbacks
  work-fail_pending_callbacks n =
      ap (λ es. record (work n) { executions = es })
        (executed-fail_all n.request_callbacks n.effects)

  work-or_unsent :
      (env : Env) (kind : ℕ) (payload : Option String) (n : PbftNode App)
      → work (or_unsent (send env kind payload n) n) ≡ work n
  unfolding send executed_requests
  work-or_unsent env kind payload n = ground arith

  initiate_view_change-Quorate :
      (env : Env) (n : PbftNode App) → Quorate n (initiate_view_change env n)
  unfolding initiate_view_change executed_requests
  initiate_view_change-Quorate env n =
      elim (Bool-cases (is_idle n.state && not n.has_pending_client_request)) [
        | inl h ↦ rw (h, initiate_view_change) (unexecuted refl)
        | inr h ↦
            rw (h, initiate_view_change)
              (unexecuted (work-fail_pending_callbacks _ ∙ work-or_unsent env 3 _ (vote_for n _)))
      ]

  handle_view_change-Quorate :
      (n : PbftNode App) (msg : ViewChangeMsg) → Quorate n (handle_view_change n msg)
  unfolding handle_view_change executed_requests
  handle_view_change-Quorate n msg = elim (Bool-cases (leb_ℤ msg.new_view n.view)) [
    | inl h ↦ rw (h, handle_view_change) (unexecuted refl)
    | inr h ↦
        elim (Bool-cases
          (ltb (length (votes_at msg.new_view stored.view_change_log)) (required n))) [
            | inl g ↦ rw (h, g, handle_view_change) (unexecuted refl)
            | inr g ↦
                rw (h, g, handle_view_change)
                  (unexecuted (work-fail_pending_callbacks (adopt_view stored msg.new_view)))
          ]
  ]
    where
      stored : PbftNode App
      stored = store_view_change n msg

  stable_loop-Quorate :
      (digests : GoMap String ℕ) (n : PbftNode App) (seq : ℤ)
      → Quorate n (stable_loop digests n seq)
  unfolding stable_loop stabilize
  stable_loop-Quorate [] n seq = unexecuted refl
  stable_loop-Quorate ((digest, count) ∷ digests) n seq =
      elim (Bool-cases (leb (required n) count)) [
        | inl h ↦ rw (h, stable_loop) (unexecuted refl)
        | inr h ↦ rw (h, stable_loop) (stable_loop-Quorate digests n seq)
      ]

  handle_checkpoint-Quorate :
      (n : PbftNode App) (ckpt : Checkpoint) → Quorate n (handle_checkpoint n ckpt)
  unfolding handle_checkpoint
  handle_checkpoint-Quorate n ckpt =
      elim (Bool-cases (leb_ℤ ckpt.sequence n.last_stable_checkpoint)) [
        | inl h ↦ rw (h, handle_checkpoint) (unexecuted refl)
        | inr h ↦ elim (Bool-cases (ltb (length votes) (required n))) [
          | inl g ↦ rw (h, g, handle_checkpoint) (unexecuted refl)
          | inr g ↦
              rw (h, g, handle_checkpoint)
                (Quorate-after n stored (stable_loop (tally [] votes) stored ckpt.sequence) refl
                  refl (stable_loop-Quorate (tally [] votes) stored ckpt.sequence))
        ]
      ]
    where
      stored : PbftNode App
      stored = store_checkpoint n ckpt

      votes : GoMap String Checkpoint
      votes = votes_at ckpt.sequence stored.checkpoint_votes

  work-enqueue :
      (n : PbftNode App) (msg : Option ConsensusMessage) → work (enqueue n msg).0 ≡ work n
  unfolding enqueue
  work-enqueue n none = refl
  work-enqueue n (some msg) = ground arith

  notify-Quorate : (n : PbftNode App) → Quorate n (notify_pending_request n)
  unfolding notify_pending_request executed_requests
  notify-Quorate n = unexecuted refl

  network-Quorate :
      (env : Env) (n : PbftNode App) (kind : ℕ) (payload : String)
      → Quorate n (handle_network_message env n kind payload).0
  unfolding handle_network_message
  network-Quorate env n kind payload =
      by_kind (kind == 0) _ _
        (queued
          (Option.map ConsensusMessage.pre_prepare (deserialize_pre_prepare env.protobuf payload)))
        (by_kind (kind == 1) _ _
          (queued (Option.map ConsensusMessage.prepare (deserialize_prepare env.protobuf payload)))
          (by_kind (kind == 2) _ _
            (queued (Option.map ConsensusMessage.commit (deserialize_commit env.protobuf payload)))
            (by_kind (kind == 3) _ _ (view (deserialize_view_change env.protobuf payload)) (
              by_kind (kind == 4) _ _ (checkpoint (deserialize_checkpoint env.protobuf payload)) (
                by_kind (kind == 6) (n, none) _ (unexecuted refl)
                  (by_kind (kind == 7) _ (n, some (Pbft.unsupported_type kind))
                    (request (deserialize_request env.protobuf payload)) (unexecuted refl)))))))
    where
      by_kind :
          (b : Bool) (x y : Outcome App)
          → Quorate n x.0
          → Quorate n y.0
          → Quorate n (if b then x else y).0
      by_kind b x y h k = if_elim (λ (r : Outcome App). Quorate n r.0) b x y (λ _. h) (λ _. k)

      queued : (o : Option ConsensusMessage) → Quorate n (enqueue n o).0
      queued o = unexecuted (work-enqueue n o)

      view :
          (o : Option ViewChangeMsg)
          → Quorate n
              (elim o as (λ _. Outcome App) [
                | none ↦ (n, some Pbft.deserialize_failed)
                | some msg ↦ (handle_view_change n msg, none)
              ]).0
      view none = unexecuted refl
      view (some msg) = handle_view_change-Quorate n msg

      checkpoint :
          (o : Option Checkpoint)
          → Quorate n
              (elim o as (λ _. Outcome App) [
                | none ↦ (n, some Pbft.deserialize_failed)
                | some ckpt ↦ (handle_checkpoint n ckpt, none)
              ]).0
      checkpoint none = unexecuted refl
      checkpoint (some ckpt) = handle_checkpoint-Quorate n ckpt

      request :
          (o : Option Request)
          → Quorate n
              (elim o as (λ _. Outcome App) [
                | none ↦ (n, some Pbft.deserialize_failed)
                | some req ↦
                    if not n.is_primary
                    then (notify_pending_request n, none)
                    else propose_request env n req
              ]).0
      request none = unexecuted refl
      request (some req) =
          by_kind (not n.is_primary) (notify_pending_request n, none) (propose_request env n req)
            (notify-Quorate n) (propose_request-Quorate env n req)

  process_next-Quorate :
      (env : Env) (n : PbftNode App) (queue : List ConsensusMessage)
      → Quorate n (process_next env n queue)
  unfolding process_next
  process_next-Quorate env n [] = unexecuted refl
  process_next-Quorate env n (m ∷ ms) =
      Quorate-after n (record n { message_queue = ms }) _ refl refl
        (process-Quorate env (record n { message_queue = ms }) m)

  -- The node with the handler that an input registers, if it does.
  abbrev pub with_handler : PbftNode App → Input App → PbftNode App
  with_handler n (handler h) = register_handler n h
  with_handler n _ = n

  -- Whatever happens to a node, in one step it either hands nothing to its handlers, and the
  -- application's state stays, or just one request, from which the handlers make the new state,
  -- and then its log holds at least 2f + 1 COMMITs, with f that of the node before the step, for
  -- the sequence number of that request.
  pub step-Quorate :
      (env : Env) (n : PbftNode App) (input : Input App)
      → Quorate (with_handler n input) (step env n input)
  unfolding step executed_requests notify_pending_request clear_pending_request register_handler
      register_callback register_state_replicator
  step-Quorate env n (network kind payload) = network-Quorate env n kind payload
  step-Quorate env n dequeue = process_next-Quorate env n n.message_queue
  step-Quorate env n timeout = initiate_view_change-Quorate env n
  step-Quorate env n (propose req) = propose_request-Quorate env n req
  step-Quorate env n notify = unexecuted refl
  step-Quorate env n clear = unexecuted refl
  step-Quorate env n (handler h) = unexecuted refl
  step-Quorate env n (callback id f) = unexecuted refl
  step-Quorate env n replicator = unexecuted refl
