-- ===== src/Consensus/Pbft/Phases/Quorate.antt =====
-- A request is executed only with a quorum of COMMITs.
use dtvn.Prelude.{
  ℕ, ◌+◌, ◌*◌, ◌≤◌, String, true, not, Option, none, some, List, ◌∷◌, if◌then◌else◌, ◌==◌, ◌≡◌,
  refl, ap, ◌∙◌, inl, inr, string_eq, arith, Bool-cases, Option-cases, length, if_elim,
}
use dtvn.Prelude.Int.{ℤ, int_eq}
use dtvn.Prelude.GoMap.{lookup}
use dtvn.Prelude.GoMap.Laws.{is_some}
use dtvn.Consensus.Types.{Request, PrePrepareMsg, PrepareMsg, CommitMsg, ConsensusMessage}
use dtvn.Consensus.Messages.{serialize_prepare, serialize_commit, serialize_pre_prepare}
use dtvn.Consensus.Pbft.{
  PbftNode, Env, Outcome, ConsensusHandler, send, votes_at, check_commit_quorum,
  check_prepare_quorum, compute_digest,
}
use dtvn.Consensus.Pbft.Execute.{execute_request, call_handlers}
use dtvn.Consensus.Pbft.Core.{
  executions, executed_requests, Core, core-execute_request, send-eq-some,
}
use dtvn.Consensus.Pbft.Network.{process}
use dtvn.Consensus.Pbft.Phases.{
  own_commit, enter_commit, move_to_commit_phase, own_prepare, enter_prepare, after_prepare,
  handle_pre_prepare, prepare_proposal, propose_guard, propose_request, handle_prepare,
  handle_commit, store_commit, store_prepare,
}

-- What the node has executed, the application's state, and the handlers that work on it.
pub record Work (App : Type 0) : Type 0 where
  pub executions : List (ℤ × Request)
  pub app : App
  pub handlers : List (ConsensusHandler App)

abbrev pub work : {App : Type 0} → PbftNode App → Work App
work n = record { executions = executions n; app = n.app; handlers = n.handlers }

-- The handlers are called on a request.
abbrev pub executed : {App : Type 0} → ℤ → Request → Work App → Work App
executed seq req w = record w {
  executions = (seq, req) ∷ w.executions;
  app = (call_handlers w.handlers req w.app).0;
}

-- From `n` to `m` nothing was executed, or one request was, by the handlers of `n` and at a sequence
-- number for which `m` holds a quorum of COMMITs.
pub data Quorate {App : Type 0} (n m : PbftNode App) : Type 0 where
  unexecuted : work m ≡ work n → Quorate n m
  decided :
      (seq : ℤ) (req : Request)
      → work m ≡ executed seq req (work n)
      → 2 * n.f + 1 ≤ length (votes_at seq m.commit_log)
      → Quorate n m

module _ {App : Type 0} where
  -- Steps before the execution that leave the work and `f` alone.
  pub Quorate-after :
      (n n' m : PbftNode App) → work n' ≡ work n → n'.f ≡ n.f → Quorate n' m → Quorate n m
  Quorate-after n n' m e g (unexecuted q) = unexecuted (q ∙ e)
  Quorate-after n n' m e g (decided seq req x q) =
      decided seq req (x ∙ ap (executed seq req) e) (rw (ap (λ f. 2 * f + 1) g) at q)

  commit_log-execute_request :
      (env : Env) (n : PbftNode App) (seq : ℤ)
      → (execute_request env n seq).0.commit_log ≡ n.commit_log
  commit_log-execute_request env n seq = elim (Option-cases (lookup seq n.request_log)) [
    | inl e ↦ ap (λ (c : Core App). c.commit_log) (core-execute_request env n seq) ∙ rw e
    | inr (req, e) ↦ ap (λ (c : Core App). c.commit_log) (core-execute_request env n seq) ∙ rw e
  ]

  abbrev core_work : Core App → Work App
  core_work c = record { executions = c.executions; app = c.app; handlers = c.handlers }

  execute_request-Quorate :
      (env : Env) (n : PbftNode App) (seq : ℤ)
      → check_commit_quorum n seq ≡ true
      → Quorate n (execute_request env n seq).0
  unfolding check_commit_quorum
  execute_request-Quorate env n seq h = elim (Option-cases (lookup seq n.request_log)) [
    | inl e ↦ unexecuted (ap core_work (core-execute_request env n seq) ∙ rw e)
    | inr (req, e) ↦
        decided seq req (ap core_work (core-execute_request env n seq) ∙ rw e)
          (rw (commit_log-execute_request env n seq) (ground arith))
  ]

  gate :
      (env : Env) (n : PbftNode App) (seq : ℤ)
      → Quorate n (if check_commit_quorum n seq then execute_request env n seq else (n, none)).0
  gate env n seq = elim (Bool-cases (check_commit_quorum n seq)) [
    | inl h ↦ rw h (execute_request-Quorate env n seq h)
    | inr h ↦ rw h (unexecuted refl)
  ]

  move_to_commit_phase-Quorate :
      (env : Env) (n : PbftNode App) (seq : ℤ) (digest : String)
      → Quorate n (move_to_commit_phase env n seq digest).0
  unfolding move_to_commit_phase executed_requests
  move_to_commit_phase-Quorate env n seq digest =
      elim (Option-cases (
        send env 2 (serialize_commit env.protobuf (own_commit n seq digest))
          (enter_commit n seq digest))) [
            | inl e ↦ rw (e, move_to_commit_phase) (unexecuted refl)
            | inr (sent, e) ↦
                let (bytes, s) = send-eq-some env 2 _ (enter_commit n seq digest) e in
                rw (e, move_to_commit_phase)
                  (Quorate-after n sent _ (ap work s) (ap (λ (m : PbftNode App). m.f) s)
                    (gate env sent seq))
          ]

  send-Quorate :
      (env : Env) (kind : ℕ) (payload : Option String) (n n' sent m : PbftNode App)
      → send env kind payload n' ≡ some sent
      → work n' ≡ work n
      → n'.f ≡ n.f
      → Quorate sent m
      → Quorate n m
  unfolding executed_requests
  send-Quorate env kind payload n n' sent m e x g q =
      let (bytes, s) = send-eq-some env kind payload n' e in
      Quorate-after n sent m (ap work s ∙ x) (ap (λ (k : PbftNode App). k.f) s ∙ g) q

  after_prepare-Quorate :
      (env : Env) (n : PbftNode App) (msg : PrePrepareMsg) → Quorate n (after_prepare env n msg).0
  unfolding after_prepare
  after_prepare-Quorate env n msg = elim (Bool-cases (check_prepare_quorum n msg.sequence)) [
    | inl h ↦ rw (h, after_prepare) (move_to_commit_phase-Quorate env n msg.sequence msg.digest)
    | inr h ↦ rw (h, after_prepare) (gate env n msg.sequence)
  ]

  handle_pre_prepare-Quorate :
      (env : Env) (n : PbftNode App) (msg : PrePrepareMsg)
      → Quorate n (handle_pre_prepare env n msg).0
  unfolding handle_pre_prepare executed_requests
  handle_pre_prepare-Quorate env n msg = elim (Bool-cases (msg.view == n.view)) [
    | inr h ↦ rw (h, handle_pre_prepare) (unexecuted refl)
    | inl h ↦ elim (Bool-cases (compute_digest env msg.request == msg.digest)) [
      | inr g ↦ rw (h, g, handle_pre_prepare) (unexecuted refl)
      | inl g ↦
          elim (Option-cases (
            send env 1 (serialize_prepare env.protobuf (own_prepare n msg))
              (enter_prepare n msg))) [
                | inl e ↦ rw (h, g, e, handle_pre_prepare) (unexecuted refl)
                | inr (sent, e) ↦
                    rw (h, g, e, handle_pre_prepare)
                      (send-Quorate env 1 _ n (enter_prepare n msg) sent _ e refl refl
                        (after_prepare-Quorate env sent msg))
              ]
    ]
  ]

  handle_prepare-Quorate :
      (env : Env) (n : PbftNode App) (msg : PrepareMsg) → Quorate n (handle_prepare env n msg).0
  unfolding handle_prepare
  handle_prepare-Quorate env n msg =
      if_elim (λ (r : Outcome App). Quorate n r.0) (not (msg.view == n.view)) _ _
        (λ _. unexecuted refl)
        λ _.
          if_elim (λ (r : Outcome App). Quorate n r.0)
            (not (check_prepare_quorum stored msg.sequence)) _ _ (λ _. unexecuted refl)
            λ _.
              if_elim (λ (r : Outcome App). Quorate n r.0)
                (is_some (lookup msg.sequence n.request_log)) _ _
                (λ _.
                  Quorate-after n stored (move_to_commit_phase env stored msg.sequence msg.digest).0
                    refl refl (move_to_commit_phase-Quorate env stored msg.sequence msg.digest))
                (λ _. unexecuted refl)
    where
      stored : PbftNode App
      stored = store_prepare n msg

  handle_commit-Quorate :
      (env : Env) (n : PbftNode App) (msg : CommitMsg) → Quorate n (handle_commit env n msg).0
  unfolding handle_commit
  handle_commit-Quorate env n msg =
      if_elim (λ (r : Outcome App). Quorate n r.0) (not (msg.view == n.view)) _ _
        (λ _. unexecuted refl)
        λ _.
          if_elim (λ (r : Outcome App). Quorate n r.0)
            (not (check_commit_quorum stored msg.sequence)) _ _ (λ _. unexecuted refl)
            λ q.
              if_elim (λ (r : Outcome App). Quorate n r.0)
                (is_some (lookup msg.sequence n.request_log)) _ _
                (λ _.
                  Quorate-after n stored (execute_request env stored msg.sequence).0 refl refl
                    (execute_request-Quorate env stored msg.sequence (ground arith)))
                (λ _. unexecuted refl)
    where
      stored : PbftNode App
      stored = store_commit n msg

  pub propose_request-Quorate :
      (env : Env) (n : PbftNode App) (req : Request) → Quorate n (propose_request env n req).0
  unfolding propose_request
  propose_request-Quorate env n req = elim (Option-cases (propose_guard env n)) [
    | inr (x, g) ↦ rw (g, propose_request) (unexecuted refl)
    | inl g ↦
        elim (Option-cases (
          send env 0 (serialize_pre_prepare env.protobuf (prepare_proposal env n req).1)
            (prepare_proposal env n req).0)) [
              | inl e ↦ rw (g, e, propose_request) (unexecuted refl)
              | inr (sent, e) ↦
                  rw (g, e, propose_request)
                    (send-Quorate env 0 _ n (prepare_proposal env n req).0 sent _ e refl refl
                      (handle_pre_prepare-Quorate env sent (prepare_proposal env n req).1))
            ]
  ]

  pub process-Quorate :
      (env : Env) (n : PbftNode App) (msg : ConsensusMessage) → Quorate n (process env n msg).0
  unfolding process
  process-Quorate env n (ConsensusMessage.pre_prepare m) = handle_pre_prepare-Quorate env n m
  process-Quorate env n (ConsensusMessage.prepare m) = handle_prepare-Quorate env n m
  process-Quorate env n (ConsensusMessage.commit m) = handle_commit-Quorate env n m
