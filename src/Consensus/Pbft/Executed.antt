-- ===== src/Consensus/Pbft/Executed.antt =====
-- What the execution of a request does to a node.
use mathlib.Core.Path.{subst, subst₂}
use dtvn.Prelude.{
  sym, String, Bool, true, false, Option, none, some, List, [], ◌∷◌, ◌==◌, ◌≡◌, refl, ap, ◌∙◌, inl,
  inr, if◌then◌else◌, string_eq, arith, Option-cases,
}
use dtvn.Prelude.Int.{ℤ, int_eq}
use dtvn.Prelude.GoMap.{GoMap, lookup, delete}
use dtvn.Prelude.GoMap.Laws.{lookup-delete}
use dtvn.Consensus.Types.{Request}
use dtvn.Consensus.Pbft.{
  PbftNode, Env, Error, Outcome, ConsensusHandler, State, idle, committed, request_not_found,
  handler_failed, emit, send, executed,
}
use dtvn.Consensus.Pbft.Execute.{
  call_handlers, invoke_callback, create_checkpoint, finish_request, replicate, settle, run_request,
  execute_request,
}
use dtvn.Consensus.Pbft.Core.{Core, core, core-run_request, executions}

module _ {App : Type 0} (req : Request) where
  -- The handlers are called in their order, each on what the one before it left, up to the first
  -- that returns an error.
  pub data Handled : List (ConsensusHandler App) → App → App → Option String → Type 0 where
    accepted : (app : App) → Handled [] app app none
    refused :
        (h : ConsensusHandler App) (hs : List (ConsensusHandler App)) (app app' : App) (e : String)
        → h req app ≡ (app', some e)
        → Handled (h ∷ hs) app app' (some e)
    passed :
        (h : ConsensusHandler App) (hs : List (ConsensusHandler App)) (app app' app'' : App)
        (r : Option String)
        → h req app ≡ (app', none)
        → Handled hs app' app'' r
        → Handled (h ∷ hs) app app'' r

  call_handlers-Handled :
      (hs : List (ConsensusHandler App)) (app : App)
      → Handled hs app (call_handlers hs req app).0 (call_handlers hs req app).1
  unfolding call_handlers
  call_handlers-Handled [] app = accepted app
  call_handlers-Handled (h ∷ hs) app = elim (Option-cases (h req app).1) [
    | inl e ↦
        rw (e, call_handlers)
          (passed h hs app (h req app).0 _ _ (ap (λ r. ((h req app).0, r)) e)
            (call_handlers-Handled hs (h req app).0))
    | inr (x, e) ↦
        rw (e, call_handlers) (refused h hs app (h req app).0 x (ap (λ r. ((h req app).0, r)) e))
  ]

-- What `Core` leaves out of a node that executes a request.
record Rest : Type 0 where
  state : State
  request_log : GoMap ℤ Request
  request_callbacks : GoMap String Bool
  has_pending_client_request : Bool

module _ {App : Type 0} where
  abbrev rest : PbftNode App → Rest
  rest n = record {
    state = n.state;
    request_log = n.request_log;
    request_callbacks = n.request_callbacks;
    has_pending_client_request = n.has_pending_client_request;
  }

  rest-create_checkpoint :
      (env : Env) (n : PbftNode App) (seq : ℤ) → rest (create_checkpoint env n seq) ≡ rest n
  unfolding create_checkpoint send
  rest-create_checkpoint env n seq = ground arith

  rest-invoke_callback :
      (id : String) (success : Bool) (n : PbftNode App)
      → rest (invoke_callback id success n)
        ≡ record (rest n) { request_callbacks = (invoke_callback id success n).request_callbacks }
  unfolding invoke_callback
  rest-invoke_callback id success n = ground arith

  rest-replicate : (n : PbftNode App) (req : Request) → rest (replicate n req) ≡ rest n
  unfolding replicate
  rest-replicate n req = ground arith

  -- The callback of a request is removed, and no other.
  abbrev pub IsTold : String → PbftNode App → PbftNode App → Type 0
  IsTold request_id n m =
      (id : String)
      → lookup id m.request_callbacks
        ≡ (if id == request_id then none else lookup id n.request_callbacks)

  invoke_callback-IsTold :
      (request_id : String) (success : Bool) (n : PbftNode App)
      → IsTold request_id n (invoke_callback request_id success n)
  unfolding invoke_callback
  invoke_callback-IsTold request_id success n id =
      ground
        (arith, lookup-delete request_id id n.request_callbacks, string_eq.beq_iff id request_id)

  -- What `executeRequest` makes of a node, and its error.
  pub data Executed (n : PbftNode App) (seq : ℤ) (m : PbftNode App) : Option Error → Type 0 where
    missing : lookup seq n.request_log ≡ none → m ≡ n → Executed n seq m (some request_not_found)
    failed :
        (req : Request) (e : String)
        → lookup seq n.request_log ≡ some req
        → Handled req n.handlers n.app m.app (some e)
        → core m ≡ record (core n) { app = m.app; executions = (seq, req) ∷ executions n }
        → IsTold req.request_id n m
        → m.state ≡ committed
        → m.request_log ≡ n.request_log
        → Executed n seq m (some (handler_failed e))
    succeeded :
        (req : Request)
        → lookup seq n.request_log ≡ some req
        → Handled req n.handlers n.app m.app none
        → core m ≡ record (core n) { app = m.app; executions = (seq, req) ∷ executions n }
        → IsTold req.request_id n m
        → m.state ≡ idle
        → m.has_pending_client_request ≡ false
        → ((k : ℤ) → lookup k m.request_log ≡ (if k == seq then none else lookup k n.request_log))
        → Executed n seq m none

  rest-finish_request :
      (env : Env) (n : PbftNode App) (seq : ℤ) (req : Request)
      → rest (finish_request env n seq req) ≡ record {
        state = idle;
        request_log = delete seq n.request_log;
        request_callbacks = (invoke_callback req.request_id true n).request_callbacks;
        has_pending_client_request = false;
      }
  unfolding finish_request settle replicate invoke_callback
  rest-finish_request env n seq req =
      ground (arith, rest-create_checkpoint env (settle n seq req) seq)

  module _ (env : Env) (n : PbftNode App) (seq : ℤ) (req : Request)
      (stored : lookup seq n.request_log ≡ some req) where
    abbrev applied : PbftNode App
    applied =
        emit (executed seq req)
          (record n { state = committed; app = (call_handlers n.handlers req n.app).0 })

    Handled-run_request :
        (r : Option String)
        → (call_handlers n.handlers req n.app).1 ≡ r
        → Handled req n.handlers n.app (run_request env n seq req).0.app r
    Handled-run_request r e =
        subst₂ (λ (a : App) (o : Option String). Handled req n.handlers n.app a o)
          (sym (ap (λ (c : Core App). c.app) (core-run_request env n seq req))) e
          (call_handlers-Handled req n.handlers n.app)

    core-app : core (run_request env n seq req).0 ≡ record (core n) {
      app = (run_request env n seq req).0.app;
      executions = (seq, req) ∷ executions n;
    }
    core-app =
        core-run_request env n seq req
        ∙ ap (λ (a : App). record (core n) { app = a; executions = (seq, req) ∷ executions n })
            (sym (ap (λ (c : Core App). c.app) (core-run_request env n seq req)))

    run_request-failed :
        (e : String)
        → (call_handlers n.handlers req n.app).1 ≡ some e
        → run_request env n seq req
          ≡ (invoke_callback req.request_id false applied, some (handler_failed e))
    unfolding run_request
    run_request-failed e h = rw (h, run_request) refl

    run_request-succeeded :
        (call_handlers n.handlers req n.app).1 ≡ none
        → run_request env n seq req ≡ (finish_request env applied seq req, none)
    unfolding run_request
    run_request-succeeded h = rw (h, run_request) refl

    run_request-Executed :
        Executed n seq (run_request env n seq req).0 (run_request env n seq req).1
    run_request-Executed = elim (Option-cases (call_handlers n.handlers req n.app).1) [
      | inl h ↦
          let done = run_request-succeeded h in
          let left =
            ap (λ (r : Outcome App). rest r.0) done ∙ rest-finish_request env applied seq req in
          subst (Executed n seq (run_request env n seq req).0)
            (sym (ap (λ (r : Outcome App). r.1) done))
            (succeeded req stored (Handled-run_request none h) core-app
              (λ k.
                ap (λ (r : Rest). lookup k r.request_callbacks) left
                ∙ invoke_callback-IsTold req.request_id true applied k)
              (ap (λ (r : Rest). r.state) left)
              (ap (λ (r : Rest). r.has_pending_client_request) left)
              (λ k.
                ap (λ (r : Rest). lookup k r.request_log) left ∙ lookup-delete seq k n.request_log))
      | inr (e, h) ↦
          let done = run_request-failed e h in
          let left =
            ap (λ (r : Outcome App). rest r.0) done
            ∙ rest-invoke_callback req.request_id false applied in
          subst (Executed n seq (run_request env n seq req).0)
            (sym (ap (λ (r : Outcome App). r.1) done))
            (failed req e stored (Handled-run_request (some e) h) core-app
              (λ k.
                ap (λ (r : Rest). lookup k r.request_callbacks) left
                ∙ invoke_callback-IsTold req.request_id false applied k)
              (ap (λ (r : Rest). r.state) left) (ap (λ (r : Rest). r.request_log) left))
    ]

  -- Executing a sequence number at which no request is stored changes nothing, and is an error.
  -- Where one is stored, the handlers are called in their order, each on what the one before it
  -- left, up to the first that fails; the application's state is what the last one called left,
  -- one execution is recorded, the request's callback is removed and no other, and the votes and
  -- the other parts that `Core` names stay. If a handler fails its error is returned, the request
  -- stays and the node is in the state COMMITTED. If none does, the request is dropped and no
  -- other, the node is idle, and no request of a client is pending.
  pub execute_request-Executed :
      (env : Env) (n : PbftNode App) (seq : ℤ)
      → Executed n seq (execute_request env n seq).0 (execute_request env n seq).1
  unfolding execute_request
  execute_request-Executed env n seq = elim (Option-cases (lookup seq n.request_log)) [
    | inl e ↦ rw (e, execute_request) (missing e refl)
    | inr (req, e) ↦ rw (e, execute_request) (run_request-Executed env n seq req e)
  ]
