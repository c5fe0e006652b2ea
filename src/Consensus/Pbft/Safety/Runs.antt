-- ===== src/Consensus/Pbft/Safety/Runs.antt =====
-- How much a node executes over its life.
use mathlib.Core.Path.{subst}
use dtvn.Prelude.{
  inl, inr, Option-cases, ◌++◌, ◌≡◌, refl, sym, suc, ◌+◌, ◌≤◌, List, [], ◌∷◌, ap, length, arith,
}
use dtvn.Consensus.Types.{Request}
use dtvn.Consensus.Pbft.{PbftNode, Env, ConsensusHandler, register_handler}
use dtvn.Consensus.Pbft.Execute.{call_handlers}
use dtvn.Consensus.Pbft.Core.{executions}
use dtvn.Consensus.Pbft.Inputs.{
  Input, network, dequeue, timeout, propose, notify, clear, handler, callback, replicator, step,
  run,
}
use dtvn.Consensus.Pbft.Phases.Quorate.{Work, work, Quorate, unexecuted, decided}
use dtvn.Consensus.Pbft.Safety.{step-Quorate, with_handler}

module _ {App : Type 0} where
  length-executions-le :
      (n m : PbftNode App) → Quorate n m → length (executions m) ≤ suc (length (executions n))
  length-executions-le n m (unexecuted e) =
      omega (arith, ap (λ (w : Work App). length w.executions) e)
  length-executions-le n m (decided seq req e q) =
      omega (arith, ap (λ (w : Work App). length w.executions) e)

  -- Registering a handler executes nothing.
  executions-with_handler :
      (n : PbftNode App) (input : Input App) → executions (with_handler n input) ≡ executions n
  unfolding register_handler
  executions-with_handler n (handler h) = refl
  executions-with_handler n (network kind payload) = refl
  executions-with_handler n dequeue = refl
  executions-with_handler n timeout = refl
  executions-with_handler n (propose req) = refl
  executions-with_handler n notify = refl
  executions-with_handler n clear = refl
  executions-with_handler n (callback id f) = refl
  executions-with_handler n replicator = refl

  -- Over any sequence of inputs, a node hands at most as many requests to its handlers as it has
  -- inputs.
  length-executions-run-le :
      (n : PbftNode App) (inputs : List (Env × Input App))
      → length (executions (run n inputs)) ≤ length (executions n) + length inputs
  unfolding run
  length-executions-run-le n [] = omega arith
  length-executions-run-le n ((env, input) ∷ inputs) = omega (
    arith,
    length-executions-run-le (step env n input) inputs,
    ap length (executions-with_handler n input),
    length-executions-le (with_handler n input) (step env n input) (step-Quorate env n input),
  )

  -- A handler keeps what holds of the application's state.
  abbrev pub Keeps : (App → Type 0) → ConsensusHandler App → Type 0
  Keeps P h = (req : Request) (app : App) → P app → P (h req app).0

  abbrev pub AllKeep : (App → Type 0) → List (ConsensusHandler App) → Type 0
  AllKeep P [] = Unit
  AllKeep P (h ∷ hs) = Keeps P h × AllKeep P hs

  -- So do the handlers that are registered on the way.
  abbrev pub InputKeeps : (App → Type 0) → Input App → Type 0
  InputKeeps P (handler h) = Keeps P h
  InputKeeps P _ = Unit

  abbrev pub InputsKeep : (App → Type 0) → List (Env × Input App) → Type 0
  InputsKeep P [] = Unit
  InputsKeep P ((env, input) ∷ inputs) = InputKeeps P input × InputsKeep P inputs

  module _ (P : App → Type 0) where
    call_handlers-keeps :
        (hs : List (ConsensusHandler App)) (req : Request) (app : App)
        → AllKeep P hs
        → P app
        → P (call_handlers hs req app).0
    unfolding call_handlers
    call_handlers-keeps [] req app k p = p
    call_handlers-keeps (h ∷ hs) req app k p = elim (Option-cases (h req app).1) [
      | inl e ↦ rw (e, call_handlers) (call_handlers-keeps hs req (h req app).0 k.1 (k.0 req app p))
      | inr (x, e) ↦ rw (e, call_handlers) (k.0 req app p)
    ]

    AllKeep-append :
        (hs : List (ConsensusHandler App)) (h : ConsensusHandler App)
        → AllKeep P hs
        → Keeps P h
        → AllKeep P (hs ++ h ∷ [])
    AllKeep-append [] h k p = (p, tt)
    AllKeep-append (x ∷ hs) h k p = (k.0, AllKeep-append hs h k.1 p)

    -- What holds of the application's state, and is kept by the handlers.
    abbrev pub Kept : Work App → Type 0
    Kept w = P w.app × AllKeep P w.handlers

    Kept-with_handler :
        (n : PbftNode App) (input : Input App)
        → InputKeeps P input
        → Kept (work n)
        → Kept (work (with_handler n input))
    unfolding register_handler
    Kept-with_handler n (handler h) i k = (k.0, AllKeep-append n.handlers h k.1 i)
    Kept-with_handler n (network kind payload) i k = k
    Kept-with_handler n dequeue i k = k
    Kept-with_handler n timeout i k = k
    Kept-with_handler n (propose req) i k = k
    Kept-with_handler n notify i k = k
    Kept-with_handler n clear i k = k
    Kept-with_handler n (callback id f) i k = k
    Kept-with_handler n replicator i k = k

    Kept-Quorate : (n m : PbftNode App) → Quorate n m → Kept (work n) → Kept (work m)
    Kept-Quorate n m (unexecuted e) k = subst Kept (sym e) k
    Kept-Quorate n m (decided seq req e q) k =
        subst Kept (sym e) (call_handlers-keeps n.handlers req n.app k.1 k.0, k.1)

    -- Whatever happens to a node, what its handlers keep of the application's state stays true.
    pub Kept-run :
        (n : PbftNode App) (inputs : List (Env × Input App))
        → InputsKeep P inputs
        → Kept (work n)
        → Kept (work (run n inputs))
    unfolding run
    Kept-run n [] i k = k
    Kept-run n ((env, input) ∷ inputs) i k = Kept-run (step env n input) inputs i.1 (
        Kept-Quorate (with_handler n input) (step env n input) (step-Quorate env n input)
          (Kept-with_handler n input i.0 k))
