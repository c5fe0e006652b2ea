-- ===== src/Validator/Replay/Once.antt =====
-- Consensus with the ticket machine behind it: cmd/validator/main.go registers the consensus handler
-- with the PBFT node, whose application is the rest of the node.
use mathlib.Core.Option
use mathlib.Core.Path.{subst}
use native.Mathlib.Nat.{le_trans, le_refl}
use dtvn.Prelude.{
  ◌≤◌, String, false, Option, none, List, [], ◌∷◌, ◌==◌, ◌≡◌, refl, ap, sym, ◌∙◌, inl, inr,
  string_eq, Bool-cases,
}
use dtvn.Prelude.Int.{ℤ}
use dtvn.State.Machine.{StateMachine, validate_ticket, consume_ticket, dispute_ticket}
use dtvn.State.Machine
use dtvn.State.Machine.Ops.{Op, validate, consume, dispute, apply}
use dtvn.State.Machine.Lifecycle.{
  budget, budget-apply, budget_unconsumed, consumptions, consumptions-budget-le,
}
use dtvn.Consensus.Types.{Request}
use dtvn.Consensus.Pbft.{PbftNode, Env, ConsensusHandler}
use dtvn.Consensus.Pbft.Inputs.{
  Input, handler, network, dequeue, timeout, propose, notify, clear, callback, replicator, run,
}
use dtvn.Consensus.Pbft.Safety.Runs.{Keeps, AllKeep, InputKeeps, InputsKeep, Kept-run}
use dtvn.Storage.{Bolt, Json}
use dtvn.Validator.{ValidatorNode, call, apply_request, after_request, consensus_handler}
use dtvn.Validator.Sync.Safe.{state_machine-persist_ticket}
use dtvn.Validator.Replay.{handler_method, by_of, hooked, apply_validate, apply_consume}

module _ {Db Bytes : Type 0} (bolt : Bolt Db Bytes) (json : Json Bytes) where
  -- The handler as consensus calls it, with the clock and the texts of the errors.
  abbrev pub ticket_handler :
      (Request → ValidatorNode Db → ℤ)
      → (Machine.Error → String)
      → ConsensusHandler (ValidatorNode Db)
  ticket_handler clock text req n =
      let (n', e) = consensus_handler bolt json n req (clock req n) in (n', Option.map text e)

  apply_dispute :
      (n : ValidatorNode Db) (req : Request) (now : ℤ)
      → req.operation ≡ "DISPUTE"
      → apply_request bolt json n req now
        ≡ call bolt json n req.ticket_id
            (λ sm. dispute_ticket sm req.ticket_id (by_of bolt json n req) now)
  unfolding apply_request
  apply_dispute n req now op = rw (apply_request, op) refl

  module _ (id : String) (n : ValidatorNode Db) (req : Request) (now : ℤ) where
    abbrev Shrinks : Type 0
    Shrinks =
        budget id (consensus_handler bolt json n req now).0.state_machine
        ≤ budget id n.state_machine

    by_op :
        (op : Op)
        → apply_request bolt json n req now ≡ call bolt json n req.ticket_id (λ sm. apply sm op)
        → Shrinks
    by_op op e =
        let (machine, passed) = handler_method bolt json n req now (λ sm. apply sm op) e in
        rw machine (budget-apply id (hooked bolt json n) op)

    unnamed :
        (req.operation == "VALIDATE") ≡ false
        → (req.operation == "CONSUME") ≡ false
        → (req.operation == "DISPUTE") ≡ false
        → Shrinks
    unfolding apply_request consensus_handler after_request
    unnamed v c d =
        let same : apply_request bolt json n req now ≡ (n, none) =
          rw (apply_request, v, c, d) refl in
        let machine : (consensus_handler bolt json n req now).0.state_machine ≡ n.state_machine =
          ap
            (λ (o : ValidatorNode Db × Option Machine.Error).
              (after_request bolt json req.ticket_id o).0.state_machine)
            same
          ∙ state_machine-persist_ticket bolt json n req.ticket_id in
        rw machine (le_refl _)

    pub budget-consensus_handler : Shrinks
    unfolding apply
    budget-consensus_handler = elim (Bool-cases (req.operation == "VALIDATE")) [
      | inl v ↦
          by_op (validate req.ticket_id (by_of bolt json n req) now)
            (apply_validate bolt json n req now ((string_eq.beq_iff req.operation "VALIDATE").0 v))
      | inr v ↦ elim (Bool-cases (req.operation == "CONSUME")) [
        | inl c ↦
            by_op (consume req.ticket_id (by_of bolt json n req) now)
              (apply_consume bolt json n req now ((string_eq.beq_iff req.operation "CONSUME").0 c))
        | inr c ↦ elim (Bool-cases (req.operation == "DISPUTE")) [
          | inl d ↦
              by_op (dispute req.ticket_id (by_of bolt json n req) now)
                (apply_dispute n req now ((string_eq.beq_iff req.operation "DISPUTE").0 d))
          | inr d ↦ unnamed v c d
        ]
      ]
    ]

  -- No handler is registered on the way.
  abbrev IsSilent : Input (ValidatorNode Db) → Type 0
  IsSilent (handler h) = ⊥
  IsSilent _ = Unit

  abbrev pub AllSilent : List (Env × Input (ValidatorNode Db)) → Type 0
  AllSilent [] = Unit
  AllSilent ((env, input) ∷ inputs) = IsSilent input × AllSilent inputs

  module _ (id : String) where
    -- The ticket was not consumed yet, or not more than once and cannot be again.
    abbrev Bounded : ValidatorNode Db → Type 0
    Bounded app = budget id app.state_machine ≤ 1

    InputKeeps-silent :
        (input : Input (ValidatorNode Db)) → IsSilent input → InputKeeps Bounded input
    InputKeeps-silent (handler h) i = absurd i
    InputKeeps-silent (network kind payload) i = tt
    InputKeeps-silent dequeue i = tt
    InputKeeps-silent timeout i = tt
    InputKeeps-silent (propose req) i = tt
    InputKeeps-silent notify i = tt
    InputKeeps-silent clear i = tt
    InputKeeps-silent (callback k f) i = tt
    InputKeeps-silent replicator i = tt

    InputsKeep-silent :
        (inputs : List (Env × Input (ValidatorNode Db)))
        → AllSilent inputs
        → InputsKeep Bounded inputs
    InputsKeep-silent [] i = tt
    InputsKeep-silent ((env, input) ∷ inputs) i =
        (InputKeeps-silent input i.0, InputsKeep-silent inputs i.1)

    Keeps-ticket_handler :
        (clock : Request → ValidatorNode Db → ℤ) (text : Machine.Error → String)
        → Keeps Bounded (ticket_handler clock text)
    Keeps-ticket_handler clock text req n p =
        le_trans (budget-consensus_handler id n req (clock req n)) p

    -- A PBFT node whose one handler is the consensus handler over its ticket machine, and whose
    -- log has no transition of a ticket to CONSUMED, has at most one after any sequence of inputs
    -- of which none registers a handler, whatever the clock says and the errors are called.
    pub consumptions-run_consensus :
        (clock : Request → ValidatorNode Db → ℤ) (text : Machine.Error → String)
        (n : PbftNode (ValidatorNode Db)) (inputs : List (Env × Input (ValidatorNode Db)))
        → n.handlers ≡ ticket_handler clock text ∷ []
        → AllSilent inputs
        → consumptions id n.app.state_machine ≡ 0
        → consumptions id (run n inputs).app.state_machine ≤ 1
    consumptions-run_consensus clock text n inputs hs silent e =
        let kept = Kept-run Bounded n inputs (InputsKeep-silent inputs silent) (
          budget_unconsumed id n.app.state_machine e,
          subst (AllKeep Bounded) (sym hs) (Keeps-ticket_handler clock text, tt),
        ) in
        le_trans (consumptions-budget-le id (run n inputs).app.state_machine) kept.0
