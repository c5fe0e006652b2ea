-- ===== src/Validator/Sync/Safe.antt =====
-- What a node takes over from a peer that synchronizes it.
use dtvn.Prelude.{
  ◌⊎◌, ◌||◌, not, String, Bool, true, false, Option, none, some, List, [], ◌∷◌, if◌then◌else◌, ◌==◌,
  ◌≡◌, refl, ap, sym, ◌∙◌, inl, inr, string_eq, arith, Bool-cases, Option-cases,
}
use dtvn.Prelude.Int.{ℤ, ltb_ℤ}
use dtvn.Prelude.GoMap.{GoMap, lookup}
use dtvn.Prelude.GoMap.Laws.{lookup-insert}
use dtvn.State.Machine.{
  StateMachine, Ticket, TicketState, sync_ticket, with_synced, synced_ticket, has_ticket,
}
use dtvn.State.Machine
use dtvn.Storage.{Bolt, Json}
use dtvn.Validator.{
  ValidatorNode, call, after_handlers, persist_ticket, machine_handlers, called_handlers,
}
use dtvn.Validator.Convert.{PbTicket}
use dtvn.Validator.Sync.{
  StateSyncResponse, sync_one, sync_loop, handle_state_sync_response, is_validated,
}

abbrev pub Tickets : Type 0
Tickets = GoMap String Ticket

-- A peer says that a ticket is validated.
abbrev pub Offers : String → List PbTicket → Type 0
Offers id [] = ⊥
Offers id (t ∷ ts) = ((t.ticket_id ≡ id) × (is_validated t.state ≡ true)) ⊎ Offers id ts

-- A ticket that was not known is there, in state VALIDATED.
pub record IsNew (id : String) (ts : List PbTicket) (m m' : Tickets) : Type 0 where
  pub unknown : lookup id m ≡ none
  pub ticket : Ticket
  pub held : lookup id m' ≡ some ticket
  pub validated : ticket.state ≡ TicketState.validated
  pub offered : Offers id ts

-- Every ticket is as it was, or new.
abbrev Grown : List PbTicket → Tickets → Tickets → Type 0
Grown ts m m' = (id : String) → (lookup id m' ≡ lookup id m) ⊎ IsNew id ts m m'

Grown-cons :
    (t : PbTicket) (ts : List PbTicket) (m₀ m₁ m₂ : Tickets)
    → Grown (t ∷ []) m₀ m₁
    → Grown ts m₁ m₂
    → Grown (t ∷ ts) m₀ m₂
Grown-cons t ts m₀ m₁ m₂ one rest id = go (one id) (rest id)
  where
    go :
        (lookup id m₁ ≡ lookup id m₀) ⊎ IsNew id (t ∷ []) m₀ m₁
        → (lookup id m₂ ≡ lookup id m₁) ⊎ IsNew id ts m₁ m₂
        → (lookup id m₂ ≡ lookup id m₀) ⊎ IsNew id (t ∷ ts) m₀ m₂
    go (inl e) (inl f) = inl (f ∙ e)
    go (inr n) (inl f) = inr (record {
      unknown = n.unknown;
      ticket = n.ticket;
      held = f ∙ n.held;
      validated = n.validated;
      offered = elim n.offered [ inl o ↦ inl o | inr o ↦ absurd o ];
    })
    go (inl e) (inr n) = inr (record {
      unknown = sym e ∙ n.unknown;
      ticket = n.ticket;
      held = n.held;
      validated = n.validated;
      offered = inr n.offered;
    })
    go (inr n) (inr k) = absurd (ground (arith, n.held, k.unknown))

module _ {Db Bytes : Type 0} (bolt : Bolt Db Bytes) (json : Json Bytes) where
  pub state_machine-persist_ticket :
      (n : ValidatorNode Db) (id : String)
      → (persist_ticket bolt json n id).state_machine ≡ n.state_machine
  unfolding persist_ticket
  state_machine-persist_ticket n id = ground arith

  state_machine-after_handlers :
      (n : ValidatorNode Db) (t : Option Ticket)
      → (after_handlers bolt json n t).state_machine ≡ n.state_machine
  unfolding after_handlers
  state_machine-after_handlers n none = refl
  state_machine-after_handlers n (some t) = refl

  -- Both branches hold the machine of the second.
  either_machine :
      (b : Bool) (x y : ValidatorNode Db)
      → x.state_machine ≡ y.state_machine
      → (if b then x else y).state_machine ≡ y.state_machine
  either_machine true x y h = h
  either_machine false x y h = refl

  pub state_machine-call :
      (n : ValidatorNode Db) (id : String) (method : StateMachine → Machine.Outcome)
      → (call bolt json n id method).0.state_machine
        ≡ (method (record n.state_machine { handlers = machine_handlers bolt json n.storage })).0
  unfolding call
  state_machine-call n id method =
      let outcome =
        method (record n.state_machine { handlers = machine_handlers bolt json n.storage }) in
      let moved = record n { state_machine = outcome.0 } in
      either_machine (called_handlers outcome.1)
        (after_handlers bolt json moved (lookup id outcome.0.current_state)) moved
        (state_machine-after_handlers moved (lookup id outcome.0.current_state))

  module _ (n : ValidatorNode Db) (responder : String) (t : PbTicket) (now : ℤ) where
    abbrev synced : Machine.Outcome
    synced =
        sync_ticket (record n.state_machine { handlers = machine_handlers bolt json n.storage })
          t.ticket_id responder t.metadata now

    state_machine-sync_one : (sync_one bolt json n responder t now).state_machine ≡ synced.0
    unfolding sync_one
    state_machine-sync_one =
        let called =
          call bolt json n t.ticket_id
            (λ sm. sync_ticket sm t.ticket_id responder t.metadata now) in
        elim (Option-cases called.1) [
          | inl e ↦
              rw (e, sync_one)
                (state_machine-persist_ticket called.0 t.ticket_id
                  ∙ state_machine-call n t.ticket_id _)
          | inr (x, e) ↦ rw (e, sync_one) (state_machine-call n t.ticket_id _)
        ]

    Grown-sync_ticket :
        is_validated t.state ≡ true
        → Grown (t ∷ []) n.state_machine.current_state synced.0.current_state
    unfolding sync_ticket with_synced
    Grown-sync_ticket v id =
        elim (Option-cases (lookup t.ticket_id n.state_machine.current_state)) [
          | inr (u, e) ↦ inl (rw (e, sync_ticket) refl)
          | inl e ↦ elim (Bool-cases (t.ticket_id == id)) [
            | inr q ↦ inl (
                rw (e, sync_ticket)
                  (rw (lookup-insert t.ticket_id id _ n.state_machine.current_state, q) refl))
            | inl q ↦
                let same : t.ticket_id ≡ id = (string_eq.beq_iff t.ticket_id id).0 q in
                inr (record {
                  unknown = ap (λ x. lookup x n.state_machine.current_state) (sym same) ∙ e;
                  ticket =
                      synced_ticket
                        (record n.state_machine { handlers = machine_handlers bolt json n.storage })
                        t.ticket_id responder t.metadata now;
                  held =
                      rw (e, sync_ticket)
                        (rw (lookup-insert t.ticket_id id _ n.state_machine.current_state, q) refl);
                  validated = refl;
                  offered = inl (same, v);
                })
          ]
        ]

  Grown-same : (ts : List PbTicket) (m m' : Tickets) → m' ≡ m → Grown ts m m'
  Grown-same ts m m' e id = inl (ap (lookup id) e)

  Grown-sync_loop :
      (n : ValidatorNode Db) (responder : String) (ts : List PbTicket) (now : ℤ)
      → Grown ts n.state_machine.current_state
          (sync_loop bolt json n responder ts now).state_machine.current_state
  unfolding sync_loop
  Grown-sync_loop n responder [] now =
      Grown-same [] n.state_machine.current_state n.state_machine.current_state refl
  Grown-sync_loop n responder (t ∷ ts) now =
      elim (Bool-cases (has_ticket n.state_machine t.ticket_id || not (is_validated t.state))) [
        | inl e ↦
            rw (sync_loop, e)
              (Grown-cons t ts n.state_machine.current_state n.state_machine.current_state
                (sync_loop bolt json n responder ts now).state_machine.current_state
                (Grown-same (t ∷ []) n.state_machine.current_state n.state_machine.current_state
                  refl)
                (Grown-sync_loop n responder ts now))
        | inr e ↦
            let n' = sync_one bolt json n responder t now in
            rw (sync_loop, e)
              (Grown-cons t ts n.state_machine.current_state n'.state_machine.current_state
                (sync_loop bolt json n' responder ts now).state_machine.current_state
                (rw (state_machine-sync_one n responder t now)
                  (Grown-sync_ticket n responder t now (ground arith)))
                (Grown-sync_loop n' responder ts now))
      ]

  -- A response of a peer leaves every ticket of the machine as it was or adds one that was not
  -- known, in state VALIDATED; that only if the peer's sequence number is above the node's own and
  -- the response has the ticket as VALIDATED.
  pub handle_state_sync_response_lem :
      (n : ValidatorNode Db) (sequence : ℤ) (response : StateSyncResponse) (now : ℤ) (id : String)
      → let n' = handle_state_sync_response bolt json n sequence response now in
        (lookup id n'.state_machine.current_state ≡ lookup id n.state_machine.current_state)
        ⊎ ((ltb_ℤ sequence response.current_sequence ≡ true)
            × IsNew id response.validated_tickets n.state_machine.current_state
                n'.state_machine.current_state)
  unfolding handle_state_sync_response
  handle_state_sync_response_lem n sequence response now id =
      elim (Bool-cases (ltb_ℤ sequence response.current_sequence)) [
        | inr e ↦ inl (rw (e, handle_state_sync_response) refl)
        | inl e ↦ elim (Grown-sync_loop n response.responder_id response.validated_tickets now id) [
          | inl same ↦ inl (rw (e, handle_state_sync_response) same)
          | inr new ↦ inr (e, rw (e, handle_state_sync_response) new)
        ]
      ]
