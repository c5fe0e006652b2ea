-- ===== src/Validator/Seed/Forgets.antt =====
-- What `SeedTickets` does to a ticket that the node already has.
use dtvn.Prelude.{
  ◌≢◌, ◌⊎◌, ℕ, suc, String, none, some, List, [], ◌∷◌, ◌==◌, ◌≡◌, ap, sym, ◌∙◌, inl, inr, string_eq,
  arith, Bool-cases, Option-cases,
}
use dtvn.Prelude.GoMap.{GoMap, lookup, insert}
use dtvn.Prelude.GoMap.Laws.{lookup-insert}
use dtvn.State.VectorClock.{VectorClock}
use dtvn.State.Machine.{Ticket, seed_tickets, seed_loop, seed_ticket}
use dtvn.Storage.{Bolt, Json, TicketRecord, save_ticket, get_ticket, ok}
use dtvn.Storage.Laws.{IsBolt, IsJson, get_ticket-save_ticket}
use dtvn.Validator.{ValidatorNode}
use dtvn.Validator.Seed.{seed, save_seeds, seeded_record}

-- A ticket is among those to seed.
abbrev pub IsSeed : String → List Ticket → Type 0
IsSeed id [] = ⊥
IsSeed id (t ∷ ts) = (t.id ≡ id) ⊎ IsSeed id ts

bound_other :
    (j id : String) (v : Ticket) (m : GoMap String Ticket) (t : Ticket)
    → lookup j m ≡ none
    → lookup id m ≡ some t
    → lookup id (insert j v m) ≡ some t
bound_other j id v m t e h = ground (arith, lookup-insert j id v m, string_eq.beq_iff j id)

seed_loop-bound :
    (clock : VectorClock) (m : GoMap String Ticket) (k : ℕ) (ts : List Ticket) (id : String)
    (t : Ticket)
    → lookup id m ≡ some t
    → lookup id (seed_loop clock m k ts).0 ≡ some t
unfolding seed_loop seed_ticket
seed_loop-bound clock m k [] id t h = h
seed_loop-bound clock m k (s ∷ ts) id t h = elim (Option-cases (lookup s.id m)) [
  | inr (u, e) ↦ rw (e, seed_loop) (seed_loop-bound clock m k ts id t h)
  | inl e ↦
      rw (e, seed_loop)
        (seed_loop-bound clock (seed_ticket clock m s) (suc k) ts id t
          (bound_other s.id id _ m t e h))
]

module _ {Db Bytes : Type 0} (bolt : Bolt Db Bytes) (json : Json Bytes) (laws : IsBolt bolt)
    (faithful : IsJson json) where
  -- Every ticket is saved without an error.
  abbrev pub AllSaved : Db → List Ticket → Type 0
  AllSaved db [] = Unit
  AllSaved db (t ∷ ts) =
      ((save_ticket bolt json db (seeded_record t)).1 ≡ none)
      × AllSaved (save_ticket bolt json db (seeded_record t)).0 ts

  -- The store has the ticket as ISSUED.
  abbrev pub StoredIssued : Db → String → Type 0
  StoredIssued db id =
      (r : TicketRecord) × (get_ticket bolt json db id ≡ ok r) × (r.state ≡ "ISSUED")

  StoredIssued-save :
      (db : Db) (t : Ticket) (id : String)
      → (save_ticket bolt json db (seeded_record t)).1 ≡ none
      → (t.id ≡ id) ⊎ StoredIssued db id
      → StoredIssued (save_ticket bolt json db (seeded_record t)).0 id
  unfolding seeded_record
  StoredIssued-save db t id h c =
      let ((r, e, agrees), others) =
        get_ticket-save_ticket bolt laws json faithful db (seeded_record t) h in
      elim (Bool-cases (t.id == id)) [
        | inl q ↦
            let same : t.id ≡ id = (string_eq.beq_iff t.id id).0 q in
            (r, ap (get_ticket bolt json _) (sym same) ∙ e, agrees.same_state)
        | inr q ↦
            let ne : t.id ≢ id = ground (arith, string_eq.beq_iff t.id id) in
            elim c [ inl same ↦ absurd (ne same) | inr (r', e', i) ↦ (r', others id ne ∙ e', i) ]
      ]

  StoredIssued-save_seeds :
      (db : Db) (ts : List Ticket) (id : String)
      → AllSaved db ts
      → IsSeed id ts ⊎ StoredIssued db id
      → StoredIssued (save_seeds bolt json db ts) id
  unfolding save_seeds
  StoredIssued-save_seeds db [] id h (inl s) = absurd s
  StoredIssued-save_seeds db [] id h (inr s) = s
  StoredIssued-save_seeds db (t ∷ ts) id h (inl (inl e)) =
      StoredIssued-save_seeds (save_ticket bolt json db (seeded_record t)).0 ts id h.1
        (inr (StoredIssued-save db t id h.0 (inl e)))
  StoredIssued-save_seeds db (t ∷ ts) id h (inl (inr s)) =
      StoredIssued-save_seeds (save_ticket bolt json db (seeded_record t)).0 ts id h.1 (inl s)
  StoredIssued-save_seeds db (t ∷ ts) id h (inr s) =
      StoredIssued-save_seeds (save_ticket bolt json db (seeded_record t)).0 ts id h.1
        (inr (StoredIssued-save db t id h.0 (inr s)))

  -- Where a ticket to be seeded is in the machine already, and every save succeeds, seeding leaves
  -- it as it is in the machine, and leaves it in state ISSUED in the store.
  seed-known_ticket :
      (n : ValidatorNode Db) (ts : List Ticket) (id : String) (t : Ticket)
      → lookup id n.state_machine.current_state ≡ some t
      → IsSeed id ts
      → AllSaved n.storage ts
      → (lookup id (seed bolt json n ts).0.state_machine.current_state ≡ some t)
        × StoredIssued (seed bolt json n ts).0.storage id
  unfolding seed seed_tickets
  seed-known_ticket n ts id t h s all = (
    seed_loop-bound n.state_machine.vector_clock n.state_machine.current_state 0 ts id t h,
    StoredIssued-save_seeds n.storage ts id all (inl s),
  )
