-- ===== src/Validator/Restart/Records.antt =====
-- A node that starts has a ticket for just the records of its store, as they read.
use mathlib.Core.Path.{subst}
use dtvn.Prelude.{
  String, true, Option, none, some, [], ◌==◌, ◌≡◌, ◌≢◌, refl, sym, inl, inr, string_eq, Bool-cases,
}
use dtvn.Prelude.GoMap.{lookup}
use dtvn.Prelude.GoMap.Laws.{beq_ne}
use dtvn.State.Machine.{
  Ticket, TicketState, copy_ticket, issued, validated, consumed, disputed, pending, other,
}
use dtvn.Storage.{Bolt, Json, TicketRecord, Result, ok, err, bucket_tickets, get_ticket}
use dtvn.Storage.Laws.{IsBolt}
use dtvn.Validator.{ValidatorNode, load_tickets_from_store}
use dtvn.Validator.Convert.{ticket_of, string_state}
use dtvn.Validator.Restart.{IsKeyed, from_record, lookup-load_tickets_from_store}

-- How a state is written in a record.
abbrev pub IsWritten : TicketState → String → Type 0
IsWritten issued s = s ≡ "ISSUED"
IsWritten pending s = s ≡ "PENDING"
IsWritten validated s = s ≡ "VALIDATED"
IsWritten consumed s = s ≡ "CONSUMED"
IsWritten disputed s = s ≡ "DISPUTED"
IsWritten (other t) s =
    (t ≡ s)
    × (s ≢ "ISSUED")
    × (s ≢ "PENDING")
    × (s ≢ "VALIDATED")
    × (s ≢ "CONSUMED")
    × (s ≢ "DISPUTED")

-- The ticket says what the record says, but for what the maps hold.
pub record IsReadFrom (r : TicketRecord) (t : Ticket) : Type 0 where
  same_id : t.id ≡ r.id
  written : IsWritten t.state r.state
  same_payload : t.payload ≡ r.payload
  same_validator_id : t.validator_id ≡ r.validator_id
  same_timestamp : t.timestamp ≡ r.timestamp

-- A record that can be read is a ticket of the node, and nothing else is.
abbrev pub IsLoaded : Result TicketRecord → Option Ticket → Type 0
IsLoaded (ok r) o = (t : Ticket) × (o ≡ some t) × IsReadFrom r t
IsLoaded (err e) o = o ≡ none

string_state-IsWritten : (s : String) → IsWritten (string_state s) s
unfolding string_state
string_state-IsWritten s = elim (Bool-cases (s == "ISSUED")) [
  | inl a ↦ rw a ((string_eq.beq_iff s "ISSUED").0 a)
  | inr a ↦ elim (Bool-cases (s == "PENDING")) [
    | inl b ↦ rw (a, b) ((string_eq.beq_iff s "PENDING").0 b)
    | inr b ↦ elim (Bool-cases (s == "VALIDATED")) [
      | inl c ↦ rw (a, b, c) ((string_eq.beq_iff s "VALIDATED").0 c)
      | inr c ↦ elim (Bool-cases (s == "CONSUMED")) [
        | inl d ↦ rw (a, b, c, d) ((string_eq.beq_iff s "CONSUMED").0 d)
        | inr d ↦ elim (Bool-cases (s == "DISPUTED")) [
          | inl e ↦ rw (a, b, c, d, e) ((string_eq.beq_iff s "DISPUTED").0 e)
          | inr e ↦
              rw (a, b, c, d, e)
                (
                  refl,
                  beq_ne s "ISSUED" a,
                  beq_ne s "PENDING" b,
                  beq_ne s "VALIDATED" c,
                  beq_ne s "CONSUMED" d,
                  beq_ne s "DISPUTED" e,
                )
        ]
      ]
    ]
  ]
]

module _ {Db Bytes : Type 0} (bolt : Bolt Db Bytes) (json : Json Bytes) (laws : IsBolt bolt) where
  from_record-IsLoaded :
      (node_id : String) (r : Result TicketRecord)
      → IsLoaded r (from_record bolt json laws node_id r)
  unfolding ticket_of copy_ticket
  from_record-IsLoaded node_id (err e) = refl
  from_record-IsLoaded node_id (ok r) = (
    copy_ticket (ticket_of node_id r),
    refl,
    record {
      same_id = refl;
      written = string_state-IsWritten r.state;
      same_payload = refl;
      same_validator_id = refl;
      same_timestamp = refl;
    },
  )

  -- A node with no tickets that loads its store, in which every record is under its own id, has a
  -- ticket just where `GetTicket` finds a record, and that ticket has the record's id, data,
  -- validator and timestamp, and the state that the record's text names. BoltDB is taken to do
  -- what `IsBolt` says.
  pub load_tickets_from_store-IsLoaded :
      (n : ValidatorNode Db) (id : String)
      → bolt.has_bucket n.storage bucket_tickets ≡ true
      → IsKeyed bolt json laws n.storage
      → n.state_machine.current_state ≡ []
      → IsLoaded
          (get_ticket bolt json n.storage id)
          (lookup id (load_tickets_from_store bolt json n).state_machine.current_state)
  load_tickets_from_store-IsLoaded n id h keyed new =
      subst (IsLoaded (get_ticket bolt json n.storage id))
        (sym (lookup-load_tickets_from_store bolt json laws n id h keyed new))
        (from_record-IsLoaded n.node_id (get_ticket bolt json n.storage id))
