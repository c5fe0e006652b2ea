-- ===== src/Validator/Restart.antt =====
-- What a node that starts finds in its store: the tickets that were persisted.
pub mod Records
use mathlib.Core.List.{append_assoc, append-nil}
use dtvn.Prelude.{
  String, true, Option, none, some, List, [], ◌∷◌, ◌++◌, map, ◌==◌, ◌≡◌, refl, ap, sym, ◌∙◌, inl,
  inr, string_eq, arith, Bool-cases, Option-cases, beq_refl,
}
use dtvn.Prelude.GoMap.{GoMap, lookup, insert, IsMap, IsFresh}
use dtvn.Prelude.GoMap.Laws.{lookup-insert, lookup_of_IsFresh}
use dtvn.State.Machine.{
  Ticket, TicketState, copy_ticket, get_ticket as machine_get_ticket, issued, validated, consumed,
  disputed, pending, other,
}
use dtvn.State.Machine.Merge.{merge_state, merge_tickets, take_in}
use dtvn.Storage.{
  Bolt, Json, Encoding, TicketRecord, Result, ok, err, decode, decode_all, load_all,
  get_all_tickets, load, bucket_tickets, save_ticket, get_ticket,
}
use dtvn.Storage.Laws.{IsBolt, IsJson, Agrees, get_ticket-save_ticket, save-Saved}
use dtvn.Validator.{ValidatorNode, load_tickets_from_store, persist_ticket}
use dtvn.Validator.Convert.{ticket_of, record_of, state_string, string_state}

-- The ticket that a record is restored to.
abbrev from_option : String → Option TicketRecord → Option Ticket
from_option node_id none = none
from_option node_id (some r) = some (copy_ticket (ticket_of node_id r))

module _ {Bytes : Type 0} (encoding : Encoding Bytes TicketRecord) where
  -- An entry is a record under its own id.
  abbrev pub IsEntry : String → Bytes → Type 0
  IsEntry k v = (r : TicketRecord) × (encoding.unmarshal v ≡ some r) × (r.id ≡ k)

  -- The records of the entries.
  abbrev Matches : List (String × Bytes) → List TicketRecord → Type 0
  Matches [] [] = Unit
  Matches ((k, v) ∷ es) (r ∷ rs) = (encoding.unmarshal v ≡ some r) × (r.id ≡ k) × Matches es rs
  Matches [] (r ∷ rs) = ⊥
  Matches (e ∷ es) [] = ⊥

  abbrev AllEntries : List (String × Bytes) → Type 0
  AllEntries [] = Unit
  AllEntries ((k, v) ∷ es) = IsEntry k v × AllEntries es

  AllEntries-of_lookup :
      (es : GoMap String Bytes)
      → IsMap es
      → ((k : String) (v : Bytes) → lookup k es ≡ some v → IsEntry k v)
      → AllEntries es
  unfolding lookup
  AllEntries-of_lookup [] d h = tt
  AllEntries-of_lookup ((k, v) ∷ es) d h = (
    h k v (rw (beq_refl k) refl),
    AllEntries-of_lookup es d.1
        λ j w l. h j w (ground (arith, string_eq.beq_iff k j, lookup_of_IsFresh k es d.0)),
  )

  decode_all-Matches :
      (ms : List TicketRecord) (es : List (String × Bytes))
      → AllEntries es
      → (rs : List TicketRecord) × (decode_all encoding ms es ≡ ok (ms ++ rs)) × Matches es rs
  unfolding decode_all
  decode_all-Matches ms [] h = ([], sym (ap ok (append-nil ms)), tt)
  decode_all-Matches ms ((k, v) ∷ es) ((r, u, i), h) =
      let (rs, e, m) = decode_all-Matches (ms ++ r ∷ []) es h in
      (r ∷ rs, (rw (u, decode_all) (e ∙ ap ok (append_assoc ms (r ∷ []) rs))), (u, i, m))

  module _ (node_id : String) where
    -- The ticket that an entry is restored to.
    abbrev pub restored : Option Bytes → Option Ticket
    restored none = none
    restored (some v) = from_option node_id (encoding.unmarshal v)

    abbrev Unbound : GoMap String Ticket → List (String × Bytes) → Type 0
    Unbound m [] = Unit
    Unbound m ((k, v) ∷ es) = (lookup k m ≡ none) × Unbound m es

    Unbound-insert :
        (k : String) (t : Ticket) (m : GoMap String Ticket) (es : List (String × Bytes))
        → IsFresh k es
        → Unbound m es
        → Unbound (insert k t m) es
    Unbound-insert k t m [] f u = tt
    Unbound-insert k t m ((j, v) ∷ es) f u = (
      ground (arith, lookup-insert k j t m, string_eq.beq_iff k j, u.0),
      Unbound-insert k t m es f.1 u.1,
    )

    Unbound-nil : (es : List (String × Bytes)) → Unbound [] es
    unfolding lookup
    Unbound-nil [] = tt
    Unbound-nil (e ∷ es) = (refl, Unbound-nil es)

    abbrev or : Option Ticket → Option Ticket → Option Ticket
    or none t = t
    or (some u) t = some u

    take_in_new :
        (m : GoMap String Ticket) (t : Ticket)
        → lookup t.id m ≡ none
        → take_in m t ≡ insert t.id (copy_ticket t) m
    unfolding take_in
    take_in_new m t h = rw (h, take_in) refl

    lookup-cons :
        (m : GoMap String Ticket) (es : List (String × Bytes)) (k : String) (v : Bytes)
        (r : TicketRecord) (id : String)
        → IsFresh k es
        → encoding.unmarshal v ≡ some r
        → or (restored (lookup id es)) (lookup id (insert k (copy_ticket (ticket_of node_id r)) m))
          ≡ or (restored (lookup id ((k, v) ∷ es))) (lookup id m)
    unfolding lookup
    lookup-cons m es k v r id f e =
        let t = copy_ticket (ticket_of node_id r) in
        elim (Bool-cases (k == id)) [
          | inl q ↦
              let gone : lookup id es ≡ none =
                ap (λ x. lookup x es) (sym ((string_eq.beq_iff k id).0 q))
                ∙ lookup_of_IsFresh k es f in
              rw (lookup-insert k id t m, q, gone, e) refl
          | inr q ↦ rw (lookup-insert k id t m, q) refl
        ]

    lookup-merge_tickets :
        (m : GoMap String Ticket) (es : List (String × Bytes)) (rs : List TicketRecord)
        (id : String)
        → IsMap es
        → Unbound m es
        → Matches es rs
        → lookup id (merge_tickets m (map (ticket_of node_id) rs))
          ≡ or (restored (lookup id es)) (lookup id m)
    unfolding merge_tickets lookup ticket_of
    lookup-merge_tickets m [] [] id d u h = refl
    lookup-merge_tickets m ((k, v) ∷ es) (r ∷ rs) id d u (e, i, h) =
        let t = copy_ticket (ticket_of node_id r) in
        let taken : take_in m (ticket_of node_id r) ≡ insert k t m =
          take_in_new m (ticket_of node_id r) (ap (λ x. lookup x m) i ∙ u.0)
          ∙ ap (λ x. insert x t m) i in
        ap (λ m'. lookup id (merge_tickets m' (map (ticket_of node_id) rs))) taken
        ∙ lookup-merge_tickets (insert k t m) es rs id d.1 (Unbound-insert k t m es d.0 u.1) h
        ∙ lookup-cons m es k v r id d.0 e
    lookup-merge_tickets m [] (r ∷ rs) id d u h = absurd h
    lookup-merge_tickets m (e ∷ es) [] id d u h = absurd h

module _ {Db Bytes : Type 0} (bolt : Bolt Db Bytes) (json : Json Bytes) (laws : IsBolt bolt) where
  -- Every ticket is stored under its own id.
  abbrev pub IsKeyed : Db → Type 0
  IsKeyed db =
      (k : String) (v : Bytes) → bolt.get db bucket_tickets k ≡ some v → IsEntry json.ticket k v

  -- What a node restores, as the store's own method reads it.
  abbrev pub from_record : String → Result TicketRecord → Option Ticket
  from_record node_id (ok r) = some (copy_ticket (ticket_of node_id r))
  from_record node_id (err e) = none

  from_record-get_ticket :
      (node_id : String) (db : Db) (id : String)
      → bolt.has_bucket db bucket_tickets ≡ true
      → from_record node_id (get_ticket bolt json db id)
        ≡ restored json.ticket node_id (bolt.get db bucket_tickets id)
  unfolding get_ticket load decode
  from_record-get_ticket node_id db id h = elim (Option-cases (bolt.get db bucket_tickets id)) [
    | inl g ↦ rw (h, g) refl
    | inr (v, g) ↦ elim (Option-cases (json.ticket.unmarshal v)) [
      | inl u ↦ rw (h, g, decode, u) refl
      | inr (r, u) ↦ rw (h, g, decode, u) refl
    ]
  ]

  get_all_tickets-Matches :
      (db : Db)
      → bolt.has_bucket db bucket_tickets ≡ true
      → IsKeyed db
      → (rs : List TicketRecord) × (get_all_tickets bolt json db ≡ ok rs)
        × Matches json.ticket (bolt.entries db bucket_tickets) rs
  unfolding get_all_tickets load_all
  get_all_tickets-Matches db h keyed =
      let es = bolt.entries db bucket_tickets in
      let (rs, e, m) = decode_all-Matches json.ticket [] es (
        AllEntries-of_lookup json.ticket es (laws.entries-IsMap db bucket_tickets)
          λ k v l. keyed k v (sym (laws.lookup-entries db bucket_tickets k) ∙ l)) in
      (rs, rw h e, m)

  loaded :
      (n : ValidatorNode Db) (rs : List TicketRecord)
      → get_all_tickets bolt json n.storage ≡ ok rs
      → n.state_machine.current_state ≡ []
      → (load_tickets_from_store bolt json n).state_machine.current_state
        ≡ merge_tickets [] (map (ticket_of n.node_id) rs)
  unfolding load_tickets_from_store merge_state
  loaded n rs e new =
      rw (e, load_tickets_from_store) (ap (λ m. merge_tickets m (map (ticket_of n.node_id) rs)) new)

  or_none : (t : Option Ticket) → or json.ticket "" t none ≡ t
  or_none none = refl
  or_none (some t) = refl

  -- A node with no tickets that loads its store, in which every record is under its own id, has
  -- just the tickets that `GetTicket` finds there.
  pub lookup-load_tickets_from_store :
      (n : ValidatorNode Db) (id : String)
      → bolt.has_bucket n.storage bucket_tickets ≡ true
      → IsKeyed n.storage
      → n.state_machine.current_state ≡ []
      → lookup id (load_tickets_from_store bolt json n).state_machine.current_state
        ≡ from_record n.node_id (get_ticket bolt json n.storage id)
  unfolding lookup
  lookup-load_tickets_from_store n id h keyed new =
      let es = bolt.entries n.storage bucket_tickets in
      let (rs, e, m) = get_all_tickets-Matches n.storage h keyed in
      ap (lookup id) (loaded n rs e new)
      ∙ lookup-merge_tickets json.ticket n.node_id [] es rs id
          (laws.entries-IsMap n.storage bucket_tickets) (Unbound-nil json.ticket n.node_id es) m
      ∙ or_none (restored json.ticket n.node_id (lookup id es))
      ∙ ap (restored json.ticket n.node_id) (laws.lookup-entries n.storage bucket_tickets id)
      ∙ sym (from_record-get_ticket n.node_id n.storage id h)

  pub IsKeyed-save_ticket :
      IsJson json
      → (db : Db) (t : TicketRecord) → (save_ticket bolt json db t).1 ≡ none
      → IsKeyed db
      → IsKeyed (save_ticket bolt json db t).0
  unfolding save_ticket
  IsKeyed-save_ticket faithful db t h keyed k v g =
      let (bytes, s, done) = save-Saved bolt json.ticket bucket_tickets t.id db t h in
      let (t', u, agrees) = faithful.ticket t bytes s in
      let at =
        laws.get-put db (save_ticket bolt json db t).0 bucket_tickets bucket_tickets t.id k bytes
          done.written in
      elim (Bool-cases (t.id == k)) [
        | inl e ↦
            let same : bytes ≡ v = ground (arith, at) in
            (
              t',
              ap json.ticket.unmarshal (sym same) ∙ u,
              agrees.same_id ∙ (string_eq.beq_iff t.id k).0 e,
            )
        | inr e ↦ keyed k v (ground (arith, at))
      ]

-- A state that a constant names.
abbrev pub IsNamed : TicketState → Type 0
IsNamed (other s) = ⊥
IsNamed _ = Unit

string_state-state_string : (s : TicketState) → IsNamed s → string_state (state_string s) ≡ s
unfolding string_state state_string
string_state-state_string issued h = refl
string_state-state_string pending h = refl
string_state-state_string validated h = refl
string_state-state_string consumed h = refl
string_state-state_string disputed h = refl
string_state-state_string (other s) h = absurd h

-- The same ticket, but for what the maps hold.
pub record IsRestored (t u : Ticket) : Type 0 where
  pub same_id : u.id ≡ t.id
  pub same_state : u.state ≡ t.state
  pub same_payload : u.payload ≡ t.payload
  pub same_validator_id : u.validator_id ≡ t.validator_id
  pub same_timestamp : u.timestamp ≡ t.timestamp

IsRestored-of_Agrees :
    (node_id : String) (t : Ticket) (r : TicketRecord)
    → IsNamed t.state
    → Agrees (record_of (copy_ticket t)) r
    → IsRestored t (copy_ticket (ticket_of node_id r))
unfolding record_of copy_ticket ticket_of
IsRestored-of_Agrees node_id t r named a = record {
  same_id = a.same_id;
  same_state = ap string_state a.same_state ∙ string_state-state_string t.state named;
  same_payload = a.same_payload;
  same_validator_id = a.same_validator_id;
  same_timestamp = a.same_timestamp;
}

module _ {Db Bytes : Type 0} (bolt : Bolt Db Bytes) (json : Json Bytes) where
  -- Whether the store takes a ticket.
  abbrev pub IsStorable : Db → Ticket → Type 0
  IsStorable db t = (save_ticket bolt json db (record_of (copy_ticket t))).1 ≡ none

  storage-persist_ticket :
      (n : ValidatorNode Db) (id : String) (t : Ticket)
      → lookup id n.state_machine.current_state ≡ some t
      → (persist_ticket bolt json n id).storage
        ≡ (save_ticket bolt json n.storage (record_of (copy_ticket t))).0
  unfolding persist_ticket machine_get_ticket
  storage-persist_ticket n id t l = rw (l, persist_ticket, machine_get_ticket) refl

  module _ (laws : IsBolt bolt) (faithful : IsJson json) where
    has_bucket-save_ticket :
        (db : Db) (t : TicketRecord)
        → (save_ticket bolt json db t).1 ≡ none
        → bolt.has_bucket (save_ticket bolt json db t).0 bucket_tickets ≡ true
    unfolding save_ticket
    has_bucket-save_ticket db t h =
        let (bytes, s, done) = save-Saved bolt json.ticket bucket_tickets t.id db t h in
        laws.has_bucket-put db (save_ticket bolt json db t).0 bucket_tickets bucket_tickets t.id
          bytes done.written
        ∙ done.exists

    -- A ticket that a node has, in a state that a constant names, and that the store takes without
    -- an error, is there after a restart: a node with no tickets that loads the store in which it
    -- was persisted has it with the same id, state, data, validator and timestamp, if every record
    -- was stored under its own id before. BoltDB and JSON are taken to do what `IsBolt` and
    -- `IsJson` say.
    pub load_tickets_from_store-persist_ticket :
        (n fresh : ValidatorNode Db) (id : String) (t : Ticket)
        → lookup id n.state_machine.current_state ≡ some t
        → t.id ≡ id
        → IsNamed t.state
        → IsStorable n.storage t
        → IsKeyed bolt json laws n.storage
        → fresh.state_machine.current_state ≡ []
        → (u : Ticket) × (lookup id
              (load_tickets_from_store bolt json (record fresh {
                storage = (persist_ticket bolt json n id).storage;
              })).state_machine.current_state
            ≡ some u)
          × IsRestored t u
    unfolding record_of copy_ticket
    load_tickets_from_store-persist_ticket n fresh id t l i named storable keyed new =
        let rec = record_of (copy_ticket t) in
        let db = (save_ticket bolt json n.storage rec).0 in
        let ((r, e, agrees), others) =
          get_ticket-save_ticket bolt laws json faithful n.storage rec storable in
        (
          copy_ticket (ticket_of fresh.node_id r),
          ap
                (λ s.
                  lookup id
                    (load_tickets_from_store bolt json
                      (record fresh { storage = s })).state_machine.current_state)
                (storage-persist_ticket n id t l)
              ∙ lookup-load_tickets_from_store bolt json laws (record fresh { storage = db }) id
                  (has_bucket-save_ticket n.storage rec storable)
                  (IsKeyed-save_ticket bolt json laws faithful n.storage rec storable keyed) new
              ∙ ap (λ k. from_record bolt json laws fresh.node_id (get_ticket bolt json db k))
                  (sym i)
              ∙ ap (from_record bolt json laws fresh.node_id) e,
          IsRestored-of_Agrees fresh.node_id t r named agrees,
        )
