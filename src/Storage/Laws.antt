-- ===== src/Storage/Laws.antt =====
-- What the store relies on: a database is a map per bucket with its keys in order, and what is
-- marshalled is read back. A record that is saved is read back, and no other is changed.
use dtvn.Prelude.{
  ◌≢◌, ◌&&◌, String, true, false, none, some, if◌then◌else◌, ◌==◌, ◌≡◌, refl, ◌∙◌, inl, inr,
  string_eq, arith, Bool-cases, Option-cases, beq_refl,
}
use dtvn.Prelude.GoMap.{lookup, IsMap}
use dtvn.Storage.{
  Bolt, Encoding, Json, TicketRecord, ok, save, load, decode, save_ticket, get_ticket,
  bucket_tickets,
}
use dtvn.Storage.Keys.Sorted.{IsBefore}

module _ {Db Bytes : Type 0} (bolt : Bolt Db Bytes) where
  -- A write changes one key of one bucket; `entries` are the bindings; `last` has the last key.
  pub record IsBolt : Type 0 where
    pub get-put :
        (db db' : Db) (bucket b key k : String) (v : Bytes)
        → bolt.put db bucket key v ≡ some db'
        → bolt.get db' b k ≡ (if (bucket == b) && (key == k) then some v else bolt.get db b k)
    pub has_bucket-put :
        (db db' : Db) (bucket b key : String) (v : Bytes)
        → bolt.put db bucket key v ≡ some db'
        → bolt.has_bucket db' b ≡ bolt.has_bucket db b
    pub lookup-entries :
        (db : Db) (bucket k : String) → lookup k (bolt.entries db bucket) ≡ bolt.get db bucket k
    pub entries-IsMap : (db : Db) (bucket : String) → IsMap (bolt.entries db bucket)
    pub last_none :
        (db : Db) (bucket k : String) → bolt.last db bucket ≡ none → bolt.get db bucket k ≡ none
    pub last_some :
        (db : Db) (bucket key : String) (v : Bytes)
        → bolt.last db bucket ≡ some (key, v)
        → bolt.get db bucket key ≡ some v
    pub last_greatest :
        (db : Db) (bucket key k : String) (v w : Bytes)
        → bolt.last db bucket ≡ some (key, v)
        → bolt.get db bucket k ≡ some w
        → ¬ IsBefore key k

-- What is marshalled is read back, up to `R`.
abbrev pub IsFaithful : {Bytes M : Type 0} → (M → M → Type 0) → Encoding Bytes M → Type 0
IsFaithful {Bytes} {M} R encoding =
    (m : M) (bytes : Bytes)
    → encoding.marshal m ≡ some bytes
    → (m' : M) × (encoding.unmarshal bytes ≡ some m') × R m m'

-- The same record: JSON writes the keys of a map in the order of the keys.
pub record Agrees (t u : TicketRecord) : Type 0 where
  pub same_id : u.id ≡ t.id
  pub same_state : u.state ≡ t.state
  pub same_payload : u.payload ≡ t.payload
  pub same_validator_id : u.validator_id ≡ t.validator_id
  pub same_timestamp : u.timestamp ≡ t.timestamp
  pub same_vector_clock : (k : String) → lookup k u.vector_clock ≡ lookup k t.vector_clock
  pub same_metadata : (k : String) → lookup k u.metadata ≡ lookup k t.metadata

pub record IsJson {Bytes : Type 0} (json : Json Bytes) : Type 0 where
  pub ticket : IsFaithful Agrees json.ticket
  pub consensus : IsFaithful (λ r s. s ≡ r) json.consensus
  pub checkpoint : IsFaithful (λ r s. s ≡ r) json.checkpoint

-- What a save that succeeds has done.
pub record Saved {Db Bytes : Type 0} (bolt : Bolt Db Bytes) (bucket key : String) (bytes : Bytes)
    (db db' : Db) : Type 0 where
  pub exists : bolt.has_bucket db bucket ≡ true
  pub written : bolt.put db bucket key bytes ≡ some db'

module _ {Db Bytes : Type 0} (bolt : Bolt Db Bytes) where
  pub save-Saved :
      {M : Type 0} (encoding : Encoding Bytes M) (bucket key : String) (db : Db) (m : M)
      → (save bolt encoding bucket key db m).1 ≡ none
      → (bytes : Bytes) × (encoding.marshal m ≡ some bytes)
        × Saved bolt bucket key bytes db (save bolt encoding bucket key db m).0
  unfolding save
  save-Saved encoding bucket key db m h = elim (Bool-cases (bolt.has_bucket db bucket)) [
    | inr e ↦ absurd (ground arith)
    | inl e ↦ elim (Option-cases (encoding.marshal m)) [
      | inl n ↦ absurd (ground arith)
      | inr (bytes, s) ↦ elim (Option-cases (bolt.put db bucket key bytes)) [
        | inl n ↦ absurd (ground arith)
        | inr (db', p) ↦ (bytes, s, ground arith)
      ]
    ]
  ]

  load_saved :
      {M : Type 0} (encoding : Encoding Bytes M) (bucket key : String) (db : Db) (m : M)
      (bytes : Bytes)
      → bolt.has_bucket db bucket ≡ true
      → bolt.get db bucket key ≡ some bytes
      → encoding.unmarshal bytes ≡ some m
      → load bolt encoding bucket key db ≡ ok m
  unfolding load decode
  load_saved encoding bucket key db m bytes h g u = rw (h, g, decode, u) refl

  module _ (laws : IsBolt bolt) where
    pub load-save :
        {M : Type 0} (R : M → M → Type 0) (encoding : Encoding Bytes M)
        → IsFaithful R encoding
        → (bucket key : String) (db : Db) (m : M) → (save bolt encoding bucket key db m).1 ≡ none
        → (m' : M) × (load bolt encoding bucket key (save bolt encoding bucket key db m).0 ≡ ok m')
          × R m m'
    load-save R encoding faithful bucket key db m h =
        let (bytes, s, saved) = save-Saved encoding bucket key db m h in
        let (m', u, r) = faithful m bytes s in
        let db' = (save bolt encoding bucket key db m).0 in
        let g : bolt.get db' bucket key ≡ some bytes =
          laws.get-put db db' bucket bucket key key bytes saved.written
          ∙ (rw (beq_refl bucket, beq_refl key) refl) in
        (
          m',
          load_saved encoding bucket key db' m' bytes
              (laws.has_bucket-put db db' bucket bucket key bytes saved.written ∙ saved.exists) g u,
          r,
        )

    load_other :
        {M : Type 0} (encoding : Encoding Bytes M) (bucket b key k : String) (v : Bytes)
        (db db' : Db)
        → bolt.put db bucket key v ≡ some db'
        → ((bucket == b) && (key == k)) ≡ false
        → load bolt encoding b k db' ≡ load bolt encoding b k db
    unfolding load
    load_other encoding bucket b key k v db db' p e =
        rw (laws.has_bucket-put db db' bucket b key v p, laws.get-put db db' bucket b key k v p, e)
          refl

    module _ (json : Json Bytes) (faithful : IsJson json) where
      -- Where BoltDB and JSON do what `IsBolt` and `IsJson` say, a ticket that is saved without an
      -- error is read back as the same record, its maps read by their keys, and every other id is
      -- read as before.
      pub get_ticket-save_ticket :
          (db : Db) (t : TicketRecord)
          → (save_ticket bolt json db t).1 ≡ none
          → ((t' : TicketRecord) × (get_ticket bolt json (save_ticket bolt json db t).0 t.id
                ≡ ok t')
              × Agrees t t')
            × ((id : String)
                → t.id ≢ id
                → get_ticket bolt json (save_ticket bolt json db t).0 id
                  ≡ get_ticket bolt json db id)
      unfolding save_ticket get_ticket
      get_ticket-save_ticket db t h =
          let (bytes, s, saved) = save-Saved json.ticket bucket_tickets t.id db t h in
          (
            load-save Agrees json.ticket faithful.ticket bucket_tickets t.id db t h,
            λ id ne.
                load_other json.ticket bucket_tickets bucket_tickets t.id id bytes db
                  (save_ticket bolt json db t).0 saved.written
                  (ground (arith, string_eq.beq_iff t.id id)),
          )
