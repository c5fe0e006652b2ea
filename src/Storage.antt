-- ===== src/Storage.antt =====
-- pkg/storage/store.go, the `Store`. BoltDB and encoding/json are parameters, `Bolt` and `Json`:
-- `Db` is the content of the database file, `Bytes` a byte slice that is stored. Keys are texts,
-- in the order of their bytes. A transaction that fails leaves the database as it was. An error's
-- text is dropped, and with it the value that a failed read returns beside its error.
pub mod Keys
pub mod Laws
pub mod Latest
use dtvn.Prelude.{
  ℕ, String, Bool, true, false, Option, none, some, List, [], ◌∷◌, ◌++◌, if◌then◌else◌,
}
use dtvn.Prelude.Int.{ℤ}
use dtvn.Prelude.GoMap.{GoMap}
use dtvn.Storage.Keys.{sequence_key}

abbrev pub bucket_tickets : String
bucket_tickets = "tickets"

abbrev pub bucket_consensus : String
bucket_consensus = "consensus"

abbrev pub bucket_checkpoints : String
bucket_checkpoints = "checkpoints"

abbrev pub bucket_metadata : String
bucket_metadata = "metadata"

-- `data` is a keyword: the field `Data` is `payload`.
pub record TicketRecord : Type 0 where
  pub id : String
  pub state : String
  pub payload : String
  pub validator_id : String
  pub timestamp : ℤ
  pub vector_clock : GoMap String ℕ
  pub metadata : GoMap String String

pub record ConsensusRecord : Type 0 where
  pub sequence : ℤ
  pub view : ℤ
  pub request_id : String
  pub ticket_id : String
  pub operation : String
  pub digest : String
  pub timestamp : ℤ

pub record CheckpointRecord : Type 0 where
  pub sequence : ℤ
  pub state_digest : String
  pub node_id : String
  pub timestamp : ℤ

-- What the store uses of BoltDB. `none` is an error, but of `get` and `last` the nil that they
-- return where there is no entry. `entries` are a bucket's in the order in which `ForEach` goes.
pub record Bolt (Db Bytes : Type 0) : Type 0 where
  pub has_bucket : Db → String → Bool
  pub create_bucket_if_not_exists : Db → String → Option Db
  pub put : Db → String → String → Bytes → Option Db
  pub delete : Db → String → String → Option Db
  pub get : Db → String → String → Option Bytes
  pub entries : Db → String → List (String × Bytes)
  pub last : Db → String → Option (String × Bytes)
  pub buckets : Db → List String

-- `json.Marshal` and `json.Unmarshal` at one type.
pub record Encoding (Bytes M : Type 0) : Type 0 where
  pub marshal : M → Option Bytes
  pub unmarshal : Bytes → Option M

pub record Json (Bytes : Type 0) : Type 0 where
  pub ticket : Encoding Bytes TicketRecord
  pub consensus : Encoding Bytes ConsensusRecord
  pub checkpoint : Encoding Bytes CheckpointRecord

pub data Error : Type 0 where
  bucket_not_found marshal_failed unmarshal_failed not_found database : Error

-- What a read returns.
pub data Result (A : Type 0) : Type 0 where
  ok : A → Result A
  err : Error → Result A

-- the reading of what is stored at a key
unfoldable pub decode : {Bytes M : Type 0} → Encoding Bytes M → Bytes → Result M
decode encoding bytes = elim (encoding.unmarshal bytes) [
  | none ↦ err unmarshal_failed
  | some m ↦ ok m
]

-- the function that `ForEach` calls appends; its first error ends the loop
unfoldable pub decode_all :
    {Bytes M : Type 0} → Encoding Bytes M → List M → List (String × Bytes) → Result (List M)
decode_all encoding ms [] = ok ms
decode_all encoding ms ((k, v) ∷ entries) = elim (encoding.unmarshal v) [
  | none ↦ err unmarshal_failed
  | some m ↦ decode_all encoding (ms ++ m ∷ []) entries
]

module _ {Db Bytes : Type 0} (bolt : Bolt Db Bytes) where
  -- the loop of `NewStore` over the buckets; a failure undoes the transaction
  unfoldable pub create_buckets : Db → List String → Option Db
  create_buckets db [] = some db
  create_buckets db (bucket ∷ buckets) = elim (bolt.create_bucket_if_not_exists db bucket) [
    | none ↦ none
    | some db' ↦ create_buckets db' buckets
  ]

  -- `opened` is what `bolt.Open` returns.
  unfoldable pub new_store : Option Db → Option Db
  unfolding create_buckets
  new_store none = none
  new_store (some db) =
      create_buckets db
        (bucket_tickets ∷ bucket_consensus ∷ bucket_checkpoints ∷ bucket_metadata ∷ [])

  -- what the writing transactions return: the database after them, and the error
  abbrev committed : Db → Option Db → Db × Option Error
  committed db none = (db, some database)
  committed db (some db') = (db', none)

  -- the body of the transactions that save a record
  unfoldable pub save :
      {M : Type 0} → Encoding Bytes M → String → String → Db → M → Db × Option Error
  save encoding bucket key db record_ =
      if bolt.has_bucket db bucket
      then elim (encoding.marshal record_) [
        | none ↦ (db, some marshal_failed)
        | some bytes ↦ committed db (bolt.put db bucket key bytes)
      ]
      else (db, some bucket_not_found)

  -- the body of the transactions that read a record
  unfoldable pub load : {M : Type 0} → Encoding Bytes M → String → String → Db → Result M
  unfolding decode
  load encoding bucket key db =
      if bolt.has_bucket db bucket
      then elim (bolt.get db bucket key) [
        | none ↦ err not_found
        | some bytes ↦ decode encoding bytes
      ]
      else err bucket_not_found

  unfoldable pub load_all : {M : Type 0} → Encoding Bytes M → String → Db → Result (List M)
  unfolding decode_all
  load_all encoding bucket db =
      if bolt.has_bucket db bucket
      then decode_all encoding [] (bolt.entries db bucket)
      else err bucket_not_found

  unfoldable pub delete_ticket : Db → String → Db × Option Error
  delete_ticket db ticket_id =
      if bolt.has_bucket db bucket_tickets
      then committed db (bolt.delete db bucket_tickets ticket_id)
      else (db, some bucket_not_found)

  unfoldable pub set_metadata : Db → String → Bytes → Db × Option Error
  set_metadata db key value =
      if bolt.has_bucket db bucket_metadata
      then committed db (bolt.put db bucket_metadata key value)
      else (db, some bucket_not_found)

  unfoldable pub get_metadata : Db → String → Result Bytes
  get_metadata db key =
      if bolt.has_bucket db bucket_metadata
      then elim (bolt.get db bucket_metadata key) [ none ↦ err not_found | some value ↦ ok value ]
      else err bucket_not_found

  -- the loop over a bucket's entries in `Compact`
  unfoldable pub copy_entries : String → Db → List (String × Bytes) → Option Db
  copy_entries bucket new_db [] = some new_db
  copy_entries bucket new_db ((k, v) ∷ entries) = elim (bolt.put new_db bucket k v) [
    | none ↦ none
    | some next ↦ copy_entries bucket next entries
  ]

  -- the loop over the buckets of `db`
  unfoldable pub copy_buckets : Db → Db → List String → Option Db
  unfolding copy_entries
  copy_buckets db new_db [] = some new_db
  copy_buckets db new_db (bucket ∷ buckets) =
      elim (bolt.create_bucket_if_not_exists new_db bucket) [
        | none ↦ none
        | some made ↦ elim (copy_entries bucket made (bolt.entries db bucket)) [
          | none ↦ none
          | some next ↦ copy_buckets db next buckets
        ]
      ]

  -- `opened` is the new database; what is returned is what it holds afterwards.
  unfoldable pub compact : Db → Option Db → Option Db
  unfolding copy_buckets
  compact db none = none
  compact db (some new_db) = copy_buckets db new_db (bolt.buckets db)

  module _ (json : Json Bytes) where
    unfoldable pub save_ticket : Db → TicketRecord → Db × Option Error
    unfolding save
    save_ticket db ticket = save json.ticket bucket_tickets ticket.id db ticket

    unfoldable pub get_ticket : Db → String → Result TicketRecord
    unfolding load
    get_ticket db ticket_id = load json.ticket bucket_tickets ticket_id db

    unfoldable pub get_all_tickets : Db → Result (List TicketRecord)
    unfolding load_all
    get_all_tickets db = load_all json.ticket bucket_tickets db

    unfoldable pub save_consensus_log : Db → ConsensusRecord → Db × Option Error
    unfolding save
    save_consensus_log db record_ =
        save json.consensus bucket_consensus (sequence_key record_.sequence) db record_

    unfoldable pub get_consensus_log : Db → ℤ → Result ConsensusRecord
    unfolding load
    get_consensus_log db sequence = load json.consensus bucket_consensus (sequence_key sequence) db

    unfoldable pub get_consensus_logs : Db → Result (List ConsensusRecord)
    unfolding load_all
    get_consensus_logs db = load_all json.consensus bucket_consensus db

    unfoldable pub save_checkpoint : Db → CheckpointRecord → Db × Option Error
    unfolding save
    save_checkpoint db checkpoint =
        save json.checkpoint bucket_checkpoints (sequence_key checkpoint.sequence) db checkpoint

    unfoldable pub get_latest_checkpoint : Db → Result CheckpointRecord
    unfolding decode
    get_latest_checkpoint db =
        if bolt.has_bucket db bucket_checkpoints
        then elim (bolt.last db bucket_checkpoints) [
          | none ↦ err not_found
          | some (k, v) ↦ decode json.checkpoint v
        ]
        else err bucket_not_found
