-- ===== src/Examples/Disk.antt =====
-- A database that has room for one entry, and documents that stand for their own encoding.
use mathlib.Core.Path.{subst}
use dtvn.Prelude.{
  String, true, ◌&&◌, Option, none, some, List, [], ◌∷◌, ◌==◌, ◌≡◌, refl, if◌then◌else◌, string_eq,
  arith, beq_refl, inl, inr, Bool-cases, ap,
}
use dtvn.Prelude.GoMap.{lookup, IsMap}
use dtvn.Storage.{Bolt, Json, TicketRecord, ConsensusRecord, CheckpointRecord}
use dtvn.Storage.Laws.{IsBolt, IsJson, Agrees}
use dtvn.Storage.Keys.Sorted.{IsBefore}

pub data Document : Type 0 where
  ticket : TicketRecord → Document
  consensus : ConsensusRecord → Document
  checkpoint : CheckpointRecord → Document

abbrev as_ticket : Document → Option TicketRecord
as_ticket (ticket r) = some r
as_ticket _ = none

abbrev as_consensus : Document → Option ConsensusRecord
as_consensus (consensus r) = some r
as_consensus _ = none

abbrev as_checkpoint : Document → Option CheckpointRecord
as_checkpoint (checkpoint r) = some r
as_checkpoint _ = none

abbrev pub json : Json Document
json = record {
  ticket = record { marshal = λ r. some (ticket r); unmarshal = as_ticket };
  consensus = record { marshal = λ r. some (consensus r); unmarshal = as_consensus };
  checkpoint = record { marshal = λ r. some (checkpoint r); unmarshal = as_checkpoint };
}

-- the bucket, the key and the document of the entry
abbrev pub Disk : Type 0
Disk = Option (String × String × Document)

abbrev put : Disk → String → String → Document → Option Disk
put none b k v = some (some (b, k, v))
put (some (b₀, k₀, v₀)) b k v = if (b₀ == b) && (k₀ == k) then some (some (b, k, v)) else none

abbrev get : Disk → String → String → Option Document
get none b k = none
get (some (b₀, k₀, v₀)) b k = if (b₀ == b) && (k₀ == k) then some v₀ else none

abbrev delete : Disk → String → String → Option Disk
delete none b k = some none
delete (some (b₀, k₀, v₀)) b k =
    if (b₀ == b) && (k₀ == k) then some none else some (some (b₀, k₀, v₀))

abbrev last : Disk → String → Option (String × Document)
last none b = none
last (some (b₀, k₀, v₀)) b = if b₀ == b then some (k₀, v₀) else none

abbrev entries : Disk → String → List (String × Document)
entries none b = []
entries (some (b₀, k₀, v₀)) b = if b₀ == b then (k₀, v₀) ∷ [] else []

abbrev pub bolt : Bolt Disk Document
bolt = record {
  has_bucket = λ db b. true;
  create_bucket_if_not_exists = λ db b. some db;
  put = put;
  delete = delete;
  get = get;
  entries = entries;
  last = last;
  buckets = λ db. [];
}

get-put :
    (db db' : Disk) (bucket b key k : String) (v : Document)
    → put db bucket key v ≡ some db'
    → get db' b k ≡ (if (bucket == b) && (key == k) then some v else get db b k)
get-put none db' bucket b key k v h = ground arith
get-put (some (b₀, k₀, v₀)) db' bucket b key k v h =
    ground (arith, string_eq.beq_iff b₀ bucket, string_eq.beq_iff k₀ key)

lookup-entries : (db : Disk) (b k : String) → lookup k (entries db b) ≡ get db b k
unfolding lookup
lookup-entries none b k = refl
lookup-entries (some (b₀, k₀, v₀)) b k = ground arith

entries-IsMap : (db : Disk) (b : String) → IsMap (entries db b)
entries-IsMap none b = tt
entries-IsMap (some (b₀, k₀, v₀)) b = elim (Bool-cases (b₀ == b)) [
  | inl e ↦ rw e (tt, tt)
  | inr e ↦ rw e tt
]

last_none : (db : Disk) (b k : String) → last db b ≡ none → get db b k ≡ none
last_none none b k h = refl
last_none (some (b₀, k₀, v₀)) b k h = ground arith

last_some :
    (db : Disk) (b key : String) (v : Document) → last db b ≡ some (key, v) → get db b key ≡ some v
last_some none b key v h = absurd (ground arith)
last_some (some (b₀, k₀, v₀)) b key v h = ground (arith, beq_refl key)

IsBefore-irrefl : (k : String) → ¬ IsBefore k k
IsBefore-irrefl k h = ground (arith, beq_refl k)

last_greatest :
    (db : Disk) (b key k : String) (v w : Document)
    → last db b ≡ some (key, v)
    → get db b k ≡ some w
    → ¬ IsBefore key k
last_greatest none b key k v w h g = absurd (ground arith)
last_greatest (some (b₀, k₀, v₀)) b key k v w h g =
    let same : key ≡ k = ground (arith, string_eq.beq_iff k₀ k) in
    subst (λ x. ¬ IsBefore key x) same (IsBefore-irrefl key)

pub bolt-IsBolt : IsBolt bolt
bolt-IsBolt = record {
  get-put = get-put;
  has_bucket-put = λ db db' bucket b key v h. refl;
  lookup-entries = lookup-entries;
  entries-IsMap = entries-IsMap;
  last_none = last_none;
  last_some = last_some;
  last_greatest = last_greatest;
}

some_inj : (d e : Document) → some d ≡ some e → e ≡ d
some_inj d e h = cc

Agrees-refl : (r : TicketRecord) → Agrees r r
Agrees-refl r = record {
  same_id = refl;
  same_state = refl;
  same_payload = refl;
  same_validator_id = refl;
  same_timestamp = refl;
  same_vector_clock = λ k. refl;
  same_metadata = λ k. refl;
}

pub json-IsJson : IsJson json
json-IsJson = record {
  ticket = λ r bytes h. (r, ap as_ticket (some_inj (ticket r) bytes h), Agrees-refl r);
  consensus = λ r bytes h. (r, ap as_consensus (some_inj (consensus r) bytes h), refl);
  checkpoint = λ r bytes h. (r, ap as_checkpoint (some_inj (checkpoint r) bytes h), refl);
}
