-- ===== src/Storage/Latest.antt =====
-- The checkpoint that `GetLatestCheckpoint` returns is the one with the highest sequence number.
use dtvn.Prelude.{
  ◌⊎◌, ℕ, ◌<◌, ◌^◌, String, true, false, none, some, List, [], ◌∷◌, if◌then◌else◌, ◌==◌, ◌≡◌, refl,
  ap, sym, ◌∙◌, inl, inr, string_eq, arith, Bool-cases, Option-cases,
}
use mathlib.Core.Path.{subst, subst₂}
use dtvn.Prelude.Int.{pos, ltb_ℤ}
use dtvn.Storage.{
  Bolt, Json, CheckpointRecord, ok, save, decode, save_checkpoint, get_latest_checkpoint,
  bucket_checkpoints,
}
use dtvn.Storage.Keys.{sequence_key}
use dtvn.Storage.Keys.Sorted.{IsBefore, IsBefore-sequence_key}
use dtvn.Storage.Laws.{IsBolt, IsJson, save-Saved}

-- A checkpoint with a sequence number of `int64` that is not negative.
pub record IsCheckpoint (c : CheckpointRecord) : Type 0 where
  pub number : ℕ
  pub sequence_eq : c.sequence ≡ pos number
  pub bounded : number < 2 ^ 63

abbrev pub In : CheckpointRecord → List CheckpointRecord → Type 0
In c [] = ⊥
In c (x ∷ cs) = (c ≡ x) ⊎ In c cs

abbrev key_of : CheckpointRecord → String
key_of c = sequence_key c.sequence

module _ {Db Bytes : Type 0} (bolt : Bolt Db Bytes) (json : Json Bytes) where
  -- Checkpoints are saved one after the other, without an error, in a bucket that was empty.
  pub data SavedAll : List CheckpointRecord → Db → Type 0 where
    empty : (db : Db) → ((k : String) → bolt.get db bucket_checkpoints k ≡ none) → SavedAll [] db
    saved :
        {cs : List CheckpointRecord} (db : Db) (c : CheckpointRecord)
        → SavedAll cs db
        → IsCheckpoint c
        → (save_checkpoint bolt json db c).1 ≡ none
        → SavedAll (c ∷ cs) (save_checkpoint bolt json db c).0

  -- The checkpoint that is stored at a key.
  record Stored (cs : List CheckpointRecord) (k : String) (v : Bytes) : Type 0 where
    checkpoint : CheckpointRecord
    is_saved : In checkpoint cs
    is_checkpoint : IsCheckpoint checkpoint
    at_key : k ≡ key_of checkpoint
    encodes : json.checkpoint.unmarshal v ≡ some checkpoint

  -- What the bucket of a database holds: these checkpoints, and nothing else.
  record Holds (cs : List CheckpointRecord) (db : Db) : Type 0 where
    known : (k : String) (v : Bytes) → bolt.get db bucket_checkpoints k ≡ some v → Stored cs k v
    bound :
        (c : CheckpointRecord)
        → In c cs
        → IsCheckpoint c × ((v : Bytes) × (bolt.get db bucket_checkpoints (key_of c) ≡ some v))

  Stored-cons :
      {cs : List CheckpointRecord} (c : CheckpointRecord) (k : String) (v : Bytes)
      → Stored cs k v
      → Stored (c ∷ cs) k v
  Stored-cons c k v h = record {
    checkpoint = h.checkpoint;
    is_saved = inr h.is_saved;
    is_checkpoint = h.is_checkpoint;
    at_key = h.at_key;
    encodes = h.encodes;
  }

  module _ (laws : IsBolt bolt) (faithful : IsJson json) where
    module _ (cs : List CheckpointRecord) (db db' : Db) (c : CheckpointRecord) (bytes : Bytes)
        (is_c : IsCheckpoint c)
        (written : bolt.put db bucket_checkpoints (key_of c) bytes ≡ some db')
        (encodes : json.checkpoint.unmarshal bytes ≡ some c) (h : Holds cs db) where
      get-key :
          (k : String)
          → bolt.get db' bucket_checkpoints k
            ≡ (if key_of c == k then some bytes else bolt.get db bucket_checkpoints k)
      get-key k =
          laws.get-put db db' bucket_checkpoints bucket_checkpoints (key_of c) k bytes written

      known_put :
          (k : String) (v : Bytes)
          → bolt.get db' bucket_checkpoints k ≡ some v
          → Stored (c ∷ cs) k v
      known_put k v g = elim (Bool-cases (key_of c == k)) [
        | inl e ↦
            let same : bytes ≡ v = ground (arith, get-key k) in
            record {
              checkpoint = c;
              is_saved = inl refl;
              is_checkpoint = is_c;
              at_key = sym ((string_eq.beq_iff (key_of c) k).0 e);
              encodes = subst (λ b. json.checkpoint.unmarshal b ≡ some c) same encodes;
            }
        | inr e ↦ Stored-cons c k v (h.known k v (ground (arith, get-key k)))
      ]

      bound_put :
          (d : CheckpointRecord)
          → In d (c ∷ cs)
          → IsCheckpoint d × ((v : Bytes) × (bolt.get db' bucket_checkpoints (key_of d) ≡ some v))
      bound_put d (inl e) = (
        subst IsCheckpoint (sym e) is_c,
        (bytes, ground (arith, get-key (key_of d), string_eq.beq_iff (key_of c) (key_of d))),
      )
      bound_put d (inr m) =
          let (is_d, (v, g)) = h.bound d m in
          (
            is_d,
            (elim (Bool-cases (key_of c == key_of d)) [
              | inl e ↦ (bytes, ground (arith, get-key (key_of d)))
              | inr e ↦ (v, ground (arith, get-key (key_of d)))
            ]),
          )

    SavedAll-Holds : {cs : List CheckpointRecord} {db : Db} → SavedAll cs db → Holds cs db
    unfolding save save_checkpoint
    SavedAll-Holds (empty db none_bound) = record {
      known = λ k v g. absurd (ground (arith, none_bound k));
      bound = λ c m. absurd m;
    }
    SavedAll-Holds (saved {cs = cs} db c before is_c h) =
        let (bytes, s, done) =
          save-Saved bolt json.checkpoint bucket_checkpoints (key_of c) db c h in
        let (c', u, same) = faithful.checkpoint c bytes s in
        let db' = (save_checkpoint bolt json db c).0 in
        let encodes : json.checkpoint.unmarshal bytes ≡ some c = u ∙ ap some same in
        record {
          known = known_put cs db db' c bytes is_c done.written encodes (SavedAll-Holds before);
          bound = bound_put cs db db' c bytes is_c done.written encodes (SavedAll-Holds before);
        }

    SavedAll-has_bucket :
        {first : CheckpointRecord} {cs : List CheckpointRecord} {db : Db}
        → SavedAll (first ∷ cs) db
        → bolt.has_bucket db bucket_checkpoints ≡ true
    unfolding save save_checkpoint
    SavedAll-has_bucket (saved db c before is_c h) =
        let (bytes, s, done) =
          save-Saved bolt json.checkpoint bucket_checkpoints (key_of c) db c h in
        laws.has_bucket-put db (save_checkpoint bolt json db c).0 bucket_checkpoints
          bucket_checkpoints (key_of c) bytes done.written
        ∙ done.exists

    not_before :
        (c d : CheckpointRecord)
        → IsCheckpoint c
        → IsCheckpoint d
        → ¬ IsBefore (key_of c) (key_of d)
        → ltb_ℤ c.sequence d.sequence ≡ false
    not_before c d is_c is_d h = elim (Bool-cases (ltb_ℤ c.sequence d.sequence)) [
      | inr e ↦ e
      | inl e ↦ absurd (
          h (
            subst₂ IsBefore (ap sequence_key (sym is_c.sequence_eq))
              (ap sequence_key (sym is_d.sequence_eq))
              (IsBefore-sequence_key is_c.number is_d.number
                (ground (arith, e, is_c.sequence_eq, is_d.sequence_eq)) is_d.bounded)))
    ]

    latest :
        {cs : List CheckpointRecord} (db : Db) (key : String) (v : Bytes)
        → Holds cs db
        → bolt.has_bucket db bucket_checkpoints ≡ true
        → bolt.last db bucket_checkpoints ≡ some (key, v)
        → (c : CheckpointRecord) × (get_latest_checkpoint bolt json db ≡ ok c)
          × In c cs
          × ((d : CheckpointRecord) → In d cs → ltb_ℤ c.sequence d.sequence ≡ false)
    unfolding get_latest_checkpoint decode
    latest db key v holds e l =
        let at = holds.known key v (laws.last_some db bucket_checkpoints key v l) in
        let c = at.checkpoint in
        (
          c,
          (rw (e, l, decode, at.encodes) refl),
          at.is_saved,
          λ d m.
              let (is_d, (w, g)) = holds.bound d m in
              not_before c d at.is_checkpoint is_d (
                subst (λ k. ¬ IsBefore k (key_of d)) at.at_key
                  (laws.last_greatest db bucket_checkpoints key (key_of d) v w l g)),
        )

    -- After one or more checkpoints with sequence numbers from 0 to 2^63 - 1 were saved without an
    -- error, into a bucket that was empty, `GetLatestCheckpoint` returns one of them, and none has
    -- a higher sequence number. BoltDB and JSON are taken to do what `IsBolt` and `IsJson` say.
    pub get_latest_checkpoint_lem :
        (cs : List CheckpointRecord) (db : Db) (first : CheckpointRecord)
        → SavedAll (first ∷ cs) db
        → (c : CheckpointRecord) × (get_latest_checkpoint bolt json db ≡ ok c)
          × In c (first ∷ cs)
          × ((d : CheckpointRecord) → In d (first ∷ cs) → ltb_ℤ c.sequence d.sequence ≡ false)
    get_latest_checkpoint_lem cs db first all =
        let holds = SavedAll-Holds all in
        let (is_first, (v, g)) = holds.bound first (inl refl) in
        elim (Option-cases (bolt.last db bucket_checkpoints)) [
          | inl e ↦ absurd (ground (arith, laws.last_none db bucket_checkpoints (key_of first) e))
          | inr ((key, w), e) ↦ latest db key w holds (SavedAll-has_bucket all) e
        ]
