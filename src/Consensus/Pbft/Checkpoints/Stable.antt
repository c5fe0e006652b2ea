-- ===== src/Consensus/Pbft/Checkpoints/Stable.antt =====
-- When `HandleCheckpoint` makes a checkpoint stable, and what it keeps then.
use dtvn.Prelude.{
  ℕ, ◌+◌, ◌*◌, ◌≤◌, ◌<◌, String, true, false, [], ◌∷◌, ◌==◌, ◌≡◌, refl, ap, ◌∙◌, none, some,
  if◌then◌else◌, inl, inr, leb, ltb, length, string_eq, arith, Bool-cases, beq_refl, count_where,
}
use dtvn.Prelude.Int.{ℤ, leb_ℤ, ltb_ℤ, int_eq}
use dtvn.Prelude.GoMap.{GoMap, lookup, insert, IsMap}
use dtvn.Prelude.GoMap.Laws.{lookup-insert, lookup-delete_where, IsMap-insert, lookup_of_IsFresh}
use dtvn.Consensus.Types.{Checkpoint}
use dtvn.Consensus.Pbft.{PbftNode, votes_at, required, put_vote}
use dtvn.Consensus.Pbft.Votes.{votes_at-put_vote}
use dtvn.Consensus.Pbft.Checkpoints.{
  count_or_zero, tally, stabilize, garbage_collect, stable_loop, store_checkpoint,
  handle_checkpoint,
}

-- How many votes name a digest.
abbrev pub votes_for : String → GoMap String Checkpoint → ℕ
votes_for digest votes = count_where (λ v. v.1.state_digest == digest) votes

tally_lem :
    (d : String) (digests : GoMap String ℕ) (votes : GoMap String Checkpoint)
    → count_or_zero (lookup d (tally digests votes))
      ≡ count_or_zero (lookup d digests) + votes_for d votes
unfolding tally
tally_lem d digests [] = omega arith
tally_lem d digests ((voter, v) ∷ votes) = ground (
  arith,
  tally_lem d (insert v.state_digest (count_or_zero (lookup v.state_digest digests) + 1) digests)
      votes,
  lookup-insert v.state_digest d (count_or_zero (lookup v.state_digest digests) + 1) digests,
  string_eq.beq_iff v.state_digest d,
)

IsMap-tally :
    (digests : GoMap String ℕ) (votes : GoMap String Checkpoint)
    → IsMap digests
    → IsMap (tally digests votes)
unfolding tally
IsMap-tally digests [] d = d
IsMap-tally digests ((voter, v) ∷ votes) d =
    IsMap-tally (insert v.state_digest _ digests) votes (IsMap-insert v.state_digest _ digests d)

votes_for-le : (d : String) (votes : GoMap String Checkpoint) → votes_for d votes ≤ length votes
votes_for-le d [] = omega arith
votes_for-le d (v ∷ votes) = ground (arith, votes_for-le d votes)

module _ {App : Type 0} where
  -- What the loop over the digests does to a node.
  pub data Stabilized (digests : GoMap String ℕ) (n : PbftNode App) (seq : ℤ)
      : PbftNode App → Type 0 where
    unstable :
        ((d : String) → ltb (count_or_zero (lookup d digests)) (required n) ≡ true)
        → Stabilized digests n seq n
    stable :
        (d : String)
        → required n ≤ count_or_zero (lookup d digests)
        → Stabilized digests n seq (stabilize n seq)

  Stabilized-later :
      (digest : String) (c : ℕ) (digests : GoMap String ℕ) (n : PbftNode App) (seq : ℤ)
      (m : PbftNode App)
      → IsMap ((digest, c) ∷ digests)
      → leb (required n) c ≡ false
      → Stabilized digests n seq m
      → Stabilized ((digest, c) ∷ digests) n seq m
  unfolding lookup
  Stabilized-later digest c digests n seq m d h (unstable u) = unstable (λ k. ground (arith, u k))
  Stabilized-later digest c digests n seq m d h (stable k q) =
      stable k (ground (arith, string_eq.beq_iff digest k, lookup_of_IsFresh digest digests d.0))

  stable_loop_lem :
      (digests : GoMap String ℕ) (n : PbftNode App) (seq : ℤ)
      → IsMap digests
      → Stabilized digests n seq (stable_loop digests n seq)
  unfolding stable_loop lookup
  stable_loop_lem [] n seq d = unstable (λ k. ground arith)
  stable_loop_lem ((digest, c) ∷ digests) n seq d = elim (Bool-cases (leb (required n) c)) [
    | inl h ↦ rw (h, stable_loop) (stable digest (ground (arith, beq_refl digest)))
    | inr h ↦
        rw (h, stable_loop)
          (Stabilized-later digest c digests n seq (stable_loop digests n seq) d h
            (stable_loop_lem digests n seq d.1))
  ]

  -- The votes at the sequence number of a checkpoint, with that checkpoint's.
  abbrev pub votes_with : PbftNode App → Checkpoint → GoMap String Checkpoint
  votes_with n ckpt = votes_at ckpt.sequence (store_checkpoint n ckpt).checkpoint_votes

  -- The checkpoint is its sender's vote at its sequence number, and nothing else is new.
  pub record IsStored (n : PbftNode App) (ckpt : Checkpoint) (m : PbftNode App) : Type 0 where
    vote :
        (id : String)
        → lookup id (votes_at ckpt.sequence m.checkpoint_votes) ≡ (
            if ckpt.node_id == id
            then some ckpt
            else lookup id (votes_at ckpt.sequence n.checkpoint_votes))
    elsewhere :
        (seq : ℤ)
        → votes_at seq m.checkpoint_votes ≡ (
            if ckpt.sequence == seq
            then votes_at seq m.checkpoint_votes
            else votes_at seq n.checkpoint_votes)
    others : m ≡ record n { checkpoint_votes = m.checkpoint_votes }

  -- The sequence number is that of the stable checkpoint. What the logs and the votes hold up to
  -- it is gone, and the node's own checkpoints below it; nothing else has changed.
  pub record IsStable (n : PbftNode App) (seq : ℤ) (m : PbftNode App) : Type 0 where
    stable_at : m.last_stable_checkpoint ≡ seq
    requests :
        (k : ℤ) → lookup k m.request_log ≡ (if leb_ℤ k seq then none else lookup k n.request_log)
    prepares :
        (k : ℤ) → lookup k m.prepare_log ≡ (if leb_ℤ k seq then none else lookup k n.prepare_log)
    commits :
        (k : ℤ) → lookup k m.commit_log ≡ (if leb_ℤ k seq then none else lookup k n.commit_log)
    votes :
        (k : ℤ)
        → lookup k m.checkpoint_votes ≡ (if leb_ℤ k seq then none else lookup k n.checkpoint_votes)
    own : (k : ℤ) → lookup k m.checkpoints ≡ (if ltb_ℤ k seq then none else lookup k n.checkpoints)
    others : m ≡ record n {
      last_stable_checkpoint = m.last_stable_checkpoint;
      request_log = m.request_log;
      prepare_log = m.prepare_log;
      commit_log = m.commit_log;
      checkpoint_votes = m.checkpoint_votes;
      checkpoints = m.checkpoints;
    }

  store_checkpoint-IsStored :
      (n : PbftNode App) (ckpt : Checkpoint) → IsStored n ckpt (store_checkpoint n ckpt)
  unfolding put_vote
  store_checkpoint-IsStored n ckpt = record {
    vote = λ id.
        ap (lookup id) (votes_at-put_vote ckpt.sequence ckpt.node_id ckpt n.checkpoint_votes)
        ∙ lookup-insert ckpt.node_id id ckpt (votes_at ckpt.sequence n.checkpoint_votes);
    elsewhere = λ seq. ground (
      arith,
      lookup-insert ckpt.sequence seq
          (insert ckpt.node_id ckpt (votes_at ckpt.sequence n.checkpoint_votes)) n.checkpoint_votes,
    );
    others = refl;
  }

  stabilize-IsStable : (n : PbftNode App) (seq : ℤ) → IsStable n seq (stabilize n seq)
  unfolding stabilize garbage_collect
  stabilize-IsStable n seq = record {
    stable_at = refl;
    requests = λ k. lookup-delete_where (λ s. leb_ℤ s seq) k n.request_log;
    prepares = λ k. lookup-delete_where (λ s. leb_ℤ s seq) k n.prepare_log;
    commits = λ k. lookup-delete_where (λ s. leb_ℤ s seq) k n.commit_log;
    votes = λ k. lookup-delete_where (λ s. leb_ℤ s seq) k n.checkpoint_votes;
    own = λ k. lookup-delete_where (λ s. ltb_ℤ s seq) k n.checkpoints;
    others = refl;
  }

  -- What `HandleCheckpoint` makes of a node.
  pub data Checkpointed (n : PbftNode App) (ckpt : Checkpoint) (m : PbftNode App) : Type 0 where
    old : leb_ℤ ckpt.sequence n.last_stable_checkpoint ≡ true → m ≡ n → Checkpointed n ckpt m
    undecided :
        leb_ℤ ckpt.sequence n.last_stable_checkpoint ≡ false
        → IsStored n ckpt m
        → ((d : String) → votes_for d (votes_at ckpt.sequence m.checkpoint_votes) < 2 * n.f + 1)
        → Checkpointed n ckpt m
    agreed :
        (stored : PbftNode App) (d : String)
        → leb_ℤ ckpt.sequence n.last_stable_checkpoint ≡ false
        → IsStored n ckpt stored
        → 2 * n.f + 1 ≤ votes_for d (votes_at ckpt.sequence stored.checkpoint_votes)
        → IsStable stored ckpt.sequence m
        → Checkpointed n ckpt m

  required_lem : (n : PbftNode App) → required n ≡ 2 * n.f + 1
  required_lem n = ground arith

  checkpointed :
      (n : PbftNode App) (ckpt : Checkpoint) (m : PbftNode App)
      → leb_ℤ ckpt.sequence n.last_stable_checkpoint ≡ false
      → Stabilized (tally [] (votes_with n ckpt)) (store_checkpoint n ckpt) ckpt.sequence m
      → Checkpointed n ckpt m
  unfolding lookup
  checkpointed n ckpt _ h (unstable u) =
      undecided h (store_checkpoint-IsStored n ckpt)
        (λ d. ground (arith, u d, tally_lem d [] (votes_with n ckpt), required_lem n))
  checkpointed n ckpt _ h (stable d q) =
      agreed (store_checkpoint n ckpt) d h (store_checkpoint-IsStored n ckpt)
        (ground (arith, tally_lem d [] (votes_with n ckpt), required_lem n))
        (stabilize-IsStable (store_checkpoint n ckpt) ckpt.sequence)

  pub handle_checkpoint-Checkpointed :
      (n : PbftNode App) (ckpt : Checkpoint) → Checkpointed n ckpt (handle_checkpoint n ckpt)
  unfolding handle_checkpoint
  handle_checkpoint-Checkpointed n ckpt =
      elim (Bool-cases (leb_ℤ ckpt.sequence n.last_stable_checkpoint)) [
        | inl h ↦ rw (h, handle_checkpoint) (old h refl)
        | inr h ↦ elim (Bool-cases (ltb (length (votes_with n ckpt)) (required n))) [
          | inl g ↦
              rw (h, g, handle_checkpoint)
                (undecided h (store_checkpoint-IsStored n ckpt)
                  (λ d. ground (arith, votes_for-le d (votes_with n ckpt), required_lem n)))
          | inr g ↦
              rw (h, g, handle_checkpoint)
                (checkpointed n ckpt _ h (
                  stable_loop_lem (tally [] (votes_with n ckpt)) (store_checkpoint n ckpt)
                    ckpt.sequence (IsMap-tally [] (votes_with n ckpt) tt)))
        ]
      ]
