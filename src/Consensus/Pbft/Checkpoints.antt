-- ===== src/Consensus/Pbft/Checkpoints.antt =====
-- pkg/consensus/pbft.go: the checkpoints of other nodes, and the collection of old log entries.
pub mod Stable
use dtvn.Prelude.{
  ℕ, ◌+◌, String, Bool, true, false, Option, none, some, List, [], ◌∷◌, if◌then◌else◌, ◌==◌, leb,
  ltb, length, string_eq,
}
use dtvn.Prelude.Int.{ℤ, leb_ℤ, ltb_ℤ}
use dtvn.Prelude.GoMap.{GoMap, lookup, insert, delete_where}
use dtvn.Consensus.Types.{Checkpoint}
use dtvn.Consensus.Pbft.{PbftNode, put_vote, votes_at, required}

-- `digests[v.StateDigest]++` for every vote
abbrev pub count_or_zero : Option ℕ → ℕ
count_or_zero none = 0
count_or_zero (some n) = n

unfoldable pub tally : GoMap String ℕ → GoMap String Checkpoint → GoMap String ℕ
tally digests [] = digests
tally digests ((voter, v) ∷ votes) =
    tally (insert v.state_digest (count_or_zero (lookup v.state_digest digests) + 1) digests) votes

module _ {App : Type 0} where
  unfoldable pub garbage_collect : PbftNode App → ℤ → PbftNode App
  garbage_collect n up_to = record n {
    request_log = delete_where (λ seq. leb_ℤ seq up_to) n.request_log;
    prepare_log = delete_where (λ seq. leb_ℤ seq up_to) n.prepare_log;
    commit_log = delete_where (λ seq. leb_ℤ seq up_to) n.commit_log;
    checkpoints = delete_where (λ seq. ltb_ℤ seq up_to) n.checkpoints;
  }

  -- what happens at a digest that has a quorum
  unfoldable pub stabilize : PbftNode App → ℤ → PbftNode App
  unfolding garbage_collect
  stabilize n seq =
      let collected = garbage_collect (record n { last_stable_checkpoint = seq }) seq in
      record collected {
        checkpoint_votes = delete_where (λ s. leb_ℤ s seq) collected.checkpoint_votes;
      }

  -- the loop over the digests, which the first one with a quorum ends
  unfoldable pub stable_loop : GoMap String ℕ → PbftNode App → ℤ → PbftNode App
  stable_loop [] n seq = n
  stable_loop ((digest, count) ∷ digests) n seq =
      let rest = stable_loop digests n seq in
      if leb (required n) count then stabilize n seq else rest

  -- `n.checkpointVotes[ckpt.Sequence][ckpt.NodeID] = ckpt`
  abbrev pub store_checkpoint : PbftNode App → Checkpoint → PbftNode App
  store_checkpoint n ckpt = record n {
    checkpoint_votes = put_vote ckpt.sequence ckpt.node_id ckpt n.checkpoint_votes;
  }

  -- `HandleCheckpoint`, which never fails
  unfoldable pub handle_checkpoint : PbftNode App → Checkpoint → PbftNode App
  unfolding stable_loop tally
  handle_checkpoint n ckpt =
      let stored = store_checkpoint n ckpt in
      let votes = votes_at ckpt.sequence stored.checkpoint_votes in
      if leb_ℤ ckpt.sequence n.last_stable_checkpoint
      then n
      else if ltb (length votes) (required n)
      then stored
      else stable_loop (tally [] votes) stored ckpt.sequence
