-- ===== src/Consensus/Pbft/Votes.antt =====
-- The votes that a node keeps: one for each sender at a sequence number or view.
use dtvn.Prelude.{suc, String, not, ◌&&◌, if◌then◌else◌, ◌==◌, ◌≡◌, ap, length, string_eq, arith}
use dtvn.Prelude.Int.{ℤ, int_eq}
use dtvn.Prelude.GoMap.{GoMap, lookup, insert}
use dtvn.Prelude.GoMap.Laws.{is_some, lookup-insert, lookup-insert_self, length-insert}
use dtvn.Consensus.Pbft.{votes_at, votes_or_empty, put_vote}

module _ {ℓ} {V : Type ℓ} where
  pub votes_at-put_vote :
      (seq : ℤ) (id : String) (v : V) (log : GoMap ℤ (GoMap String V))
      → votes_at seq (put_vote seq id v log) ≡ insert id v (votes_at seq log)
  unfolding put_vote
  votes_at-put_vote seq id v log =
      ap votes_or_empty (lookup-insert_self seq (insert id v (votes_at seq log)) log)

  -- Storing a vote adds one to the votes at its sequence number if its sender has none there, and
  -- else none; the numbers of votes at other sequence numbers stay.
  length-votes_at-put_vote :
      (seq other : ℤ) (id : String) (v : V) (log : GoMap ℤ (GoMap String V))
      → length (votes_at other (put_vote seq id v log)) ≡ (
          if seq == other && not (is_some (lookup id (votes_at seq log)))
          then suc (length (votes_at seq log))
          else length (votes_at other log))
  unfolding put_vote
  length-votes_at-put_vote seq other id v log = ground (
    arith,
    lookup-insert seq other (insert id v (votes_at seq log)) log,
    length-insert id v (votes_at seq log),
    int_eq.beq_iff seq other,
  )
