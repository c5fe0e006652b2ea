-- ===== src/Consensus/Quorum/Votes.antt =====
-- What `ValidateQuorum` accepts, and the sizes of networks.
use dtvn.Prelude.{
  ℕ, ◌+◌, ◌≤◌, ◌<◌, String, Bool, true, ◌&&◌, none, List, [], ◌∷◌, ◌≡◌, ◌↔◌, ◌==◌, length,
  string_eq, arith, count_where,
}
use dtvn.Prelude.Int.{ℤ, int_eq}
use dtvn.Consensus.Types.{Vote}
use dtvn.Consensus.Quorum.{
  QuorumChecker, new, count_valid, validate_quorum, get_required_quorum, get_max_byzantine_nodes,
  is_valid_network_size, calculate_optimal_network_size, can_tolerate_failures,
}

-- A vote for the expected sequence and digest.
abbrev pub matches : ℤ → String → Vote → Bool
matches sequence digest v = v.sequence == sequence && v.digest == digest

count_valid_lem :
    (sequence : ℤ) (digest : String) (valid : ℕ) (votes : List Vote)
    → count_valid sequence digest valid votes ≡ valid + count_where (matches sequence digest) votes
unfolding count_valid
count_valid_lem sequence digest valid [] = omega arith
count_valid_lem sequence digest valid (v ∷ votes) = ground (
  arith,
  count_valid_lem sequence digest valid votes,
  count_valid_lem sequence digest (valid + 1) votes,
)

count_where-le-length : (p : Vote → Bool) (votes : List Vote) → count_where p votes ≤ length votes
count_where-le-length p [] = omega arith
count_where-le-length p (v ∷ votes) = ground (arith, count_where-le-length p votes)

-- `ValidateQuorum` accepts exactly when the votes for the expected sequence and digest reach the
-- quorum, whatever the other votes are.
pub validate_quorum_iff :
    (qc : QuorumChecker) (votes : List Vote) (sequence : ℤ) (digest : String)
    → (validate_quorum qc votes sequence digest ≡ none)
      ↔ (get_required_quorum qc ≤ count_where (matches sequence digest) votes)
unfolding validate_quorum get_required_quorum
validate_quorum_iff qc votes sequence digest = ground (
  arith,
  count_valid_lem sequence digest 0 votes,
  count_where-le-length (matches sequence digest) votes,
)

-- A network size is valid and tolerates `f` faults exactly when `f` is not 0 and the size is the
-- optimal one for `f`.
is_valid_network_size_iff :
    (n f : ℕ)
    → ((is_valid_network_size n ≡ true) × (get_max_byzantine_nodes (new n) ≡ f))
      ↔ ((0 < f) × (n ≡ calculate_optimal_network_size f))
unfolding is_valid_network_size get_max_byzantine_nodes new calculate_optimal_network_size
is_valid_network_size_iff n f = ground arith

-- In a network of any size but 0, the nodes that are active when no more fail than the network
-- tolerates can go on.
can_tolerate_failures_max :
    (n failed active : ℕ)
    → 0 < n
    → failed ≤ get_max_byzantine_nodes (new n)
    → active + failed ≡ n
    → can_tolerate_failures (new n) active ≡ true
unfolding can_tolerate_failures get_max_byzantine_nodes new
can_tolerate_failures_max n failed active p h e = ground arith
