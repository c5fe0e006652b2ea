-- ===== src/Consensus/Quorum.antt =====
-- pkg/consensus/quorum.go. `totalNodes` counts nodes, so it is a natural number; Go's division of
-- `totalNodes - 1` rounds towards 0, which at 0 nodes gives 0 as the division here does.
pub mod Votes
pub mod Intersection
use dtvn.Prelude.{
  ℕ, suc, ◌+◌, ◌-◌, ◌*◌, ◌/◌, ◌%◌, String, Bool, true, false, ◌&&◌, Option, none, some, List, [],
  ◌∷◌, if◌then◌else◌, leb, ltb, ◌==◌, not, length, nat_eq, string_eq,
}
use dtvn.Prelude.Int.{ℤ, int_eq}
use dtvn.Prelude.GoMap.{GoMap}
use dtvn.Consensus.Types.{Vote, PrepareMsg, CommitMsg}

pub record QuorumChecker : Type 0 where
  pub total_nodes : ℕ
  pub f : ℕ

unfoldable pub new : ℕ → QuorumChecker
new total_nodes = record { total_nodes = total_nodes; f = (total_nodes - 1) / 3 }

unfoldable pub check_quorum : QuorumChecker → List Vote → Bool
check_quorum qc votes = leb (2 * qc.f + 1) (length votes)

unfoldable pub check_prepare_quorum : QuorumChecker → GoMap String PrepareMsg → Bool
check_prepare_quorum qc prepares = leb (2 * qc.f + 1) (length prepares)

unfoldable pub check_commit_quorum : QuorumChecker → GoMap String CommitMsg → Bool
check_commit_quorum qc commits = leb (2 * qc.f + 1) (length commits)

-- The two errors of `ValidateQuorum`, with the numbers that they print.
pub data Error : Type 0 where
  insufficient_votes insufficient_valid_votes : ℕ → ℕ → Error

-- the loop of `ValidateQuorum`
unfoldable pub count_valid : ℤ → String → ℕ → List Vote → ℕ
count_valid sequence digest valid [] = valid
count_valid sequence digest valid (v ∷ votes) =
    count_valid sequence digest
      (if not (v.sequence == sequence)
        then valid
        else if not (v.digest == digest)
        then valid
        else valid + 1)
      votes

unfoldable pub validate_quorum : QuorumChecker → List Vote → ℤ → String → Option Error
unfolding check_quorum count_valid
validate_quorum qc votes sequence digest =
    let valid = count_valid sequence digest 0 votes in
    if not (check_quorum qc votes)
    then some (insufficient_votes (length votes) (2 * qc.f + 1))
    else if ltb valid (2 * qc.f + 1)
    then some (insufficient_valid_votes valid (2 * qc.f + 1))
    else none

unfoldable pub get_required_quorum : QuorumChecker → ℕ
get_required_quorum qc = 2 * qc.f + 1

unfoldable pub get_max_byzantine_nodes : QuorumChecker → ℕ
get_max_byzantine_nodes qc = qc.f

unfoldable pub can_tolerate_failures : QuorumChecker → ℕ → Bool
can_tolerate_failures qc active_nodes = leb (2 * qc.f + 1) active_nodes

unfoldable pub is_valid_network_size : ℕ → Bool
is_valid_network_size total_nodes = leb 4 total_nodes && ((total_nodes - 1) % 3 == 0)

unfoldable pub calculate_optimal_network_size : ℕ → ℕ
calculate_optimal_network_size byzantine_nodes = 3 * byzantine_nodes + 1
