-- ===== src/Examples/Quorum.antt =====
-- Quorums of a network of four nodes.
use dtvn.Prelude.{
  ◌≤◌, ◌≢◌, ◌↔◌, String, Bool, true, false, ◌&&◌, none, List, [], ◌∷◌, ◌==◌, ◌≡◌, refl, arith,
  string_eq, count_where,
}
use dtvn.Prelude.Int.{pos}
use dtvn.Prelude.GoMap.{GoMap, IsMap}
use dtvn.Prelude.GoMap.Count.{has, contains, IsWithin}
use dtvn.Consensus.Types.{Vote, PrepareMsg}
use dtvn.Consensus.Quorum.{
  QuorumChecker, validate_quorum, get_required_quorum, get_max_byzantine_nodes,
  can_tolerate_failures, is_valid_network_size, calculate_optimal_network_size,
  check_prepare_quorum,
}
use dtvn.Consensus.Quorum
use dtvn.Consensus.Quorum.Votes.{matches, validate_quorum_iff}
use dtvn.Consensus.Quorum.Intersection.{shared_honest_voter}

abbrev vote : String → String → Vote
vote node_id digest = record {
  node_id = node_id;
  sequence = pos 1;
  digest = digest;
  signature = "";
  timestamp = pos 0;
}

abbrev votes : List Vote
votes = vote "node0" "a" ∷ vote "node1" "a" ∷ vote "node2" "b" ∷ vote "node3" "a" ∷ []

validate_quorum_iff_example :
    (validate_quorum (Quorum.new 4) votes (pos 1) "a" ≡ none)
    ↔ (get_required_quorum (Quorum.new 4) ≤ count_where (matches (pos 1) "a") votes)
validate_quorum_iff_example = validate_quorum_iff (Quorum.new 4) votes (pos 1) "a"

abbrev nodes : List String
nodes = "node0" ∷ "node1" ∷ "node2" ∷ "node3" ∷ []

abbrev prepare : String → PrepareMsg
prepare node_id = record { view = pos 0; sequence = pos 1; digest = "a"; node_id = node_id }

abbrev first : GoMap String PrepareMsg
first = ("node0", prepare "node0") ∷ ("node1", prepare "node1") ∷ ("node2", prepare "node2") ∷ []

abbrev second : GoMap String PrepareMsg
second = ("node1", prepare "node1") ∷ ("node2", prepare "node2") ∷ ("node3", prepare "node3") ∷ []

abbrev faulty : String → Bool
faulty node = node == "node3"

differ : (a b : String) → (a == b) ≡ false → a ≢ b
differ a b h e = ground (arith, string_eq.beq_iff a b)

first-IsMap : IsMap first
first-IsMap = (
  (differ "node1" "node0" refl, (differ "node2" "node0" refl, tt)),
  ((differ "node2" "node1" refl, tt), (tt, tt)),
)

second-IsMap : IsMap second
second-IsMap = (
  (differ "node2" "node1" refl, (differ "node3" "node1" refl, tt)),
  ((differ "node3" "node2" refl, tt), (tt, tt)),
)

first-IsWithin : IsWithin nodes first
unfolding contains
first-IsWithin = (refl, (refl, (refl, tt)))

second-IsWithin : IsWithin nodes second
unfolding contains
second-IsWithin = (refl, (refl, (refl, tt)))

shared_honest_voter_example :
    (n : String) × ((has first n && has second n) ≡ true) × (faulty n ≡ false)
unfolding is_valid_network_size check_prepare_quorum get_max_byzantine_nodes Quorum.new
shared_honest_voter_example =
    shared_honest_voter nodes first second faulty refl (omega arith) first-IsMap second-IsMap
      first-IsWithin second-IsWithin refl refl
