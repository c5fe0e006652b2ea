-- ===== src/Consensus/Quorum/Intersection.antt =====
-- Why 2f + 1 votes decide: two quorums share a node that is not faulty.
use dtvn.Prelude.{
  ◌≤◌, ◌<◌, String, Bool, true, false, ◌&&◌, List, ◌≡◌, length, string_eq, arith, count_where,
  count_where-and, count_where-lt,
}
use dtvn.Prelude.GoMap.{GoMap, IsMap}
use dtvn.Prelude.GoMap.Count.{has, IsWithin, length-le-count_where}
use dtvn.Consensus.Types.{PrepareMsg}
use dtvn.Consensus.Quorum.{
  new, check_prepare_quorum, get_max_byzantine_nodes, is_valid_network_size,
}

module _ (nodes : List String) (p q : GoMap String PrepareMsg) where
  -- In a network of a valid size, more than `f` nodes stand in both of two quorums.
  pub shared_voters :
      is_valid_network_size (length nodes) ≡ true
      → IsMap p
      → IsMap q
      → IsWithin nodes p
      → IsWithin nodes q
      → check_prepare_quorum (new (length nodes)) p ≡ true
      → check_prepare_quorum (new (length nodes)) q ≡ true
      → get_max_byzantine_nodes (new (length nodes)) < count_where (λ n. has p n && has q n) nodes
  unfolding is_valid_network_size check_prepare_quorum get_max_byzantine_nodes new
  shared_voters v dp dq wp wq hp hq = ground (
    arith,
    length-le-count_where nodes p dp wp,
    length-le-count_where nodes q dq wq,
    count_where-and (has p) (has q) nodes,
  )

  -- In a network of a valid size with no more faulty nodes than it tolerates, two maps of PREPAREs
  -- whose keys are nodes of the network, and that both pass the check of the quorum, share the
  -- vote of a node that is not faulty.
  pub shared_honest_voter :
      (faulty : String → Bool)
      → is_valid_network_size (length nodes) ≡ true
      → count_where faulty nodes ≤ get_max_byzantine_nodes (new (length nodes))
      → IsMap p
      → IsMap q
      → IsWithin nodes p
      → IsWithin nodes q
      → check_prepare_quorum (new (length nodes)) p ≡ true
      → check_prepare_quorum (new (length nodes)) q ≡ true
      → (n : String) × ((has p n && has q n) ≡ true) × (faulty n ≡ false)
  shared_honest_voter faulty v few dp dq wp wq hp hq =
      count_where-lt (λ n. has p n && has q n) faulty nodes
        (omega (arith, shared_voters v dp dq wp wq hp hq))
