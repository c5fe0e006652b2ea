-- ===== src/Gossip/Peers.antt =====
-- pkg/gossip/engine.go, `selectRandomPeers`. What `rand.Intn(len(shuffled)-i)` returns in each
-- round is an argument, one number for a round.
pub mod Sample
use dtvn.Prelude.{ℕ, zero, suc, ◌+◌, ◌-◌, String, List, [], ◌∷◌, leb, if◌then◌else◌, length}
use dtvn.Prelude.Arrays.{get_or, set, take}

-- `shuffled[i], shuffled[j] = shuffled[j], shuffled[i]`
unfoldable pub swap : List String → ℕ → ℕ → List String
swap xs i j = set (set xs i (get_or xs "" j)) j (get_or xs "" i)

-- the loop from round `i` on, one draw for each round
unfoldable pub shuffle : List String → ℕ → List ℕ → List String
unfolding swap
shuffle xs i [] = xs
shuffle xs i (draw ∷ draws) = shuffle (swap xs i (i + draw)) (suc i) draws

unfoldable pub select_random_peers : List String → ℕ → List ℕ → List String
unfolding shuffle
select_random_peers peers n draws =
    if leb (length peers) n then peers else take n (shuffle peers 0 draws)
