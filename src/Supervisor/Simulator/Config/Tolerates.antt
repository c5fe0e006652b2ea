-- ===== src/Supervisor/Simulator/Config/Tolerates.antt =====
-- A configuration that is accepted against the bounds of consensus.
use dtvn.Prelude.{ℕ, zero, suc, ◌+◌, ◌*◌, ◌≤◌, Bool, false, none, ◌≡◌, arith}
use dtvn.Prelude.Int.{ℤ, pos, negsuc, ltb_ℤ}
use dtvn.Consensus.Quorum.{get_max_byzantine_nodes}
use dtvn.Consensus.Quorum
use dtvn.Supervisor.Simulator.Config.{SimulatorConfig, max_byzantine, validate_config}

-- at least 4 and at most 30 nodes, and no more faulty ones than their number tolerates
abbrev pub IsTolerable : ℤ → ℤ → Type 0
IsTolerable (pos nodes) (pos faulty) =
    (4 ≤ nodes)
    × (nodes ≤ 30)
    × (faulty ≤ get_max_byzantine_nodes (Quorum.new nodes))
    × (3 * faulty + 1 ≤ nodes)
IsTolerable (pos nodes) (negsuc n) = (4 ≤ nodes) × (nodes ≤ 30)
IsTolerable (negsuc n) faulty = ⊥

abbrev InRange : ℕ → ℕ → ℤ → Type 0
InRange low high (pos n) = (low ≤ n) × (n ≤ high)
InRange low high (negsuc n) = ⊥

tolerable :
    (nodes faulty : ℤ)
    → ltb_ℤ nodes (pos 4) ≡ false
    → ltb_ℤ (pos 30) nodes ≡ false
    → ltb_ℤ (max_byzantine nodes) faulty ≡ false
    → IsTolerable nodes faulty
unfolding get_max_byzantine_nodes Quorum.new
tolerable (pos zero) faulty low high few = absurd (ground arith)
tolerable (pos (suc n)) (pos faulty) low high few =
    (ground arith, ground arith, ground arith, ground arith)
tolerable (pos (suc n)) (negsuc faulty) low high few = (ground arith, ground arith)
tolerable (negsuc n) faulty low high few = absurd (ground arith)

in_range :
    (low high : ℕ) (x : ℤ)
    → ltb_ℤ x (pos low) ≡ false
    → ltb_ℤ (pos high) x ≡ false
    → InRange low high x
in_range low high (pos n) h k = (ground arith, ground arith)
in_range low high (negsuc n) h k = absurd (ground arith)

module _ {Rate : Type 0} (is_negative is_high : Rate → Bool) (c : SimulatorConfig Rate) where
  -- what every bound of a configuration is
  abbrev pub IsAccepted : Type 0
  IsAccepted =
      IsTolerable c.nodes c.byzantine_nodes
      × InRange 1 1000 c.tickets
      × InRange 10 600 c.duration_seconds
      × (is_negative c.packet_loss_rate ≡ false)
      × (is_high c.packet_loss_rate ≡ false)

  pub validate_config-IsTolerable : validate_config is_negative is_high c ≡ none → IsAccepted
  unfolding validate_config
  validate_config-IsTolerable passed = (
    tolerable c.nodes c.byzantine_nodes (ground arith) (ground arith) (ground arith),
    in_range 1 1000 c.tickets (ground arith) (ground arith),
    in_range 10 600 c.duration_seconds (ground arith) (ground arith),
    ground arith,
    ground arith,
  )
