-- ===== src/Supervisor/Simulator/Config.antt =====
-- pkg/supervisor/simulator.go, `SimulatorConfig` with `ValidateConfig`. The two comparisons of the
-- rate of lost packets, a `float64`, are arguments.
pub mod Tolerates
use dtvn.Prelude.{
  ℕ, zero, suc, ◌+◌, ◌/◌, Bool, true, false, ◌||◌, Option, none, some, if◌then◌else◌,
}
use dtvn.Prelude.Int.{ℤ, pos, negsuc, ltb_ℤ}

pub record SimulatorConfig (Rate : Type 0) : Type 0 where
  pub nodes : ℤ
  pub byzantine_nodes : ℤ
  pub tickets : ℤ
  pub duration_seconds : ℤ
  pub latency_ms : ℤ
  pub packet_loss_rate : Rate
  pub enable_partitions : Bool

pub data Error : Type 0 where
  too_few_nodes too_many_nodes no_tickets too_many_tickets too_short too_long lossy : Error
  too_many_byzantine : ℤ → ℤ → ℤ → Error

-- `-n`
abbrev negated : ℕ → ℤ
negated zero = pos 0
negated (suc n) = negsuc n

-- `(nodes - 1) / 3`, which rounds towards 0
abbrev pub max_byzantine : ℤ → ℤ
max_byzantine (pos zero) = pos 0
max_byzantine (pos (suc n)) = pos (n / 3)
max_byzantine (negsuc n) = negated ((n + 2) / 3)

-- `is_negative` is `rate < 0`, and `is_high` is `rate > 0.5`.
unfoldable pub validate_config :
    {Rate : Type 0} → (Rate → Bool) → (Rate → Bool) → SimulatorConfig Rate → Option Error
validate_config is_negative is_high c =
    if ltb_ℤ c.nodes (pos 4)
    then some too_few_nodes
    else if ltb_ℤ (pos 30) c.nodes
    then some too_many_nodes
    else if ltb_ℤ (max_byzantine c.nodes) c.byzantine_nodes
    then some (too_many_byzantine c.byzantine_nodes (max_byzantine c.nodes) c.nodes)
    else if ltb_ℤ c.tickets (pos 1)
    then some no_tickets
    else if ltb_ℤ (pos 1000) c.tickets
    then some too_many_tickets
    else if ltb_ℤ c.duration_seconds (pos 10)
    then some too_short
    else if ltb_ℤ (pos 600) c.duration_seconds
    then some too_long
    else if is_negative c.packet_loss_rate || is_high c.packet_loss_rate
    then some lossy
    else none

-- `rate` is 0.01
abbrev pub default_simulator_config : {Rate : Type 0} → Rate → SimulatorConfig Rate
default_simulator_config rate = record {
  nodes = pos 7;
  byzantine_nodes = pos 2;
  tickets = pos 100;
  duration_seconds = pos 60;
  latency_ms = pos 50;
  packet_loss_rate = rate;
  enable_partitions = false;
}
