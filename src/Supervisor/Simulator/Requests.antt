-- ===== src/Supervisor/Simulator/Requests.antt =====
-- pkg/supervisor/server.go, the handlers of requests about a simulation.
use dtvn.Prelude.{
  Bool, true, false, Option, none, some, ◌≡◌, refl, Bool-cases, Option-cases, inl, inr,
  if◌then◌else◌, [],
}
use dtvn.Supervisor.Buffer.{get_lines, clear}
use dtvn.Supervisor.Simulator.Config.{
  SimulatorConfig, Error, validate_config, default_simulator_config,
}
use dtvn.Supervisor.Simulator.Config.Tolerates.{IsAccepted, validate_config-IsTolerable}
use dtvn.Supervisor.Simulator.{SimulatorController, is_running, start, stop, running}

pub data Response : Type 0 where
  invalid : Error → Response
  already_running not_running started stopping : Response

module _ {Rate : Type 0} (is_negative is_high : Rate → Bool) (default_rate : Rate) where
  abbrev pub config_or_default : Option (SimulatorConfig Rate) → SimulatorConfig Rate
  config_or_default none = default_simulator_config default_rate
  config_or_default (some config) = config

  abbrev pub answer : SimulatorController Rate × Bool → SimulatorController Rate × Response
  answer (s, true) = (s, already_running)
  answer (s, false) = (s, started)

  -- once the configuration is validated
  abbrev pub after_validation :
      SimulatorController Rate
      → SimulatorConfig Rate
      → Option Error
      → SimulatorController Rate × Response
  after_validation s config (some e) = (s, invalid e)
  after_validation s config none = answer (start s config)

  -- A body that cannot be decoded is none.
  unfoldable pub handle_start_simulator :
      SimulatorController Rate → Option (SimulatorConfig Rate) → SimulatorController Rate × Response
  handle_start_simulator s body =
      let config = config_or_default body in
      after_validation s config (validate_config is_negative is_high config)

  -- What the answer means.
  abbrev pub IsAnswered :
      SimulatorController Rate
      → Option (SimulatorConfig Rate)
      → SimulatorController Rate
      → Response
      → Type 0
  IsAnswered s body s' (invalid e) =
      (s' ≡ s) × (validate_config is_negative is_high (config_or_default body) ≡ some e)
  IsAnswered s body s' already_running = (s' ≡ s) × (is_running s.status ≡ true)
  IsAnswered s body s' started =
      (is_running s.status ≡ false)
      × (s'.status ≡ running)
      × (s'.config ≡ some (config_or_default body))
      × (s'.results ≡ none)
      × (get_lines s'.output_lines ≡ [])
      × IsAccepted is_negative is_high (config_or_default body)
  IsAnswered s body s' _ = ⊥

  answer-IsAnswered :
      (s : SimulatorController Rate) (body : Option (SimulatorConfig Rate))
      → validate_config is_negative is_high (config_or_default body) ≡ none
      → IsAnswered s body
          (answer (start s (config_or_default body))).0
          (answer (start s (config_or_default body))).1
  unfolding start clear
  answer-IsAnswered s body valid = elim (Bool-cases (is_running s.status)) [
    | inl runs ↦ rw runs (refl, runs)
    | inr idle ↦ rw idle (
      idle,
      refl,
      refl,
      refl,
      refl,
      validate_config-IsTolerable is_negative is_high (config_or_default body) valid,
    )
  ]

  -- A request to start a simulation is answered as started only if none was running, and then it
  -- runs with no output and no results and the configuration of the request, or the default. That
  -- has 4 to 30 nodes, no more faulty ones than their number tolerates, 1 to 1000 tickets, 10 to
  -- 600 seconds, and a rate of packet loss that is neither negative nor too high; that the faulty
  -- nodes are not fewer than 0, and that the latency is in a range, is not tested. Otherwise the
  -- controller is as before, and a simulation was running or the configuration is refused.
  pub handle_start_simulator-IsAnswered :
      (s : SimulatorController Rate) (body : Option (SimulatorConfig Rate))
      → IsAnswered s body (handle_start_simulator s body).0 (handle_start_simulator s body).1
  unfolding handle_start_simulator
  handle_start_simulator-IsAnswered s body =
      elim (Option-cases (validate_config is_negative is_high (config_or_default body))) [
        | inl valid ↦ rw (valid, handle_start_simulator) (answer-IsAnswered s body valid)
        | inr (e, bad) ↦ rw (bad, handle_start_simulator) (refl, bad)
      ]

unfoldable pub handle_stop_simulator :
    {Rate : Type 0} → SimulatorController Rate → SimulatorController Rate × Response
unfolding stop
handle_stop_simulator s =
    let (s', is_refused) = stop s in (s', if is_refused then not_running else stopping)
