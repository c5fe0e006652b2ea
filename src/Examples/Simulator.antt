-- ===== src/Examples/Simulator.antt =====
-- A simulation with a rate of lost packets in thousandths.
use dtvn.Prelude.{ℕ, Bool, false, not, ltb, some, List, [], ◌∷◌, String, ◌≡◌, refl, arith}
use dtvn.Supervisor.Simulator.{SimulatorController, new, start, launch}
use dtvn.Supervisor.Simulator.Config.{SimulatorConfig, default_simulator_config}
use dtvn.Supervisor.Simulator.Dedup
use dtvn.Supervisor.Simulator.Dedup.Recall.{answers, ideal_answers, answers-new}
use dtvn.Supervisor.Simulator.Single.{
  Reach, here, next, starts, launches, is_over, live, over, start-over,
}
use dtvn.Supervisor.Simulator.Requests.{
  IsAnswered, handle_start_simulator, handle_start_simulator-IsAnswered,
}

abbrev is_negative : ℕ → Bool
is_negative rate = false

abbrev is_high : ℕ → Bool
is_high rate = ltb 500 rate

abbrev config : SimulatorConfig ℕ
config = default_simulator_config 10

abbrev idle : SimulatorController ℕ
idle = new 0

abbrev calls : List (ℕ × String)
calls = (0, "a") ∷ (1000, "b") ∷ (400000000, "a") ∷ (800000000, "a") ∷ (1500000000, "b") ∷ []

answers-new_example : answers Dedup.new calls ≡ ideal_answers Dedup.new.dedup_window [] calls
answers-new_example =
    answers-new calls (omega arith, (omega arith, (omega arith, (omega arith, (omega arith, tt)))))

reached : Reach 0 live (launch (start idle config).0)
unfolding start new
reached = next (next here (starts over idle config refl)) (launches (start idle config).0)

start-over_example : (start (launch (start idle config).0) config).1 ≡ not (is_over live)
start-over_example = start-over 0 live (launch (start idle config).0) config reached

handle_start_simulator-IsAnswered_example :
    IsAnswered is_negative is_high 10 idle
      (some config)
      (handle_start_simulator is_negative is_high 10 idle (some config)).0
      (handle_start_simulator is_negative is_high 10 idle (some config)).1
handle_start_simulator-IsAnswered_example =
    handle_start_simulator-IsAnswered is_negative is_high 10 idle (some config)
