-- ===== src/Supervisor/Simulator/Single.antt =====
-- At most one process of the simulator at a time, and what `Stop` does to it.
use dtvn.Prelude.Int.{ℤ}
use dtvn.Prelude.{
  ℕ, String, Bool, true, false, not, Option, none, some, ◌≡◌, refl, ap, ◌∙◌, inl, inr, arith,
  Bool-cases,
}
use dtvn.Supervisor.Simulator.Config.{SimulatorConfig}
use dtvn.Supervisor.Simulator.Dedup.{is_duplicate_line}
use dtvn.Supervisor.Simulator.{
  SimulatorController, SimulatorProgress, LineMatch, complete, parse_result_line, after_headline,
  after_result, is_running, new, start, launch, set_error, stream_line, after_progress, add_output,
  exit, stop, final,
}

-- where the goroutine of the last `Start` is
pub data Phase : Type 0 where
  over begun live : Phase

abbrev pub is_over : Phase → Bool
is_over over = true
is_over _ = false

final-over : (c : Bool) (e : Option String) → is_running (final c e).0 ≡ false
final-over true e = refl
final-over false none = refl
final-over false (some text) = refl

module _ {Rate : Type 0} where
  -- The steps of the controller with the goroutine's: it begins where `Start` is not refused, makes
  -- its context, reads lines, and ends by an error or with the process.
  pub data Step : Phase → SimulatorController Rate → Phase → SimulatorController Rate → Type 0 where
    starts :
        (p : Phase) (s : SimulatorController Rate) (config : SimulatorConfig Rate)
        → (start s config).1 ≡ false
        → Step p s begun (start s config).0
    launches : (s : SimulatorController Rate) → Step begun s live (launch s)
    fails : (s : SimulatorController Rate) (text : String) → Step live s over (set_error s text)
    reads :
        (zero_rate : Rate) (s : SimulatorController Rate) (now : ℕ) (line : String)
        (found : LineMatch Rate)
        → Step live s live (stream_line zero_rate s now line found)
    exits : (s : SimulatorController Rate) (e : Option String) → Step live s over (exit s e)
    stops : (p : Phase) (s : SimulatorController Rate) → Step p s p (stop s).0

  pub data Reach (max : ℕ) : Phase → SimulatorController Rate → Type 0 where
    here : Reach max over (new max)
    next :
        {p q : Phase} {s t : SimulatorController Rate}
        → Reach max p s
        → Step p s q t
        → Reach max q t

  abbrev IsTold : Phase → SimulatorController Rate → Type 0
  IsTold p s = is_running s.status ≡ not (is_over p)

  status-after_progress :
      (s : SimulatorController Rate) (p : Option SimulatorProgress)
      → (after_progress s p).status ≡ s.status
  unfolding after_progress
  status-after_progress s none = refl
  status-after_progress s (some p) = refl

  status-after_headline :
      (zero_rate : Rate) (s : SimulatorController Rate) (b : Bool)
      → (after_headline zero_rate s b).status ≡ s.status
  unfolding after_headline
  status-after_headline zero_rate s true = refl
  status-after_headline zero_rate s false = refl

  status-after_result :
      (zero_rate : Rate) (s : SimulatorController Rate) (r : Option (String × Rate × ℤ))
      → (after_result zero_rate s r).status ≡ s.status
  unfolding after_result parse_result_line
  status-after_result zero_rate s none = refl
  status-after_result zero_rate s (some (key, n, i)) = refl

  status-stream_line :
      (zero_rate : Rate) (s : SimulatorController Rate) (now : ℕ) (line : String)
      (found : LineMatch Rate)
      → (stream_line zero_rate s now line found).status ≡ s.status
  unfolding stream_line add_output
  status-stream_line zero_rate s now line found =
      let (d, is_duplicate) = is_duplicate_line s.dedup now line in
      let read = add_output (record s { dedup = d }) line in
      let after = after_progress read found.progress in
      let titled = after_headline zero_rate after found.is_headline in
      elim (Bool-cases is_duplicate) [
        | inl e ↦ rw e refl
        | inr e ↦ rw e (
            status-after_result zero_rate titled found.result
            ∙ status-after_headline zero_rate after found.is_headline
            ∙ status-after_progress read found.progress)
      ]

  Step-IsTold :
      {p q : Phase} {s t : SimulatorController Rate} → Step p s q t → IsTold p s → IsTold q t
  unfolding start launch set_error exit stop add_output
  Step-IsTold (starts p s config accepted) h = ground arith
  Step-IsTold (launches s) h = h
  Step-IsTold (fails s text) h = refl
  Step-IsTold (reads zero_rate s now line found) h =
      ap is_running (status-stream_line zero_rate s now line found) ∙ h
  Step-IsTold (exits s e) h = final-over s.is_cancelled e
  Step-IsTold (stops p s) h = ground arith

  Reach-IsTold : {max : ℕ} {p : Phase} {s : SimulatorController Rate} → Reach max p s → IsTold p s
  unfolding new
  Reach-IsTold here = refl
  Reach-IsTold (next r step) = Step-IsTold step (Reach-IsTold r)

  -- In every state that a new controller reaches, whatever is started and stopped and whatever its
  -- process writes and ends with, `Start` is refused exactly if the goroutine of the last `Start`
  -- is not over.
  pub start-over :
      (max : ℕ) (p : Phase) (s : SimulatorController Rate) (config : SimulatorConfig Rate)
      → Reach max p s
      → (start s config).1 ≡ not (is_over p)
  unfolding start
  start-over max p s config r = ground (arith, Reach-IsTold r)

  -- A `Stop` between `Start` and the first step of the goroutine is lost.
  exit-launch-stop :
      (s : SimulatorController Rate)
      → is_running s.status ≡ true
      → ((stop s).1 ≡ false) × ((exit (launch (stop s).0) none).status ≡ complete)
  unfolding exit launch stop add_output
  exit-launch-stop s h = rw h (refl, refl)
