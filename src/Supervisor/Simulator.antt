-- ===== src/Supervisor/Simulator.antt =====
-- pkg/supervisor/simulator.go, `SimulatorController`: the state of a simulation, its process,
-- and what it reads from their lines. What the regular expressions find in a line is an argument, with
-- the numbers that the matches are read as. A line is handled in one step. A call of a callback is recorded as a notice, and `Rate` is `float64`.
pub mod Dedup
pub mod Config
pub mod Single
pub mod Requests
use Prim.Native.String.{◌++◌ as str_append}
use dtvn.Prelude.{
  ℕ, String, string_eq, Bool, true, false, ◌==◌, Option, none, some, List, [], ◌∷◌, if◌then◌else◌,
  nat_eq,
}
use dtvn.Prelude.Int.{ℤ, pos}
use dtvn.Supervisor.Buffer.{OutputBuffer, write, clear}
use dtvn.Supervisor.Buffer
use dtvn.Supervisor.Simulator.Dedup.{RecentLines, is_duplicate_line}
use dtvn.Supervisor.Simulator.Config.{SimulatorConfig}

pub data SimulatorStatus : Type 0 where
  idle running complete error : SimulatorStatus

-- without the percentage, which the first two give
pub record SimulatorProgress : Type 0 where
  pub current_ticket : ℤ
  pub total_tickets : ℤ
  pub consensus_rounds : ℤ
  pub successful_rounds : ℤ
  pub failed_rounds : ℤ

pub record SimulatorResults (Rate : Type 0) : Type 0 where
  pub total_tickets : ℤ
  pub validated_tickets : ℤ
  pub consensus_rounds : ℤ
  pub successful_rounds : ℤ
  pub failed_rounds : ℤ
  pub success_rate : Rate
  pub messages_sent : ℤ
  pub messages_received : ℤ
  pub partition_events : ℤ
  pub average_latency_ms : Rate

-- what a line is read as: a match of `progressRegex`, whether it is the headline of the results, and
-- a match of `resultRegex`, its key with no blanks around, its value as `float64` and as `int`
pub record LineMatch (Rate : Type 0) : Type 0 where
  pub progress : Option SimulatorProgress
  pub is_headline : Bool
  pub result : Option (String × Rate × ℤ)

pub data Notice : Type 0 where
  status_changed : SimulatorStatus → Notice
  progressed : SimulatorProgress → Notice
  line_read : String → Notice

-- `is_cancelled` says whether the context of the goroutine that began last is cancelled; before the
-- first one, a `Stop` that sets it has no effect.
pub record SimulatorController (Rate : Type 0) : Type 0 where
  pub status : SimulatorStatus
  pub config : Option (SimulatorConfig Rate)
  pub progress : Option SimulatorProgress
  pub results : Option (SimulatorResults Rate)
  pub output_lines : OutputBuffer
  pub is_cancelled : Bool
  pub dedup : RecentLines
  pub notices : List Notice

abbrev pub is_running : SimulatorStatus → Bool
is_running running = true
is_running _ = false

-- the status and the line at the end, by whether the context is cancelled and the error of the process
abbrev pub final : Bool → Option String → SimulatorStatus × String
final true e = (idle, "Simulation cancelled by user")
final false (some text) = (error, str_append "Simulation error: " text)
final false none = (complete, "Simulation completed successfully")

module _ {Rate : Type 0} where
  unfoldable pub new : ℕ → SimulatorController Rate
  new max_output_lines = record {
    status = idle;
    config = none;
    progress = none;
    results = none;
    output_lines = Buffer.new (if max_output_lines == 0 then 500 else max_output_lines);
    is_cancelled = false;
    dedup = Dedup.new;
    notices = [];
  }

  abbrev notify : Notice → SimulatorController Rate → SimulatorController Rate
  notify notice s = record s { notices = notice ∷ s.notices }

  unfoldable pub add_output : SimulatorController Rate → String → SimulatorController Rate
  add_output s line = record s { output_lines = write s.output_lines line }

  -- The result says whether a simulation runs already.
  unfoldable pub start :
      SimulatorController Rate → SimulatorConfig Rate → SimulatorController Rate × Bool
  start s config = if is_running s.status then (s, true) else (
    notify (status_changed running) (record s {
      status = running;
      config = some config;
      progress = some (record {
        current_ticket = pos 0;
        total_tickets = config.tickets;
        consensus_rounds = pos 0;
        successful_rounds = pos 0;
        failed_rounds = pos 0;
      });
      results = none;
      output_lines = clear s.output_lines;
    }),
    false,
  )

  -- the first step of the goroutine: a context of its own
  unfoldable pub launch : SimulatorController Rate → SimulatorController Rate
  launch s = record s { is_cancelled = false }

  unfoldable pub set_error : SimulatorController Rate → String → SimulatorController Rate
  unfolding add_output
  set_error s text =
      notify (status_changed error)
        (add_output (record s { status = error }) (str_append "ERROR: " text))

  unfoldable pub after_progress :
      SimulatorController Rate → Option SimulatorProgress → SimulatorController Rate
  after_progress s none = s
  after_progress s (some p) = notify (progressed p) (record s { progress = some p })

  -- The value that a new `float64` has is the first argument.
  abbrev no_results : Rate → SimulatorResults Rate
  no_results zero_rate = record {
    total_tickets = pos 0;
    validated_tickets = pos 0;
    consensus_rounds = pos 0;
    successful_rounds = pos 0;
    failed_rounds = pos 0;
    success_rate = zero_rate;
    messages_sent = pos 0;
    messages_received = pos 0;
    partition_events = pos 0;
    average_latency_ms = zero_rate;
  }

  abbrev results_or_new : Rate → Option (SimulatorResults Rate) → SimulatorResults Rate
  results_or_new zero_rate none = no_results zero_rate
  results_or_new zero_rate (some r) = r

  unfoldable pub with_result : SimulatorResults Rate → String → Rate → ℤ → SimulatorResults Rate
  with_result r key num_value int_value =
      if key == "Total Tickets"
      then record r { total_tickets = int_value }
      else if key == "Validated Tickets"
      then record r { validated_tickets = int_value }
      else if key == "Consensus Rounds"
      then record r { consensus_rounds = int_value }
      else if key == "Successful Rounds"
      then record r { successful_rounds = int_value }
      else if key == "Failed Rounds"
      then record r { failed_rounds = int_value }
      else if key == "Success Rate"
      then record r { success_rate = num_value }
      else if key == "Messages Sent"
      then record r { messages_sent = int_value }
      else if key == "Messages Received"
      then record r { messages_received = int_value }
      else if key == "Partition Events"
      then record r { partition_events = int_value }
      else r

  unfoldable pub parse_result_line :
      Rate → SimulatorController Rate → String → Rate → ℤ → SimulatorController Rate
  unfolding with_result
  parse_result_line zero_rate s key num_value int_value =
      let r = results_or_new zero_rate s.results in
      record s { results = some (with_result r key num_value int_value) }

  unfoldable pub after_headline : Rate → SimulatorController Rate → Bool → SimulatorController Rate
  after_headline zero_rate s is_headline =
      if is_headline then record s { results = some (results_or_new zero_rate s.results) } else s

  unfoldable pub after_result :
      Rate → SimulatorController Rate → Option (String × Rate × ℤ) → SimulatorController Rate
  unfolding parse_result_line
  after_result zero_rate s none = s
  after_result zero_rate s (some (key, num_value, int_value)) =
      parse_result_line zero_rate s key num_value int_value

  -- a round of `streamOutput`, at a time
  unfoldable pub stream_line :
      Rate → SimulatorController Rate → ℕ → String → LineMatch Rate → SimulatorController Rate
  unfolding add_output after_progress after_headline after_result
  stream_line zero_rate s now line found =
      let (d, is_duplicate) = is_duplicate_line s.dedup now line in
      let s' = record s { dedup = d } in
      if is_duplicate
      then s'
      else let read = after_progress (add_output s' line) found.progress in
        notify (line_read line)
          (after_result zero_rate (after_headline zero_rate read found.is_headline) found.result)

  -- the end of `runSimulator`, with the error of the process if there is one
  unfoldable pub exit : SimulatorController Rate → Option String → SimulatorController Rate
  unfolding add_output
  exit s e =
      let (status, line) = final s.is_cancelled e in
      notify (status_changed status) (add_output (record s { status = status }) line)

  -- The result says whether no simulation runs.
  unfoldable pub stop : SimulatorController Rate → SimulatorController Rate × Bool
  stop s = if is_running s.status then (record s { is_cancelled = true }, false) else (s, true)
