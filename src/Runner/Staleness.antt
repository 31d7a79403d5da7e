-- ===== src/Runner/Staleness.antt =====
-- execqueue/runner/error_classification.py: the detection of executions that hang, one at a time and
-- by a query. A time is a number of microseconds; the thresholds are seconds.
pub mod Agreement
mod Examples
use exec_queue.Common.{
  ℕ, ◌+◌, ◌-◌, ◌*◌, Bool, true, false, ◌&&◌, ◌||◌, Option, none, some, String, List, ltb, leb,
  if◌then◌else◌, non_empty, is_some, Outcome, ok, raise, ◌>>=◌,
}
use exec_queue.Database.{Table}
use exec_queue.Model.{
  ExecutionStatus, queued, dispatching, in_progress, result_inspection, adopting_commit,
  TaskExecution,
}
use exec_queue.Runner.Errors.{RunnerPhase, stream, runner_phase}

pub record StaleThresholds : Type 0 where
  pub heartbeat_timeout_seconds : ℕ
  pub update_timeout_seconds : ℕ
  pub max_duration_seconds : ℕ
  pub phase_timeouts : RunnerPhase → Option ℕ

abbrev pub default_stale_thresholds : StaleThresholds
default_stale_thresholds = record {
  heartbeat_timeout_seconds = 300;
  update_timeout_seconds = 600;
  max_duration_seconds = 3600;
  phase_timeouts = λ _. none;
}

abbrev pub seconds : ℕ → ℕ
seconds n = n * 1000000

-- `RunnerPhase(execution.phase) if execution.phase else RunnerPhase.STREAM`
unfoldable pub phase_or_stream : Option String → Outcome RunnerPhase
unfolding runner_phase
phase_or_stream none = ok stream
phase_or_stream (some p) = if non_empty p then runner_phase p else ok stream

-- `phase_timeouts.get(phase, default)`
abbrev timeout_of : Option ℕ → ℕ → ℕ
timeout_of none d = d
timeout_of (some n) d = n

-- `(now - then).total_seconds() > limit`: a time in the future has no age.
abbrev older : ℕ → ℕ → ℕ → Bool
older now time limit = ltb (seconds limit) (now - time)

heartbeat_stale : StaleThresholds → ℕ → TaskExecution → Option ℕ → Outcome Bool
unfolding phase_or_stream
heartbeat_stale th now e none = ok false
heartbeat_stale th now e (some beat) = do
  phase ← phase_or_stream e.phase
  ok (older now beat (timeout_of (th.phase_timeouts phase) th.heartbeat_timeout_seconds))

duration_stale : StaleThresholds → ℕ → TaskExecution → ℕ → Outcome Bool
unfolding phase_or_stream
duration_stale th now e started = do
  phase ← phase_or_stream e.phase
  ok (older now started (timeout_of (th.phase_timeouts phase) th.max_duration_seconds))

created_stale : StaleThresholds → ℕ → Option ℕ → Bool
created_stale th now none = false
created_stale th now (some created) = older now created th.update_timeout_seconds

started_stale : StaleThresholds → ℕ → TaskExecution → ℕ → Outcome Bool
unfolding heartbeat_stale duration_stale
started_stale th now e started = do
  beat ← heartbeat_stale th now e e.heartbeat_at
  if beat
      then ok true
      else if older now e.updated_at th.update_timeout_seconds
      then ok true
      else duration_stale th now e started

pub is_execution_stale : StaleThresholds → ℕ → TaskExecution → Outcome Bool
unfolding started_stale created_stale
is_execution_stale th now e = elim e.started_at [
  | none ↦ ok (created_stale th now e.created_at)
  | some started ↦ started_stale th now e started
]

-- The statuses that the query looks at by default.
unfoldable pub is_watched : ExecutionStatus → Bool
is_watched queued = true
is_watched dispatching = true
is_watched in_progress = true
is_watched result_inspection = true
is_watched adopting_commit = true
is_watched _ = false

-- `column <= now - timedelta(seconds=limit)`, which is not true of a missing value.
abbrev at_or_before : Option ℕ → ℕ → ℕ → Bool
at_or_before none limit now = false
at_or_before (some time) limit now = leb (time + seconds limit) now

-- The condition of the query of `find_stale_executions`.
pub stale_row : StaleThresholds → ℕ → (ExecutionStatus → Bool) → TaskExecution → Bool
stale_row th now watched e =
    (at_or_before e.heartbeat_at th.heartbeat_timeout_seconds now
      && is_some e.heartbeat_at
      && watched e.status)
    || (leb (e.updated_at + seconds th.update_timeout_seconds) now && watched e.status)
    || (at_or_before e.started_at th.max_duration_seconds now && watched e.status)

-- The rows may carry more than the execution, which `execution` reads.
pub find_stale_executions :
    {Row : Type 0}
    → (Row → TaskExecution)
    → Table Row
    → StaleThresholds
    → ℕ
    → (ExecutionStatus → Bool)
    → List Row
    → List Row
find_stale_executions execution db th now watched rows =
    db.select_where (λ r. stale_row th now watched (execution r)) rows
