-- ===== src/Observability.antt =====
-- execqueue/observability/logging.py: `ExecutionMetrics` and the functions that count. Its two time
-- stamps are left out; durations are microseconds. A rate is the pair of its two numbers, and `none`
-- where there is nothing to divide by and the code gives 0.
pub mod Redaction
pub mod Phases
pub mod Records
mod Examples
use exec_queue.Common.{
  ℕ, ◌+◌, String, Option, none, some, List, [], ◌∷◌, ◌==◌, str_eq, if◌then◌else◌,
}

pub record ExecutionMetrics : Type 0 where
  pub executions_claimed : ℕ
  pub executions_completed : ℕ
  pub executions_failed : ℕ
  pub retries_scheduled : ℕ
  pub retries_exhausted : ℕ
  pub stale_executions_detected : ℕ
  pub adoption_conflicts : ℕ
  pub phase_durations : List (String × ℕ)
  pub phase_counts : List (String × ℕ)

abbrev pub no_metrics : ExecutionMetrics
no_metrics = record {
  executions_claimed = 0;
  executions_completed = 0;
  executions_failed = 0;
  retries_scheduled = 0;
  retries_exhausted = 0;
  stale_executions_detected = 0;
  adoption_conflicts = 0;
  phase_durations = [];
  phase_counts = [];
}

abbrev pub record_execution_claimed : ExecutionMetrics → ExecutionMetrics
record_execution_claimed m = record m { executions_claimed = m.executions_claimed + 1 }

abbrev pub record_execution_completed : ExecutionMetrics → ExecutionMetrics
record_execution_completed m = record m { executions_completed = m.executions_completed + 1 }

abbrev pub record_execution_failed : ExecutionMetrics → ExecutionMetrics
record_execution_failed m = record m { executions_failed = m.executions_failed + 1 }

abbrev pub record_retry_scheduled : ExecutionMetrics → ExecutionMetrics
record_retry_scheduled m = record m { retries_scheduled = m.retries_scheduled + 1 }

abbrev pub record_retry_exhausted : ExecutionMetrics → ExecutionMetrics
record_retry_exhausted m = record m { retries_exhausted = m.retries_exhausted + 1 }

abbrev pub record_stale_detection : ExecutionMetrics → ExecutionMetrics
record_stale_detection m = record m { stale_executions_detected = m.stale_executions_detected + 1 }

abbrev pub record_adoption_conflict : ExecutionMetrics → ExecutionMetrics
record_adoption_conflict m = record m { adoption_conflicts = m.adoption_conflicts + 1 }

-- `numbers.get(key, 0)`
abbrev pub get_number : String → List (String × ℕ) → ℕ
get_number key [] = 0
get_number key ((k, n) ∷ numbers) =
    let rest = get_number key numbers in if str_eq k key then n else rest

-- `numbers[key] = number`
abbrev pub set_number : String → ℕ → List (String × ℕ) → List (String × ℕ)
set_number key number [] = (key, number) ∷ []
set_number key number ((k, n) ∷ numbers) =
    let rest = set_number key number numbers in
    if str_eq k key then (k, number) ∷ numbers else (k, n) ∷ rest

-- `record_phase_duration` of a duration that is no less than 0.
unfoldable pub record_phase_duration : String → ℕ → ExecutionMetrics → ExecutionMetrics
record_phase_duration phase duration m = record m {
  phase_durations =
      set_number phase (get_number phase m.phase_durations + duration) m.phase_durations;
  phase_counts = set_number phase (get_number phase m.phase_counts + 1) m.phase_counts;
}

abbrev rate : ℕ → ℕ → Option (ℕ × ℕ)
rate n total = if total == 0 then none else some (n, total)

unfoldable pub get_average_phase_duration : String → ExecutionMetrics → Option (ℕ × ℕ)
get_average_phase_duration phase m =
    rate (get_number phase m.phase_durations) (get_number phase m.phase_counts)

pub success_rate : ExecutionMetrics → Option (ℕ × ℕ)
success_rate m = rate m.executions_completed m.executions_claimed

pub retry_rate : ExecutionMetrics → Option (ℕ × ℕ)
retry_rate m = rate m.retries_scheduled m.executions_claimed
