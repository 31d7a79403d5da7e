-- ===== src/Runner/Recovery.antt =====
-- execqueue/runner/recovery.py, the class `RecoveryService`: what is decided about an execution after
-- an error or a hang. The recovery actions stand in execqueue/runner/error_classification.py. The texts
-- of reasons and log lines are left out.
pub mod Bounded
pub mod Errors
mod Examples
pub mod Processing
pub mod Stale
use exec_queue.Common.{
  ℕ, zero, ◌+◌, ◌*◌, String, Bool, true, false, ◌&&◌, Option, none, some, List, [], ◌∷◌, ◌++◌,
  if◌then◌else◌, str_eq, Outcome, ok, raise, attribute_error, ◌>>=◌, is_ok,
}
use exec_queue.Database.{Table}
use exec_queue.Model.{
  ErrorType, classified, transient, conflict, ExecutionStatus, is_final, TaskExecution,
  TaskExecutionEvent, EventType, status_update, execution_failed, commit_adoption_conflict,
  retry_scheduled, retry_exhausted,
}
use exec_queue.Observability.{
  ExecutionMetrics, record_retry_scheduled, record_retry_exhausted, record_stale_detection,
  record_adoption_conflict,
}
use exec_queue.Runner.Errors.{
  RunnerPhase, RetryMatrix, PyException, default_retry_matrix, classify_error,
}
use exec_queue.Runner.Retry.{RetryDecision, calculate_retry_decision}
use exec_queue.Runner.Staleness.{
  StaleThresholds, is_watched, find_stale_executions, phase_or_stream,
}

pub data RecoveryAction : Type 0 where
  observe retry review failed revalidate_adoption : RecoveryAction

pub record RecoveryDecision : Type 0 where
  pub action : RecoveryAction
  pub error_type : ErrorType
  pub phase : RunnerPhase
  pub should_update_status : Bool
  pub new_status : Option ExecutionStatus
  pub next_retry_at : Option ℕ

-- The action of a decision, and the status that it sets.
abbrev pub chosen : Outcome RecoveryDecision → Option (RecoveryAction × Option ExecutionStatus)
chosen (raise x) = none
chosen (ok d) = some (d.action, if d.should_update_status then d.new_status else none)

-- What a call gives, the execution as it left it, and the counters.
abbrev pub Handled : Type 0 → Type 0
Handled A = Outcome A × TaskExecution × ExecutionMetrics

abbrev is_conflict : ErrorType → Bool
is_conflict conflict = true
is_conflict _ = false

-- `handle_error` from the retry decision on.
after_decision :
    ErrorType
    → RunnerPhase
    → RetryDecision
    → TaskExecution
    → ExecutionMetrics
    → Handled RecoveryDecision
after_decision t phase d e m =
    if d.retry_exhausted
    then (if is_conflict t
        then (
          ok (record {
            action = review;
            error_type = t;
            phase = phase;
            should_update_status = true;
            new_status = some ExecutionStatus.review;
            next_retry_at = none;
          }),
          e,
          m,
        )
        else (
          ok (record {
            action = failed;
            error_type = t;
            phase = phase;
            should_update_status = true;
            new_status = some ExecutionStatus.failed;
            next_retry_at = none;
          }),
          e,
          record_retry_exhausted m,
        ))
    else if d.should_retry
    then (
      ok (record {
        action = retry;
        error_type = t;
        phase = phase;
        should_update_status = false;
        new_status = none;
        next_retry_at = d.next_retry_at;
      }),
      record e { attempt = d.next_attempt; next_retry_at = d.next_retry_at },
      record_retry_scheduled m,
    )
    else (
      ok (record {
        action = observe;
        error_type = t;
        phase = phase;
        should_update_status = false;
        new_status = none;
        next_retry_at = none;
      }),
      e,
      m,
    )

-- `handle_error` at a time and a random number, for the retry matrix of the service.
pub handle_error :
    (String → String)
    → RetryMatrix
    → ℕ
    → ℕ
    → TaskExecution
    → PyException
    → RunnerPhase
    → ExecutionMetrics
    → Handled RecoveryDecision
unfolding after_decision
handle_error lower matrix now random e x phase m =
    let t = classify_error lower x in
    let e' = record e { error_type = some (classified t); error_message = some x.message } in
    after_decision t phase (calculate_retry_decision now random e' t phase matrix) e' m

-- `execution.phase == "adopting_commit"`
abbrev in_adoption : Option String → Bool
in_adoption none = false
in_adoption (some p) = str_eq p "adopting_commit"

-- `handle_stale_execution` after the phase was read. It does not use the matrix of the service.
stale_in_phase : ℕ → ℕ → TaskExecution → RunnerPhase → ExecutionMetrics → Handled RecoveryDecision
stale_in_phase now random e phase m =
    let d = calculate_retry_decision now random e transient phase default_retry_matrix in
    let m' = record_stale_detection m in
    if in_adoption e.phase
    then (
      ok (record {
        action = revalidate_adoption;
        error_type = transient;
        phase = phase;
        should_update_status = false;
        new_status = none;
        next_retry_at = none;
      }),
      e,
      record_adoption_conflict m',
    )
    else if d.should_retry
    then (
      ok (record {
        action = retry;
        error_type = transient;
        phase = phase;
        should_update_status = false;
        new_status = none;
        next_retry_at = d.next_retry_at;
      }),
      record e { attempt = d.next_attempt; next_retry_at = d.next_retry_at },
      record_retry_scheduled m',
    )
    else (
      ok (record {
        action = failed;
        error_type = transient;
        phase = phase;
        should_update_status = true;
        new_status = some ExecutionStatus.failed;
        next_retry_at = none;
      }),
      e,
      record_retry_exhausted m',
    )

pub handle_stale_execution : ℕ → ℕ → TaskExecution → ExecutionMetrics → Handled RecoveryDecision
unfolding stale_in_phase
handle_stale_execution now random e m = elim (phase_or_stream e.phase) [
  | ok phase ↦ stale_in_phase now random e phase m
  | raise x ↦ (raise x, e, m)
]
