-- ===== src/Runner/Recovery/Errors.antt =====
-- What `handle_error` decides (execqueue/runner/recovery.py).
use exec_queue.Common.{ℕ, ◌+◌, ◌≤◌, ◌<◌, ◌≡◌, ◌≢◌, ◌⊎◌, String, true, false, some, none, arith}
use exec_queue.Model.{classified, ExecutionStatus, conflict, TaskExecution, ErrorType}
use exec_queue.Observability.{ExecutionMetrics}
use exec_queue.Runner.Errors.{
  RunnerPhase, RetryMatrix, PyException, classify_error, get_policy, is_retryable,
}
use exec_queue.Runner.Retry.{calculate_retry_decision, attempts_allowed, current_attempt}
use exec_queue.Runner.Recovery.{retry, review, failed, chosen, handle_error, after_decision}

after_decision_lem :
    (matrix : RetryMatrix) (now random : ℕ) (e : TaskExecution) (t : ErrorType)
    (phase : RunnerPhase) (m : ExecutionMetrics)
    → let d = calculate_retry_decision now random e t phase matrix in
      let allowed = attempts_allowed (get_policy matrix phase) e in
      let (r, e', m') = after_decision t phase d e m in
      (e'.status ≡ e.status)
      × (e'.error_type ≡ e.error_type)
      × (e'.error_message ≡ e.error_message)
      × (((chosen r ≡ some (retry, none))
            × (is_retryable t ≡ true)
            × (current_attempt e < allowed)
            × (e'.attempt ≡ current_attempt e + 1))
          ⊎ ((chosen r ≡ some (review, some ExecutionStatus.review))
              × (t ≡ conflict)
              × (e'.attempt ≡ e.attempt))
          ⊎ ((chosen r ≡ some (failed, some ExecutionStatus.failed))
              × (t ≢ conflict)
              × ((is_retryable t ≡ false) ⊎ (allowed ≤ current_attempt e))
              × (e'.attempt ≡ e.attempt)))
unfolding after_decision calculate_retry_decision is_retryable
after_decision_lem matrix now random e ErrorType.transient phase m = ground arith
after_decision_lem matrix now random e _ phase m = ground arith

-- An error is answered by a retry exactly if it is retryable and an attempt is left; the attempt is
-- then counted. Otherwise the attempt stays, a conflict goes to review and any other error ends as
-- failed. Either way the status is not yet changed, and the class and text of the error are kept.
pub handle_error_lem :
    (lower : String → String) (matrix : RetryMatrix) (now random : ℕ) (e : TaskExecution)
    (x : PyException) (phase : RunnerPhase) (m : ExecutionMetrics)
    → let t = classify_error lower x in
      let allowed = attempts_allowed (get_policy matrix phase) e in
      let (r, e', m') = handle_error lower matrix now random e x phase m in
      (e'.status ≡ e.status)
      × (e'.error_type ≡ some (classified t))
      × (e'.error_message ≡ some x.message)
      × (((chosen r ≡ some (retry, none))
            × (is_retryable t ≡ true)
            × (current_attempt e < allowed)
            × (e'.attempt ≡ current_attempt e + 1))
          ⊎ ((chosen r ≡ some (review, some ExecutionStatus.review))
              × (t ≡ conflict)
              × (e'.attempt ≡ e.attempt))
          ⊎ ((chosen r ≡ some (failed, some ExecutionStatus.failed))
              × (t ≢ conflict)
              × ((is_retryable t ≡ false) ⊎ (allowed ≤ current_attempt e))
              × (e'.attempt ≡ e.attempt)))
unfolding handle_error attempts_allowed current_attempt
handle_error_lem lower matrix now random e x phase m =
    let t = classify_error lower x in
    after_decision_lem matrix now random
      (record e { error_type = some (classified t); error_message = some x.message }) t phase m
