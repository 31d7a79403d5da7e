-- ===== src/Runner/Retry/Bounds.antt =====
-- The bounds that `calculate_retry_decision` keeps (execqueue/runner/error_classification.py).
use exec_queue.Common.{ℕ, ◌+◌, ◌≤◌, ◌<◌, ◌≡◌, true, false, arith, ◌⊎◌}
use exec_queue.Model.{ErrorType, TaskExecution}
use exec_queue.Runner.Errors.{RunnerPhase, RetryMatrix, get_policy, is_retryable}
use exec_queue.Runner.Retry.{current_attempt, attempts_allowed, calculate_retry_decision}

module _ (now random : ℕ) (e : TaskExecution) (t : ErrorType) (phase : RunnerPhase)
    (m : RetryMatrix) where
  -- A retry is planned exactly for a retryable error with an attempt left, and then it is the next
  -- attempt; in every other case the attempt stays and the retries are reported as exhausted.
  pub calculate_retry_decision_lem :
      let d = calculate_retry_decision now random e t phase m in
      let allowed = attempts_allowed (get_policy m phase) e in
      ((d.should_retry ≡ true)
        × (d.retry_exhausted ≡ false)
        × (is_retryable t ≡ true)
        × (current_attempt e < allowed)
        × (d.next_attempt ≡ current_attempt e + 1))
      ⊎ ((d.should_retry ≡ false)
          × (d.retry_exhausted ≡ true)
          × ((is_retryable t ≡ false) ⊎ (allowed ≤ current_attempt e))
          × (d.next_attempt ≡ current_attempt e))
  unfolding calculate_retry_decision
  calculate_retry_decision_lem = ground arith
