-- ===== src/Runner/Recovery/Examples.antt =====
-- Recovery at concrete values (execqueue/runner/recovery.py).
use exec_queue.Common.{
  ◌+◌, ◌<◌, ◌≤◌, ◌⊎◌, ◌≡◌, ◌≢◌, true, false, none, some, String, [], ◌∷◌, map, arith, max,
}
use exec_queue.Database.{plain_table}
use exec_queue.Model.{classified, TaskExecution, ExecutionStatus, in_progress, conflict}
use exec_queue.Observability.{no_metrics}
use exec_queue.Runner.Errors.{
  PyException, asyncio_timeout, stream, default_retry_matrix, get_policy, classify_error,
  is_retryable,
}
use exec_queue.Runner.Retry.{current_attempt, attempts_allowed}
use exec_queue.Runner.Staleness.{
  default_stale_thresholds, seconds, is_watched, find_stale_executions,
}
use exec_queue.Runner.Recovery.{retry, review, failed, chosen, handle_error}
use exec_queue.Runner.Recovery.Processing.{
  Tracked, process_stale_executions, process_stale_executions_lem,
}
use exec_queue.Runner.Recovery.Bounded.{retries, retries_bounded}
use exec_queue.Runner.Recovery.Errors.{handle_error_lem}

abbrev in_phase : String → TaskExecution
in_phase p = record {
  id = 1;
  task_id = 1;
  runner_id = none;
  status = in_progress;
  attempt = 1;
  max_attempts = 3;
  opencode_session_id = none;
  opencode_message_id = none;
  result_summary = none;
  phase = some p;
  error_type = none;
  error_message = none;
  next_retry_at = none;
  created_at = some 0;
  started_at = some 0;
  dispatched_at = none;
  heartbeat_at = some 0;
  updated_at = 0;
  finished_at = none;
}

abbrev slow : PyException
slow = record { exception_class = asyncio_timeout; message = "" }

retries_bounded_example :
    retries
        (λ s. s)
        default_retry_matrix
        (in_phase "stream")
        ((0, 0, slow, stream) ∷ (1, 0, slow, stream) ∷ (2, 0, slow, stream) ∷ [])
        no_metrics
      + current_attempt (in_phase "stream")
    ≤ max (current_attempt (in_phase "stream")) 3
retries_bounded_example =
    retries_bounded (λ s. s) default_retry_matrix (in_phase "stream")
      ((0, 0, slow, stream) ∷ (1, 0, slow, stream) ∷ (2, 0, slow, stream) ∷ []) no_metrics
      (omega arith)

handle_error_lem_example :
    let t = classify_error (λ s. s) slow in
    let e = in_phase "stream" in
    let allowed = attempts_allowed (get_policy default_retry_matrix stream) e in
    let (r, e', m') = handle_error (λ s. s) default_retry_matrix 0 0 e slow stream no_metrics in
    (e'.status ≡ in_progress)
    × (e'.error_type ≡ some (classified t))
    × (e'.error_message ≡ some "")
    × (((chosen r ≡ some (retry, none))
          × (is_retryable t ≡ true)
          × (current_attempt e < allowed)
          × (e'.attempt ≡ current_attempt e + 1))
        ⊎ ((chosen r ≡ some (review, some ExecutionStatus.review))
            × (t ≡ conflict)
            × (e'.attempt ≡ 1))
        ⊎ ((chosen r ≡ some (failed, some ExecutionStatus.failed))
            × (t ≢ conflict)
            × ((is_retryable t ≡ false) ⊎ (allowed ≤ current_attempt e))
            × (e'.attempt ≡ 1)))
handle_error_lem_example =
    handle_error_lem (λ s. s) default_retry_matrix 0 0 (in_phase "stream") slow stream no_metrics

abbrev hanging : Tracked
hanging = record { execution = in_phase "stream"; committed = in_phase "stream"; events = [] }

process_stale_executions_lem_example :
    let found =
      find_stale_executions
        (λ t. t.committed)
        (plain_table Tracked)
        default_stale_thresholds
        (seconds 4000)
        is_watched
        (hanging ∷ []) in
    let (n, ts, m) =
      process_stale_executions
        (plain_table Tracked)
        default_stale_thresholds
        (seconds 4000)
        (λ i. i)
        (hanging ∷ [])
        no_metrics in
    (n ≡ 0)
    × (map (λ t. t.committed) ts ≡ map (λ t. t.committed) found)
    × (map (λ t. t.events) ts ≡ map (λ t. t.events) found)
process_stale_executions_lem_example =
    process_stale_executions_lem (plain_table Tracked) default_stale_thresholds (seconds 4000)
      (λ i. i) (hanging ∷ []) no_metrics
