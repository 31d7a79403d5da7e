-- ===== src/Runner/Staleness/Examples.antt =====
-- A stale execution (execqueue/runner/error_classification.py).
use exec_queue.Common.{none, some}
use exec_queue.Model.{TaskExecution, in_progress}

abbrev hanging : TaskExecution
hanging = record {
  id = 1;
  task_id = 1;
  runner_id = none;
  status = in_progress;
  attempt = 1;
  max_attempts = 3;
  opencode_session_id = none;
  opencode_message_id = none;
  result_summary = none;
  phase = some "stream";
  error_type = none;
  error_message = none;
  next_retry_at = none;
  created_at = some 0;
  started_at = some 0;
  dispatched_at = none;
  heartbeat_at = some 0;
  updated_at = 0;
  finished_at = none;
}
