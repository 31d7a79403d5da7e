-- ===== src/Runner/Claim.antt =====
-- execqueue/runner/claim.py, execqueue/runner/polling.py and the poll cycle of
-- execqueue/runner/main.py: the claim of a prepared task for a runner. The identifier that a flush
-- gives a new execution is an argument, since the column has no default and the claim sets none; `none`
-- stands for a flush that fails, for want of an identifier or by another exception. A session works
-- on the rows; what closing it leaves in the database is an argument too. Log lines are left out.
mod Examples
pub mod Exclusive
pub mod Results
pub mod Unnumbered
use exec_queue.Common.{
  ℕ, zero, suc, ◌+◌, ◌≡◌, String, Bool, true, false, not, ◌&&◌, Option, none, some, List, [], ◌∷◌,
  ◌++◌, map, ◌==◌, if◌then◌else◌, null, take,
}
use exec_queue.Database.{Table}
use exec_queue.Model.{
  Task, TaskStatus, queued, is_prepared, ExecutionStatus, is_final, TaskExecution,
  TaskExecutionEvent, execution_claimed,
}
use exec_queue.Observability.{ExecutionMetrics, record_execution_claimed}

pub record World : Type 0 where
  pub tasks : List Task
  pub executions : List TaskExecution
  pub events : List TaskExecutionEvent

-- The two tables that the claim reads and updates.
pub record Tables : Type 0 where
  pub task_table : Table Task
  pub execution_table : Table TaskExecution

-- The causes of `ClaimFailedError`.
pub data ClaimFailure : Type 0 where
  active_execution task_not_found : ClaimFailure
  wrong_status : TaskStatus → ClaimFailure

pub data ClaimResult : Type 0 where
  claimed : TaskExecution → ClaimResult
  claim_failed : ClaimFailure → ClaimResult
  flush_failed : ClaimResult

abbrev pub is_active_for : ℕ → TaskExecution → Bool
is_active_for i e = i == e.task_id && not (is_final e.status)

abbrev pub is_claimable : ℕ → Task → Bool
is_claimable i t = i == t.id && is_prepared t.status

abbrev pub queue_task : Task → Task
queue_task t = record t { status = queued }

abbrev pub failure_of : Option Task → ClaimFailure
failure_of none = task_not_found
failure_of (some t) = wrong_status t.status

abbrev pub new_execution : ℕ → ℕ → ℕ → String → TaskExecution
new_execution id now task_id runner = record {
  id = id;
  task_id = task_id;
  runner_id = some runner;
  status = ExecutionStatus.queued;
  attempt = 1;
  max_attempts = 3;
  opencode_session_id = none;
  opencode_message_id = none;
  result_summary = none;
  phase = none;
  error_type = none;
  error_message = none;
  next_retry_at = none;
  created_at = some now;
  started_at = some now;
  dispatched_at = none;
  heartbeat_at = none;
  updated_at = now;
  finished_at = none;
}

-- The part of `claim_task` behind the update of the task.
insert_execution :
    Option ℕ → ℕ → ℕ → String → World → ExecutionMetrics → ClaimResult × World × ExecutionMetrics
insert_execution none now i runner w m = (flush_failed, w, m)
insert_execution (some id) now i runner w m =
    let e = new_execution id now i runner in
    let claim_event : TaskExecutionEvent = record {
      execution_id = id;
      sequence = 1;
      event_type = execution_claimed;
    } in
    (
      claimed e,
      record w { executions = w.executions ++ e ∷ []; events = w.events ++ claim_event ∷ [] },
      record_execution_claimed m,
    )

pub claim_task :
    Tables
    → Option ℕ
    → ℕ
    → ℕ
    → String
    → World
    → ExecutionMetrics
    → ClaimResult × World × ExecutionMetrics
claim_task db id now i runner w m =
    let (tasks', row_count) = db.task_table.update_where (is_claimable i) queue_task w.tasks in
    if not (null (db.execution_table.select_where (is_active_for i) w.executions))
    then (claim_failed active_execution, w, m)
    else if not (row_count == 1)
    then (
      claim_failed (failure_of (db.task_table.get (λ t. i == t.id) tasks')),
      record w { tasks = tasks' },
      m,
    )
    else insert_execution id now i runner (record w { tasks = tasks' }) m

-- What a poll gives: the executions, or the exception of a flush, which is not caught.
pub data PollResult : Type 0 where
  polled : List TaskExecution → PollResult
  aborted : PollResult

abbrev add_claimed : TaskExecution → PollResult → PollResult
add_claimed e (polled es) = polled (e ∷ es)
add_claimed e aborted = aborted

-- The loop over the prepared tasks. `ids` gives the identifier for a flush in a world.
claim_each :
    Tables
    → (World → Option ℕ)
    → ℕ
    → String
    → List ℕ
    → World
    → ExecutionMetrics
    → PollResult × World × ExecutionMetrics
claim_each db ids now runner [] w m = (polled [], w, m)
claim_each db ids now runner (i ∷ is) w m =
    let (r, w', m') = claim_task db (ids w) now i runner w m in
    let (rest, w'', m'') = claim_each db ids now runner is w' m' in
    elim r [
      | claimed e ↦ (add_claimed e rest, w'', m'')
      | claim_failed _ ↦ (rest, w'', m'')
      | flush_failed ↦ (aborted, w', m')
    ]

pub poll_and_claim_tasks :
    Tables
    → (World → Option ℕ)
    → ℕ
    → String
    → ℕ
    → World
    → ExecutionMetrics
    → PollResult × World × ExecutionMetrics
poll_and_claim_tasks db ids now runner batch_size w m =
    claim_each db ids now runner
      (take batch_size
        (map (λ t. t.id) (db.task_table.select_where (λ t. is_prepared t.status) w.tasks)))
      w m

-- What is in the database once a session is closed that began at the first world and worked up to
-- the second with no commit in between: SQLAlchemy rolls the work back.
pub record Closing : Type 0 where
  pub close : World → World → World
  pub close_lem : (committed working : World) → close committed working ≡ committed

-- `_poll_cycle` of the runner. An exception is logged; processing a claimed execution writes nothing.
pub poll_cycle :
    Tables
    → Closing
    → (World → Option ℕ)
    → ℕ
    → String
    → ℕ
    → World
    → ExecutionMetrics
    → World × ExecutionMetrics
poll_cycle db closing ids now runner batch_size w m =
    let (r, w', m') = poll_and_claim_tasks db ids now runner batch_size w m in
    (closing.close w w', m')
