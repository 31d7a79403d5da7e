-- ===== src/Orchestrator/Locking.antt =====
-- execqueue/orchestrator/locking.py: the claim of backlog tasks by a worker. A fault of the database,
-- which raises `SQLAlchemyError`, is an argument; it and `rollback` give the rows back as they were.
mod Examples
pub mod Reports
pub mod Rows
pub mod Safety
use exec_queue.Common.{
  ℕ, String, Bool, true, false, not, ◌&&◌, Option, none, some, List, [], ◌∷◌, map, ◌==◌,
  if◌then◌else◌, any, keep, length,
}
use exec_queue.Database.{Table}
use exec_queue.Model.{Task, TaskStatus, queued, is_backlog, is_queued}

pub data FailureReason : Type 0 where
  already_claimed database_error not_found : FailureReason
  status_was : TaskStatus → FailureReason

pub record LockResult : Type 0 where
  pub success : Bool
  pub locked_task_ids : List ℕ
  pub failed_task_ids : List ℕ
  pub failure_reasons : List (ℕ × FailureReason)
  pub affected_rows : ℕ
  pub expected_rows : ℕ

-- The WHERE clause and the values of the statement of `lock_tasks`.
abbrev pub in_batch : List ℕ → Task → Bool
in_batch ids t = any (λ i. i == t.id) ids && is_backlog t.status

abbrev pub claimed : ℕ → String → Option String → Task → Task
claimed now worker batch t = record t {
  status = queued;
  queued_at = some now;
  locked_by = some worker;
  batch_id = batch;
  updated_at = now;
}

abbrev reasons : FailureReason → List ℕ → List (ℕ × FailureReason)
reasons why = map (λ i. (i, why))

-- `task and task.status != backlog`, for the row with an identifier.
unfoldable pub was_taken : Table Task → List Task → ℕ → Bool
was_taken db rows i = elim (db.get (λ t. t.id == i) rows) [
  | none ↦ false
  | some t ↦ not (is_backlog t.status)
]

-- The result where fewer rows were updated than the plan has tasks.
conflict_result : Table Task → List ℕ → List Task → ℕ → LockResult
conflict_result db ids rows affected =
    let failed_ids = keep (was_taken db rows) ids in
    record {
      success = false;
      locked_task_ids = keep (λ i. not (was_taken db rows i)) ids;
      failed_task_ids = failed_ids;
      failure_reasons = reasons already_claimed failed_ids;
      affected_rows = affected;
      expected_rows = length ids;
    }

error_result : List ℕ → LockResult
error_result ids = record {
  success = false;
  locked_task_ids = [];
  failed_task_ids = ids;
  failure_reasons = reasons database_error ids;
  affected_rows = 0;
  expected_rows = length ids;
}

success_result : List ℕ → ℕ → LockResult
success_result ids affected = record {
  success = true;
  locked_task_ids = ids;
  failed_task_ids = [];
  failure_reasons = [];
  affected_rows = affected;
  expected_rows = length ids;
}

-- `lock_tasks` for the tasks and the identifier of a plan.
unfoldable pub lock_tasks :
    Table Task → String → ℕ → Bool → List ℕ → String → List Task → LockResult × List Task
unfolding conflict_result error_result success_result
lock_tasks db worker now fault [] batch rows = (success_result [] 0, rows)
lock_tasks db worker now fault (i ∷ is) batch rows =
    let ids = i ∷ is in
    let (rows', affected) = db.update_where (in_batch ids) (claimed now worker (some batch)) rows in
    if fault
    then (error_result ids, rows)
    else if not (affected == length ids)
    then (conflict_result db ids rows affected, rows)
    else (success_result ids affected, rows')

abbrev is_row : ℕ → Task → Bool
is_row i t = i == t.id && is_backlog t.status

abbrev status_reason : Option Task → FailureReason
status_reason none = not_found
status_reason (some t) = status_was t.status

pub lock_single_task :
    Table Task → String → ℕ → Bool → ℕ → Option String → List Task → LockResult × List Task
unfolding error_result success_result
lock_single_task db worker now fault i batch rows =
    let (rows', affected) = db.update_where (is_row i) (claimed now worker batch) rows in
    if fault
    then (error_result (i ∷ []), rows)
    else if not (affected == 1)
    then (
      record {
        success = false;
        locked_task_ids = [];
        failed_task_ids = i ∷ [];
        failure_reasons = (i, status_reason (db.get (λ t. t.id == i) rows)) ∷ [];
        affected_rows = affected;
        expected_rows = 1;
      },
      rows,
    )
    else (success_result (i ∷ []) 1, rows')

abbrev pub is_locked_row : ℕ → Task → Bool
is_locked_row i t = i == t.id && is_queued t.status

abbrev pub released : ℕ → TaskStatus → Task → Task
released now target t = record t {
  status = target;
  queued_at = none;
  locked_by = none;
  updated_at = now;
}

-- The commit stands before the test of the row count.
pub release_lock : Table Task → ℕ → Bool → ℕ → TaskStatus → List Task → Bool × List Task
release_lock db now fault i target rows =
    let (rows', affected) = db.update_where (is_locked_row i) (released now target) rows in
    if fault then (false, rows) else (affected == 1, rows')
