-- ===== src/Model.antt =====
-- The rows of the database that the modelled services share, and their enumerations:
-- execqueue/models/enums.py, execqueue/models/task_execution.py,
-- execqueue/models/task_execution_event.py and the task table of execqueue/db/models.py.
-- Identifiers are numbers, and a time is a number of microseconds.
use exec_queue.Common.{ℕ, String, Bool, true, false, not, Option, none}

pub data ExecutionStatus : Type 0 where
  prepared queued dispatching in_progress result_inspection : ExecutionStatus
  adopting_commit review done failed : ExecutionStatus

-- `FINAL_EXECUTION_STATUSES`; every other status is in `ACTIVE_EXECUTION_STATUSES`.
abbrev pub is_final : ExecutionStatus → Bool
is_final ExecutionStatus.review = true
is_final ExecutionStatus.done = true
is_final ExecutionStatus.failed = true
is_final _ = false

pub data EventType : Type 0 where
  error status_update execution_claimed execution_dispatched execution_failed : EventType
  commit_adoption_conflict retry_scheduled retry_exhausted : EventType

pub data ErrorType : Type 0 where
  transient permanent conflict timeout contract_violation validation_failed : ErrorType

-- What the column of the error type holds: one of the types above, or the name of a Python class.
pub data StoredError : Type 0 where
  classified : ErrorType → StoredError
  class_name : String → StoredError

-- What `result_summary` holds of a dispatch.
pub record ResultSummary : Type 0 where
  pub prompt_hash : String
  pub context_version : String
  pub runner_mode : String
  pub dispatched_at : ℕ

-- The columns of `TaskExecution` that the modelled code reads or writes.
pub record TaskExecution : Type 0 where
  pub id : ℕ
  pub task_id : ℕ
  pub runner_id : Option String
  pub status : ExecutionStatus
  pub attempt : ℕ
  pub max_attempts : ℕ
  pub opencode_session_id : Option String
  pub opencode_message_id : Option String
  pub result_summary : Option ResultSummary
  pub phase : Option String
  pub error_type : Option StoredError
  pub error_message : Option String
  pub next_retry_at : Option ℕ
  pub created_at : Option ℕ
  pub started_at : Option ℕ
  pub dispatched_at : Option ℕ
  pub heartbeat_at : Option ℕ
  pub updated_at : ℕ
  pub finished_at : Option ℕ

-- `is_done` and `is_active` of `TaskExecution`.
pub is_done : TaskExecution → Bool
is_done e = is_final e.status

pub is_active : TaskExecution → Bool
is_active e = not (is_final e.status)

pub record TaskExecutionEvent : Type 0 where
  pub execution_id : ℕ
  pub sequence : ℕ
  pub event_type : EventType

-- The keys of a task's details that are read: a missing key is `none`, and a value is the one that
-- the key is meant for, a truth value or a text.
pub record Details : Type 0 where
  pub requires_write_access : Option Bool
  pub parallelization_mode : Option String
  pub branch_name : Option String

pub data TaskStatus : Type 0 where
  backlog queued prepared failed : TaskStatus

-- The columns of `Task` that the modelled code reads or writes.
pub record Task : Type 0 where
  pub id : ℕ
  pub task_number : ℕ
  pub task_type : String
  pub prompt : String
  pub max_retries : ℕ
  pub created_by_type : String
  pub created_by_ref : String
  pub status : TaskStatus
  pub queued_at : Option ℕ
  pub locked_by : Option String
  pub batch_id : Option String
  pub preparation_attempt_count : ℕ
  pub last_preparation_error : Option String
  pub updated_at : ℕ
  pub created_at : ℕ
  pub execution_order : Option ℕ
  pub idempotency_key : Option String
  pub requirement_id : Option ℕ
  pub details : Details
  pub branch_name : Option String
  pub worktree_path : Option String
  pub commit_sha_before : Option String
  pub prepared_context_version : Option String

-- The columns of `Requirement` that the modelled code writes.
pub record Requirement : Type 0 where
  pub id : ℕ
  pub title : String
  pub description : String
  pub status : String
  pub project_id : Option ℕ

-- A row with the defaults of the columns, and some value where a column has none.
abbrev pub new_task : ℕ → ℕ → String → ℕ → Task
new_task id number task_type now = record {
  id = id;
  task_number = number;
  task_type = task_type;
  prompt = "";
  max_retries = 3;
  created_by_type = "user";
  created_by_ref = "";
  status = backlog;
  queued_at = none;
  locked_by = none;
  batch_id = none;
  preparation_attempt_count = 0;
  last_preparation_error = none;
  updated_at = now;
  created_at = now;
  execution_order = none;
  idempotency_key = none;
  requirement_id = none;
  details = record {
    requires_write_access = none;
    parallelization_mode = none;
    branch_name = none;
  };
  branch_name = none;
  worktree_path = none;
  commit_sha_before = none;
  prepared_context_version = none;
}

abbrev pub is_backlog : TaskStatus → Bool
is_backlog TaskStatus.backlog = true
is_backlog _ = false

abbrev pub is_queued : TaskStatus → Bool
is_queued TaskStatus.queued = true
is_queued _ = false

abbrev pub is_prepared : TaskStatus → Bool
is_prepared TaskStatus.prepared = true
is_prepared _ = false
