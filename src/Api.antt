-- ===== src/Api.antt =====
-- The routes of execqueue/api/routes/domain.py on top of the intake of tasks, with the limits of the
-- request's fields, which pydantic checks before a route is called. Log lines and texts of errors are
-- left out. Api/Admin has the guard of execqueue/api/dependencies.py.
pub mod Admin
pub mod Intake
pub mod Status
mod Examples
use Prim.Native.String.{count as char_count}
use exec_queue.Common.{
  ℕ, ◌≤◌, String, Bool, true, false, not, ◌&&◌, ◌||◌, Option, none, some, find, leb, ltb, ◌==◌,
  str_eq, non_empty, strip, if◌then◌else◌,
}
use exec_queue.Database.{Table}
use exec_queue.Model.{Task, TaskStatus}
use exec_queue.Orchestrator.Git.{Platform}
use exec_queue.Orchestrator.Preparation.{Orchestrator}
use exec_queue.Tasks.{
  Stored, IntakeError, value_error, integrity_error, idempotency_error, Created, created, refused,
  TaskRequest, validate_task_type, create_task, create_task_from_requirement, get_task_status,
  is_creator,
}

pub record TaskCreateRequest : Type 0 where
  pub prompt : String
  pub type : String
  pub created_by_type : String
  pub created_by_ref : String
  pub title : Option String
  pub idempotency_key : Option String

-- The answers of `create_task_endpoint`; those of a rejected request are told apart by its field.
pub data TaskAnswer : Type 0 where
  task_created : ℕ → TaskStatus → TaskAnswer
  invalid_request invalid_type invalid_title invalid_prompt : TaskAnswer
  idempotency_conflict : String → TaskAnswer
  internal_error : TaskAnswer

abbrev pub status_code : TaskAnswer → ℕ
status_code (task_created _ _) = 201
status_code invalid_request = 422
status_code invalid_type = 422
status_code invalid_title = 422
status_code invalid_prompt = 422
status_code (idempotency_conflict _) = 409
status_code internal_error = 500

-- The length of a text is between 1 and a limit.
abbrev within : ℕ → String → Bool
within limit s = non_empty s && leb (char_count s) limit

abbrev optional_within : ℕ → Option String → Bool
optional_within limit none = true
optional_within limit (some s) = within limit s

unfoldable pub is_valid_request : TaskCreateRequest → Bool
is_valid_request r =
    non_empty r.prompt
    && within 32 r.type
    && is_creator r.created_by_type
    && within 255 r.created_by_ref
    && optional_within 255 r.title
    && optional_within 255 r.idempotency_key

abbrev or_empty : Option String → String
or_empty none = ""
or_empty (some s) = s

abbrev pub default_task_max_retries : ℕ
default_task_max_retries = 3

-- The arguments that both calls of the service share; `create_task_from_requirement` takes no type.
abbrev pub task_request : TaskCreateRequest → TaskRequest
task_request r = record {
  prompt = r.prompt;
  task_type = r.type;
  created_by_type = r.created_by_type;
  created_by_ref = r.created_by_ref;
  max_retries = default_task_max_retries;
  requirement_id = none;
  idempotency_key = r.idempotency_key;
}

-- The answer to a `ValueError` of the requirement: only the messages about the title name it.
unfoldable pub invalid_requirement : String → TaskAnswer
invalid_requirement title =
    let normalized = strip title in
    if not (non_empty normalized) || ltb 255 (char_count normalized)
    then invalid_title
    else invalid_prompt

-- The attributes of the task that was created, as the session has them after the trigger.
unfoldable pub created_answer : ℕ → Stored → TaskAnswer
created_answer id w = elim (find (λ t. t.id == id) w.tasks) [
  | none ↦ internal_error
  | some t ↦ task_created t.task_number t.status
]

-- The answer to what the service gives, by what a `ValueError` is answered with.
unfoldable pub answer : TaskAnswer → Created → Stored → TaskAnswer
unfolding created_answer
answer invalid (created id) w = created_answer id w
answer invalid (refused value_error) w = invalid
answer invalid (refused (idempotency_error key)) w = idempotency_conflict key
answer invalid (refused integrity_error) w = internal_error

-- `get_task_status_endpoint`; `none` is the status 404.
pub get_task_status_endpoint : Table Task → ℕ → Stored → Option (ℕ × TaskStatus)
unfolding get_task_status
get_task_status_endpoint db number w = get_task_status db number w.tasks

module _ {S : Type 0} (p : Platform S) (o : Orchestrator) (db : Table Task) where
  -- The route, behind the check of the request; the numbers are those that the database gives to a new
  -- task and a new requirement.
  unfoldable pub create_task_endpoint :
      Bool
      → ℕ
      → ℕ
      → ℕ
      → ℕ
      → Bool
      → String
      → TaskCreateRequest
      → Stored
      → S
      → TaskAnswer × Stored × S
  unfolding validate_task_type answer
  create_task_endpoint sqlite fresh requirement_id id now fault batch_id r w s =
      elim (validate_task_type r.type) [
        | none ↦ (invalid_type, w, s)
        | some persisted_type ↦
            if str_eq r.type "requirement"
            then (let title = or_empty r.title in
                let ((result, w'), s') =
                  create_task_from_requirement p o db sqlite fresh requirement_id id now fault
                    batch_id title r.prompt (task_request r) w s in
                (answer (invalid_requirement title) result w', w', s'))
            else (let request = record (task_request r) { task_type = persisted_type } in
                let ((result, w'), s') =
                  create_task p o db sqlite fresh id now fault batch_id request w s in
                (answer internal_error result w', w', s'))
      ]

  -- A request as it comes in.
  pub post_task :
      Bool
      → ℕ
      → ℕ
      → ℕ
      → ℕ
      → Bool
      → String
      → TaskCreateRequest
      → Stored
      → S
      → TaskAnswer × Stored × S
  unfolding is_valid_request create_task_endpoint
  post_task sqlite fresh requirement_id id now fault batch_id r w s =
      if is_valid_request r
      then create_task_endpoint sqlite fresh requirement_id id now fault batch_id r w s
      else (invalid_request, w, s)
