-- ===== src/Tasks.antt =====
-- execqueue/tasks/service.py, the intake of tasks and requirements, with the trigger of
-- execqueue/orchestrator_trigger.py that runs a preparation cycle after it. An object of the session is
-- known by its identifier, which is an argument, as is the number that the identity column gives. A
-- commit is refused by the constraints of execqueue/db/models.py; no other statement fails.
pub mod Creation
pub mod Samples
mod Examples
use Prim.Native.String.{count as char_count}
use exec_queue.Common.{
  ℕ, ◌+◌, String, Bool, true, false, not, ◌&&◌, ◌||◌, Option, none, some, List, [], ◌∷◌, ◌++◌, any,
  ltb, ◌==◌, str_eq, non_empty, truthy, strip, if◌then◌else◌,
}
use exec_queue.Database.{Table}
use exec_queue.Model.{Task, TaskStatus, Requirement, new_task}
use exec_queue.Orchestrator.Git.{Platform}
use exec_queue.Orchestrator.Preparation.{Orchestrator, run_preparation_cycle}

pub record Stored : Type 0 where
  pub requirements : List Requirement
  pub tasks : List Task

-- The exceptions of the service.
pub data IntakeError : Type 0 where
  value_error integrity_error : IntakeError
  idempotency_error : String → IntakeError

-- The identifier of what was created.
pub data Created : Type 0 where
  created : ℕ → Created
  refused : IntakeError → Created

-- The arguments of `create_task`.
pub record TaskRequest : Type 0 where
  pub prompt : String
  pub task_type : String
  pub created_by_type : String
  pub created_by_ref : String
  pub max_retries : ℕ
  pub requirement_id : Option ℕ
  pub idempotency_key : Option String

abbrev allowed_intake_types : List String
allowed_intake_types = "requirement" ∷ "planning" ∷ "execution" ∷ "analysis" ∷ []

-- `none` is the `ValueError`.
unfoldable pub validate_task_type : String → Option String
validate_task_type task_type =
    if any (λ a. str_eq a task_type) allowed_intake_types then some task_type else none

abbrev same_text : Option String → Option String → Bool
same_text (some a) (some b) = str_eq a b
same_text _ _ = false

abbrev pub is_known : Option ℕ → List Requirement → Bool
is_known none rs = true
is_known (some i) rs = any (λ r. r.id == i) rs

-- Some task has the key; NULL is never equal to anything.
abbrev pub has_key : Option String → List Task → Bool
has_key key = any (λ t. same_text key t.idempotency_key)

abbrev pub is_creator : String → Bool
is_creator by = str_eq by "user" || str_eq by "agent"

-- A new task breaks a constraint of the table.
unfoldable pub violates : Stored → Task → Bool
violates w t =
    not (is_creator t.created_by_type)
    || any (λ u. u.id == t.id) w.tasks
    || any (λ u. u.task_number == t.task_number) w.tasks
    || has_key t.idempotency_key w.tasks
    || not (is_known t.requirement_id w.requirements)

-- The exception after an `IntegrityError`.
abbrev pub integrity : Option String → IntakeError
integrity none = integrity_error
integrity (some key) = if non_empty key then idempotency_error key else integrity_error

unfoldable pub allocate_sqlite_task_number : Table Task → List Task → ℕ
allocate_sqlite_task_number db rows = elim (db.select_max (λ t. true) (λ t. t.task_number) rows) [
  | none ↦ 1
  | some n ↦ n + 1
]

-- The row of a request; SQLite takes the number from the service.
unfoldable pub new_row : Table Task → Bool → ℕ → ℕ → ℕ → String → TaskRequest → List Task → Task
unfolding allocate_sqlite_task_number
new_row db sqlite fresh id now task_type r rows =
    let number = if sqlite then allocate_sqlite_task_number db rows else fresh in
    record (new_task id number task_type now) {
      prompt = r.prompt;
      max_retries = r.max_retries;
      created_by_type = r.created_by_type;
      created_by_ref = r.created_by_ref;
      requirement_id = r.requirement_id;
      idempotency_key = r.idempotency_key;
    }

-- `get_task_status`: the number is unique, so `scalar_one_or_none` finds one row at most; `none` is
-- `TaskNotFoundError`.
unfoldable pub get_task_status : Table Task → ℕ → List Task → Option (ℕ × TaskStatus)
get_task_status db number rows = elim (db.get (λ t. t.task_number == number) rows) [
  | none ↦ none
  | some t ↦ some (t.task_number, t.status)
]

-- The fields of a requirement, normalised; `none` is the `ValueError`.
unfoldable pub requirement_fields : String → String → Option (String × String)
requirement_fields title description =
    let normalized_title = strip title in
    let normalized_description = strip description in
    if not (non_empty normalized_title)
    then none
    else if ltb 255 (char_count normalized_title)
    then none
    else if not (non_empty normalized_description)
    then none
    else some (normalized_title, normalized_description)

abbrev allowed_statuses : List String
allowed_statuses = "draft" ∷ "approved" ∷ "rejected" ∷ "archived" ∷ []

abbrev is_project : Option ℕ → List ℕ → Bool
is_project none projects = true
is_project (some i) projects = any (λ j. j == i) projects

-- `create_requirement`; `projects` are the identifiers of the projects.
unfoldable pub create_requirement :
    ℕ → List ℕ → String → String → String → Option ℕ → Stored → Created × Stored
unfolding requirement_fields
create_requirement id projects title description status project_id w =
    elim (requirement_fields title description) [
      | none ↦ (refused value_error, w)
      | some (title', description') ↦
          let taken = any (λ r. r.id == id) w.requirements in
          if not (any (λ a. str_eq a status) allowed_statuses)
          then (refused value_error, w)
          else if taken || not (is_project project_id projects)
          then (refused integrity_error, w)
          else (
            created id,
            record w {
              requirements =
                  w.requirements
                  ++ record {
                    id = id;
                    title = title';
                    description = description';
                    status = status;
                    project_id = project_id;
                  }
                    ∷ [];
            },
          )
    ]

module _ {S : Type 0} (p : Platform S) (o : Orchestrator) (db : Table Task) where
  -- The orchestrator that the trigger builds.
  abbrev pub triggered : Orchestrator
  triggered = record o {
    max_batch_size = 10;
    worktree_root = "/tmp/execqueue/worktrees";
    base_repo_path = ".";
  }

  -- `trigger_orchestrator`: one cycle, of which the results are only logged.
  unfoldable pub trigger_orchestrator : ℕ → Bool → String → List Task → S → List Task × S
  trigger_orchestrator now fault batch_id rows s =
      let (results, rows', s') =
        run_preparation_cycle p triggered db now fault batch_id (λ rs. rs) rows s in
      (rows', s')

  -- The commit of a new task, and the trigger after it; a refusal leaves what was there before the
  -- transaction.
  unfoldable pub commit_task :
      ℕ → Bool → String → Stored → Stored → Task → S → (Created × Stored) × S
  unfolding trigger_orchestrator
  commit_task now fault batch_id before w t s =
      let (tasks', s') = trigger_orchestrator now fault batch_id (w.tasks ++ t ∷ []) s in
      if violates w t
      then ((refused (integrity t.idempotency_key), before), s)
      else ((created t.id, record w { tasks = tasks' }), s')

  unfoldable pub create_task :
      Bool → ℕ → ℕ → ℕ → Bool → String → TaskRequest → Stored → S → (Created × Stored) × S
  unfolding validate_task_type new_row commit_task
  create_task sqlite fresh id now fault batch_id r w s = elim (validate_task_type r.task_type) [
    | none ↦ ((refused value_error, w), s)
    | some task_type ↦
        commit_task now fault batch_id w w (new_row db sqlite fresh id now task_type r w.tasks) s
  ]

  -- `create_task_from_requirement`: the requirement is flushed before its task is committed with it.
  unfoldable pub create_task_from_requirement :
      Bool
      → ℕ
      → ℕ
      → ℕ
      → ℕ
      → Bool
      → String
      → String
      → String
      → TaskRequest
      → Stored
      → S
      → (Created × Stored) × S
  unfolding new_row commit_task requirement_fields
  create_task_from_requirement sqlite fresh requirement_id id now fault batch_id title description r
        w s =
      elim (requirement_fields title description) [
        | none ↦ ((refused value_error, w), s)
        | some (title', description') ↦
            let requirement : Requirement = record {
              id = requirement_id;
              title = title';
              description = description';
              status = "draft";
              project_id = none;
            } in
            let w' = record w { requirements = w.requirements ++ requirement ∷ [] } in
            let r' = record r { requirement_id = some requirement_id } in
            commit_task now fault batch_id w w'
              (new_row db sqlite fresh id now "planning" r' w.tasks) s
      ]
