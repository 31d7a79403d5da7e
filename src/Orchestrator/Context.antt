-- ===== src/Orchestrator/Context.antt =====
-- execqueue/orchestrator/context_contract.py: the context that is handed to the runner, with its type of
-- execqueue/orchestrator/models.py. The texts of the errors are constructors. The warnings for secret
-- fields are left out. An identifier that is there is true, as every UUID is.
mod Examples
pub mod Valid
use exec_queue.Common.{
  ℕ, String, Bool, true, false, not, ◌||◌, ◌&&◌, Option, none, some, List, [], ◌∷◌, ◌++◌, ◌==◌,
  str_eq, truthy, contains, any, keep, is_some, if◌then◌else◌,
}
use exec_queue.Orchestrator.Classification.{RunnerMode, read_only, write}
use exec_queue.Model.{Details}
use exec_queue.Orchestrator.Recovery.{PreparationErrorType, non_recoverable}

pub record PreparedExecutionContext : Type 0 where
  pub version : String
  pub task_id : Option ℕ
  pub task_number : Option ℕ
  pub task_type : Option String
  pub requires_write_access : Bool
  pub parallelization_mode : String
  pub runner_mode : RunnerMode
  pub base_repo_path : Option String
  pub branch_name : Option String
  pub worktree_path : Option String
  pub commit_sha_before : Option String
  pub correlation_id : Option String
  pub batch_id : Option String
  pub prepared_at : ℕ

pub data ContextError : Type 0 where
  unsupported_version task_id_required task_number_required task_type_required : ContextError
  base_repo_path_required branch_name_required worktree_path_required : ContextError
  commit_sha_before_required : ContextError

abbrev pub context_version : String
context_version = "v1"

abbrev pub secret_fields : List String
secret_fields = "api_key" ∷ "secret" ∷ "token" ∷ "password" ∷ "credential" ∷ "private_key" ∷ []

-- `_sanitize_details`, on the items of a dictionary; `lower` stands for `str.lower`.
pub sanitize_details : (String → String) → {V : Type 0} → List (String × V) → List (String × V)
sanitize_details lower = keep (λ item. not (any (λ s. contains s (lower item.0)) secret_fields))

-- A dictionary without the key and an empty one give the default.
abbrev mode_of : String → Option String → String
mode_of otherwise none = otherwise
mode_of otherwise (some m) = m

-- What both builders set for a task.
pub record ContextTask : Type 0 where
  pub task_id : ℕ
  pub task_number : ℕ
  pub task_type : String
  pub batch_id : Option String
  pub correlation_id : Option String
  pub details : Details

unfoldable pub build_read_only_context : String → ℕ → ContextTask → PreparedExecutionContext
build_read_only_context base now t = record {
  version = context_version;
  task_id = some t.task_id;
  task_number = some t.task_number;
  task_type = some t.task_type;
  requires_write_access = false;
  parallelization_mode = mode_of "parallel" t.details.parallelization_mode;
  runner_mode = read_only;
  base_repo_path = some base;
  branch_name = none;
  worktree_path = none;
  commit_sha_before = none;
  correlation_id = t.correlation_id;
  batch_id = t.batch_id;
  prepared_at = now;
}

unfoldable pub build_write_context :
    String → ℕ → ContextTask → String → String → String → PreparedExecutionContext
build_write_context base now t branch worktree sha = record {
  version = context_version;
  task_id = some t.task_id;
  task_number = some t.task_number;
  task_type = some t.task_type;
  requires_write_access = true;
  parallelization_mode = mode_of "sequential" t.details.parallelization_mode;
  runner_mode = write;
  base_repo_path = some base;
  branch_name = some branch;
  worktree_path = some worktree;
  commit_sha_before = some sha;
  correlation_id = t.correlation_id;
  batch_id = t.batch_id;
  prepared_at = now;
}

-- A context, or the class of the `PreparationError` that is raised.
pub data Built : Type 0 where
  built : PreparedExecutionContext → Built
  refused : PreparationErrorType → Built

unfoldable pub build_context :
    String → ℕ → ContextTask → Bool → Option String → Option String → Option String → Built
unfolding build_read_only_context build_write_context
build_context base now t false branch worktree sha = built (build_read_only_context base now t)
build_context base now t true (some branch) (some worktree) (some sha) =
    if not (truthy (some branch)) || not (truthy (some worktree)) || not (truthy (some sha))
    then refused non_recoverable
    else built (build_write_context base now t branch worktree sha)
build_context base now t true _ _ _ = refused non_recoverable

abbrev pub error_if : Bool → ContextError → List ContextError
error_if b e = if b then e ∷ [] else []

abbrev pub number_given : Option ℕ → Bool
number_given none = false
number_given (some n) = not (n == 0)

-- The checks of the WRITE mode.
unfoldable pub write_errors : PreparedExecutionContext → List ContextError
write_errors c = elim c.runner_mode [
  | read_only ↦ []
  | write ↦
      error_if (not (truthy c.branch_name)) branch_name_required
      ++ error_if (not (truthy c.worktree_path)) worktree_path_required
      ++ error_if (not (truthy c.commit_sha_before)) commit_sha_before_required
]

unfoldable pub validate_context : PreparedExecutionContext → List ContextError
unfolding write_errors
validate_context c =
    error_if (not (str_eq c.version context_version)) unsupported_version
    ++ error_if (not (is_some c.task_id)) task_id_required
    ++ error_if (not (number_given c.task_number)) task_number_required
    ++ error_if (not (truthy c.task_type)) task_type_required
    ++ error_if (not (truthy c.base_repo_path)) base_repo_path_required
    ++ write_errors c

-- `PreparedExecutionContext.validate`, which repeats some of the checks.
pub validate : PreparedExecutionContext → List ContextError
unfolding write_errors
validate c = write_errors c ++ error_if (not (truthy c.base_repo_path)) base_repo_path_required
