-- ===== src/Orchestrator/Classification.antt =====
-- execqueue/orchestrator/classification.py, the class `TaskClassifier`, with the types of
-- execqueue/orchestrator/models.py that it fills. The reason codes, which are texts for the log, are
-- left out.
use text.Mathlib.TextEquality.{eq_iff}
use exec_queue.Common.{
  ℕ, ◌≡◌, ◌≢◌, ◌↔◌, String, Bool, true, false, ◌||◌, Option, none, some, List, map, arith, str_eq,
  truthy, if◌then◌else◌, ◌⊎◌,
}
use exec_queue.Model.{Details}

pub data RunnerMode : Type 0 where
  read_only write : RunnerMode

pub data ParallelizationMode : Type 0 where
  sequential parallel : ParallelizationMode

-- `branch:NAME` and `task:NUMBER`
pub data ConflictKey : Type 0 where
  branch : String → ConflictKey
  task : ℕ → ConflictKey

pub record TaskClassification : Type 0 where
  pub task_id : ℕ
  pub task_number : ℕ
  pub requires_write_access : Bool
  pub parallelization_mode : ParallelizationMode
  pub effective_runner_mode : RunnerMode
  pub conflict_key : Option ConflictKey

-- What the type of the task says; a requirement reads its details.
abbrev write_by_type : String → Option Bool → Bool
write_by_type task_type setting =
    if str_eq task_type "execution"
    then true
    else if str_eq task_type "planning" || str_eq task_type "analysis"
    then false
    else if str_eq task_type "requirement"
    then elim setting [ some b ↦ b | none ↦ false ]
    else true

-- An explicit setting takes precedence.
requires_write : String → Option Bool → Bool
requires_write task_type none = write_by_type task_type none
requires_write task_type (some b) = b

parallel_mode : Option String → ParallelizationMode
parallel_mode none = sequential
parallel_mode (some m) =
    if str_eq m "sequential"
    then sequential
    else if str_eq m "parallel"
    then parallel
    else sequential

-- `details.get("branch_name")`, where a missing and an empty name are false.
key_of : ℕ → Option String → ConflictKey
key_of number none = task number
key_of number (some b) = if truthy (some b) then branch b else task number

unfoldable pub classify : ℕ → ℕ → String → Details → TaskClassification
unfolding requires_write parallel_mode key_of
classify task_id task_number task_type details =
    let writes = requires_write task_type details.requires_write_access in
    record {
      task_id = task_id;
      task_number = task_number;
      requires_write_access = writes;
      parallelization_mode = parallel_mode details.parallelization_mode;
      effective_runner_mode = if writes then write else read_only;
      conflict_key = if writes then some (key_of task_number details.branch_name) else none;
    }

pub record TaskData : Type 0 where
  pub id : ℕ
  pub number : ℕ
  pub task_type : String
  pub details : Details

unfoldable pub classify_batch : List TaskData → List TaskClassification
classify_batch = map (λ t. classify t.id t.number t.task_type t.details)

-- What every classification has: the mode of the runner follows the access, and a conflict key is
-- there exactly for a task that writes.
pub record IsCoherent (c : TaskClassification) : Type 0 where
  pub mode : c.effective_runner_mode ≡ (if c.requires_write_access then write else read_only)
  pub key_of_write : c.effective_runner_mode ≡ write → c.conflict_key ≢ none
  pub key_of_read_only : c.effective_runner_mode ≡ read_only → c.conflict_key ≡ none

pub classify-IsCoherent :
    (task_id task_number : ℕ) (task_type : String) (details : Details)
    → IsCoherent (classify task_id task_number task_type details)
unfolding classify
classify-IsCoherent task_id task_number task_type details = ground arith

-- A task is classified as writing exactly if its details say so, or say nothing and its type is none of
-- planning, analysis and requirement.
pub classify-writes :
    (task_id task_number : ℕ) (task_type : String) (details : Details)
    → ((classify task_id task_number task_type details).requires_write_access ≡ true) ↔ (
        (details.requires_write_access ≡ some true)
        ⊎ ((details.requires_write_access ≡ none)
            × (task_type ≢ "planning")
            × (task_type ≢ "analysis")
            × (task_type ≢ "requirement")))
unfolding classify
classify-writes task_id task_number task_type details = ground (
  arith,
  eq_iff task_type "planning",
  eq_iff task_type "analysis",
  eq_iff task_type "requirement",
  eq_iff task_type "execution",
  eq_iff "execution" "planning",
  eq_iff "execution" "analysis",
  eq_iff "execution" "requirement",
)
