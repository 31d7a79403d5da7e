-- ===== src/Orchestrator/Planning.antt =====
-- execqueue/orchestrator/classification.py, the class `BatchPlanner`. A plan collects the classified
-- tasks themselves; their identifiers are read off at the end. The identifier of the batch and its
-- time are left out.
pub mod Keys
pub mod Groups
pub mod Complete
mod Examples
pub mod Isolated
pub mod Size
use exec_queue.Common.{
  ℕ, suc, ◌+◌, String, Bool, true, false, not, ◌&&◌, Option, none, some, List, [], ◌∷◌, ◌++◌, map,
  ltb, leb, ◌==◌, str_eq, if◌then◌else◌, keep, count, any, null, length, take, drop, is_some,
}
use exec_queue.Orchestrator.Classification.{
  ConflictKey, branch, task, RunnerMode, read_only, write, TaskClassification,
}

pub data BatchType : Type 0 where
  readonly_parallel write_parallel_isolated write_sequential : BatchType

pub data ExclusionReason : Type 0 where
  exceeded_max_batch_size : ExclusionReason
  conflict_with blocked_by : ConflictKey → ExclusionReason

abbrev pub is_read_only : TaskClassification → Bool
is_read_only t = elim t.effective_runner_mode [ read_only ↦ true | write ↦ false ]

abbrev pub is_write : TaskClassification → Bool
is_write t = not (is_read_only t)

-- Equality of the texts `branch:NAME` and `task:NUMBER`, and of `None`.
unfoldable pub key_eq : Option ConflictKey → Option ConflictKey → Bool
key_eq none none = true
key_eq (some (branch a)) (some (branch b)) = str_eq a b
key_eq (some (task a)) (some (task b)) = a == b
key_eq _ _ = false

abbrev pub Group : Type 0
Group = Option ConflictKey × List TaskClassification

-- `conflict_groups[key].append(task)`, with an empty group first where the key is new.
pub add_to_group : Option ConflictKey → TaskClassification → List Group → List Group
add_to_group k t [] = (k, t ∷ []) ∷ []
add_to_group k t ((j, g) ∷ gs) =
    if key_eq j k then (j, g ++ t ∷ []) ∷ gs else (j, g) ∷ add_to_group k t gs

unfoldable pub group_from : List Group → List TaskClassification → List Group
unfolding add_to_group
group_from gs [] = gs
group_from gs (t ∷ ts) = group_from (add_to_group t.conflict_key t gs) ts

-- What the plan has so far: the tasks included, those excluded with their reasons, and how many
-- writing tasks were included.
pub record Batch : Type 0 where
  pub included : List TaskClassification
  pub excluded : List (TaskClassification × ExclusionReason)
  pub write_count : ℕ

include_or_exclude : ℕ → ExclusionReason → Batch → TaskClassification → Batch
include_or_exclude max_size reason b t =
    if ltb b.write_count max_size
    then record b { included = b.included ++ t ∷ []; write_count = b.write_count + 1 }
    else record b { excluded = b.excluded ++ (t, reason) ∷ [] }

abbrev all_for :
    ExclusionReason → List TaskClassification → List (TaskClassification × ExclusionReason)
all_for reason = map (λ t. (t, reason))

-- One round of the loop over the conflict groups. Without a key only the first task is looked at.
pub plan_group : ℕ → Batch → Group → Batch
plan_group max_size b (k, []) = b
plan_group max_size b (none, t ∷ rest) = include_or_exclude max_size exceeded_max_batch_size b t
plan_group max_size b (some k, t ∷ []) = include_or_exclude max_size exceeded_max_batch_size b t
plan_group max_size b (some k, t ∷ u ∷ rest) =
    let b' = include_or_exclude max_size (conflict_with k) b t in
    record b' { excluded = b'.excluded ++ all_for (blocked_by k) (u ∷ rest) }

unfoldable pub plan_groups : ℕ → Batch → List Group → Batch
plan_groups max_size b [] = b
plan_groups max_size b (g ∷ gs) = plan_groups max_size (plan_group max_size b g) gs

-- The keys of a list, each once.
pub distinct : List (Option ConflictKey) → List (Option ConflictKey)
distinct [] = []
distinct (k ∷ ks) = let rest = distinct ks in if any (key_eq k) rest then rest else k ∷ rest

abbrev keys_of : List TaskClassification → List (Option ConflictKey)
keys_of ts = keep is_some (map (λ t. t.conflict_key) ts)

pub batch_type_of : List TaskClassification → List TaskClassification → BatchType
unfolding distinct
batch_type_of writes included =
    if null writes
    then readonly_parallel
    else if length included == 1
    then write_sequential
    else if leb (length (keys_of writes)) (length (distinct (keys_of writes)))
    then write_parallel_isolated
    else write_sequential

pub record BatchPlan : Type 0 where
  pub batch_type : BatchType
  pub task_ids : List ℕ
  pub excluded_task_ids : List ℕ
  pub exclusion_reasons : List (ℕ × ExclusionReason)

-- The included and excluded tasks of `create_batch_plan`.
unfoldable pub plan_batch : ℕ → List TaskClassification → Batch
plan_batch max_size classifications =
    let readonly_tasks = keep is_read_only classifications in
    let write_tasks = keep is_write classifications in
    plan_groups max_size
      (record {
        included = take max_size readonly_tasks;
        excluded = all_for exceeded_max_batch_size (drop max_size readonly_tasks);
        write_count = 0;
      })
      (group_from [] write_tasks)

unfoldable pub create_batch_plan : ℕ → List TaskClassification → BatchPlan
create_batch_plan max_size classifications =
    let b = plan_batch max_size classifications in
    record {
      batch_type = batch_type_of (keep is_write classifications) b.included;
      task_ids = map (λ t. t.task_id) b.included;
      excluded_task_ids = map (λ x. x.0.task_id) b.excluded;
      exclusion_reasons = map (λ x. (x.0.task_id, x.1)) b.excluded;
    }

pub plan_for_single_task : TaskClassification → BatchPlan
plan_for_single_task c = record {
  batch_type = if is_read_only c then readonly_parallel else write_sequential;
  task_ids = c.task_id ∷ [];
  excluded_task_ids = [];
  exclusion_reasons = [];
}
