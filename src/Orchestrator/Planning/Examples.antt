-- ===== src/Orchestrator/Planning/Examples.antt =====
-- Batch plans for concrete tasks (execqueue/orchestrator/classification.py).
use exec_queue.Common.{
  ℕ, ◌≡◌, ◌≤◌, ◌+◌, ◌==◌, none, some, List, [], ◌∷◌, refl, count, length, Option, String,
}
use exec_queue.Orchestrator.Classification.{TaskData, branch, classify, classify_batch}
use exec_queue.Orchestrator.Planning.{
  plan_batch, create_batch_plan, plan_groups, plan_group, include_or_exclude, group_from,
  add_to_group, key_eq,
}
use exec_queue.Orchestrator.Planning.Complete.{create_batch_plan_complete}
use exec_queue.Orchestrator.Planning.Isolated.{writes_under, plan_batch-isolated}
use exec_queue.Orchestrator.Planning.Size.{create_batch_plan-le}

abbrev data_of : ℕ → String → Option String → TaskData
data_of i kind name = record {
  id = i;
  number = i;
  task_type = kind;
  details = record {
    requires_write_access = none;
    parallelization_mode = none;
    branch_name = name;
  };
}

-- Two tasks that read, two that write to one branch, and one that writes to its own.
abbrev tasks : List TaskData
tasks =
    data_of 1 "analysis" none
    ∷ data_of 2 "execution" (some "main")
    ∷ data_of 3 "planning" none
    ∷ data_of 4 "execution" (some "main")
    ∷ data_of 5 "execution" none
    ∷ []

planned : (create_batch_plan 1 (classify_batch tasks)).task_ids ≡ 1 ∷ 2 ∷ []
unfolding create_batch_plan plan_batch plan_groups plan_group include_or_exclude group_from
    add_to_group key_eq classify_batch classify
planned = refl

create_batch_plan_complete_example :
    count (λ j. j == 4) (create_batch_plan 1 (classify_batch tasks)).task_ids
      + count (λ j. j == 4) (create_batch_plan 1 (classify_batch tasks)).excluded_task_ids
    ≡ 1
create_batch_plan_complete_example = create_batch_plan_complete 1 tasks 4

plan_batch-isolated_example :
    count (writes_under (branch "main")) (plan_batch 10 (classify_batch tasks)).included ≤ 1
plan_batch-isolated_example = plan_batch-isolated 10 (classify_batch tasks) (branch "main")

abbrev separate : List TaskData
separate = data_of 2 "execution" (some "main") ∷ data_of 5 "execution" none ∷ []

create_batch_plan-le_example : length (create_batch_plan 1 (classify_batch tasks)).task_ids ≤ 2
create_batch_plan-le_example = create_batch_plan-le 1 (classify_batch tasks)
