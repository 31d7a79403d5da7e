-- ===== src/Orchestrator/Preparation/Examples.antt =====
-- The preparation at concrete rows (execqueue/orchestrator/main.py).
use exec_queue.Common.{
  ℕ, ◌≡◌, refl, String, Bool, true, false, Option, none, some, List, [], ◌∷◌, map, arith,
  if◌then◌else◌, ◌==◌,
}
use exec_queue.Database.{Table, plain_table}
use exec_queue.Model.{new_task, Task, TaskStatus, backlog, queued, prepared}
use exec_queue.Orchestrator.Classification.{classify, classify_batch}
use exec_queue.Orchestrator.Planning.{create_batch_plan, plan_batch, plan_groups, group_from}
use exec_queue.Orchestrator.Locking.{lock_tasks, was_taken}
use exec_queue.Orchestrator.Locking.Safety.{IsKeyed}
use exec_queue.Orchestrator.Context.{PreparedExecutionContext, build_context, validate_context}
use exec_queue.Orchestrator.Git.{Ran, exited, Platform, prepare_context}
use exec_queue.Orchestrator.RefName.{validate_ref_name, match_rest, is_ref_char, matches_pattern}
use exec_queue.Orchestrator.Candidates.{find_candidates}
use exec_queue.Orchestrator.Lookup.{row_of}
use exec_queue.Orchestrator.Preparation.{
  Orchestrator, prepare_task_context, prepare_each, run_preparation_cycle,
}
use exec_queue.Orchestrator.Preparation.Outcomes.{Ended, prepare_task_context_lem}
use exec_queue.Orchestrator.Preparation.Contexts.{IsHandover, prepare_task_context-success}
use exec_queue.Orchestrator.Preparation.Cycle.{run_preparation_cycle_frame}

-- Every branch is there; the state is whether something is at the path of the worktree.
abbrev git : List String → Bool → Ran × Bool
git (a ∷ b ∷ _ ∷ _ ∷ []) there = (exited 0 "", true)
git _ there = (exited 0 "abc", there)

abbrev disk : Platform Bool
disk = record {
  run = λ args cwd d. git args d;
  exists = λ d path. d;
  resolve = λ d path. some path;
  join = λ a b. "/work/t";
  strip = λ s. s;
  decimal = λ n. "1";
  short_id = λ n. "0000aaaa";
}

abbrev orchestrator : Orchestrator
orchestrator = record {
  worker_id = "w";
  max_batch_size = 10;
  worktree_root = "/work";
  base_repo_path = "/repo";
  message = λ k. "refused";
  unexpected = "unexpected";
}

abbrev db : Table Task
db = plain_table Task

abbrev row : ℕ → String → TaskStatus → Task
row i type s = record (new_task i i type 0) { status = s }

abbrev waiting : List Task
waiting = row 1 "planning" backlog ∷ row 2 "planning" backlog ∷ []

-- What another worker does to the second task.
abbrev take_second : List Task → List Task
take_second = map (λ t. if t.id == 2 then record t { status = queued; locked_by = some "v" } else t)

-- The second task is taken while the cycle plans: the lock fails, but the first task is prepared, without
-- a lock.
prepared_without_lock :
    map {B = TaskStatus × Option String}
      (λ t. (t.status, t.locked_by))
      (run_preparation_cycle disk orchestrator db 5 false "batch" take_second waiting false).1
    ≡ (prepared, none) ∷ (queued, some "v") ∷ []
unfolding run_preparation_cycle prepare_task_context prepare_each lock_tasks plain_table was_taken
    find_candidates classify_batch classify create_batch_plan plan_batch plan_groups group_from
    build_context validate_context
prepared_without_lock = refl

abbrev writing : Task
writing = row 1 "execution" queued

prepare_task_context_lem_example :
    (t' : Task) × (row_of 1
        (prepare_task_context disk orchestrator db 5 "batch" writing (writing ∷ []) false).1
      ≡ some t')
    × Ended writing
        (prepare_task_context disk orchestrator db 5 "batch" writing (writing ∷ []) false).0
        t'
prepare_task_context_lem_example =
    prepare_task_context_lem disk orchestrator db 5 "batch" writing (writing ∷ []) false refl refl

prepare_task_context-success_example :
    (c : PreparedExecutionContext) × (t' : Task) × ((prepare_task_context disk orchestrator db 5
        "batch" writing
        (writing ∷ [])
        false).0.context
      ≡ some c)
    × (row_of 1 (prepare_task_context disk orchestrator db 5 "batch" writing (writing ∷ []) false).1
        ≡ some t')
    × IsHandover c t'
unfolding prepare_task_context classify prepare_context build_context validate_context
    validate_ref_name matches_pattern match_rest is_ref_char plain_table
prepare_task_context-success_example =
    prepare_task_context-success disk orchestrator db 5 "batch" writing (writing ∷ []) false refl
      refl

taken_second-IsKeyed : IsKeyed (take_second waiting)
taken_second-IsKeyed i = ground arith

run_preparation_cycle_frame_example :
    row_of 2
      (run_preparation_cycle disk orchestrator db 5 false "batch" take_second waiting false).1
    ≡ some (record (row 2 "planning" queued) { locked_by = some "v" })
run_preparation_cycle_frame_example =
    run_preparation_cycle_frame disk orchestrator db 5 "batch" false take_second waiting false 2
      (record (row 2 "planning" queued) { locked_by = some "v" }) taken_second-IsKeyed refl refl
