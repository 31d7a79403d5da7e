-- ===== src/Tasks/Examples.antt =====
-- The intake on small tables (execqueue/tasks/service.py).
use exec_queue.Common.{◌≡◌, refl, true, false, []}
use exec_queue.Tasks.Samples.{bare, orchestrator, db, request, stored}
use exec_queue.Tasks.{
  refused, idempotency_error, validate_task_type, violates, new_row, commit_task, create_task,
}
use exec_queue.Tasks.Creation.{IsIntake, create_task-IsIntake}

-- A creator that the table does not allow is reported as a duplicate key, which no task has.
no_duplicate :
    (create_task bare orchestrator db true 0 2 5 false "batch"
      (record request { created_by_type = "robot" })
      stored
      tt).0
    ≡ (refused (idempotency_error "k"), stored)
unfolding create_task validate_task_type new_row commit_task violates
no_duplicate = refl

create_task-IsIntake_example :
    IsIntake 2 [] stored tt
      (create_task bare orchestrator db true 0 2 5 false "batch" request stored tt)
create_task-IsIntake_example =
    create_task-IsIntake bare orchestrator db true 0 2 5 false "batch" request stored tt
