-- ===== src/Orchestrator/Recovery/Examples.antt =====
-- The recovery of stale queued tasks at concrete rows (execqueue/orchestrator/recovery.py).
use exec_queue.Common.{
  ℕ, ◌≡◌, ◌≢◌, String, Option, none, some, List, [], ◌∷◌, map, refl, arith, if◌then◌else◌,
}
use exec_queue.Database.{Table, plain_table}
use exec_queue.Model.{new_task, Task, TaskStatus, backlog, queued, failed}
use exec_queue.Orchestrator.Locking.Safety.{IsKeyed}
use exec_queue.Orchestrator.Recovery.{
  conflict, recoverable, retry_exhaustion, StaleQueuedRecovery, stale_queued_recovery,
  classify_preparation, is_stale, recovered, recover_task, with_status, run_recovery_cycle,
  find_stale_tasks,
}
use exec_queue.Orchestrator.Recovery.Decided.{is_overdue, decided, run_recovery_cycle_lem}
use exec_queue.Orchestrator.Recovery.Decision.{recovered-ne-retry_exhaustion}

-- A function for `str.lower` on texts in lower case.
abbrev same : String → String
same m = m

abbrev service : StaleQueuedRecovery
service = stale_queued_recovery 30 3

abbrev row : ℕ → TaskStatus → ℕ → Option String → Task
row i s attempts error = record (new_task i i "execution" 0) {
  status = s;
  queued_at = some 0;
  locked_by = some "a";
  preparation_attempt_count = attempts;
  last_preparation_error = error;
}

-- One task to return, one that used up its attempts, one in the backlog.
abbrev rows : List Task
rows = row 1 queued 1 (some "timeout") ∷ row 2 queued 3 none ∷ row 3 backlog 0 none ∷ []

abbrev db : Table Task
db = plain_table Task

rows-IsKeyed : IsKeyed rows
rows-IsKeyed i = ground arith

-- A message with patterns of two lists.
two_patterns : classify_preparation same "Worktree x exists but is dirty: timeout" ≡ conflict
unfolding classify_preparation
two_patterns = refl

-- The word "unlocked" has the pattern "lock" in it, and so does a "block".
inner_word : classify_preparation same "unlocked" ≡ recoverable
unfolding classify_preparation
inner_word = refl

statuses :
    map (λ t. t.status) (run_recovery_cycle same db service 2000000000 none rows).1
    ≡ backlog ∷ failed ∷ backlog ∷ []
unfolding run_recovery_cycle plain_table recover_task find_stale_tasks is_stale
statuses = refl

run_recovery_cycle_lem_example :
    (run_recovery_cycle same db service 2000000000 (some "a") rows).1
    ≡ map
        (λ t.
          if is_overdue service 2000000000 (some "a") t
          then decided same service 2000000000 t
          else t)
        rows
run_recovery_cycle_lem_example =
    run_recovery_cycle_lem same db service 2000000000 (some "a") rows rows-IsKeyed

recovered-ne-retry_exhaustion_example :
    (recover_task same service (row 1 queued 1 none) none).1 ≢ retry_exhaustion
unfolding recover_task recovered with_status
recovered-ne-retry_exhaustion_example =
    recovered-ne-retry_exhaustion same service 2000000000 (row 1 queued 2 none)
      (row 1 queued 1 none) none (omega arith) refl refl
