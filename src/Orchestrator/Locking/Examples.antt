-- ===== src/Orchestrator/Locking/Examples.antt =====
-- The lock at concrete rows (execqueue/orchestrator/locking.py).
use exec_queue.Common.{ℕ, ◌≡◌, false, List, [], ◌∷◌, refl, arith, All}
use exec_queue.Database.{Table, plain_table}
use exec_queue.Model.{new_task, Task, TaskStatus, backlog, queued}
use exec_queue.Orchestrator.Locking.{lock_tasks, was_taken}
use exec_queue.Orchestrator.Locking.Safety.{IsKeyed, lock_tasks-exclusive}
use exec_queue.Orchestrator.Locking.Reports.{taken, lock_tasks-reports}

abbrev row : ℕ → TaskStatus → Task
row i s = record (new_task i i "execution" 0) { status = s }

abbrev two_waiting : List Task
two_waiting = row 1 backlog ∷ row 2 backlog ∷ []

abbrev one_taken : List Task
one_taken = row 1 backlog ∷ row 2 queued ∷ []

abbrev db : Table Task
db = plain_table Task

two_waiting-IsKeyed : IsKeyed two_waiting
two_waiting-IsKeyed i = ground arith

one_taken-IsKeyed : IsKeyed one_taken
one_taken-IsKeyed i = ground arith

lock_tasks-exclusive_example :
    (lock_tasks db "b" 20 false
      (2 ∷ 1 ∷ [])
      "second"
      (lock_tasks db "a" 10 false (1 ∷ []) "first" two_waiting).1).0.success
    ≡ false
unfolding lock_tasks plain_table
lock_tasks-exclusive_example =
    lock_tasks-exclusive db "a" "b" 10 20 false false (1 ∷ []) (2 ∷ 1 ∷ []) "first" "second"
      two_waiting 1 two_waiting-IsKeyed refl refl refl

-- The first task is reported as locked by the failed lock, and waits in the backlog.
reported_as_locked :
    (lock_tasks db "a" 10 false (1 ∷ 2 ∷ []) "first" one_taken).0.locked_task_ids ≡ 1 ∷ []
unfolding lock_tasks plain_table was_taken
reported_as_locked = refl

lock_tasks-reports_example :
    All
      (λ i. taken (lock_tasks db "a" 10 false (1 ∷ 2 ∷ []) "first" one_taken).1 i ≡ 0)
      (lock_tasks db "a" 10 false (1 ∷ 2 ∷ []) "first" one_taken).0.locked_task_ids
unfolding lock_tasks plain_table
lock_tasks-reports_example =
    lock_tasks-reports db "a" 10 false (1 ∷ 2 ∷ []) "first" one_taken one_taken-IsKeyed refl
