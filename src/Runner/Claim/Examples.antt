-- ===== src/Runner/Claim/Examples.antt =====
-- Claims in a concrete database (execqueue/runner/claim.py).
use exec_queue.Common.{ℕ, ◌≡◌, ◌⊎◌, none, some, [], ◌∷◌, arith}
use exec_queue.Database.{plain_table}
use exec_queue.Model.{new_task, Task, TaskStatus, TaskExecution, backlog, prepared}
use exec_queue.Observability.{no_metrics}
use exec_queue.Runner.Claim.{World, Tables, polled, aborted, poll_and_claim_tasks}
use exec_queue.Runner.Claim.Exclusive.{IsExclusive, unpolled, polled_by, Polled-IsExclusive}
use exec_queue.Runner.Claim.Results.{IsKeyed}
use exec_queue.Runner.Claim.Unnumbered.{IsUnwritten, poll_and_claim_tasks-IsUnwritten}

abbrev row : ℕ → TaskStatus → Task
row i s = record (new_task i i "execution" 0) { status = s }

abbrev world : World
world = record { tasks = row 1 prepared ∷ row 2 backlog ∷ []; executions = []; events = [] }

abbrev db : Tables
db = record { task_table = plain_table Task; execution_table = plain_table TaskExecution }

world-IsKeyed : IsKeyed world
world-IsKeyed i = ground arith

world-IsExclusive : IsExclusive world
world-IsExclusive i = omega arith

poll_and_claim_tasks-IsUnwritten_example :
    let (r, w, m) = poll_and_claim_tasks db (λ v. none) 100 "runner" 5 world no_metrics in
    ((r ≡ polled []) ⊎ (r ≡ aborted)) × IsUnwritten world no_metrics w m
poll_and_claim_tasks-IsUnwritten_example =
    poll_and_claim_tasks-IsUnwritten db 100 "runner" 5 world no_metrics

Polled-IsExclusive_example :
    IsExclusive
      (poll_and_claim_tasks db
        (λ w. some 8)
        200
        "b"
        5
        (poll_and_claim_tasks db (λ w. some 7) 100 "a" 5 world no_metrics).1
        no_metrics).1
Polled-IsExclusive_example = Polled-IsExclusive db {w = world} world-IsExclusive (
    polled_by (λ w. some 8) 200 "b" 5 no_metrics
      (polled_by (λ w. some 7) 100 "a" 5 no_metrics unpolled))
