-- ===== src/Runner/Claim/Exclusive.antt =====
-- A task has at most one active execution (execqueue/runner/claim.py, execqueue/runner/polling.py).
use exec_queue.Common.{
  ℕ, ◌+◌, ◌≤◌, ◌≡◌, String, Option, none, some, List, [], ◌∷◌, arith, ◌==◌, ◌&&◌, not,
  if◌then◌else◌, null, count, count-append, Bool-cases, inl, inr,
}
use mathlib.Core.Path.{subst}
use exec_queue.Database.Selected.{select_where-null}
use exec_queue.Model.{is_final}
use exec_queue.Observability.{ExecutionMetrics}
use exec_queue.Runner.Claim.{
  World, Tables, is_active_for, is_claimable, queue_task, new_execution, insert_execution,
  claim_task, claim_each, poll_and_claim_tasks,
}

-- How many active executions a task has.
abbrev pub active : World → ℕ → ℕ
active w i = count (λ e. i == e.task_id && not (is_final e.status)) w.executions

abbrev pub IsExclusive : World → Type 0
IsExclusive w = (i : ℕ) → active w i ≤ 1

insert_execution-le :
    (id : Option ℕ) (now i : ℕ) (runner : String) (w : World) (m : ExecutionMetrics) (j : ℕ)
    → active (insert_execution id now i runner w m).1 j ≤ active w j + (if j == i then 1 else 0)
unfolding insert_execution
insert_execution-le none now i runner w m j = ground arith
insert_execution-le (some id) now i runner w m j =
    ground (arith, count-append (is_active_for j) w.executions (new_execution id now i runner ∷ []))

-- A claim, failed or not, keeps it that no task has two active executions.
pub claim_task-IsExclusive :
    (db : Tables) (id : Option ℕ) (now i : ℕ) (runner : String) (w : World) (m : ExecutionMetrics)
    → IsExclusive w
    → IsExclusive (claim_task db id now i runner w m).1
unfolding claim_task
claim_task-IsExclusive db id now i runner w m x j =
    let tasks' = (db.task_table.update_where (is_claimable i) queue_task w.tasks).0 in
    let inserted = insert_execution-le id now i runner (record w { tasks = tasks' }) m j in
    elim (Bool-cases (null (db.execution_table.select_where (is_active_for i) w.executions))) [
      | inl free ↦ elim (Bool-cases (j == i)) [
        | inl same ↦
            let e : i ≡ j = ground (arith, same) in
            let idle = select_where-null db.execution_table (is_active_for i) w.executions free in
            let idle_j : active w j ≡ 0 = subst (λ k. active w k ≡ 0) e idle in
            ground (arith, inserted, free, same, idle_j)
        | inr other ↦ ground (arith, inserted, free, other, x j)
      ]
      | inr busy ↦ ground (arith, busy, x j)
    ]

claim_each-IsExclusive :
    (db : Tables) (ids : World → Option ℕ) (now : ℕ) (runner : String) (is : List ℕ) (w : World)
    (m : ExecutionMetrics)
    → IsExclusive w
    → IsExclusive (claim_each db ids now runner is w m).1
unfolding claim_each
claim_each-IsExclusive db ids now runner [] w m x j = x j
claim_each-IsExclusive db ids now runner (i ∷ is) w m x j =
    let (r, w', m') = claim_task db (ids w) now i runner w m in
    let x' = claim_task-IsExclusive db (ids w) now i runner w m x in
    ground (arith, x' j, claim_each-IsExclusive db ids now runner is w' m' x' j)

-- What polls lead to, one after another, by any runners and with any faults.
pub data Polled (db : Tables) (w : World) : World → Type 0 where
  unpolled : Polled db w w
  polled_by :
      {v : World} (ids : World → Option ℕ) (now : ℕ) (runner : String) (batch_size : ℕ)
      (m : ExecutionMetrics)
      → Polled db w v
      → Polled db w (poll_and_claim_tasks db ids now runner batch_size v m).1

-- If no task has two active executions, then none has two after any polls, whichever runners make
-- them and whichever flushes fail.
pub Polled-IsExclusive : (db : Tables) {w v : World} → IsExclusive w → Polled db w v → IsExclusive v
unfolding poll_and_claim_tasks
Polled-IsExclusive db x unpolled = x
Polled-IsExclusive db x (polled_by ids now runner batch_size m r) =
    claim_each-IsExclusive db ids now runner _ _ m (Polled-IsExclusive db x r)
