-- ===== src/Runner/Claim/Results.antt =====
-- When a claim succeeds and what it does (execqueue/runner/claim.py, execqueue/runner/main.py).
use exec_queue.Common.{
  ℕ, ◌≤◌, ◌<◌, count_mono, ◌≡◌, ◌⊎◌, ◌↔◌, String, Option, none, List, [], ◌∷◌, map, arith, ◌==◌,
  ◌&&◌, if◌then◌else◌, null, count, Bool-cases, inl, inr, refl,
}
use exec_queue.Database.Selected.{select_where-none, select_where-null, update_none}
use exec_queue.Model.{Task, is_prepared}
use exec_queue.Observability.{ExecutionMetrics}
use exec_queue.Runner.Claim.{
  World, Tables, ClaimFailure, claim_failed, flush_failed, is_active_for, is_claimable, queue_task,
  insert_execution, claim_task,
}
use exec_queue.Runner.Claim.Exclusive.{active}

-- The primary key: no two tasks have one identifier.
abbrev pub IsKeyed : World → Type 0
IsKeyed w = (i : ℕ) → count (λ t. i == t.id) w.tasks ≤ 1

-- How many prepared tasks have an identifier.
abbrev pub claimable : World → ℕ → ℕ
claimable w i = count (λ t. i == t.id && is_prepared t.status) w.tasks

none_claimable :
    (i : ℕ) (ts : List Task)
    → count (is_claimable i) (map (λ t. if is_claimable i t then queue_task t else t) ts) ≡ 0
none_claimable i [] = refl
none_claimable i (t ∷ ts) = ground (arith, none_claimable i ts)

claimable-le : (w : World) (i : ℕ) → IsKeyed w → claimable w i ≤ 1
claimable-le w i k =
    omega (arith, k i, count_mono (is_claimable i) (λ t. i == t.id) w.tasks (λ t h. ground arith))

module _ (db : Tables) (now i : ℕ) (runner : String) (w : World) (m : ExecutionMetrics) where
  -- The claim of a task reaches the flush, and fails there for want of an identifier, exactly if the task
  -- has no active execution and one prepared task has the identifier that is claimed.
  claim_task-flush_failed :
      ((claim_task db none now i runner w m).0 ≡ flush_failed)
      ↔ ((active w i ≡ 0) × (claimable w i ≡ 1))
  unfolding claim_task insert_execution
  claim_task-flush_failed =
      let updated = db.task_table.update_where_lem (is_claimable i) queue_task w.tasks in
      let idle = select_where-null db.execution_table (is_active_for i) w.executions in
      let none_active = select_where-none db.execution_table (is_active_for i) w.executions in
      elim (Bool-cases (null (db.execution_table.select_where (is_active_for i) w.executions))) [
        | inl free ↦ elim (Bool-cases (claimable w i == 1)) [
          | inl one ↦ ground (arith, free, updated, one, idle free)
          | inr other ↦ ground (arith, free, updated, other, idle free)
        ]
        | inr busy ↦ ground (arith, busy, none_active)
      ]

  -- If no two tasks share an identifier, then a claim that fails changes nothing, and it fails only
  -- because no prepared task has the identifier or because the task has an active execution.
  pub claim_task-claim_failed :
      (id : Option ℕ) (why : ClaimFailure)
      → IsKeyed w
      → let (r, w', m') = claim_task db id now i runner w m in
        r ≡ claim_failed why → (w' ≡ w) × ((claimable w i ≡ 0) ⊎ (0 < active w i))
  unfolding claim_task insert_execution
  claim_task-claim_failed id why keyed failed =
      elim (Bool-cases (null (db.execution_table.select_where (is_active_for i) w.executions))) [
        | inl free ↦
            let updated = db.task_table.update_where_lem (is_claimable i) queue_task w.tasks in
            elim (Bool-cases (claimable w i == 1)) [
              | inl one ↦ ground (arith, free, updated, one)
              | inr other ↦
                  let gone : claimable w i ≡ 0 = ground (arith, other, claimable-le w i keyed) in
                  ground (
                    arith,
                    free,
                    updated,
                    gone,
                    update_none (is_claimable i) queue_task w.tasks gone,
                  )
            ]
        | inr busy ↦
            ground
              (arith, busy, select_where-none db.execution_table (is_active_for i) w.executions)
      ]
