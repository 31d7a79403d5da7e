-- ===== src/Runner/Claim/Unnumbered.antt =====
-- Claims of executions that get no identifier (execqueue/runner/claim.py, execqueue/runner/polling.py): the
-- column of execqueue/models/task_execution.py has no default, and the claim sets none.
use exec_queue.Common.{
  ℕ, ◌≡◌, ◌⊎◌, refl, inl, inr, String, none, List, [], ◌∷◌, arith, ◌==◌, null, Bool-cases,
}
use exec_queue.Observability.{ExecutionMetrics}
use exec_queue.Runner.Claim.{
  World, Tables, claim_failed, flush_failed, active_execution, failure_of, ClaimFailure, polled,
  aborted, is_active_for, is_claimable, queue_task, insert_execution, claim_task, claim_each,
  poll_and_claim_tasks,
}

-- No execution and no event is written, and none is counted.
abbrev pub IsUnwritten : World → ExecutionMetrics → World → ExecutionMetrics → Type 0
IsUnwritten w m w' m' = (w'.executions ≡ w.executions) × (w'.events ≡ w.events) × (m' ≡ m)

module _ (db : Tables) (now : ℕ) (runner : String) where
  claim_task-IsUnwritten :
      (i : ℕ) (w : World) (m : ExecutionMetrics)
      → let (r, w', m') = claim_task db none now i runner w m in
        (((why : ClaimFailure) × (r ≡ claim_failed why)) ⊎ (r ≡ flush_failed))
        × IsUnwritten w m w' m'
  unfolding claim_task insert_execution
  claim_task-IsUnwritten i w m =
      elim (Bool-cases (null (db.execution_table.select_where (is_active_for i) w.executions))) [
        | inl free ↦
            let updated = db.task_table.update_where (is_claimable i) queue_task w.tasks in
            elim (Bool-cases (updated.1 == 1)) [
              | inl one ↦ (
                inr (ground (arith, free, one)),
                (ground (arith, free, one), ground (arith, free, one), ground (arith, free, one)),
              )
              | inr other ↦ (
                inl (
                  failure_of (db.task_table.get (λ t. i == t.id) updated.0),
                  ground (arith, free, other),
                ),
                (
                  ground (arith, free, other),
                  ground (arith, free, other),
                  ground (arith, free, other),
                ),
              )
            ]
        | inr busy ↦ (
          inl (active_execution, ground (arith, busy)),
          (ground (arith, busy), ground (arith, busy), ground (arith, busy)),
        )
      ]

  claim_each-IsUnwritten :
      (is : List ℕ) (w : World) (m : ExecutionMetrics)
      → let (r, w', m') = claim_each db (λ v. none) now runner is w m in
        ((r ≡ polled []) ⊎ (r ≡ aborted)) × IsUnwritten w m w' m'
  unfolding claim_each
  claim_each-IsUnwritten [] w m = (inl refl, (refl, refl, refl))
  claim_each-IsUnwritten (i ∷ is) w m =
      let (r, w', m') = claim_task db none now i runner w m in
      let (ending, (executions, events, metrics)) = claim_task-IsUnwritten i w m in
      let (ending', (executions', events', metrics')) = claim_each-IsUnwritten is w' m' in
      elim ending [
        | inl (why, failed) ↦ (
          elim ending' [
            | inl nothing ↦ inl (ground (arith, failed, nothing))
            | inr stopped ↦ inr (ground (arith, failed, stopped))
          ],
          (
            ground (arith, failed, executions, executions'),
            ground (arith, failed, events, events'),
            ground (arith, failed, metrics, metrics'),
          ),
        )
        | inr flush ↦ (
          inr (ground (arith, flush)),
          (
            ground (arith, flush, executions),
            ground (arith, flush, events),
            ground (arith, flush, metrics),
          ),
        )
      ]

  -- If no flush gives a new execution an identifier, then no poll claims anything: it gives no execution
  -- or ends by the exception of the flush, and the executions, the events and the metrics are as before.
  pub poll_and_claim_tasks-IsUnwritten :
      (batch_size : ℕ) (w : World) (m : ExecutionMetrics)
      → let (r, w', m') = poll_and_claim_tasks db (λ v. none) now runner batch_size w m in
        ((r ≡ polled []) ⊎ (r ≡ aborted)) × IsUnwritten w m w' m'
  unfolding poll_and_claim_tasks
  poll_and_claim_tasks-IsUnwritten batch_size w m = claim_each-IsUnwritten _ w m
