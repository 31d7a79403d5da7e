-- ===== src/Orchestrator/Preparation/Outcomes.antt =====
-- What becomes of one task that is prepared (execqueue/orchestrator/main.py).
use exec_queue.Common.{
  ℕ, ◌+◌, ◌≡◌, ◌≢◌, ◌⊎◌, refl, String, Bool, true, false, Option, none, some, List, arith, ◌==◌,
  ◌∙◌,
}
use exec_queue.Database.{Table}
use exec_queue.Model.{Task, backlog, queued, prepared, failed}
use exec_queue.Orchestrator.Classification.{classify}
use exec_queue.Orchestrator.Locking.Rows.{
  row_of-release_lock, row_of-release_lock_other, release_lock-IsKeyed,
}
use exec_queue.Orchestrator.Locking.Safety.{IsKeyed}
use exec_queue.Orchestrator.Recovery.{recoverable, conflict, non_recoverable}
use exec_queue.Orchestrator.Context.{PreparedExecutionContext}
use exec_queue.Orchestrator.Git.{Platform, Attempt, done, refused, crashed, GitContext}
use exec_queue.Orchestrator.Preparation.{
  PreparationResult, Orchestrator, git_part, with_git, context_part, failed_attempt, finish,
  after_git, prepare_task_context,
}
use exec_queue.Orchestrator.Lookup.{row_of, row_of-store_self, row_of-store_other, store-IsKeyed}

-- How the preparation of a queued task ended, and the task after it: it is prepared; or it is failed;
-- or it is back in the backlog without a lock; or an unexpected exception left it queued. Every end but
-- the first counts an attempt.
abbrev pub Ended : Task → PreparationResult → Task → Type 0
Ended t r t' =
    ((r.success ≡ true)
      × (t'.status ≡ prepared)
      × (t'.preparation_attempt_count ≡ t.preparation_attempt_count))
    ⊎ ((r.error ≡ some non_recoverable)
        × (t'.status ≡ failed)
        × (t'.preparation_attempt_count ≡ t.preparation_attempt_count + 1))
    ⊎ ((r.error ≢ some non_recoverable)
        × (t'.status ≡ backlog)
        × (t'.locked_by ≡ none)
        × (t'.queued_at ≡ none)
        × (t'.preparation_attempt_count ≡ t.preparation_attempt_count + 1))
    ⊎ ((r.error ≡ some recoverable)
        × (t'.status ≡ queued)
        × (t'.preparation_attempt_count ≡ t.preparation_attempt_count + 1))

module _ {S : Type 0} (p : Platform S) (o : Orchestrator) (db : Table Task) (now : ℕ) where
  finish_lem :
      (a : Attempt PreparedExecutionContext) (t t₀ : Task) (rows : List Task)
      → row_of t.id rows ≡ some t₀
      → t.status ≡ queued
      → let (r, rows') = finish p o db now a t rows in
        (t' : Task) × (row_of t.id rows' ≡ some t') × Ended t r t'
  unfolding finish
  finish_lem (done c) t t₀ rows h q = (_, row_of-store_self t₀ _ t.id rows h refl, ground arith)
  finish_lem (refused non_recoverable) t t₀ rows h q =
      (_, row_of-store_self t₀ _ t.id rows h refl, ground arith)
  finish_lem (refused recoverable) t t₀ rows h q = (
    _,
    row_of-release_lock db now t.id _ _
        (row_of-store_self t₀ (failed_attempt p o now (o.message recoverable) t) t.id rows h refl),
    ground (arith, q),
  )
  finish_lem (refused conflict) t t₀ rows h q = (
    _,
    row_of-release_lock db now t.id _ _
        (row_of-store_self t₀ (failed_attempt p o now (o.message conflict) t) t.id rows h refl),
    ground (arith, q),
  )
  finish_lem crashed t t₀ rows h q = (_, row_of-store_self t₀ _ t.id rows h refl, ground (arith, q))

  after_git_lem :
      (batch_id : String) (writes : Bool) (a : Attempt (Option GitContext)) (t : Task)
      (rows : List Task)
      → row_of t.id rows ≡ some t
      → t.status ≡ queued
      → let (r, rows') = after_git p o db now batch_id writes a t rows in
        (t' : Task) × (row_of t.id rows' ≡ some t') × Ended t r t'
  unfolding after_git
  after_git_lem batch_id writes (done none) t rows h q =
      finish_lem (context_part p o now batch_id writes t none) t t rows h q
  after_git_lem batch_id writes (done (some g)) t rows h q =
      finish_lem (context_part p o now batch_id writes t (some g)) (with_git p o (some g) t) t rows
        h q
  after_git_lem batch_id writes (refused k) t rows h q = finish_lem (refused k) t t rows h q
  after_git_lem batch_id writes crashed t rows h q = finish_lem crashed t t rows h q

  -- The preparation of a queued task that is in the table ends in one of four ways: the task is prepared; or the error is
  -- non-recoverable and the task failed; or the error is another one and the task is back in the
  -- backlog without a lock; or an unexpected exception leaves it queued. Each but the first counts one
  -- attempt.
  pub prepare_task_context_lem :
      (batch_id : String) (t : Task) (rows : List Task) (s : S)
      → row_of t.id rows ≡ some t
      → t.status ≡ queued
      → let (r, rows', s') = prepare_task_context p o db now batch_id t rows s in
        (t' : Task) × (row_of t.id rows' ≡ some t') × Ended t r t'
  unfolding prepare_task_context
  prepare_task_context_lem batch_id t rows s h q =
      let writes = (classify t.id t.task_number t.task_type t.details).requires_write_access in
      after_git_lem batch_id writes (git_part p o writes t s).0 t rows h q

  -- Frame: no other row changes, and the identifiers stay unique.
  finish_other :
      (a : Attempt PreparedExecutionContext) (t : Task) (rows : List Task) (j : ℕ)
      → (j == t.id) ≡ false
      → row_of j (finish p o db now a t rows).1 ≡ row_of j rows
  unfolding finish
  finish_other (done c) t rows j other = row_of-store_other _ j rows other
  finish_other (refused non_recoverable) t rows j other = row_of-store_other _ j rows other
  finish_other (refused recoverable) t rows j other =
      row_of-release_lock_other db now t.id j _ other ∙ row_of-store_other _ j rows other
  finish_other (refused conflict) t rows j other =
      row_of-release_lock_other db now t.id j _ other ∙ row_of-store_other _ j rows other
  finish_other crashed t rows j other = row_of-store_other _ j rows other

  finish-IsKeyed :
      (a : Attempt PreparedExecutionContext) (t : Task) (rows : List Task)
      → IsKeyed rows
      → IsKeyed (finish p o db now a t rows).1
  unfolding finish
  finish-IsKeyed (done c) t rows k = store-IsKeyed _ rows k
  finish-IsKeyed (refused non_recoverable) t rows k = store-IsKeyed _ rows k
  finish-IsKeyed (refused recoverable) t rows k =
      release_lock-IsKeyed db now t.id _ (store-IsKeyed _ rows k)
  finish-IsKeyed (refused conflict) t rows k =
      release_lock-IsKeyed db now t.id _ (store-IsKeyed _ rows k)
  finish-IsKeyed crashed t rows k = store-IsKeyed _ rows k

  after_git_frame :
      (batch_id : String) (writes : Bool) (a : Attempt (Option GitContext)) (t : Task)
      (rows : List Task)
      → IsKeyed rows
      → let rows' = (after_git p o db now batch_id writes a t rows).1 in
        IsKeyed rows' × ((j : ℕ) → (j == t.id) ≡ false → row_of j rows' ≡ row_of j rows)
  unfolding after_git
  after_git_frame batch_id writes (done none) t rows k =
      let c = context_part p o now batch_id writes t none in
      (finish-IsKeyed c t rows k, finish_other c t rows)
  after_git_frame batch_id writes (done (some g)) t rows k =
      let c = context_part p o now batch_id writes t (some g) in
      let t' = with_git p o (some g) t in (finish-IsKeyed c t' rows k, finish_other c t' rows)
  after_git_frame batch_id writes (refused e) t rows k =
      (finish-IsKeyed (refused e) t rows k, finish_other (refused e) t rows)
  after_git_frame batch_id writes crashed t rows k =
      (finish-IsKeyed crashed t rows k, finish_other crashed t rows)

  pub prepare_task_context_frame :
      (batch_id : String) (t : Task) (rows : List Task) (s : S)
      → IsKeyed rows
      → let rows' = (prepare_task_context p o db now batch_id t rows s).1 in
        IsKeyed rows' × ((j : ℕ) → (j == t.id) ≡ false → row_of j rows' ≡ row_of j rows)
  unfolding prepare_task_context
  prepare_task_context_frame batch_id t rows s k =
      let writes = (classify t.id t.task_number t.task_type t.details).requires_write_access in
      after_git_frame batch_id writes (git_part p o writes t s).0 t rows k
