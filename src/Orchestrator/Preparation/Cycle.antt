-- ===== src/Orchestrator/Preparation/Cycle.antt =====
-- A preparation cycle leaves the tasks of others alone (execqueue/orchestrator/main.py).
use exec_queue.Common.{
  ℕ, ◌≡◌, refl, String, Bool, false, some, List, [], ◌∷◌, map, any, null, arith, ◌==◌,
  if◌then◌else◌, Bool-cases, Option-cases, inl, inr, sym, ◌∙◌,
}
use exec_queue.Database.{Table}
use exec_queue.Model.{Task, is_backlog}
use exec_queue.Orchestrator.Classification.{classify_batch}
use exec_queue.Orchestrator.Planning.{create_batch_plan}
use exec_queue.Orchestrator.Locking.{lock_tasks}
use exec_queue.Orchestrator.Locking.Safety.{IsKeyed, lock_tasks-IsKeyed}
use exec_queue.Orchestrator.Locking.Rows.{row_of-lock_tasks, lock_tasks_locked}
use exec_queue.Orchestrator.Git.{Platform}
use exec_queue.Orchestrator.Candidates.{candidate_discovery, find_candidates}
use exec_queue.Orchestrator.Preparation.{
  Orchestrator, prepare_task_context, prepare_each, run_preparation_cycle, data_of,
}
use exec_queue.Orchestrator.Preparation.Outcomes.{prepare_task_context_frame}
use exec_queue.Orchestrator.Lookup.{row_of, row_of_id, get-row_of}

module _ {S : Type 0} (p : Platform S) (o : Orchestrator) (db : Table Task) (now : ℕ)
    (batch_id : String) where
  prepare_each_frame :
      (is : List ℕ) (rows : List Task) (s : S) (i : ℕ)
      → IsKeyed rows
      → any (λ j. j == i) is ≡ false
      → row_of i (prepare_each p o db now batch_id is rows s).1 ≡ row_of i rows
  unfolding prepare_each
  prepare_each_frame [] rows s i k h = refl
  prepare_each_frame (j ∷ js) rows s i k h = elim (Option-cases (db.get (λ t. t.id == j) rows)) [
    | inl missing ↦
        rw (missing, prepare_each) (prepare_each_frame js rows s i k (ground (arith, h)))
    | inr (t, found) ↦
        let named : j ≡ t.id = row_of_id j rows t (sym (get-row_of db j rows k) ∙ found) in
        let rows' = (prepare_task_context p o db now batch_id t rows s).1 in
        let s' = (prepare_task_context p o db now batch_id t rows s).2 in
        let (k', same) = prepare_task_context_frame p o db now batch_id t rows s k in
        rw (found, prepare_each)
          (prepare_each_frame js rows' s' i k' (ground (arith, h))
            ∙ same i (ground (arith, h, named)))
  ]

  -- If no two rows share an identifier, then whatever other sessions did before the lock, a cycle
  -- changes no task that is out of the backlog by then: none that is queued for another worker,
  -- prepared or failed.
  pub run_preparation_cycle_frame :
      (fault : Bool) (others : List Task → List Task) (rows : List Task) (s : S) (i : ℕ) (t : Task)
      → IsKeyed (others rows)
      → row_of i (others rows) ≡ some t
      → is_backlog t.status ≡ false
      → row_of i (run_preparation_cycle p o db now fault batch_id others rows s).1 ≡ some t
  unfolding run_preparation_cycle
  run_preparation_cycle_frame fault others rows s i t k h out =
      let candidates = find_candidates db (candidate_discovery o.max_batch_size []) [] rows in
      let ids =
        (create_batch_plan o.max_batch_size
          (classify_batch (map (data_of p o) candidates))).task_ids in
      let lock = lock_tasks db o.worker_id now fault ids batch_id (others rows) in
      elim (Bool-cases (null candidates)) [
        | inl idle ↦ rw (idle, if◌then◌else◌) h
        | inr busy ↦
            rw (busy, if◌then◌else◌)
              (prepare_each_frame lock.0.locked_task_ids lock.1 s i
                  (lock_tasks-IsKeyed db o.worker_id now fault ids batch_id (others rows) k)
                  (lock_tasks_locked db o.worker_id now fault ids batch_id (others rows) i t k h
                    out)
                ∙ row_of-lock_tasks db o.worker_id now fault ids batch_id (others rows) i t h out)
      ]
