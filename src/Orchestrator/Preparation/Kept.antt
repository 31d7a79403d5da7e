-- ===== src/Orchestrator/Preparation/Kept.antt =====
-- A preparation cycle loses no task (execqueue/orchestrator/main.py).
use exec_queue.Common.{
  ℕ, ◌≡◌, refl, ◌∙◌, ap, String, Bool, false, Option, some, List, [], ◌∷◌, map, count, null, arith,
  ◌==◌, if◌then◌else◌, Bool-cases, Option-cases, inl, inr,
}
use exec_queue.Database.{Table}
use exec_queue.Model.{Task, backlog}
use exec_queue.Orchestrator.Classification.{classify, classify_batch}
use exec_queue.Orchestrator.Planning.{create_batch_plan}
use exec_queue.Orchestrator.Locking.{in_batch, claimed, lock_tasks, release_lock}
use exec_queue.Orchestrator.Locking.Rows.{unlock, unlock_id, release_lock-eq-map}
use exec_queue.Orchestrator.Lookup.{count-map_id, put_row, put_row_id}
use exec_queue.Orchestrator.Recovery.{recoverable, conflict, non_recoverable, store}
use exec_queue.Orchestrator.Context.{PreparedExecutionContext}
use exec_queue.Orchestrator.Git.{Platform, Attempt, done, refused, crashed, GitContext}
use exec_queue.Orchestrator.Candidates.{candidate_discovery, find_candidates}
use exec_queue.Orchestrator.Preparation.{
  Orchestrator, git_part, context_part, with_git, finish, after_git, prepare_task_context,
  prepare_each, data_of, run_preparation_cycle,
}

-- How many rows have an identifier.
abbrev pub rows_with : ℕ → List Task → ℕ
rows_with i rows = count (λ t. i == t.id) rows

rows_with-store :
    (i : ℕ) (t : Task) (rows : List Task) → rows_with i (store t rows) ≡ rows_with i rows
rows_with-store i t rows = count-map_id (put_row t) (put_row_id t) i rows

rows_with-release_lock :
    (db : Table Task) (now i j : ℕ) (rows : List Task)
    → rows_with i (release_lock db now false j backlog rows).1 ≡ rows_with i rows
rows_with-release_lock db now i j rows =
    ap (rows_with i) (release_lock-eq-map db now j rows)
    ∙ count-map_id (unlock db now j) (unlock_id db now j) i rows

rows_with-lock_tasks :
    (db : Table Task) (worker : String) (now : ℕ) (fault : Bool) (ids : List ℕ) (batch : String)
    (rows : List Task) (i : ℕ)
    → rows_with i (lock_tasks db worker now fault ids batch rows).1 ≡ rows_with i rows
unfolding lock_tasks
rows_with-lock_tasks db worker now fault [] batch rows i = refl
rows_with-lock_tasks db worker now fault (j ∷ js) batch rows i =
    let f : Task → Task =
      λ r. if in_batch (j ∷ js) r then claimed now worker (some batch) r else r in
    let kept : rows_with i (map f rows) ≡ rows_with i rows =
      count-map_id f (λ r. ground arith) i rows in
    ground
      (arith, kept, db.update_where_lem (in_batch (j ∷ js)) (claimed now worker (some batch)) rows)

module _ {S : Type 0} (p : Platform S) (o : Orchestrator) (db : Table Task) (now i : ℕ) where
  rows_with-finish :
      (a : Attempt PreparedExecutionContext) (t : Task) (rows : List Task)
      → rows_with i (finish p o db now a t rows).1 ≡ rows_with i rows
  unfolding finish
  rows_with-finish (done c) t rows = rows_with-store i _ rows
  rows_with-finish (refused non_recoverable) t rows = rows_with-store i _ rows
  rows_with-finish (refused recoverable) t rows =
      rows_with-release_lock db now i t.id _ ∙ rows_with-store i _ rows
  rows_with-finish (refused conflict) t rows =
      rows_with-release_lock db now i t.id _ ∙ rows_with-store i _ rows
  rows_with-finish crashed t rows = rows_with-store i _ rows

  rows_with-after_git :
      (batch_id : String) (writes : Bool) (a : Attempt (Option GitContext)) (t : Task)
      (rows : List Task)
      → rows_with i (after_git p o db now batch_id writes a t rows).1 ≡ rows_with i rows
  unfolding after_git
  rows_with-after_git batch_id writes (done git) t rows =
      rows_with-finish (context_part p o now batch_id writes t git) (with_git p o git t) rows
  rows_with-after_git batch_id writes (refused k) t rows = rows_with-finish (refused k) t rows
  rows_with-after_git batch_id writes crashed t rows = rows_with-finish crashed t rows

  rows_with-prepare_task_context :
      (batch_id : String) (t : Task) (rows : List Task) (s : S)
      → rows_with i (prepare_task_context p o db now batch_id t rows s).1 ≡ rows_with i rows
  unfolding prepare_task_context
  rows_with-prepare_task_context batch_id t rows s =
      let writes = (classify t.id t.task_number t.task_type t.details).requires_write_access in
      rows_with-after_git batch_id writes (git_part p o writes t s).0 t rows

  rows_with-prepare_each :
      (batch_id : String) (is : List ℕ) (rows : List Task) (s : S)
      → rows_with i (prepare_each p o db now batch_id is rows s).1 ≡ rows_with i rows
  unfolding prepare_each
  rows_with-prepare_each batch_id [] rows s = refl
  rows_with-prepare_each batch_id (j ∷ js) rows s =
      elim (Option-cases (db.get (λ t. t.id == j) rows)) [
        | inl missing ↦ rw (missing, prepare_each) (rows_with-prepare_each batch_id js rows s)
        | inr (t, found) ↦
            let (r, rows', s') = prepare_task_context p o db now batch_id t rows s in
            rw (found, prepare_each)
              (rows_with-prepare_each batch_id js rows' s'
                ∙ rows_with-prepare_task_context batch_id t rows s)
      ]

  pub rows_with-run_preparation_cycle :
      (fault : Bool) (batch_id : String) (rows : List Task) (s : S)
      → rows_with i (run_preparation_cycle p o db now fault batch_id (λ rs. rs) rows s).1
        ≡ rows_with i rows
  unfolding run_preparation_cycle
  rows_with-run_preparation_cycle fault batch_id rows s =
      let candidates = find_candidates db (candidate_discovery o.max_batch_size []) [] rows in
      let ids =
        (create_batch_plan o.max_batch_size
          (classify_batch (map (data_of p o) candidates))).task_ids in
      let (lock, rows') = lock_tasks db o.worker_id now fault ids batch_id rows in
      elim (Bool-cases (null candidates)) [
        | inl idle ↦ rw (idle, if◌then◌else◌) refl
        | inr busy ↦
            rw (busy, if◌then◌else◌)
              (rows_with-prepare_each batch_id lock.locked_task_ids rows' s
                ∙ rows_with-lock_tasks db o.worker_id now fault ids batch_id rows i)
      ]
