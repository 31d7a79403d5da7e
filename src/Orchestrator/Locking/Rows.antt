-- ===== src/Orchestrator/Locking/Rows.antt =====
-- The single rows after a lock and after its release (execqueue/orchestrator/locking.py).
use exec_queue.Common.{
  ℕ, ◌≤◌, ◌≡◌, ◌⊎◌, refl, String, Bool, true, false, ◌&&◌, none, some, List, [], ◌∷◌, map, any,
  arith, count, count_mono, All, keep, Bool-cases, inl, inr, not, ◌==◌, if◌then◌else◌, ap, sym, ◌∙◌,
}
use mathlib.Core.Path.{subst}
use exec_queue.Database.{Table}
use exec_queue.Model.{Task, backlog, is_backlog}
use exec_queue.Orchestrator.Locking.{
  in_batch, claimed, lock_tasks, is_locked_row, released, release_lock, was_taken, conflict_result,
  error_result, success_result,
}
use exec_queue.Orchestrator.Locking.Safety.{IsKeyed, waiting, lock_tasks-success}
use exec_queue.Orchestrator.Lookup.{
  row_of, changed, row_of-map, row_of-map_other, count-map_id, get-row_of,
}

module _ (db : Table Task) (now : ℕ) where
  abbrev pub unlock : ℕ → Task → Task
  unlock i r = if is_locked_row i r then released now backlog r else r

  pub unlock_id : (i : ℕ) (r : Task) → (unlock i r).id ≡ r.id
  unlock_id i r = ground arith

  pub release_lock-eq-map :
      (i : ℕ) (rows : List Task)
      → (release_lock db now false i backlog rows).1 ≡ map (unlock i) rows
  unfolding release_lock
  release_lock-eq-map i rows =
      ap (λ m. m.0) (db.update_where_lem (is_locked_row i) (released now backlog) rows)

  pub row_of-release_lock :
      (i : ℕ) (t : Task) (rows : List Task)
      → row_of i rows ≡ some t
      → row_of i (release_lock db now false i backlog rows).1 ≡ some (unlock i t)
  row_of-release_lock i t rows h =
      ap (row_of i) (release_lock-eq-map i rows)
      ∙ row_of-map (unlock i) (unlock_id i) i rows
      ∙ ap (changed (unlock i)) h

  pub row_of-release_lock_other :
      (i j : ℕ) (rows : List Task)
      → (j == i) ≡ false
      → row_of j (release_lock db now false i backlog rows).1 ≡ row_of j rows
  row_of-release_lock_other i j rows other =
      ap (row_of j) (release_lock-eq-map i rows)
      ∙ row_of-map_other (unlock i) j rows (unlock_id i) (λ t e. ground (arith, other, e))

  pub release_lock-IsKeyed :
      (i : ℕ) (rows : List Task)
      → IsKeyed rows
      → IsKeyed (release_lock db now false i backlog rows).1
  release_lock-IsKeyed i rows k =
      subst IsKeyed (sym (release_lock-eq-map i rows))
        (λ j. omega (arith, k j, count-map_id (unlock i) (unlock_id i) j rows))

-- The row of a task that is not in the backlog stays what it is under a lock, whoever holds it.
pub row_of-lock_tasks :
    (db : Table Task) (worker : String) (now : ℕ) (fault : Bool) (ids : List ℕ) (batch : String)
    (rows : List Task) (i : ℕ) (t : Task)
    → row_of i rows ≡ some t
    → is_backlog t.status ≡ false
    → row_of i (lock_tasks db worker now fault ids batch rows).1 ≡ some t
unfolding lock_tasks
row_of-lock_tasks db worker now fault [] batch rows i t h out = h
row_of-lock_tasks db worker now fault (j ∷ js) batch rows i t h out =
    let f : Task → Task =
      λ r. if in_batch (j ∷ js) r then claimed now worker (some batch) r else r in
    let moved : row_of i (map f rows) ≡ some t =
      row_of-map f (λ r. ground arith) i rows ∙ ap (changed f) h ∙ ground (arith, out) in
    ground (
      arith,
      h,
      moved,
      db.update_where_lem (in_batch (j ∷ js)) (claimed now worker (some batch)) rows,
    )

some_inj : (a b : Task) → some a ≡ some b → a ≡ b
some_inj a b h = ap (λ o. elim o [ none ↦ a | some x ↦ x ]) h

waiting_zero :
    (rows : List Task) (i : ℕ) (t : Task)
    → count (λ r. i == r.id) rows ≤ 1
    → row_of i rows ≡ some t
    → is_backlog t.status ≡ false
    → waiting rows i ≡ 0
waiting_zero [] i t k h out = refl
waiting_zero (r ∷ rs) i t k h out = elim (Bool-cases (i == r.id)) [
  | inl here ↦
      let same : r ≡ t = some_inj r t (ground (arith, here, h)) in
      ground (
        arith,
        here,
        k,
        ap (λ x. is_backlog x.status) same ∙ out,
        count_mono (λ u. i == u.id && is_backlog u.status) (λ u. i == u.id) rs
            (λ u e. ground arith),
      )
  | inr other ↦ ground (arith, other, waiting_zero rs i t, k, h, out)
]

not_among :
    (ids : List ℕ) (rows : List Task) (i : ℕ)
    → All (λ j. waiting rows j ≡ 1) ids
    → waiting rows i ≡ 0
    → any (λ j. j == i) ids ≡ false
not_among [] rows i a z = refl
not_among (j ∷ js) rows i a z = elim (Bool-cases (j == i)) [
  | inl same ↦
      let e : j ≡ i = ground (arith, same) in absurd (omega (arith, a.0, z, ap (waiting rows) e))
  | inr other ↦ ground (arith, other, not_among js rows i a.1 z)
]

none_kept :
    (q : ℕ → Bool) (i : ℕ) (ids : List ℕ) → q i ≡ false → any (λ j. j == i) (keep q ids) ≡ false
none_kept q i [] h = refl
none_kept q i (j ∷ js) h = elim (Bool-cases (j == i)) [
  | inl same ↦
      let e : j ≡ i = ground (arith, same) in ground (arith, same, ap q e ∙ h, none_kept q i js h)
  | inr other ↦ ground (arith, other, none_kept q i js h)
]

-- What a lock reports as locked, on every branch.
locked_cases :
    (db : Table Task) (worker : String) (now : ℕ) (fault : Bool) (ids : List ℕ) (batch : String)
    (rows : List Task)
    → let r = (lock_tasks db worker now fault ids batch rows).0 in
      ((r.success ≡ true) × (r.locked_task_ids ≡ ids))
      ⊎ ((r.locked_task_ids ≡ []) ⊎ (r.locked_task_ids ≡ keep (λ j. not (was_taken db rows j)) ids))
unfolding lock_tasks conflict_result error_result success_result
locked_cases db worker now fault [] batch rows = inl (refl, refl)
locked_cases db worker now fault (j ∷ js) batch rows = ground arith

was_taken_row :
    (db : Table Task) (rows : List Task) (i : ℕ) (t : Task)
    → IsKeyed rows
    → row_of i rows ≡ some t
    → is_backlog t.status ≡ false
    → was_taken db rows i ≡ true
unfolding was_taken
was_taken_row db rows i t k h out =
    ap (λ o. elim o [ none ↦ false | some r ↦ not (is_backlog r.status) ])
      (get-row_of db i rows k ∙ h)
    ∙ ap not out

-- The lock never reports a task as locked that was not in the backlog.
pub lock_tasks_locked :
    (db : Table Task) (worker : String) (now : ℕ) (fault : Bool) (ids : List ℕ) (batch : String)
    (rows : List Task) (i : ℕ) (t : Task)
    → IsKeyed rows
    → row_of i rows ≡ some t
    → is_backlog t.status ≡ false
    → any (λ j. j == i) (lock_tasks db worker now fault ids batch rows).0.locked_task_ids ≡ false
lock_tasks_locked db worker now fault ids batch rows i t k h out =
    elim (locked_cases db worker now fault ids batch rows) [
      | inl (won, all_ids) ↦
          ap (any (λ j. j == i)) all_ids
          ∙ not_among ids rows i (lock_tasks-success db worker now fault ids batch rows k won)
              (waiting_zero rows i t (k i) h out)
      | inr (inl nothing) ↦ ap (any (λ j. j == i)) nothing
      | inr (inr left) ↦
          ap (any (λ j. j == i)) left
          ∙ none_kept (λ j. not (was_taken db rows j)) i ids
              (ap not (was_taken_row db rows i t k h out))
    ]
