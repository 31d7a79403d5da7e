-- ===== src/Orchestrator/Locking/Reports.antt =====
-- What a failed lock reports (execqueue/orchestrator/locking.py).
use exec_queue.Common.{
  ℕ, ◌≤◌, ◌≡◌, String, Bool, true, false, not, ◌&&◌, none, some, List, [], ◌∷◌, arith, ◌==◌,
  if◌then◌else◌, keep, find, length, count, All, refl, Option-cases, inl, inr,
}
use exec_queue.Database.{Table}
use exec_queue.Model.{Task, is_backlog}
use exec_queue.Orchestrator.Locking.{
  LockResult, in_batch, claimed, lock_tasks, conflict_result, error_result, success_result,
  was_taken,
}
use exec_queue.Orchestrator.Locking.Safety.{IsKeyed}

-- How many rows with an identifier have left the backlog.
abbrev pub taken : List Task → ℕ → ℕ
taken rows i = count (λ t. i == t.id && not (is_backlog t.status)) rows

-- A lock that fails changes no row.
pub lock_tasks-failure :
    (db : Table Task) (worker : String) (now : ℕ) (fault : Bool) (ids : List ℕ) (batch : String)
    (rows : List Task)
    → (lock_tasks db worker now fault ids batch rows).0.success ≡ false
    → (lock_tasks db worker now fault ids batch rows).1 ≡ rows
unfolding lock_tasks
lock_tasks-failure db worker now fault [] batch rows h = refl
lock_tasks-failure db worker now fault (i ∷ is) batch rows h = ground arith

taken_of_none : (rows : List Task) (i : ℕ) → find (λ t. t.id == i) rows ≡ none → taken rows i ≡ 0
taken_of_none [] i h = refl
taken_of_none (t ∷ ts) i h = ground (arith, taken_of_none ts i)

absent : (rows : List Task) (i : ℕ) → count (λ t. t.id == i) rows ≡ 0 → taken rows i ≡ 0
absent [] i h = refl
absent (t ∷ ts) i h = ground (arith, absent ts i)

taken_of_waiting :
    (rows : List Task) (i : ℕ) (t : Task)
    → count (λ t. t.id == i) rows ≤ 1
    → find (λ t. t.id == i) rows ≡ some t
    → is_backlog t.status ≡ true
    → taken rows i ≡ 0
taken_of_waiting [] i t k h b = refl
taken_of_waiting (r ∷ rs) i t k h b = ground (arith, taken_of_waiting rs i t, absent rs i)

flip : (rows : List Task) (i : ℕ) → count (λ t. t.id == i) rows ≡ count (λ t. i == t.id) rows
flip [] i = refl
flip (t ∷ ts) i = ground (arith, flip ts i)

not_taken :
    (db : Table Task) (rows : List Task) (i : ℕ)
    → IsKeyed rows
    → was_taken db rows i ≡ false
    → taken rows i ≡ 0
unfolding was_taken
not_taken db rows i k h =
    let one : count (λ t. t.id == i) rows ≤ 1 = omega (arith, k i, flip rows i) in
    let e = db.get_lem (λ t. t.id == i) rows one in
    elim (Option-cases (find (λ t. t.id == i) rows)) [
      | inl gone ↦ taken_of_none rows i gone
      | inr (t, found) ↦ taken_of_waiting rows i t one found (ground (arith, e, found))
    ]

kept_not-taken :
    (db : Table Task) (rows : List Task) (ids : List ℕ)
    → IsKeyed rows
    → All (λ i. taken rows i ≡ 0) (keep (λ i. not (was_taken db rows i)) ids)
kept_not-taken db rows [] k = tt
kept_not-taken db rows (i ∷ is) k =
    ground (arith, not_taken db rows i k, kept_not-taken db rows is k)

reports_by :
    (db : Table Task) (ids : List ℕ) (rows rows' : List Task) (affected : ℕ)
    → IsKeyed rows
    → (fault same : Bool)
    → let (r, after) : LockResult × List Task =
        if fault
        then (error_result ids, rows)
        else if not same
        then (conflict_result db ids rows affected, rows)
        else (success_result ids affected, rows') in
      r.success ≡ false → All (λ i. taken after i ≡ 0) r.locked_task_ids
unfolding error_result conflict_result success_result
reports_by db ids rows rows' affected k true same h = tt
reports_by db ids rows rows' affected k false false h = kept_not-taken db rows ids k
reports_by db ids rows rows' affected k false true h = cc

-- If no two rows share an identifier, then the tasks that a failed lock reports as locked are not
-- locked: of none of them is there a row that has left the backlog.
pub lock_tasks-reports :
    (db : Table Task) (worker : String) (now : ℕ) (fault : Bool) (ids : List ℕ) (batch : String)
    (rows : List Task)
    → IsKeyed rows
    → let (r, rows') = lock_tasks db worker now fault ids batch rows in
      r.success ≡ false → All (λ i. taken rows' i ≡ 0) r.locked_task_ids
unfolding lock_tasks
lock_tasks-reports db worker now fault [] batch rows k h = tt
lock_tasks-reports db worker now fault (i ∷ is) batch rows k h =
    let ids = i ∷ is in
    let (rows', affected) = db.update_where (in_batch ids) (claimed now worker (some batch)) rows in
    reports_by db ids rows rows' affected k fault (affected == length ids) h
