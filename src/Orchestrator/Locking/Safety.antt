-- ===== src/Orchestrator/Locking/Safety.antt =====
-- Two workers never hold one task (execqueue/orchestrator/locking.py).
use exec_queue.Common.{
  ℕ, ◌+◌, ◌≤◌, ◌≡◌, String, Bool, true, false, ◌&&◌, Option, some, List, [], ◌∷◌, map, arith, ◌==◌,
  if◌then◌else◌, any, length, count, All, refl, count_mono, count_or_le, Bool-cases, inl, inr,
}
use mathlib.Core.Path.{subst}
use exec_queue.Database.{Table}
use exec_queue.Model.{Task, is_backlog}
use exec_queue.Orchestrator.Locking.{in_batch, claimed, lock_tasks}

-- The primary key: no two rows have one identifier.
abbrev pub IsKeyed : List Task → Type 0
IsKeyed rows = (i : ℕ) → count (λ t. i == t.id) rows ≤ 1

-- How many rows with an identifier are in the backlog.
abbrev pub waiting : List Task → ℕ → ℕ
waiting rows i = count (λ t. i == t.id && is_backlog t.status) rows

abbrev total : List Task → List ℕ → ℕ
total rows [] = 0
total rows (i ∷ is) = waiting rows i + total rows is

nothing_in_empty : (rows : List Task) → count (in_batch []) rows ≡ 0
nothing_in_empty [] = refl
nothing_in_empty (t ∷ ts) = nothing_in_empty ts

count-in_batch-le : (rows : List Task) (ids : List ℕ) → count (in_batch ids) rows ≤ total rows ids
count-in_batch-le rows [] = omega (arith, nothing_in_empty rows)
count-in_batch-le rows (i ∷ is) = omega (
  arith,
  count_or_le (λ t. i == t.id && is_backlog t.status) (in_batch is) (in_batch (i ∷ is)) rows
      (λ t h. ground arith),
  count-in_batch-le rows is,
)

waiting-le : (rows : List Task) → IsKeyed rows → (i : ℕ) → waiting rows i ≤ 1
waiting-le rows k i = omega (
  arith,
  k i,
  count_mono (λ t. i == t.id && is_backlog t.status) (λ t. i == t.id) rows (λ t h. ground arith),
)

total-le : (rows : List Task) (ids : List ℕ) → IsKeyed rows → total rows ids ≤ length ids
total-le rows [] k = omega arith
total-le rows (i ∷ is) k = omega (arith, total-le rows is k, waiting-le rows k i)

waiting_members :
    (rows : List Task) (ids : List ℕ)
    → IsKeyed rows
    → length ids ≤ total rows ids
    → All (λ i. waiting rows i ≡ 1) ids
waiting_members rows [] k h = tt
waiting_members rows (i ∷ is) k h = (
  omega (arith, waiting-le rows k i, total-le rows is k),
  waiting_members rows is k (omega (arith, waiting-le rows k i)),
)

-- If no two rows share an identifier, then a lock that succeeds found every task of the plan
-- waiting in the backlog.
pub lock_tasks-success :
    (db : Table Task) (worker : String) (now : ℕ) (fault : Bool) (ids : List ℕ) (batch : String)
    (rows : List Task)
    → IsKeyed rows
    → (lock_tasks db worker now fault ids batch rows).0.success ≡ true
    → All (λ i. waiting rows i ≡ 1) ids
unfolding lock_tasks
lock_tasks-success db worker now fault [] batch rows k h = tt
lock_tasks-success db worker now fault (i ∷ is) batch rows k h = waiting_members rows (i ∷ is) k (
    ground (
      arith,
      db.update_where_lem (in_batch (i ∷ is)) (claimed now worker (some batch)) rows,
      count-in_batch-le rows (i ∷ is),
    ))

none_left :
    (now : ℕ) (worker : String) (batch : Option String) (ids : List ℕ) (i : ℕ) (rows : List Task)
    → any (λ j. j == i) ids ≡ true
    → waiting (map (λ t. if in_batch ids t then claimed now worker batch t else t) rows) i ≡ 0
none_left now worker batch ids i [] h = refl
none_left now worker batch ids i (t ∷ ts) h =
    let ih = none_left now worker batch ids i ts h in
    elim (Bool-cases (i == t.id)) [
      | inl same ↦
          let e : i ≡ t.id = ground (arith, same) in
          let here = subst (λ k. any (λ j. j == k) ids ≡ true) e h in ground (arith, same, here, ih)
      | inr other ↦ ground (arith, other, ih)
    ]

-- A lock that succeeds leaves no task of the plan waiting in the backlog.
pub lock_tasks-taken :
    (db : Table Task) (worker : String) (now : ℕ) (fault : Bool) (ids : List ℕ) (batch : String)
    (rows : List Task) (i : ℕ)
    → any (λ j. j == i) ids ≡ true
    → (lock_tasks db worker now fault ids batch rows).0.success ≡ true
    → waiting (lock_tasks db worker now fault ids batch rows).1 i ≡ 0
unfolding lock_tasks
lock_tasks-taken db worker now fault [] batch rows i m h = cc
lock_tasks-taken db worker now fault (j ∷ js) batch rows i m h = ground (
  arith,
  db.update_where_lem (in_batch (j ∷ js)) (claimed now worker (some batch)) rows,
  none_left now worker (some batch) (j ∷ js) i rows m,
)

All-any : (P : ℕ → Type 0) (ids : List ℕ) (i : ℕ) → All P ids → any (λ j. j == i) ids ≡ true → P i
All-any P [] i a h = cc
All-any P (j ∷ js) i a h = elim (Bool-cases (j == i)) [
  | inl same ↦ let e : j ≡ i = ground (arith, same) in subst P e a.0
  | inr other ↦ All-any P js i a.1 (ground (arith, other))
]

IsKeyed-claimed :
    (now : ℕ) (worker : String) (batch : Option String) (ids : List ℕ) (rows : List Task) (i : ℕ)
    → count
        (λ t. i == t.id)
        (map (λ t. if in_batch ids t then claimed now worker batch t else t) rows)
      ≡ count (λ t. i == t.id) rows
IsKeyed-claimed now worker batch ids [] i = refl
IsKeyed-claimed now worker batch ids (t ∷ ts) i =
    ground (arith, IsKeyed-claimed now worker batch ids ts i)

pub lock_tasks-IsKeyed :
    (db : Table Task) (worker : String) (now : ℕ) (fault : Bool) (ids : List ℕ) (batch : String)
    (rows : List Task)
    → IsKeyed rows
    → IsKeyed (lock_tasks db worker now fault ids batch rows).1
unfolding lock_tasks
lock_tasks-IsKeyed db worker now fault [] batch rows k i = k i
lock_tasks-IsKeyed db worker now fault (j ∷ js) batch rows k i = ground (
  arith,
  k i,
  db.update_where_lem (in_batch (j ∷ js)) (claimed now worker (some batch)) rows,
  IsKeyed-claimed now worker (some batch) (j ∷ js) rows i,
)

-- If no two rows share an identifier, then once a worker has locked a plan, a lock of any plan that
-- shares a task with it fails, whoever asks.
pub lock_tasks-exclusive :
    (db : Table Task) (first second : String) (now later : ℕ) (fault fault' : Bool)
    (ids others : List ℕ) (batch batch' : String) (rows : List Task) (i : ℕ)
    → IsKeyed rows
    → any (λ j. j == i) ids ≡ true
    → any (λ j. j == i) others ≡ true
    → let (r, rows') = lock_tasks db first now fault ids batch rows in
      r.success ≡ true → (lock_tasks db second later fault' others batch' rows').0.success ≡ false
lock_tasks-exclusive db first second now later fault fault' ids others batch batch' rows i k m n h =
    let (r, rows') = lock_tasks db first now fault ids batch rows in
    elim (Bool-cases (lock_tasks db second later fault' others batch' rows').0.success) [
      | inl both ↦ absurd (
          omega (
            arith,
            All-any (λ j. waiting rows' j ≡ 1) others i
                (lock_tasks-success db second later fault' others batch' rows'
                  (lock_tasks-IsKeyed db first now fault ids batch rows k) both)
                n,
            lock_tasks-taken db first now fault ids batch rows i m h,
          ))
      | inr failed ↦ failed
    ]
