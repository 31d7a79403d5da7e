-- ===== src/Tasks/Creation.antt =====
-- What the intake of a task leaves (execqueue/tasks/service.py).
use exec_queue.Common.{
  ℕ, ◌+◌, ◌<◌, ◌≡◌, ◌⊎◌, refl, sym, ◌∙◌, ap, String, Bool, true, false, strip, none, some, List, [],
  ◌∷◌, ◌++◌, map, keep, any, count-append, arith, ◌==◌, if◌then◌else◌, Bool-cases, Option-cases,
  inl, inr,
}
use mathlib.Core.Path.{subst}
use exec_queue.Database.{Table, maximum, top}
use exec_queue.Model.{Task, Requirement}
use exec_queue.Orchestrator.Git.{Platform}
use exec_queue.Orchestrator.Preparation.{Orchestrator}
use exec_queue.Orchestrator.Preparation.Kept.{rows_with, rows_with-run_preparation_cycle}
use exec_queue.Tasks.{
  value_error, integrity, triggered, Stored, Created, created, refused, TaskRequest,
  validate_task_type, violates, is_creator, is_known, has_key, allocate_sqlite_task_number, new_row,
  trigger_orchestrator, commit_task, create_task, requirement_fields, create_task_from_requirement,
}

-- How an intake ends: the task is there under its identifier, no other task is lost, and the
-- requirements are the given ones; or nothing has changed.
abbrev pub IsIntake :
    {S : Type 0} → ℕ → List Requirement → Stored → S → (Created × Stored) × S → Type 0
IsIntake id requirements w s ((created j, w'), s') =
    (j ≡ id)
    × (w'.requirements ≡ requirements)
    × ((i : ℕ) → rows_with i w'.tasks ≡ rows_with i w.tasks + (if i == id then 1 else 0))
IsIntake id requirements w s ((refused e, w'), s') = (w' ≡ w) × (s' ≡ s)

requirement_fields_cases :
    (title description : String)
    → (requirement_fields title description ≡ none)
      ⊎ (requirement_fields title description ≡ some (strip title, strip description))
unfolding requirement_fields
requirement_fields_cases title description = ground arith

IsIntake-by :
    {S : Type 0} (id : ℕ) (requirements : List Requirement) (w : Stored) (s : S)
    (o o' : (Created × Stored) × S)
    → o ≡ o'
    → IsIntake id requirements w s o'
    → IsIntake id requirements w s o
IsIntake-by id requirements w s o o' e h = subst (IsIntake id requirements w s) (sym e) h

no_such_number :
    (n : ℕ) (rows : List Task)
    → top (maximum (map (λ t. t.task_number) rows)) < n
    → any (λ u. u.task_number == n) rows ≡ false
no_such_number n [] h = refl
no_such_number n (t ∷ ts) h = elim (Option-cases (maximum (map (λ u. u.task_number) ts))) [
  | inl empty ↦ ground (arith, empty, h, no_such_number n ts)
  | inr (k, found) ↦ ground (arith, found, h, no_such_number n ts)
]

keep_all : (rows : List Task) → keep (λ t. true) rows ≡ rows
keep_all [] = refl
keep_all (t ∷ ts) = ap (λ us. t ∷ us) (keep_all ts)

-- The number that the service allocates is not in use.
allocate_sqlite_task_number_lem :
    (db : Table Task) (rows : List Task)
    → allocate_sqlite_task_number db rows ≡ top (maximum (map (λ t. t.task_number) rows)) + 1
unfolding allocate_sqlite_task_number
allocate_sqlite_task_number_lem db rows =
    let e : db.select_max (λ t. true) (λ t. t.task_number) rows
        ≡ maximum (map (λ t. t.task_number) rows) =
      db.select_max_lem (λ t. true) (λ t. t.task_number) rows
      ∙ ap (λ us. maximum (map (λ t. t.task_number) us)) (keep_all rows) in
    elim (Option-cases (maximum (map (λ t. t.task_number) rows))) [
      | inl empty ↦ rw (e, empty, allocate_sqlite_task_number) refl
      | inr (k, found) ↦ rw (e, found, allocate_sqlite_task_number) refl
    ]

fresh_number :
    (db : Table Task) (rows : List Task)
    → any (λ u. u.task_number == allocate_sqlite_task_number db rows) rows ≡ false
fresh_number db rows =
    rw (allocate_sqlite_task_number_lem db rows)
      (no_such_number (top (maximum (map (λ t. t.task_number) rows)) + 1) rows (omega arith))

module _ {S : Type 0} (p : Platform S) (o : Orchestrator) (db : Table Task) where
  commit_task-IsIntake :
      (now : ℕ) (fault : Bool) (batch_id : String) (before w : Stored) (t : Task) (s : S)
      → w.tasks ≡ before.tasks
      → IsIntake t.id w.requirements before s (commit_task p o db now fault batch_id before w t s)
  unfolding commit_task trigger_orchestrator
  commit_task-IsIntake now fault batch_id before w t s same =
      let (tasks', s') = trigger_orchestrator p o db now fault batch_id (w.tasks ++ t ∷ []) s in
      elim (Bool-cases (violates w t)) [
        | inl bad ↦
            IsIntake-by t.id w.requirements before s _
              ((refused (integrity t.idempotency_key), before), s)
              (rw (bad, if◌then◌else◌, commit_task) refl) (refl, refl)
        | inr good ↦
            IsIntake-by t.id w.requirements before s _
              ((created t.id, record w { tasks = tasks' }), s')
              (rw (good, if◌then◌else◌, commit_task) refl)
              (
                refl,
                refl,
                λ i. ground (
                  arith,
                  rows_with-run_preparation_cycle p (triggered p o db) db now i fault batch_id
                      (w.tasks ++ t ∷ []) s,
                  count-append (λ u. i == u.id) w.tasks (t ∷ []),
                  ap (rows_with i) same,
                ),
              )
      ]

  -- However a task is created: if it is, then it is there under its identifier, no other task is lost,
  -- whatever the preparation cycle that is triggered does, and the requirements stay; if it is refused,
  -- nothing has changed.
  pub create_task-IsIntake :
      (sqlite : Bool) (fresh id now : ℕ) (fault : Bool) (batch_id : String) (r : TaskRequest)
      (w : Stored) (s : S)
      → IsIntake id w.requirements w s (create_task p o db sqlite fresh id now fault batch_id r w s)
  unfolding create_task new_row
  create_task-IsIntake sqlite fresh id now fault batch_id r w s =
      elim (Option-cases (validate_task_type r.task_type)) [
        | inl wrong ↦
            IsIntake-by id w.requirements w s _ ((refused value_error, w), s)
              (rw (wrong, create_task) refl) (refl, refl)
        | inr (task_type, right) ↦
            let t = new_row db sqlite fresh id now task_type r w.tasks in
            IsIntake-by id w.requirements w s _ (commit_task p o db now fault batch_id w w t s)
              (rw (right, create_task) refl) (commit_task-IsIntake now fault batch_id w w t s refl)
      ]

  -- A requirement and its first task are created together or not at all: either the task is there, no
  -- other task is lost, and exactly one requirement is added, a draft with the normalised texts; or
  -- nothing has changed.
  pub create_task_from_requirement-IsIntake :
      (sqlite : Bool) (fresh requirement_id id now : ℕ) (fault : Bool)
      (batch_id title description : String) (r : TaskRequest) (w : Stored) (s : S)
      → let requirement : Requirement = record {
        id = requirement_id;
        title = strip title;
        description = strip description;
        status = "draft";
        project_id = none;
      } in
        IsIntake id (w.requirements ++ requirement ∷ []) w s (
          create_task_from_requirement p o db sqlite fresh requirement_id id now fault batch_id
            title description r w s)
  unfolding create_task_from_requirement new_row
  create_task_from_requirement-IsIntake sqlite fresh requirement_id id now fault batch_id title
        description r w s =
      let requirement : Requirement = record {
        id = requirement_id;
        title = strip title;
        description = strip description;
        status = "draft";
        project_id = none;
      } in
      let rs = w.requirements ++ requirement ∷ [] in
      let w' = record w { requirements = rs } in
      let r' = record r { requirement_id = some requirement_id } in
      let t = new_row db sqlite fresh id now "planning" r' w.tasks in
      elim (requirement_fields_cases title description) [
        | inl wrong ↦
            IsIntake-by id rs w s _ ((refused value_error, w), s)
              (rw (wrong, create_task_from_requirement) refl) (refl, refl)
        | inr right ↦
            IsIntake-by id rs w s _ (commit_task p o db now fault batch_id w w' t s)
              (rw (right, create_task_from_requirement) refl)
              (commit_task-IsIntake now fault batch_id w w' t s refl)
      ]

  -- On SQLite, where the service numbers the tasks, a task is created for any request with a valid type
  -- and creator, a requirement that is there or none, a key that no task has or none, and a new
  -- identifier: the number never clashes.
  pub create_task-created :
      (fresh id now : ℕ) (fault : Bool) (batch_id : String) (r : TaskRequest) (w : Stored) (s : S)
      → (task_type : String) → validate_task_type r.task_type ≡ some task_type
      → is_creator r.created_by_type ≡ true
      → is_known r.requirement_id w.requirements ≡ true
      → has_key r.idempotency_key w.tasks ≡ false
      → any (λ u. u.id == id) w.tasks ≡ false
      → (create_task p o db true fresh id now fault batch_id r w s).0.0 ≡ created id
  unfolding create_task new_row commit_task violates
  create_task-created fresh id now fault batch_id r w s task_type valid creator known key new =
      let number = fresh_number db w.tasks in
      ground (arith, valid, creator, known, key, new, number)
