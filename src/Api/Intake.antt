-- ===== src/Api/Intake.antt =====
-- What a request for a task leaves, and how it is answered (execqueue/api/routes/domain.py).
use exec_queue.Common.{
  ℕ, ◌+◌, ◌≡◌, ◌≢◌, ◌⊎◌, inl, inr, refl, sym, ◌∙◌, ap, String, Bool, none, some, List, [], ◌∷◌,
  ◌++◌, find, strip, arith, ◌==◌, str_eq, if◌then◌else◌, Bool-cases, Option-cases,
}
use mathlib.Core.Path.{subst}
use exec_queue.Database.{Table}
use exec_queue.Model.{Task, Requirement}
use exec_queue.Orchestrator.Git.{Platform}
use exec_queue.Orchestrator.Preparation.{Orchestrator}
use exec_queue.Orchestrator.Preparation.Kept.{rows_with}
use exec_queue.Tasks.{
  value_error, integrity_error, idempotency_error, Stored, Created, created, refused,
  validate_task_type, create_task, create_task_from_requirement,
}
use exec_queue.Tasks.Creation.{
  IsIntake, create_task-IsIntake, create_task_from_requirement-IsIntake,
}
use exec_queue.Api.{
  TaskCreateRequest, TaskAnswer, task_created, invalid_request, is_valid_request, invalid_type,
  internal_error, status_code, answer, created_answer, invalid_requirement, task_request, or_empty,
  create_task_endpoint, post_task,
}

-- How a request ends: with 201 its task is there under the identifier, the answer has its number and its
-- status, no other task is lost, and the requirements are the given ones; with any other status nothing
-- has changed.
abbrev pub IsAnswered :
    {S : Type 0} → ℕ → List Requirement → Stored → S → TaskAnswer × Stored × S → Type 0
IsAnswered id requirements w s (a, w', s') =
    ((status_code a ≡ 201)
      × ((t : Task) × (find (λ u. u.id == id) w'.tasks ≡ some t)
          × (a ≡ task_created t.task_number t.status))
      × (w'.requirements ≡ requirements)
      × ((i : ℕ) → rows_with i w'.tasks ≡ rows_with i w.tasks + (if i == id then 1 else 0)))
    ⊎ ((status_code a ≢ 201) × (w' ≡ w) × (s' ≡ s))

find-none : (id : ℕ) (rows : List Task) → find (λ t. t.id == id) rows ≡ none → rows_with id rows ≡ 0
find-none id [] h = refl
find-none id (t ∷ ts) h = ground (arith, h, find-none id ts)

created_answer-some :
    (id : ℕ) (w : Stored) (t : Task)
    → find (λ u. u.id == id) w.tasks ≡ some t
    → created_answer id w ≡ task_created t.task_number t.status
unfolding created_answer
created_answer-some id w t h = ground (arith, h)

-- The answer to what an intake gives, where a `ValueError` is not answered with 201.
answer-IsAnswered :
    {S : Type 0} (id : ℕ) (requirements : List Requirement) (w : Stored) (s : S)
    (invalid : TaskAnswer) (o : (Created × Stored) × S)
    → status_code invalid ≢ 201
    → IsIntake id requirements w s o
    → IsAnswered id requirements w s (answer invalid o.0.0 o.0.1, o.0.1, o.1)
unfolding answer
answer-IsAnswered id requirements w s invalid ((created j, w'), s') ne (same, kept, rows) =
    elim (Option-cases (find (λ u. u.id == id) w'.tasks)) [
      | inl gone ↦ absurd (ground (arith, find-none id w'.tasks gone, rows id))
      | inr (t, found) ↦
          let e : answer invalid (created j) w' ≡ task_created t.task_number t.status =
            ap (λ k. created_answer k w') same ∙ created_answer-some id w' t found in
          inl (ap status_code e, (t, found, e), kept, rows)
    ]
answer-IsAnswered id requirements w s invalid ((refused value_error, w'), s') ne kept =
    inr (ne, kept.0, kept.1)
answer-IsAnswered id requirements w s invalid ((refused integrity_error, w'), s') ne kept =
    inr (λ e. absurd (omega (arith, e)), kept.0, kept.1)
answer-IsAnswered id requirements w s invalid ((refused (idempotency_error key), w'), s') ne kept =
    inr (λ e. absurd (omega (arith, e)), kept.0, kept.1)

-- What is created is answered with 201.
pub answer-created :
    {S : Type 0} (id : ℕ) (requirements : List Requirement) (w : Stored) (s : S)
    (invalid : TaskAnswer) (o : (Created × Stored) × S)
    → o.0.0 ≡ created id
    → IsIntake id requirements w s o
    → status_code (answer invalid o.0.0 o.0.1) ≡ 201
unfolding answer
answer-created id requirements w s invalid ((created j, w'), s') e (same, kept, rows) =
    elim (Option-cases (find (λ u. u.id == id) w'.tasks)) [
      | inl gone ↦ absurd (ground (arith, find-none id w'.tasks gone, rows id))
      | inr (t, found) ↦
          ap (λ k. status_code (created_answer k w')) same
          ∙ ap status_code (created_answer-some id w' t found)
    ]
answer-created id requirements w s invalid ((refused _, w'), s') e h = cc

invalid_requirement_lem : (title : String) → status_code (invalid_requirement title) ≢ 201
unfolding invalid_requirement
invalid_requirement_lem title = ground arith

-- The requirements after a request that is answered with 201.
abbrev pub requirements_after : ℕ → TaskCreateRequest → Stored → List Requirement
requirements_after requirement_id r w =
    if str_eq r.type "requirement"
    then w.requirements
      ++ record {
        id = requirement_id;
        title = strip (or_empty r.title);
        description = strip r.prompt;
        status = "draft";
        project_id = none;
      }
        ∷ []
    else w.requirements

IsAnswered-by :
    {S : Type 0} (id : ℕ) (requirements requirements' : List Requirement) (w : Stored) (s : S)
    (o o' : TaskAnswer × Stored × S)
    → o ≡ o'
    → requirements ≡ requirements'
    → IsAnswered id requirements' w s o'
    → IsAnswered id requirements w s o
IsAnswered-by id requirements requirements' w s o o' e e' h =
    subst (λ rs. IsAnswered id rs w s o) (sym e')
      (subst (λ x. IsAnswered id requirements' w s x) (sym e) h)

-- Where nothing is written.
IsAnswered-refused :
    {S : Type 0} (id : ℕ) (requirements : List Requirement) (w : Stored) (s : S) (a : TaskAnswer)
    → status_code a ≢ 201
    → IsAnswered id requirements w s (a, w, s)
IsAnswered-refused id requirements w s a ne = inr (ne, refl, refl)

module _ {S : Type 0} (p : Platform S) (o : Orchestrator) (db : Table Task) where
  create_task_endpoint-IsAnswered :
      (sqlite : Bool) (fresh requirement_id id now : ℕ) (fault : Bool) (batch_id : String)
      (r : TaskCreateRequest) (w : Stored) (s : S)
      → IsAnswered id
          (requirements_after requirement_id r w)
          w
          s
          (create_task_endpoint p o db sqlite fresh requirement_id id now fault batch_id r w s)
  unfolding create_task_endpoint
  create_task_endpoint-IsAnswered sqlite fresh requirement_id id now fault batch_id r w s =
      let rs = requirements_after requirement_id r w in
      let title = or_empty r.title in
      elim (Option-cases (validate_task_type r.type)) [
        | inl wrong ↦
            IsAnswered-by id rs rs w s _ (invalid_type, w, s) (ground (arith, wrong)) refl
              (IsAnswered-refused id rs w s invalid_type (λ e. absurd (omega (arith, e))))
        | inr (persisted_type, right) ↦ elim (Bool-cases (str_eq r.type "requirement")) [
          | inl requirement ↦
              let made =
                create_task_from_requirement p o db sqlite fresh requirement_id id now fault
                  batch_id title r.prompt (task_request r) w s in
              IsAnswered-by id rs _ w s _
                (answer (invalid_requirement title) made.0.0 made.0.1, made.0.1, made.1)
                (ground (arith, right, requirement)) (rw requirement refl)
                (answer-IsAnswered id _ w s (invalid_requirement title) made
                  (invalid_requirement_lem title)
                  (create_task_from_requirement-IsIntake p o db sqlite fresh requirement_id id now
                    fault batch_id title r.prompt (task_request r) w s))
          | inr direct ↦
              let request = record (task_request r) { task_type = persisted_type } in
              let made = create_task p o db sqlite fresh id now fault batch_id request w s in
              IsAnswered-by id rs w.requirements w s _
                (answer internal_error made.0.0 made.0.1, made.0.1, made.1)
                (ground (arith, right, direct)) (rw direct refl)
                (answer-IsAnswered id w.requirements w s internal_error made
                  (λ e. absurd (omega (arith, e)))
                  (create_task-IsIntake p o db sqlite fresh id now fault batch_id request w s))
        ]
      ]

  -- However a task is posted: with 201 its task is there under the identifier, the answer has its number
  -- and its status, no other task is lost, and the requirements are those of before, with the one asked
  -- for after them if the type is "requirement"; with any other status nothing has changed.
  pub post_task-IsAnswered :
      (sqlite : Bool) (fresh requirement_id id now : ℕ) (fault : Bool) (batch_id : String)
      (r : TaskCreateRequest) (w : Stored) (s : S)
      → IsAnswered id
          (requirements_after requirement_id r w)
          w
          s
          (post_task p o db sqlite fresh requirement_id id now fault batch_id r w s)
  unfolding post_task
  post_task-IsAnswered sqlite fresh requirement_id id now fault batch_id r w s =
      let rs = requirements_after requirement_id r w in
      elim (Bool-cases (is_valid_request r)) [
        | inl valid ↦
            IsAnswered-by id rs rs w s _
              (create_task_endpoint p o db sqlite fresh requirement_id id now fault batch_id r w s)
              (ground (arith, valid)) refl
              (create_task_endpoint-IsAnswered sqlite fresh requirement_id id now fault batch_id r w
                s)
        | inr wrong ↦
            IsAnswered-by id rs rs w s _ (invalid_request, w, s) (ground (arith, wrong)) refl
              (IsAnswered-refused id rs w s invalid_request (λ e. absurd (omega (arith, e))))
      ]
