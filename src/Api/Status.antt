-- ===== src/Api/Status.antt =====
-- The two routes for tasks together (execqueue/api/routes/domain.py).
use exec_queue.Common.{
  ℕ, ◌≤◌, ◌≡◌, inl, inr, refl, sym, ◌∙◌, ap, String, Bool, true, false, some, List, [], ◌∷◌, find,
  any, count, arith, ◌==◌, str_eq,
}
use exec_queue.Database.{Table}
use exec_queue.Model.{Task, TaskStatus}
use exec_queue.Orchestrator.Git.{Platform}
use exec_queue.Orchestrator.Preparation.{Orchestrator}
use exec_queue.Tasks.{
  Stored, created, validate_task_type, is_creator, has_key, get_task_status, create_task,
}
use exec_queue.Tasks.Creation.{create_task-IsIntake, create_task-created}
use exec_queue.Api.{
  TaskCreateRequest, task_created, internal_error, status_code, is_valid_request, answer,
  task_request, get_task_status_endpoint, create_task_endpoint, post_task,
}
use exec_queue.Api.Intake.{answer-created, post_task-IsAnswered}

module _ {ℓ} {A : Type ℓ} where
  count-find :
      (p q : A → Bool) (xs : List A) (x : A) → find p xs ≡ some x → q x ≡ true → 1 ≤ count q xs
  count-find p q [] x h k = cc
  count-find p q (y ∷ ys) x h k = ground (arith, h, k, count-find p q ys x)

  -- What one test finds, another one finds that only it passes.
  find-find :
      (p q : A → Bool) (xs : List A) (x : A)
      → find p xs ≡ some x
      → q x ≡ true
      → count q xs ≤ 1
      → find q xs ≡ some x
  find-find p q [] x h k u = h
  find-find p q (y ∷ ys) x h k u = ground (arith, h, k, u, count-find p q ys x, find-find p q ys x)

creator_of :
    (r : TaskCreateRequest) → is_valid_request r ≡ true → is_creator r.created_by_type ≡ true
unfolding is_valid_request
creator_of r valid = ground (arith, valid)

status_found :
    (db : Table Task) (id number : ℕ) (status : TaskStatus) (w : Stored) (t : Task)
    → find (λ u. u.id == id) w.tasks ≡ some t
    → task_created number status ≡ task_created t.task_number t.status
    → count (λ u. u.task_number == number) w.tasks ≤ 1
    → get_task_status_endpoint db number w ≡ some (number, status)
unfolding get_task_status_endpoint get_task_status
status_found db id number status w t found same unique =
    let by_number = λ (u : Task). u.task_number == number in
    let hit : find by_number w.tasks ≡ some t =
      find-find (λ u. u.id == id) by_number w.tasks t found (ground (arith, same)) unique in
    ground (arith, db.get_lem by_number w.tasks unique, hit, same)

module _ {S : Type 0} (p : Platform S) (o : Orchestrator) (db : Table Task) where
  -- The number and the status that a request is answered with are those that the status of the number is
  -- answered with then, if the number is unique, as the table demands.
  pub get_task_status_endpoint-post_task :
      (sqlite : Bool) (fresh requirement_id id now : ℕ) (fault : Bool) (batch_id : String)
      (r : TaskCreateRequest) (w : Stored) (s : S) (number : ℕ) (status : TaskStatus)
      → let w' = (post_task p o db sqlite fresh requirement_id id now fault batch_id r w s).1 in
        (post_task p o db sqlite fresh requirement_id id now fault batch_id r w s).0
          ≡ task_created number status
        → count (λ t. t.task_number == number) w'.tasks ≤ 1
        → get_task_status_endpoint db number w' ≡ some (number, status)
  get_task_status_endpoint-post_task sqlite fresh requirement_id id now fault batch_id r w s number
        status answered unique =
      elim (post_task-IsAnswered p o db sqlite fresh requirement_id id now fault batch_id r w s) [
        | inl (success, (t, found, e), kept, rows) ↦
            status_found db id number status _ t found (sym answered ∙ e) unique
        | inr (failed, same, same') ↦ absurd (failed (ap status_code answered))
      ]

  -- On SQLite, a request with valid fields for a task of the type "planning", "execution" or "analysis"
  -- is answered with 201, if its key is new or missing and so is the identifier.
  pub post_task-created :
      (fresh requirement_id id now : ℕ) (fault : Bool) (batch_id : String) (r : TaskCreateRequest)
      (w : Stored) (s : S)
      → is_valid_request r ≡ true
      → validate_task_type r.type ≡ some r.type
      → str_eq r.type "requirement" ≡ false
      → has_key r.idempotency_key w.tasks ≡ false
      → any (λ u. u.id == id) w.tasks ≡ false
      → status_code (post_task p o db true fresh requirement_id id now fault batch_id r w s).0 ≡ 201
  unfolding post_task create_task_endpoint
  post_task-created fresh requirement_id id now fault batch_id r w s valid type direct key new =
      let request = record (task_request r) { task_type = r.type } in
      let made = create_task p o db true fresh id now fault batch_id request w s in
      let by_creator : is_creator r.created_by_type ≡ true = creator_of r valid in
      let made_lem : made.0.0 ≡ created id =
        create_task-created p o db fresh id now fault batch_id request w s r.type type by_creator
          refl key new in
      let e : post_task p o db true fresh requirement_id id now fault batch_id r w s
          ≡ (answer internal_error made.0.0 made.0.1, made.0.1, made.1) =
        ground (arith, valid, type, direct) in
      ap (λ x. status_code x.0) e
      ∙ answer-created id w.requirements w s internal_error made made_lem
          (create_task-IsIntake p o db true fresh id now fault batch_id request w s)
