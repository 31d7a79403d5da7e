-- ===== src/Api/Examples.antt =====
-- The routes on small tables (execqueue/api/routes/domain.py and execqueue/api/dependencies.py).
use exec_queue.Common.{◌≡◌, refl, true, false, none, some, [], ◌∷◌}
use exec_queue.Database.{plain_table}
use exec_queue.Api.{invalid_requirement}
use exec_queue.Tasks.Samples.{bare, orchestrator, db, stored}
use exec_queue.Tasks.{
  validate_task_type, create_task, create_task_from_requirement, new_row, commit_task, violates,
}
use exec_queue.Api.{
  TaskCreateRequest, invalid_title, status_code, is_valid_request, create_task_endpoint, post_task,
}
use exec_queue.Api.Intake.{IsAnswered, post_task-IsAnswered}
use exec_queue.Api.Status.{post_task-created}
use exec_queue.Telegram.{TelegramUser, new_user}
use exec_queue.Api.Admin.{admitted, require_system_admin}

abbrev request : TaskCreateRequest
request = record {
  prompt = "add a test";
  type = "execution";
  created_by_type = "user";
  created_by_ref = "me";
  title = none;
  idempotency_key = some "k";
}

-- A requirement without a title is answered with 422 and its field.
no_title :
    (post_task bare orchestrator db true 0 4 2 5 false "batch"
      (record request { type = "requirement" })
      stored
      tt).0
    ≡ invalid_title
unfolding post_task create_task_endpoint is_valid_request create_task create_task_from_requirement
    new_row commit_task violates validate_task_type invalid_requirement
no_title = refl

post_task-IsAnswered_example :
    IsAnswered 2 [] stored tt
      (post_task bare orchestrator db true 0 4 2 5 false "batch" request stored tt)
post_task-IsAnswered_example =
    post_task-IsAnswered bare orchestrator db true 0 4 2 5 false "batch" request stored tt

post_task-created_example :
    status_code (post_task bare orchestrator db true 0 4 2 5 false "batch" request stored tt).0
    ≡ 201
unfolding validate_task_type is_valid_request
post_task-created_example =
    post_task-created bare orchestrator db 0 4 2 5 false "batch" request stored tt refl refl refl
      refl refl

-- A header with an administrator's identifier is all that the guard asks for.
header_suffices :
    require_system_admin
      (plain_table TelegramUser)
      (λ t. some 7)
      (some "secret")
      none
      (some "7")
      (record (new_user 7 none none 0) { role = "admin"; is_active = true } ∷ [])
    ≡ admitted
unfolding require_system_admin plain_table
header_suffices = refl
