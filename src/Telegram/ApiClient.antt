-- ===== src/Telegram/ApiClient.antt =====
-- execqueue/workers/telegram/api_client.py, the class `TelegramAPIClient`. The texts for the chat are
-- constructors.
use exec_queue.Common.{
  String, Bool, true, false, Option, none, some, ◌==◌, str_eq, non_empty, strip, if◌then◌else◌,
}
use exec_queue.Json.{Value, null, text, object, get}
use exec_queue.Telegram.Restart.{Reply, responded, timed_out, not_connected}

-- The body of the request.
pub record TaskPayload : Type 0 where
  pub type : String
  pub prompt : String
  pub created_by_type : String
  pub created_by_ref : String
  pub title : Option String

pub data Notice : Type 0 where
  task_created empty_title invalid_input not_created status_not_loaded : Notice
  timeout connection_error task_not_found : Notice
  numbered_task_created status_loaded : Value → Notice
  error_detail : String → Notice

-- `_read_error_detail`, or the text that stands for it.
unfoldable pub read_detail : Notice → Option Value → Notice
read_detail default (some (object fields)) = elim (get "detail" fields) [
  | text t ↦ if non_empty (strip t) then error_detail (strip t) else default
  | _ ↦ default
]
read_detail default _ = default

abbrev created_notice : Value → Notice
created_notice null = task_created
created_notice number = numbered_task_created number

-- What `create_task` makes of the response.
unfoldable pub read_created : Reply → Bool × Notice
unfolding read_detail
read_created timed_out = (false, timeout)
read_created not_connected = (false, connection_error)
read_created (responded status body) =
    if status == 201
    then elim body [
      | some (object fields) ↦ (true, created_notice (get "task_number" fields))
      | _ ↦ (false, connection_error)
    ]
    else if status == 422
    then (false, invalid_input)
    else (false, read_detail not_created body)

-- What `get_task_status` makes of the response.
pub read_status : Reply → Bool × Notice
unfolding read_detail
read_status timed_out = (false, timeout)
read_status not_connected = (false, connection_error)
read_status (responded status body) =
    if status == 200
    then elim body [ some v ↦ (true, status_loaded v) | none ↦ (false, connection_error) ]
    else if status == 404
    then (false, task_not_found)
    else (false, read_detail status_not_loaded body)

abbrev pub normalized_title : Option String → String
normalized_title none = ""
normalized_title (some t) = strip t

-- `create_task` with its request, which `post` makes.
unfoldable pub create_task :
    {S : Type 0}
    → (TaskPayload → S → Reply × S)
    → String
    → String
    → String
    → Option String
    → S
    → (Bool × Notice) × S
unfolding read_created
create_task post task_type prompt created_by_ref title s =
    let payload : TaskPayload = record {
      type = task_type;
      prompt = prompt;
      created_by_type = "user";
      created_by_ref = created_by_ref;
      title = none;
    } in
    let titled = record payload { title = some (normalized_title title) } in
    let (reply, s₁) = post payload s in
    let (reply', s₂) = post titled s in
    if str_eq task_type "requirement"
    then if non_empty (normalized_title title)
      then (read_created reply', s₂)
      else ((false, empty_title), s)
    else (read_created reply, s₁)
