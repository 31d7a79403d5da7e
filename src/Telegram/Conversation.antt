-- ===== src/Telegram/Conversation.antt =====
-- The conversation of the command /create: the handlers of execqueue/workers/telegram/commands.py, and
-- its states as create_bot_application of execqueue/workers/telegram/bot.py registers them. An update of
-- the conversation has a message with a text and a user, as the library gives them to a handler.
pub mod Steps
pub mod Requests
use exec_queue.Common.{
  ℕ, String, Bool, true, false, not, Option, none, some, List, [], ◌∷◌, str_eq, non_empty, strip,
  if◌then◌else◌,
}
use exec_queue.Database.{Table}
use exec_queue.Telegram.{TelegramUser, get_user_info, has_role}
use exec_queue.Telegram.Restart.{Reply}
use exec_queue.Telegram.ApiClient.{TaskPayload, Notice, create_task}

-- `CREATE_TASK_TYPE`, `CREATE_TITLE`, `CREATE_PROMPT` and the end, which is also the time before.
pub data Step : Type 0 where
  type_step title_step prompt_step ended : Step

-- The keys of `context.user_data`.
pub record UserData : Type 0 where
  pub created_by_ref : Option String
  pub type : Option String
  pub title : Option String

abbrev pub no_data : UserData
no_data = record { created_by_ref = none; type = none; title = none }

-- What the bot says.
pub data Message : Type 0 where
  not_active access_denied which_type invalid_choice which_title blank_title : Message
  which_prompt blank_prompt creating cancelled : Message
  success_notice failure_notice : Notice → Message

-- What a handler gives: the next step, the keys, and the messages.
pub record Turn : Type 0 where
  pub step : Step
  pub user_data : UserData
  pub messages : List Message

abbrev pub turn : Step → UserData → List Message → Turn
turn next user_data messages = record { step = next; user_data = user_data; messages = messages }

abbrev or_default_text : String → Option String → String
or_default_text d none = d
or_default_text d (some t) = t

unfoldable pub create_start :
    Table TelegramUser → (ℕ → String) → List TelegramUser → ℕ → UserData → Turn
unfolding get_user_info
create_start db decimal rows user d =
    let (role, is_active) = get_user_info db user rows in
    if not is_active
    then turn ended d (not_active ∷ [])
    else if not (has_role role ("admin" ∷ "operator" ∷ []))
    then turn ended d (access_denied ∷ [])
    else turn type_step (record d { created_by_ref = some (decimal user) }) (which_type ∷ [])

unfoldable pub create_task_type : String → UserData → Turn
create_task_type message d =
    let choice = strip message in
    if str_eq choice "1"
    then turn prompt_step (record d { type = some "planning" }) (which_prompt ∷ [])
    else if str_eq choice "2"
    then turn prompt_step (record d { type = some "execution" }) (which_prompt ∷ [])
    else if str_eq choice "3"
    then turn prompt_step (record d { type = some "analysis" }) (which_prompt ∷ [])
    else if str_eq choice "4"
    then turn title_step (record d { type = some "requirement" }) (which_title ∷ [])
    else turn type_step d (invalid_choice ∷ [])

unfoldable pub create_title : String → UserData → Turn
create_title message d =
    let title = strip message in
    if not (non_empty title)
    then turn title_step d (blank_title ∷ [])
    else turn prompt_step (record d { title = some title }) (which_prompt ∷ [])

unfoldable pub create_prompt :
    {S : Type 0} → (TaskPayload → S → Reply × S) → String → UserData → S → Turn × S
unfolding create_task
create_prompt post message d s =
    let prompt = strip message in
    let ((success, notice), s') =
      create_task post (or_default_text "planning" d.type) prompt
        (or_default_text "" d.created_by_ref) d.title s in
    if not (non_empty prompt) then (turn prompt_step d (blank_prompt ∷ []), s) else (
      turn ended no_data
          (creating ∷ (if success then success_notice notice else failure_notice notice) ∷ []),
      s',
    )

pub create_cancel : Turn
create_cancel = turn ended no_data (cancelled ∷ [])

-- What a user sends: a command or another text.
pub data Input : Type 0 where
  create_command cancel_command : Input
  message_text : String → Input

-- What the conversation makes of it in its step; what no handler takes changes nothing.
unfoldable pub converse :
    {S : Type 0}
    → (TaskPayload → S → Reply × S)
    → Table TelegramUser
    → (ℕ → String)
    → List TelegramUser
    → ℕ
    → Input
    → Step
    → UserData
    → S
    → Turn × S
unfolding create_start create_task_type create_title create_prompt create_cancel
converse post db decimal rows user create_command ended d s =
    (create_start db decimal rows user d, s)
converse post db decimal rows user (message_text t) type_step d s = (create_task_type t d, s)
converse post db decimal rows user (message_text t) title_step d s = (create_title t d, s)
converse post db decimal rows user (message_text t) prompt_step d s = create_prompt post t d s
converse post db decimal rows user cancel_command type_step d s = (create_cancel, s)
converse post db decimal rows user cancel_command title_step d s = (create_cancel, s)
converse post db decimal rows user cancel_command prompt_step d s = (create_cancel, s)
converse post db decimal rows user _ step d s = (turn step d [], s)

-- The conversation of a user over what is sent: its step, keys and state of the API afterwards.
pub conversation :
    {S : Type 0}
    → (TaskPayload → S → Reply × S)
    → Table TelegramUser
    → (ℕ → String)
    → List TelegramUser
    → ℕ
    → List Input
    → Step
    → UserData
    → S
    → (Step × UserData) × S
unfolding converse
conversation post db decimal rows user [] step d s = ((step, d), s)
conversation post db decimal rows user (i ∷ is) step d s =
    let (t, s') = converse post db decimal rows user i step d s in
    conversation post db decimal rows user is t.step t.user_data s'
