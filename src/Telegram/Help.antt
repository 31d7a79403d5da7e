-- ===== src/Telegram/Help.antt =====
-- The messages of /start and /help and the command /status: execqueue/workers/telegram/commands.py, and
-- the handlers of execqueue/workers/telegram/bot.py. A message is the list of its lines, of which the
-- empty ones and the headings are left out; a line is the command that it names and its text.
pub mod Shown
use exec_queue.Common.{
  ℕ, String, Bool, true, false, ◌&&◌, ◌||◌, Option, none, some, List, [], ◌∷◌, ◌++◌, keep, not,
  ◌==◌, str_eq, if◌then◌else◌,
}
use exec_queue.Database.{Table}
use exec_queue.Json.{Value, text, object, get_default, Fields}
use exec_queue.Telegram.{TelegramUser, get_user_info, persist_message_user}
use exec_queue.Telegram.ApiClient.{Notice, status_loaded, read_status}
use exec_queue.Telegram.Restart.{Reply}

pub record BotCommand : Type 0 where
  pub command : String
  pub description : String

abbrev bot_command : String → String → BotCommand
bot_command command description = record { command = command; description = description }

abbrev pub get_command_list : List BotCommand
get_command_list = bot_command "start" "Start the bot and show available commands" ∷ []

abbrev pub get_operator_start_command_list : List BotCommand
get_operator_start_command_list =
    bot_command "help" "Show help and usage information"
    ∷ bot_command "health" "Check system health status"
    ∷ []

abbrev has : String → Option String → Bool
has role none = false
has role (some r) = str_eq r role

abbrev help_line : BotCommand
help_line = bot_command "help" "Show help and usage information"

unfoldable pub get_start_message : Option String → Bool → List BotCommand
get_start_message role is_active =
    get_command_list
    ++ (if is_active && has "user" role
        then help_line ∷ []
        else if is_active && (has "admin" role || has "operator" role)
        then help_line ∷ keep (λ c. not (str_eq c.command "help")) get_operator_start_command_list
        else [])

unfoldable pub get_help_message : Option String → Bool → List BotCommand
get_help_message role is_active =
    if is_active
    then bot_command "status" "<ID> - Aufgabestatus abfragen"
      ∷ (if has "admin" role || has "operator" role
          then help_line
            ∷ bot_command "health" "Check system health status"
            ∷ bot_command "create" "Neue Aufgabe erstellen"
            ∷ (if has "admin" role then bot_command "restart" "System neu starten" ∷ [] else [])
          else [])
    else bot_command "start" "Start the bot and show available commands" ∷ []

-- What `status_command` answers.
pub data StatusReply : Type 0 where
  not_active wrong_usage not_a_number : StatusReply
  status_shown : ℕ → Value → StatusReply
  status_failed : Notice → StatusReply
  attribute_error : StatusReply

abbrev shown_status : ℕ → Bool × Notice → StatusReply
shown_status number (true, status_loaded (object fields)) =
    status_shown number (get_default "status" (text "unknown") fields)
shown_status number (true, _) = attribute_error
shown_status number (false, notice) = status_failed notice

module _ (db : Table TelegramUser) where
  -- The role and the activity that a handler looks up; 0 counts as no user.
  abbrev pub looked_up : Option ℕ → List TelegramUser → Option String × Bool
  looked_up none rows = (none, false)
  looked_up (some user) rows = if user == 0 then (none, false) else get_user_info db user rows

  -- `start_command`: the lines, and the rows with the user of the message; its fields are the
  -- identifier and the names.
  pub start_command :
      Option (ℕ × Option String × Option String)
      → ℕ
      → List TelegramUser
      → List BotCommand × List TelegramUser
  unfolding get_start_message persist_message_user
  start_command none now rows = (get_start_message none false, rows)
  start_command (some (user, first, last)) now rows =
      let rows' = persist_message_user db (some (user, first, last)) now rows in
      let (role, is_active) = looked_up (some user) rows' in
      (get_start_message role is_active, rows')

  unfoldable pub help_command : Option ℕ → List TelegramUser → List BotCommand
  unfolding get_help_message
  help_command user rows =
      let (role, is_active) = looked_up user rows in get_help_message role is_active

  -- `status_command` of a message; `to_int` stands for `int` of a text.
  pub status_command :
      {S : Type 0}
      → (ℕ → S → Reply × S)
      → (String → Option ℕ)
      → ℕ
      → List String
      → List TelegramUser
      → S
      → StatusReply × S
  unfolding get_user_info
  status_command get_status to_int user args rows s =
      if (get_user_info db user rows).1
      then elim args [
        | arg ∷ [] ↦ elim (to_int arg) [
          | none ↦ (not_a_number, s)
          | some number ↦
              let (reply, s') = get_status number s in (shown_status number (read_status reply), s')
        ]
        | _ ↦ (wrong_usage, s)
      ]
      else (not_active, s)
