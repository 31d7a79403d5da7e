-- ===== src/Telegram/Examples.antt =====
-- The bot on small tables (execqueue/workers/telegram).
use exec_queue.Common.{
  ◌⊎◌, str_eq, if◌then◌else◌, ℕ, suc, ◌+◌, ◌≡◌, refl, String, true, false, none, some, List, [],
  ◌∷◌, arith,
}
use exec_queue.Database.{Table, plain_table}
use exec_queue.Json.{object, end}
use exec_queue.Api.Admin.{RestartAnswer, Host, execute_restart_script}
use exec_queue.Telegram.{TelegramUser, new_user, has_required_role}
use exec_queue.Telegram.Authorised.{served, restart_command-served}
use exec_queue.Telegram.Rights.{IsUnique, after_messages, has_required_role-after_messages}
use exec_queue.Telegram.Restart.{Reply, responded, Credentials, restart_command}
use exec_queue.Telegram.Process.{FileSystem, not_ok, finished, signalled, main}
use exec_queue.Telegram.Process.Ends.{main_lem}
use exec_queue.Telegram.Process.Files.{flag_of, is_foreign_text}
use exec_queue.Telegram.Help.{help_command}
use exec_queue.Telegram.Help.Shown.{names, begins, lets_through, help_command_lem}
use exec_queue.Telegram.Conversation.{create_start}
use exec_queue.Telegram.ApiClient.{TaskPayload}
use exec_queue.Telegram.Conversation.{ended, no_data, create_command, message_text, conversation}
use exec_queue.Telegram.Conversation.Requests.{conversation_requests}
use exec_queue.Telegram.Conversation.Steps.{IsProper}

abbrev db : Table TelegramUser
db = plain_table TelegramUser

abbrev admin : TelegramUser
admin = record (new_user 7 none none 0) { role = "admin"; is_active = true }

abbrev users : List TelegramUser
users = admin ∷ []

unique : IsUnique users
unique id = ground arith

-- A host that counts the processes it has started.
abbrev host : Host ℕ
host = record {
  exists = λ script n. true;
  popen = λ script n. ((none, 100), n + 1);
  append_log = λ script pid n. (none, n);
  make_directory = λ n. (true, n);
}

abbrev shown : RestartAnswer → Reply
shown answer = responded 200 (some (object end))

has_required_role-after_messages_example :
    IsUnique
      (after_messages db ((some (7, some "A", none), 5) ∷ (some (8, none, none), 6) ∷ []) users)
    × ((id : ℕ) (roles : List String)
        → has_required_role db id roles (
            after_messages db
              ((some (7, some "A", none), 5) ∷ (some (8, none, none), 6) ∷ [])
              users)
          ≡ has_required_role db id roles users)
has_required_role-after_messages_example =
    has_required_role-after_messages db
      ((some (7, some "A", none), 5) ∷ (some (8, none, none), 6) ∷ []) users unique

restart_command-served_example :
    (restart_command
      (served host db (λ t. some 7) shown none users)
      (λ n. "7")
      db
      none
      (record { user = some 7; args = [] })
      users
      0).1
    ≡ 1
unfolding execute_restart_script has_required_role plain_table
restart_command-served_example =
    restart_command-served host db (λ t. some 7) shown none none (λ n. "7") 7 [] users 0 refl refl

-- An API that keeps the requests.
abbrev post : TaskPayload → List TaskPayload → Reply × List TaskPayload
post r sent = (responded 201 (some (object end)), r ∷ sent)

abbrev AllProper : List TaskPayload → Type 0
AllProper [] = Unit
AllProper (r ∷ sent) = IsProper db (λ n. "7") users 7 r × AllProper sent

conversation_requests_example :
    AllProper
      (conversation post db
        (λ n. "7")
        users
        7
        (create_command ∷ message_text "2" ∷ message_text " add a test " ∷ [])
        ended
        no_data
        []).1
conversation_requests_example =
    conversation_requests db (λ n. "7") users 7 post AllProper (λ r sent p h. (p, h))
      (create_command ∷ message_text "2" ∷ message_text " add a test " ∷ []) no_data [] tt

abbrev files : FileSystem
files = record {
  writable = true;
  readable = true;
  removable = true;
  decimal = λ n. "7";
  to_int = λ t. if str_eq t "7" then some 7 else if str_eq t "8" then some 8 else none;
}

-- A bot without a token leaves the PID file of the other one alone.
main_lem_example :
    let w' =
      main files
        (record {
          telegram_bot_enabled = true;
          telegram_bot_token = none;
          telegram_available = true;
        })
        true
        true
        signalled
        finished
        7
        (record { pid_file = some "8\n"; health = none; shutdown_event = false }) in
    (flag_of w'.health ≡ some not_ok)
    × ((w'.pid_file ≡ none)
        ⊎ ((w'.pid_file ≡ some "8\n") × (is_foreign_text files 7 (some "8\n") ≡ true)))
main_lem_example =
    main_lem files 7
      (record { telegram_bot_enabled = true; telegram_bot_token = none; telegram_available = true })
      true true signalled finished
      (record { pid_file = some "8\n"; health = none; shutdown_event = false }) refl refl refl refl

-- An API that restarts the system.
abbrev restarts : Credentials → ℕ → Reply × ℕ
restarts who n = (responded 200 (some (object end)), suc n)

help_command_lem_example :
    (names "create" (help_command db (some 7) users)
      ≡ begins (create_start db (λ n. "7") users 7 no_data).step)
    × (names "restart" (help_command db (some 7) users)
        ≡ has_required_role db 7 ("admin" ∷ []) users)
    × (lets_through
          (restart_command restarts
            (λ n. "7")
            db
            none
            (record { user = some 7; args = [] })
            users
            0).0
        ≡ has_required_role db 7 ("admin" ∷ []) users)
help_command_lem_example = help_command_lem restarts db (λ n. "7") 7 [] none users no_data 0 refl
