-- ===== src/Telegram/Restart.antt =====
-- The restart by the bot: `trigger_system_restart` and `_read_error_detail` of
-- execqueue/workers/telegram/commands.py, and `restart_command` of execqueue/workers/telegram/bot.py.
-- Log lines are left out, and no query of the database fails.
use Prim.Native.String.{◌++◌ as ◌+++◌}
use exec_queue.Common.{
  ℕ, String, Bool, true, false, ◌&&◌, Option, none, some, List, [], ◌∷◌, null, ◌==◌, not, str_eq,
  non_empty, strip, if◌then◌else◌,
}
use exec_queue.Database.{Table}
use exec_queue.Json.{Value, text, object, get_field, get_default}
use exec_queue.Telegram.{TelegramUser, get_user_info}

-- What a request to the API gives: a status with a body, if that is JSON, or an exception.
pub data Reply : Type 0 where
  responded : ℕ → Option Value → Reply
  timed_out not_connected : Reply

abbrev non_empty_text : Option Value → Option String
non_empty_text (some (text t)) = if non_empty (strip t) then some (strip t) else none
non_empty_text _ = none

-- `_read_error_detail`: the first of the two keys with a text that is not blank.
unfoldable pub read_error_detail : Option Value → Option String
read_error_detail (some (object fields)) = elim (non_empty_text (get_field "detail" fields)) [
  | some t ↦ some t
  | none ↦ non_empty_text (get_field "message" fields)
]
read_error_detail _ = none

abbrev or_unknown : Option String → String
or_unknown none = "Unknown error"
or_unknown (some t) = t

abbrev restart_failed : Bool × Value
restart_failed = (false, text "Restart failed due to an unexpected error.")

-- What `trigger_system_restart` makes of the response.
unfoldable pub read_restart : Reply → Bool × Value
unfolding read_error_detail
read_restart timed_out = (false, text "Restart request timed out.")
read_restart not_connected = restart_failed
read_restart (responded status body) =
    if status == 200
    then elim body [
      | some (object fields) ↦
          (true, get_default "message" (text "System restart initiated successfully.") fields)
      | _ ↦ restart_failed
    ]
    else (false, text ("Restart failed: " +++ or_unknown (read_error_detail body)))

-- The headers of the request.
pub data Credentials : Type 0 where
  telegram_user_id admin_token : String → Credentials

-- The answers of the bot in the chat.
pub data ChatReply : Type 0 where
  denied invalid_parameter preparing : ChatReply
  restarted not_restarted : Value → ChatReply

-- An update with a message, its user and the arguments of its command.
pub record Command : Type 0 where
  pub user : Option ℕ
  pub args : List String

module _ {S : Type 0} (post : Credentials → S → Reply × S) (decimal : ℕ → String) where
  unfoldable pub trigger_system_restart : Option ℕ → Option String → S → (Bool × Value) × S
  unfolding read_restart
  trigger_system_restart (some user) token s =
      let (reply, s') = post (telegram_user_id (decimal user)) s in (read_restart reply, s')
  trigger_system_restart none none s = ((false, text "system_admin_token is not configured"), s)
  trigger_system_restart none (some token) s =
      let (reply, s') = post (admin_token token) s in
      if non_empty token
      then (read_restart reply, s')
      else ((false, text "system_admin_token is not configured"), s)

  abbrev report : Bool × Value → ChatReply
  report (true, message) = restarted message
  report (false, message) = not_restarted message

  abbrev is_admin : Option String × Bool → Bool
  is_admin (none, is_active) = false
  is_admin (some role, is_active) = is_active && str_eq role "admin"

  -- `restart_command` of a message: what the bot answers. The identifier 0 counts as no user.
  unfoldable pub restart_command :
      Table TelegramUser → Option String → Command → List TelegramUser → S → List ChatReply × S
  unfolding trigger_system_restart get_user_info
  restart_command db token c rows s = elim c.user [
    | none ↦ (denied ∷ [], s)
    | some user ↦
        let (outcome, s') = trigger_system_restart (some user) token s in
        if user == 0
        then (denied ∷ [], s)
        else if not (is_admin (get_user_info db user rows))
        then (denied ∷ [], s)
        else if null c.args
        then (preparing ∷ report outcome ∷ [], s')
        else (invalid_parameter ∷ [], s)
  ]
