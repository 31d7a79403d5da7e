-- ===== src/Telegram/Authorised.antt =====
-- The restart command of the bot against the route of the API that it calls
-- (execqueue/workers/telegram/bot.py, execqueue/api/routes/system.py and execqueue/api/dependencies.py).
use exec_queue.Common.{
  ℕ, ◌≡◌, String, true, not, ◌&&◌, Option, none, some, List, [], ◌∷◌, null, arith, ◌==◌, non_empty,
  if◌then◌else◌, Option-cases, inl, inr,
}
use exec_queue.Database.{Table}
use exec_queue.Api.Admin.{
  RestartAnswer, Host, whole_system, require_system_admin, restart_route, execute_restart_script,
}
use exec_queue.Telegram.{TelegramUser, find_user, has_required_role}
use exec_queue.Telegram.Restart.{Reply, Credentials, telegram_user_id, admin_token, restart_command}

module _ {S : Type 0} (h : Host S) (db : Table TelegramUser) (to_int : String → Option ℕ)
    (shown : RestartAnswer → Reply) where
  -- The route, with the configured token, as the bot reaches it; `shown` writes its answers.
  abbrev pub served : Option String → List TelegramUser → Credentials → S → Reply × S
  served configured rows (telegram_user_id header) s =
      let admission = require_system_admin db to_int configured none (some header) rows in
      let (answer, s') = restart_route h admission whole_system s in (shown answer, s')
  served configured rows (admin_token token) s =
      let admission = require_system_admin db to_int configured (some token) none rows in
      let (answer, s') = restart_route h admission whole_system s in (shown answer, s')

  -- If the text of a user's identifier is not empty and is read as the identifier, then the command runs
  -- the script of the whole system exactly for an active admin who gives no arguments, and does nothing
  -- else to the host: the route lets every command pass that the bot sends.
  pub restart_command-served :
      (configured token : Option String) (decimal : ℕ → String) (user : ℕ) (args : List String)
      (rows : List TelegramUser) (s : S)
      → to_int (decimal user) ≡ some user
      → non_empty (decimal user) ≡ true
      → (restart_command
          (served configured rows)
          decimal
          db
          token
          (record { user = some user; args = args })
          rows
          s).1
        ≡ (if not (user == 0) && has_required_role db user ("admin" ∷ []) rows && null args
            then (execute_restart_script h whole_system s).1
            else s)
  unfolding restart_command require_system_admin restart_route has_required_role
  restart_command-served configured token decimal user args rows s read shown_id =
      elim (Option-cases (find_user db user rows)) [
        | inl missing ↦ ground (arith, missing, read, shown_id)
        | inr (u, found) ↦ ground (arith, found, read, shown_id)
      ]
