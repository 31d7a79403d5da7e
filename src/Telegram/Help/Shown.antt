-- ===== src/Telegram/Help/Shown.antt =====
-- What /help shows and what the bot does (execqueue/workers/telegram/commands.py and bot.py).
use exec_queue.Common.{
  ℕ, ◌≡◌, String, Bool, true, false, Option, some, List, [], ◌∷◌, any, arith, ◌==◌, str_eq,
  Option-cases, inl, inr,
}
use exec_queue.Database.{Table}
use exec_queue.Telegram.{TelegramUser, has_required_role, find_user}
use exec_queue.Telegram.Restart.{Reply, Credentials, Command, ChatReply, denied, restart_command}
use exec_queue.Telegram.Conversation.{Step, ended, UserData, create_start}
use exec_queue.Telegram.Help.{BotCommand, help_command}

abbrev pub names : String → List BotCommand → Bool
names command lines = any (λ c. str_eq c.command command) lines

abbrev pub begins : Step → Bool
begins ended = false
begins _ = true

-- Whether the answers of /restart begin with another one than a denial.
abbrev pub lets_through : List ChatReply → Bool
lets_through [] = false
lets_through (denied ∷ _) = false
lets_through (_ ∷ _) = true

module _ {S : Type 0} (post : Credentials → S → Reply × S) (db : Table TelegramUser)
    (decimal : ℕ → String) where
  -- For a user whose identifier is not 0, the help names /create exactly if the command starts a
  -- conversation; and it names /restart exactly for an active admin, who is the only one to whom
  -- the command is not denied, whatever its arguments and the answer of the API.
  pub help_command_lem :
      (user : ℕ) (args : List String) (token : Option String) (rows : List TelegramUser)
      (d : UserData) (s : S)
      → (user == 0) ≡ false
      → let command : Command = record { user = some user; args = args } in
        (names "create" (help_command db (some user) rows)
          ≡ begins (create_start db decimal rows user d).step)
        × (names "restart" (help_command db (some user) rows)
            ≡ has_required_role db user ("admin" ∷ []) rows)
        × (lets_through (restart_command post decimal db token command rows s).0
            ≡ has_required_role db user ("admin" ∷ []) rows)
  unfolding help_command create_start has_required_role restart_command
  help_command_lem user args token rows d s nonzero = elim (Option-cases (find_user db user rows)) [
    | inl missing ↦ (
      ground (arith, missing, nonzero),
      ground (arith, missing, nonzero),
      ground (arith, missing, nonzero),
    )
    | inr (u, found) ↦ (
      ground (arith, found, nonzero),
      ground (arith, found, nonzero),
      ground (arith, found, nonzero),
    )
  ]
