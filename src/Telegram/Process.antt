-- ===== src/Telegram/Process.antt =====
-- The process of the bot, execqueue/workers/telegram/bot.py: its PID file, its health file, and its way
-- from the start to the end. The text of a file that cannot be read is an argument, as are the outcomes
-- of the calls of the Telegram library. A KeyboardInterrupt of main and a task that is cancelled during the
-- start are left out. Log lines and the time in the health file are left out.
pub mod Files
pub mod Ends
use exec_queue.Common.{
  ℕ, ◌+◌, ◌≡◌, String, Bool, true, false, not, ◌&&◌, Option, none, some, List, [], ◌∷◌, ◌==◌,
  non_empty, append, strip, truthy, if◌then◌else◌,
}

pub data HealthDetail : Type 0 where
  disabled no_token no_library initializing polling shutting_down shutdown_timed_out : HealthDetail
  shutdown_failed stopped stopped_by_user fatal_error : HealthDetail

pub data HealthFlag : Type 0 where
  ok not_ok starting : HealthFlag

-- The files of the bot, and whether `shutdown_event` is set.
pub record BotFiles : Type 0 where
  pub pid_file : Option String
  pub health : Option (HealthFlag × HealthDetail)
  pub shutdown_event : Bool

-- How the shutdown by the library ends.
pub data Ending : Type 0 where
  finished timed_out failed : Ending

-- The settings that `run_bot` looks at, and whether the library is there.
pub record BotSettings : Type 0 where
  pub telegram_bot_enabled : Bool
  pub telegram_bot_token : Option String
  pub telegram_available : Bool

-- How the run goes on once the bot was started: a signal stops it, it is cancelled, or an exception
-- escapes.
pub data Run : Type 0 where
  signalled cancelled crashed : Run

-- How `run_bot` ends: it returns, exits with 1, is cancelled, or raises another exception.
pub data Exit : Type 0 where
  returned exited cancelled_error raised : Exit

-- What can be done with the two files, and how texts and numbers are made into one another.
pub record FileSystem : Type 0 where
  pub writable : Bool
  pub readable : Bool
  pub removable : Bool
  pub decimal : ℕ → String
  pub to_int : String → Option ℕ

abbrev pub pid_text : FileSystem → ℕ → String
pid_text f pid = append (f.decimal pid) "\n"

module _ (f : FileSystem) where
  -- A write that fails is only logged.
  unfoldable pub write_health_status : HealthFlag → HealthDetail → BotFiles → BotFiles
  write_health_status flag detail w =
      if f.writable then record w { health = some (flag, detail) } else w

  unfoldable pub write_pid_file : ℕ → BotFiles → BotFiles
  write_pid_file pid w = record w { pid_file = some (pid_text f pid) }

  -- The number is that of another process.
  abbrev pub is_foreign : ℕ → String → Bool
  is_foreign expected recorded = elim (f.to_int recorded) [
    | none ↦ false
    | some pid ↦ not (pid == expected)
  ]

  -- `clear_pid_file`; a file that cannot be removed stays.
  unfoldable pub clear_pid_file : ℕ → BotFiles → BotFiles
  clear_pid_file expected w = elim w.pid_file [
    | none ↦ w
    | some content ↦
        let recorded = if f.readable then strip content else "" in
        if non_empty recorded && is_foreign expected recorded
        then w
        else if f.removable
        then record w { pid_file = none }
        else w
  ]

  abbrev after_shutdown : Ending → BotFiles → BotFiles
  after_shutdown finished w = w
  after_shutdown timed_out w = write_health_status not_ok shutdown_timed_out w
  after_shutdown failed w = write_health_status not_ok shutdown_failed w

  unfoldable pub stop_bot_application : Ending → ℕ → BotFiles → BotFiles
  unfolding write_health_status clear_pid_file
  stop_bot_application ending pid w =
      let w' = after_shutdown ending (write_health_status not_ok shutting_down w) in
      record (clear_pid_file pid w') { shutdown_event = true }

  -- The run behind the start, where polling may have begun: the bot is stopped once, by the signal, by
  -- the clause for a cancellation, or by `finally`.
  unfoldable pub after_start : Bool → Ending → ℕ → BotFiles → BotFiles
  unfolding stop_bot_application
  after_start polled ending pid w =
      let w' = if polled then write_health_status ok polling w else w in
      write_health_status not_ok stopped (stop_bot_application ending pid w')

  abbrev pub exit_of : Run → Exit
  exit_of signalled = returned
  exit_of cancelled = cancelled_error
  exit_of crashed = raised

  -- A start that fails leaves before the PID file is written.
  unfoldable pub run_bot : BotSettings → Bool → Bool → Run → Ending → ℕ → BotFiles → Exit × BotFiles
  unfolding after_start write_pid_file
  run_bot settings started polled run ending pid w =
      let w' = write_health_status starting initializing w in
      if not settings.telegram_bot_enabled
      then (returned, write_health_status not_ok disabled w)
      else if not (truthy settings.telegram_bot_token)
      then (exited, write_health_status not_ok no_token w)
      else if not settings.telegram_available
      then (exited, write_health_status not_ok no_library w)
      else if not started
      then (raised, w')
      else (exit_of run, after_start polled ending pid (write_pid_file pid w'))

  -- The clause of `main` for an exception: `SystemExit` and a cancellation are none.
  abbrev after_exit : Exit → BotFiles → BotFiles
  after_exit raised w = write_health_status not_ok fatal_error w
  after_exit _ w = w

  unfoldable pub main : BotSettings → Bool → Bool → Run → Ending → ℕ → BotFiles → BotFiles
  unfolding run_bot
  main settings started polled run ending pid w =
      let (exit, w') = run_bot settings started polled run ending pid w in
      clear_pid_file pid (after_exit exit w')

-- The handler of the signals: the shutdown that runs, if one does, and how many were started. `done`
-- says whether the last one has ended by then.
pub record Shutdowns : Type 0 where
  pub running : Bool
  pub started : ℕ

pub shutdown_handler : Bool → Shutdowns → Shutdowns
shutdown_handler done w =
    if w.running && not done then w else record { running = true; started = w.started + 1 }
