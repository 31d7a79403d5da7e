-- ===== src/Telegram/Process/Files.antt =====
-- What the steps of the bot do to its files (execqueue/workers/telegram/bot.py).
use exec_queue.Common.{
  ℕ, ◌≡◌, ◌⊎◌, inl, inr, refl, ap, ◌∙◌, String, Bool, true, false, ◌&&◌, Option, none, some,
  non_empty, strip, arith, if◌then◌else◌, Bool-cases, Option-cases,
}
use exec_queue.Telegram.Process.{
  BotFiles, HealthFlag, HealthDetail, not_ok, Ending, finished, timed_out, failed, FileSystem,
  pid_text, is_foreign, write_health_status, clear_pid_file, after_start, ok, stopped, polling,
  shutting_down, shutdown_timed_out, shutdown_failed, after_shutdown, stop_bot_application,
}

abbrev pub flag_of : Option (HealthFlag × HealthDetail) → Option HealthFlag
flag_of none = none
flag_of (some (flag, detail)) = some flag

-- The text of a PID file is that of another process.
abbrev pub is_foreign_text : FileSystem → ℕ → Option String → Bool
is_foreign_text f pid none = false
is_foreign_text f pid (some content) = non_empty (strip content) && is_foreign f pid (strip content)

module _ (f : FileSystem) (pid : ℕ) where
  -- The PID file is gone, or another process's one has stayed.
  pub clear_pid_file_cases :
      (w : BotFiles)
      → f.readable ≡ true
      → f.removable ≡ true
      → ((clear_pid_file f pid w).pid_file ≡ none)
        ⊎ (((clear_pid_file f pid w).pid_file ≡ w.pid_file)
            × (is_foreign_text f pid w.pid_file ≡ true))
  unfolding clear_pid_file
  clear_pid_file_cases w readable removable = elim (Option-cases w.pid_file) [
    | inl missing ↦ inl (ground (arith, missing))
    | inr (content, there) ↦ elim (Bool-cases (is_foreign_text f pid (some content))) [
      | inl foreign ↦
          inr (ground (arith, there, readable, removable, foreign), ground (arith, there, foreign))
      | inr own ↦ inl (ground (arith, there, readable, removable, own))
    ]
  ]

  pub clear_pid_file-health : (w : BotFiles) → (clear_pid_file f pid w).health ≡ w.health
  unfolding clear_pid_file
  clear_pid_file-health w = ground arith

  pub write_health_status-pid_file :
      (flag : HealthFlag) (detail : HealthDetail) (w : BotFiles)
      → (write_health_status f flag detail w).pid_file ≡ w.pid_file
  unfolding write_health_status
  write_health_status-pid_file flag detail w = ground arith

  pub write_health_status-health :
      (flag : HealthFlag) (detail : HealthDetail) (w : BotFiles)
      → f.writable ≡ true
      → (write_health_status f flag detail w).health ≡ some (flag, detail)
  unfolding write_health_status
  write_health_status-health flag detail w writable = ground (arith, writable)

  own_cleared :
      (w : BotFiles)
      → f.readable ≡ true
      → f.removable ≡ true
      → f.to_int (strip (pid_text f pid)) ≡ some pid
      → w.pid_file ≡ some (pid_text f pid)
      → (clear_pid_file f pid w).pid_file ≡ none
  unfolding clear_pid_file
  own_cleared w readable removable read own = ground (arith, own, readable, removable, read)

  after_shutdown-pid_file :
      (ending : Ending) (w : BotFiles) → (after_shutdown f ending w).pid_file ≡ w.pid_file
  after_shutdown-pid_file finished w = refl
  after_shutdown-pid_file timed_out w = write_health_status-pid_file not_ok shutdown_timed_out w
  after_shutdown-pid_file failed w = write_health_status-pid_file not_ok shutdown_failed w

  polled_pid_file :
      (polled : Bool) (w : BotFiles)
      → (if polled then write_health_status f ok polling w else w).pid_file ≡ w.pid_file
  polled_pid_file true w = write_health_status-pid_file ok polling w
  polled_pid_file false w = refl

  -- A run that has started leaves no PID file and a health file that says "not_ok".
  pub after_start_lem :
      (polled : Bool) (ending : Ending) (w : BotFiles)
      → f.writable ≡ true
      → f.readable ≡ true
      → f.removable ≡ true
      → f.to_int (strip (pid_text f pid)) ≡ some pid
      → w.pid_file ≡ some (pid_text f pid)
      → (flag_of (after_start f polled ending pid w).health ≡ some not_ok)
        × ((after_start f polled ending pid w).pid_file ≡ none)
  unfolding after_start
  after_start_lem polled ending w writable readable removable read own =
      let polling_shown = if polled then write_health_status f ok polling w else w in
      let shut =
        after_shutdown f ending (write_health_status f not_ok shutting_down polling_shown) in
      let kept : shut.pid_file ≡ some (pid_text f pid) =
        after_shutdown-pid_file ending (write_health_status f not_ok shutting_down polling_shown)
        ∙ write_health_status-pid_file not_ok shutting_down polling_shown
        ∙ polled_pid_file polled w
        ∙ own in
      let stopped_files = stop_bot_application f ending pid polling_shown in
      (
        ap flag_of (write_health_status-health not_ok stopped stopped_files writable),
        write_health_status-pid_file not_ok stopped stopped_files
            ∙ own_cleared shut readable removable read kept,
      )
