-- ===== src/Telegram/Process/Ends.antt =====
-- How the process of the bot leaves its files (execqueue/workers/telegram/bot.py).
use mathlib.Core.Path.{subst}
use exec_queue.Common.{
  ℕ, ◌≡◌, ◌⊎◌, inl, inr, refl, ap, sym, ◌∙◌, Bool, true, none, some, strip, arith, truthy,
  Bool-cases,
}
use exec_queue.Telegram.Process.{
  BotFiles, HealthDetail, not_ok, Ending, BotSettings, Run, FileSystem, pid_text,
  write_health_status, write_pid_file, run_bot, starting, initializing, disabled, no_token,
  no_library, fatal_error, Exit, returned, exited, cancelled_error, raised, after_exit, main,
  after_start, exit_of,
}
use exec_queue.Telegram.Process.Files.{
  flag_of, is_foreign_text, clear_pid_file_cases, clear_pid_file-health,
  write_health_status-pid_file, write_health_status-health, after_start_lem,
}

module _ (f : FileSystem) (pid : ℕ) where
  -- What `main` has before it clears the PID file.
  abbrev IsReported : BotFiles → Exit × BotFiles → Type 0
  IsReported w (exit, w') =
      (flag_of (after_exit f exit w').health ≡ some not_ok)
      × (((after_exit f exit w').pid_file ≡ none) ⊎ ((after_exit f exit w').pid_file ≡ w.pid_file))

  IsReported-by :
      (w : BotFiles) (o o' : Exit × BotFiles) → o ≡ o' → IsReported w o' → IsReported w o
  IsReported-by w o o' e h = subst (IsReported w) (sym e) h

  -- A report of "not_ok" on files.
  reported :
      (exit : Exit) (w w' : BotFiles)
      → f.writable ≡ true
      → flag_of w'.health ≡ some not_ok
      → (w'.pid_file ≡ none) ⊎ (w'.pid_file ≡ w.pid_file)
      → IsReported w (exit, w')
  reported returned w w' writable shown files = (shown, files)
  reported exited w w' writable shown files = (shown, files)
  reported cancelled_error w w' writable shown files = (shown, files)
  reported raised w w' writable shown files = (
    ap flag_of (write_health_status-health f pid not_ok fatal_error w' writable),
    elim files [
      | inl gone ↦ inl (write_health_status-pid_file f pid not_ok fatal_error w' ∙ gone)
      | inr kept ↦ inr (write_health_status-pid_file f pid not_ok fatal_error w' ∙ kept)
    ],
  )

  refused_start :
      (exit : Exit) (detail : HealthDetail) (w : BotFiles)
      → f.writable ≡ true
      → IsReported w (exit, write_health_status f not_ok detail w)
  refused_start exit detail w writable =
      reported exit w (write_health_status f not_ok detail w) writable
        (ap flag_of (write_health_status-health f pid not_ok detail w writable))
        (inr (write_health_status-pid_file f pid not_ok detail w))

  run_bot-IsReported :
      (settings : BotSettings) (began polled : Bool) (run : Run) (ending : Ending) (w : BotFiles)
      → f.writable ≡ true
      → f.readable ≡ true
      → f.removable ≡ true
      → f.to_int (strip (pid_text f pid)) ≡ some pid
      → IsReported w (run_bot f settings began polled run ending pid w)
  unfolding run_bot
  run_bot-IsReported settings began polled run ending w writable readable removable read =
      let w' = write_health_status f starting initializing w in
      let written = write_pid_file f pid w' in
      let run_lem =
        after_start_lem f pid polled ending written writable readable removable read refl in
      elim (Bool-cases settings.telegram_bot_enabled) [
        | inr off ↦
            IsReported-by w (run_bot f settings began polled run ending pid w)
              (returned, write_health_status f not_ok disabled w) (rw off refl)
              (refused_start returned disabled w writable)
        | inl on ↦ elim (Bool-cases (truthy settings.telegram_bot_token)) [
          | inr missing ↦
              IsReported-by w (run_bot f settings began polled run ending pid w)
                (exited, write_health_status f not_ok no_token w) (rw (on, missing) refl)
                (refused_start exited no_token w writable)
          | inl token ↦ elim (Bool-cases settings.telegram_available) [
            | inr absent ↦
                IsReported-by w (run_bot f settings began polled run ending pid w)
                  (exited, write_health_status f not_ok no_library w) (rw (on, token, absent) refl)
                  (refused_start exited no_library w writable)
            | inl available ↦ elim (Bool-cases began) [
              | inr unstarted ↦
                  IsReported-by w (run_bot f settings began polled run ending pid w) (raised, w')
                    (rw (on, token, available, unstarted) refl)
                    (
                      ap flag_of (write_health_status-health f pid not_ok fatal_error w' writable),
                      inr (
                          write_health_status-pid_file f pid not_ok fatal_error w'
                          ∙ write_health_status-pid_file f pid starting initializing w),
                    )
              | inl begun ↦
                  IsReported-by w (run_bot f settings began polled run ending pid w)
                    (exit_of f run, after_start f polled ending pid written)
                    (rw (on, token, available, begun) refl)
                    (reported (exit_of f run) w (after_start f polled ending pid written) writable
                      run_lem.0 (inl run_lem.1))
            ]
          ]
        ]
      ]

  -- If the files can be written, read and removed, and the text of a process number is read as the number,
  -- then however the bot is configured and however its run ends, `main` leaves a health file that says
  -- "not_ok", and no PID file but that of another process, which is as it was.
  pub main_lem :
      (settings : BotSettings) (began polled : Bool) (run : Run) (ending : Ending) (w : BotFiles)
      → f.writable ≡ true
      → f.readable ≡ true
      → f.removable ≡ true
      → f.to_int (strip (pid_text f pid)) ≡ some pid
      → let w' = main f settings began polled run ending pid w in
        (flag_of w'.health ≡ some not_ok)
        × ((w'.pid_file ≡ none)
            ⊎ ((w'.pid_file ≡ w.pid_file) × (is_foreign_text f pid w.pid_file ≡ true)))
  unfolding main
  main_lem settings began polled run ending w writable readable removable read =
      let (exit, w') = run_bot f settings began polled run ending pid w in
      let (shown, files) =
        run_bot-IsReported settings began polled run ending w writable readable removable read in
      let last = after_exit f exit w' in
      (
        ap flag_of (clear_pid_file-health f pid last) ∙ shown,
        ground (arith, clear_pid_file_cases f pid last readable removable, files),
      )
