-- ===== src/Runner/Staleness/Agreement.antt =====
-- The check of one execution and the query agree (execqueue/runner/error_classification.py).
use exec_queue.Common.{ℕ, ◌≤◌, ◌≡◌, ◌+◌, true, none, some, ok, arith, inl, inr, Outcome-cases}
use exec_queue.Model.{TaskExecution}
use exec_queue.Runner.Errors.{RunnerPhase}
use exec_queue.Runner.Staleness.{
  StaleThresholds, seconds, is_execution_stale, is_watched, stale_row, phase_or_stream,
  heartbeat_stale, duration_stale,
}

module _ (th : StaleThresholds) (now : ℕ) (e : TaskExecution)
    (plain : (p : RunnerPhase) → th.phase_timeouts p ≡ none) where
  heartbeat_age :
      (beat : ℕ)
      → heartbeat_stale th now e (some beat) ≡ ok true
      → beat + seconds th.heartbeat_timeout_seconds ≤ now
  unfolding heartbeat_stale
  heartbeat_age beat h = elim (Outcome-cases (phase_or_stream e.phase)) [
    | inl (p, found) ↦ ground (arith, found, plain p)
    | inr (x, raised) ↦ ground (arith, raised)
  ]

  duration_age :
      (started : ℕ)
      → duration_stale th now e started ≡ ok true
      → started + seconds th.max_duration_seconds ≤ now
  unfolding duration_stale
  duration_age started h = elim (Outcome-cases (phase_or_stream e.phase)) [
    | inl (p, found) ↦ ground (arith, found, plain p)
    | inr (x, raised) ↦ ground (arith, raised)
  ]

-- An execution that was started, has a watched status and is found stale by itself is found by the
-- query too, where no phase has a timeout of its own.
pub stale_row-is_execution_stale :
    (th : StaleThresholds) (now : ℕ) (e : TaskExecution) (started : ℕ)
    → ((p : RunnerPhase) → th.phase_timeouts p ≡ none)
    → e.started_at ≡ some started
    → is_watched e.status ≡ true
    → is_execution_stale th now e ≡ ok true
    → stale_row th now is_watched e ≡ true
unfolding is_execution_stale stale_row heartbeat_stale
stale_row-is_execution_stale th now e started plain s w h =
    grind (arith, heartbeat_age th now e plain, duration_age th now e plain)
