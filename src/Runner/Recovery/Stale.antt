-- ===== src/Runner/Recovery/Stale.antt =====
-- What becomes of stale executions (execqueue/runner/recovery.py).
use exec_queue.Common.{
  ℕ, ◌≡◌, ◌≢◌, ◌⊎◌, ◌<◌, ◌≤◌, ◌+◌, String, false, Option, some, none, refl, arith, ok, raise, inl,
  inr, Outcome-cases, Option-cases, value_error,
}
use text.Mathlib.TextEquality.{eq_iff}
use exec_queue.Model.{ExecutionStatus, TaskExecution}
use exec_queue.Observability.{ExecutionMetrics}
use exec_queue.Runner.Errors.{RunnerPhase, default_retry_matrix, get_policy, is_retryable}
use exec_queue.Runner.Retry.{attempts_allowed, current_attempt, calculate_retry_decision}
use exec_queue.Runner.Staleness.{phase_or_stream}
use exec_queue.Runner.Recovery.{
  retry, failed, revalidate_adoption, chosen, handle_stale_execution, in_adoption, stale_in_phase,
}

stale_in_phase_origin :
    (now random : ℕ) (e : TaskExecution) (phase : RunnerPhase) (m : ExecutionMetrics)
    (s : Option ExecutionStatus)
    → chosen (stale_in_phase now random e phase m).0 ≡ some (revalidate_adoption, s)
    → e.phase ≡ some "adopting_commit"
unfolding stale_in_phase
stale_in_phase_origin now random e phase m s h = elim (Option-cases e.phase) [
  | inl empty ↦ ground (arith, empty)
  | inr (p, found) ↦ ground (arith, found, eq_iff p "adopting_commit")
]

no_such_phase : phase_or_stream (some "adopting_commit") ≡ raise value_error
unfolding phase_or_stream
no_such_phase = refl

-- A stale execution is never sent to a new check of its adoption, whatever its phase is.
pub handle_stale_execution-ne-revalidate :
    (now random : ℕ) (e : TaskExecution) (m : ExecutionMetrics) (s : Option ExecutionStatus)
    → chosen (handle_stale_execution now random e m).0 ≢ some (revalidate_adoption, s)
unfolding handle_stale_execution
handle_stale_execution-ne-revalidate now random e m s h =
    elim (Outcome-cases (phase_or_stream e.phase)) [
      | inl (p, found) ↦
          ground (arith, found, no_such_phase, stale_in_phase_origin now random e p m s)
      | inr (x, raised) ↦ ground (arith, raised)
    ]

not_in_adoption :
    (p : Option String) (phase : RunnerPhase) → phase_or_stream p ≡ ok phase → in_adoption p ≡ false
not_in_adoption none phase h = refl
not_in_adoption (some p) phase h = ground (arith, eq_iff p "adopting_commit", no_such_phase)

stale_in_phase_lem :
    (now random : ℕ) (e : TaskExecution) (phase : RunnerPhase) (m : ExecutionMetrics)
    → in_adoption e.phase ≡ false
    → let allowed = attempts_allowed (get_policy default_retry_matrix phase) e in
      let (r, e', m') = stale_in_phase now random e phase m in
      (e'.status ≡ e.status)
      × (m'.stale_executions_detected ≡ m.stale_executions_detected + 1)
      × (((chosen r ≡ some (retry, none))
            × (current_attempt e < allowed)
            × (e'.attempt ≡ current_attempt e + 1))
          ⊎ ((chosen r ≡ some (failed, some ExecutionStatus.failed))
              × (allowed ≤ current_attempt e)
              × (e'.attempt ≡ e.attempt)))
unfolding stale_in_phase calculate_retry_decision is_retryable
stale_in_phase_lem now random e phase m h = ground arith

handle_stale_execution-eq-stale_in_phase :
    (now random : ℕ) (e : TaskExecution) (phase : RunnerPhase) (m : ExecutionMetrics)
    → phase_or_stream e.phase ≡ ok phase
    → handle_stale_execution now random e m ≡ stale_in_phase now random e phase m
unfolding handle_stale_execution
handle_stale_execution-eq-stale_in_phase now random e phase m h = rw (h, handle_stale_execution)

-- A stale execution whose phase is none or the name of a runner phase is counted as detected; it is
-- tried again exactly if an attempt is left under the default matrix, and is otherwise failed; its
-- status is not yet changed.
pub handle_stale_execution_lem :
    (now random : ℕ) (e : TaskExecution) (phase : RunnerPhase) (m : ExecutionMetrics)
    → phase_or_stream e.phase ≡ ok phase
    → let allowed = attempts_allowed (get_policy default_retry_matrix phase) e in
      let (r, e', m') = handle_stale_execution now random e m in
      (e'.status ≡ e.status)
      × (m'.stale_executions_detected ≡ m.stale_executions_detected + 1)
      × (((chosen r ≡ some (retry, none))
            × (current_attempt e < allowed)
            × (e'.attempt ≡ current_attempt e + 1))
          ⊎ ((chosen r ≡ some (failed, some ExecutionStatus.failed))
              × (allowed ≤ current_attempt e)
              × (e'.attempt ≡ e.attempt)))
handle_stale_execution_lem now random e phase m h =
    rw (handle_stale_execution-eq-stale_in_phase now random e phase m h)
      (stale_in_phase_lem now random e phase m (not_in_adoption e.phase phase h))
