-- ===== src/Runner/Recovery/Bounded.antt =====
-- An execution is not tried again without end (execqueue/runner/recovery.py).
use exec_queue.Common.{
  ℕ, suc, ◌+◌, ◌≤◌, ◌<◌, ◌≡◌, String, Bool, true, false, some, none, List, [], ◌∷◌, arith,
  if◌then◌else◌, max, Option,
}
use exec_queue.Model.{TaskExecution, ExecutionStatus}
use exec_queue.Observability.{ExecutionMetrics}
use exec_queue.Runner.Errors.{RunnerPhase, RetryMatrix, PyException}
use exec_queue.Runner.Retry.{attempts_allowed, current_attempt}
use exec_queue.Runner.Recovery.{RecoveryAction, retry, chosen, handle_error, after_decision}
use exec_queue.Runner.Recovery.Errors.{handle_error_lem}

abbrev is_retry : Option (RecoveryAction × Option ExecutionStatus) → Bool
is_retry none = false
is_retry (some (a, s)) = elim a [ retry ↦ true | _ ↦ false ]

-- A failure: the time, the random number, the exception and the phase.
abbrev pub Failure : Type 0
Failure = ℕ × ℕ × PyException × RunnerPhase

-- How often a run of failures of one execution is answered by a retry.
pub retries : (String → String) → RetryMatrix → TaskExecution → List Failure → ExecutionMetrics → ℕ
retries lower matrix e [] m = 0
retries lower matrix e ((now, random, x, phase) ∷ rest) m =
    let (r, e', m') = handle_error lower matrix now random e x phase m in
    let more = retries lower matrix e' rest m' in if is_retry (chosen r) then suc more else more

max_attempts_kept :
    (lower : String → String) (matrix : RetryMatrix) (now random : ℕ) (e : TaskExecution)
    (x : PyException) (phase : RunnerPhase) (m : ExecutionMetrics)
    → (handle_error lower matrix now random e x phase m).1.max_attempts ≡ e.max_attempts
unfolding handle_error after_decision
max_attempts_kept lower matrix now random e x phase m = ground arith

one_failure :
    (lower : String → String) (matrix : RetryMatrix) (now random : ℕ) (e : TaskExecution)
    (x : PyException) (phase : RunnerPhase) (m : ExecutionMetrics) (k : ℕ)
    → 0 < e.max_attempts
    → let (r, e', m') = handle_error lower matrix now random e x phase m in
      k + current_attempt e' ≤ max (current_attempt e') e.max_attempts
      → (if is_retry (chosen r) then suc k else k) + current_attempt e
        ≤ max (current_attempt e) e.max_attempts
unfolding attempts_allowed current_attempt
one_failure lower matrix now random e x phase m k h bound =
    ground (arith, handle_error_lem lower matrix now random e x phase m)

-- However often an execution with a maximum of attempts fails, and however, it is given at most as
-- many retries as attempts were left.
pub retries_bounded :
    (lower : String → String) (matrix : RetryMatrix) (e : TaskExecution) (failures : List Failure)
    (m : ExecutionMetrics)
    → 0 < e.max_attempts
    → retries lower matrix e failures m + current_attempt e ≤ max (current_attempt e) e.max_attempts
unfolding retries
retries_bounded lower matrix e [] m h = omega arith
retries_bounded lower matrix e ((now, random, x, phase) ∷ rest) m h =
    let (r, e', m') = handle_error lower matrix now random e x phase m in
    let kept = max_attempts_kept lower matrix now random e x phase m in
    one_failure lower matrix now random e x phase m (retries lower matrix e' rest m') h
      (rw kept at (retries_bounded lower matrix e' rest m' (omega (arith, kept))))
