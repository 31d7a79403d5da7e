-- ===== src/Runner/Retry.antt =====
-- execqueue/runner/error_classification.py: the decision whether an execution is tried again, and when.
--
-- The jitter factor is a percentage, and what `random.random()` gives is a number below `random_scale`,
-- of which it is the fraction. So a delay is a whole number of `delay_unit`-ths of a second, with no
-- rounding.
pub mod Bounds
use exec_queue.Common.{
  ℕ, ◌+◌, ◌-◌, ◌*◌, ◌/◌, ◌%◌, ◌^◌, min, String, Bool, true, false, not, ◌&&◌, ◌||◌, Option, none,
  some, ltb, leb, ◌==◌, if◌then◌else◌, contains, or_default, str_eq, Outcome, ok, raise,
  value_error,
}
use exec_queue.Model.{
  ErrorType, transient, permanent, conflict, timeout, contract_violation, validation_failed,
  TaskExecution,
}
use exec_queue.Runner.Errors.{RunnerPhase, PhaseRetryPolicy, RetryMatrix, get_policy, is_retryable}

pub data RetryReason : Type 0 where
  not_retryable : ErrorType → RetryReason
  attempts_exhausted : ℕ → RetryReason
  retry_planned : ℕ → ℕ → RetryReason

pub record RetryDecision : Type 0 where
  pub should_retry : Bool
  pub next_attempt : ℕ
  pub delay : ℕ
  pub next_retry_at : Option ℕ
  pub reason : RetryReason
  pub retry_exhausted : Bool

-- `random.random()` is a multiple of 2 ** -53.
abbrev pub random_scale : ℕ
random_scale = 2 ^ 53

abbrev pub delay_unit : ℕ → ℕ
delay_unit scale = 100 * scale

-- The delay before the jitter, in seconds.
pub backoff_seconds : PhaseRetryPolicy → ℕ → ℕ
backoff_seconds p attempt =
    min (p.base_delay_seconds * p.backoff_multiplier ^ (attempt - 1)) p.max_delay_seconds

-- `delay + delay * jitter_factor * (2 * random.random() - 1)`, not below 0, in parts of a second:
-- `delay_unit scale` of them are a second. Subtraction stops at 0, which is `max(0, delay)`.
pub jittered : ℕ → PhaseRetryPolicy → ℕ → ℕ → ℕ
jittered scale p seconds random =
    seconds * delay_unit scale
    + seconds * p.jitter_percent * (2 * random)
    - seconds * p.jitter_percent * scale

-- `timedelta(seconds=delay)` in microseconds, rounded half to even.
round_half_even : ℕ → ℕ → ℕ
round_half_even n d =
    let q = n / d in
    let r = n % d in if ltb (2 * r) d then q else if ltb d (2 * r) then q + 1 else q + q % 2

pub to_microseconds : ℕ → ℕ → ℕ
unfolding round_half_even
to_microseconds scale delay = round_half_even (delay * 1000000) (delay_unit scale)

unfoldable pub current_attempt : TaskExecution → ℕ
current_attempt e = or_default e.attempt 1

unfoldable pub attempts_allowed : PhaseRetryPolicy → TaskExecution → ℕ
attempts_allowed p e = or_default e.max_attempts p.max_attempts

-- `calculate_retry_decision` at a time and a random number.
unfoldable pub calculate_retry_decision :
    ℕ → ℕ → TaskExecution → ErrorType → RunnerPhase → RetryMatrix → RetryDecision
calculate_retry_decision now random e t phase matrix =
    let p = get_policy matrix phase in
    let attempt = current_attempt e in
    let allowed = attempts_allowed p e in
    let delay = jittered random_scale p (backoff_seconds p attempt) random in
    if not (is_retryable t)
    then record {
      should_retry = false;
      next_attempt = attempt;
      delay = 0;
      next_retry_at = none;
      reason = not_retryable t;
      retry_exhausted = true;
    }
    else if leb allowed attempt
    then record {
      should_retry = false;
      next_attempt = attempt;
      delay = 0;
      next_retry_at = none;
      reason = attempts_exhausted allowed;
      retry_exhausted = true;
    }
    else record {
      should_retry = true;
      next_attempt = attempt + 1;
      delay = delay;
      next_retry_at = some (now + to_microseconds random_scale delay);
      reason = retry_planned (attempt + 1) allowed;
      retry_exhausted = false;
    }
