-- ===== src/Runner/Errors.antt =====
-- execqueue/runner/error_classification.py: the classes of errors, the retry policy of each phase,
-- and the classification of an exception. `str.lower` is the parameter `lower`; durations of the policies
-- are whole seconds, and the jitter factor is a percentage.
pub mod Classify
mod Examples
use exec_queue.Common.{
  ℕ, ◌+◌, ◌-◌, ◌*◌, ◌/◌, ◌%◌, ◌^◌, min, String, Bool, true, false, not, ◌&&◌, ◌||◌, Option, none,
  some, ltb, leb, ◌==◌, if◌then◌else◌, contains, or_default, str_eq, Outcome, ok, raise,
  value_error,
}
use exec_queue.Model.{
  ErrorType, transient, permanent, conflict, timeout, contract_violation, validation_failed,
  TaskExecution,
}

unfoldable pub is_retryable : ErrorType → Bool
is_retryable transient = true
is_retryable timeout = true
is_retryable _ = false

pub severity : ErrorType → ℕ
severity transient = 1
severity timeout = 2
severity validation_failed = 3
severity contract_violation = 4
severity conflict = 5
severity permanent = 6

pub data RunnerPhase : Type 0 where
  claim session dispatch stream result adoption : RunnerPhase

-- `RunnerPhase(text)` raises `ValueError` on a text that is the value of no member.
unfoldable pub runner_phase : String → Outcome RunnerPhase
runner_phase text =
    if str_eq text "claim"
    then ok claim
    else if str_eq text "session"
    then ok session
    else if str_eq text "dispatch"
    then ok dispatch
    else if str_eq text "stream"
    then ok stream
    else if str_eq text "result"
    then ok result
    else if str_eq text "adoption"
    then ok adoption
    else raise value_error

pub record PhaseRetryPolicy : Type 0 where
  pub max_attempts : ℕ
  pub base_delay_seconds : ℕ
  pub max_delay_seconds : ℕ
  pub backoff_multiplier : ℕ
  pub jitter_percent : ℕ

-- The defaults of the last two fields.
abbrev policy : ℕ → ℕ → ℕ → PhaseRetryPolicy
policy attempts base max_delay = record {
  max_attempts = attempts;
  base_delay_seconds = base;
  max_delay_seconds = max_delay;
  backoff_multiplier = 2;
  jitter_percent = 10;
}

pub record RetryMatrix : Type 0 where
  pub claim_policy : PhaseRetryPolicy
  pub session_policy : PhaseRetryPolicy
  pub dispatch_policy : PhaseRetryPolicy
  pub stream_policy : PhaseRetryPolicy
  pub result_policy : PhaseRetryPolicy
  pub adoption_policy : PhaseRetryPolicy

abbrev pub default_retry_matrix : RetryMatrix
default_retry_matrix = record {
  claim_policy = policy 3 1 30;
  session_policy = policy 3 2 60;
  dispatch_policy = policy 3 5 120;
  stream_policy = policy 2 10 300;
  result_policy = policy 2 5 120;
  adoption_policy = policy 2 10 300;
}

pub get_policy : RetryMatrix → RunnerPhase → PhaseRetryPolicy
get_policy m claim = m.claim_policy
get_policy m session = m.session_policy
get_policy m dispatch = m.dispatch_policy
get_policy m stream = m.stream_policy
get_policy m result = m.result_policy
get_policy m adoption = m.adoption_policy

-- The classes that `classify_error` tests for; `other` is every other class.
pub data ExceptionClass : Type 0 where
  asyncio_timeout httpx_timeout connection_error httpx_connect conflict_error : ExceptionClass
  value_or_validation_error contract_violation_error other : ExceptionClass
  http_status_error : ℕ → ExceptionClass

pub record PyException : Type 0 where
  pub exception_class : ExceptionClass
  pub message : String

abbrev is_timeout_class : ExceptionClass → Bool
is_timeout_class asyncio_timeout = true
is_timeout_class httpx_timeout = true
is_timeout_class _ = false

abbrev is_connection_class : ExceptionClass → Bool
is_connection_class connection_error = true
is_connection_class httpx_connect = true
is_connection_class _ = false

abbrev is_conflict_error : ExceptionClass → Bool
is_conflict_error conflict_error = true
is_conflict_error _ = false

abbrev is_validation_class : ExceptionClass → Bool
is_validation_class value_or_validation_error = true
is_validation_class _ = false

abbrev is_contract_violation : ExceptionClass → Bool
is_contract_violation contract_violation_error = true
is_contract_violation _ = false

-- The branch on the status code; `none` goes on with the tests below it.
classify_status : ExceptionClass → Option ErrorType
classify_status (http_status_error code) =
    if leb 400 code && ltb code 500
    then some (
        if code == 409
        then conflict
        else if code == 422
        then validation_failed
        else if code == 408
        then timeout
        else permanent)
    else if leb 500 code && ltb code 600
    then some transient
    else none
classify_status _ = none

-- The tests below the status code.
classify_rest : String → ErrorType
classify_rest msg =
    if contains "dns" msg || contains "resolve" msg
    then transient
    else if contains "resource" msg && contains "exhausted" msg
    then transient
    else if contains "busy" msg || contains "too many" msg
    then transient
    else permanent

-- The tests for contract violations and below.
classify_contract : ExceptionClass → String → ErrorType
unfolding classify_status classify_rest
classify_contract c msg =
    if is_contract_violation c
    then contract_violation
    else if (contains "contract" msg || contains "schema" msg) && contains "invalid" msg
    then contract_violation
    else elim (classify_status c) [ some t ↦ t | none ↦ classify_rest msg ]

-- The tests for conflicts and below.
classify_conflict : ExceptionClass → String → ErrorType
unfolding classify_contract
classify_conflict c msg =
    if is_conflict_error c
    then conflict
    else if contains "conflict" msg
    then conflict
    else if contains "merge conflict" msg || contains "already exists" msg
    then conflict
    else if is_validation_class c
    then validation_failed
    else if (contains "validation" msg || contains "invalid" msg) && not (contains "conflict" msg)
    then validation_failed
    else classify_contract c msg

-- `classify_error`; its phase and its context are not read.
pub classify_error : (String → String) → PyException → ErrorType
unfolding classify_conflict
classify_error lower e =
    let msg = lower e.message in
    let c = e.exception_class in
    if is_timeout_class c
    then timeout
    else if contains "timeout" msg || contains "timed out" msg
    then timeout
    else if is_connection_class c
    then transient
    else if contains "connection" msg && contains "refused" msg
    then transient
    else if contains "network" msg || contains "unreachable" msg
    then transient
    else classify_conflict c msg
