-- ===== src/Orchestrator/Recovery.antt =====
-- execqueue/orchestrator/recovery.py: the class of a preparation error, and what becomes of tasks that
-- stay queued. The error types stand in execqueue/orchestrator/models.py. The query gives the objects of
-- the session; a change of one is the new row with its identifier.
pub mod Cycle
pub mod Decision
pub mod Decided
mod Examples
use exec_queue.Common.{
  ℕ, ◌+◌, ◌*◌, String, Bool, true, false, ◌&&◌, Option, none, some, List, [], ◌∷◌, map, leb, ◌==◌,
  str_eq, truthy, contains, any, if◌then◌else◌,
}
use exec_queue.Database.{Table}
use exec_queue.Model.{Task, TaskStatus, backlog, failed, is_queued, is_backlog}

pub data PreparationErrorType : Type 0 where
  recoverable conflict non_recoverable : PreparationErrorType

abbrev pub recoverable_patterns : List String
recoverable_patterns =
    "timeout" ∷ "temporary" ∷ "connection" ∷ "network" ∷ "lock" ∷ "resource temporarily unavailable"
    ∷ []

abbrev pub conflict_patterns : List String
conflict_patterns =
    "branch already exists" ∷ "worktree already exists" ∷ "dirty" ∷ "conflict" ∷ "blocked" ∷ []

abbrev pub non_recoverable_patterns : List String
non_recoverable_patterns =
    "invalid" ∷ "not found" ∷ "permission denied" ∷ "security" ∷ "validation failed" ∷ "malformed"
    ∷ []

-- One loop of `classify_error`: whether a pattern of the list is in the message.
abbrev pub matches : List String → String → Bool
matches patterns message = any (λ p. contains p message) patterns

-- `PreparationErrorClassifier.classify_error`, where `lower` stands for `str.lower`.
pub classify_preparation : (String → String) → String → PreparationErrorType
classify_preparation lower message =
    let message_lower = lower message in
    if matches non_recoverable_patterns message_lower
    then non_recoverable
    else if matches conflict_patterns message_lower
    then conflict
    else if matches recoverable_patterns message_lower
    then recoverable
    else recoverable

-- `StaleQueuedRecovery`, with the timeout in microseconds.
pub record StaleQueuedRecovery : Type 0 where
  pub stale_timeout : ℕ
  pub max_attempts : ℕ

abbrev pub stale_queued_recovery : ℕ → ℕ → StaleQueuedRecovery
stale_queued_recovery minutes attempts = record {
  stale_timeout = minutes * 60000000;
  max_attempts = attempts;
}

-- `queued_at <= now - stale_timeout`, which is false for NULL.
abbrev queued_before : ℕ → ℕ → Option ℕ → Bool
queued_before timeout now none = false
queued_before timeout now (some t) = leb (t + timeout) now

abbrev locked_by_worker : Option String → Option String → Bool
locked_by_worker none holder = true
locked_by_worker (some w) none = if truthy (some w) then false else true
locked_by_worker (some w) (some h) = if truthy (some w) then str_eq h w else true

-- The WHERE clause of `find_stale_tasks`.
unfoldable pub is_stale : StaleQueuedRecovery → ℕ → Option String → Task → Bool
is_stale s now worker t =
    is_queued t.status
    && queued_before s.stale_timeout now t.queued_at
    && locked_by_worker worker t.locked_by

pub find_stale_tasks : Table Task → StaleQueuedRecovery → ℕ → Option String → List Task → List Task
find_stale_tasks db s now worker rows = db.select_where (is_stale s now worker) rows

pub data RecoveryReason : Type 0 where
  retry_exhaustion non_recoverable_error conflict_retry recoverable_error : RecoveryReason

abbrev pub type_of_last : (String → String) → Option String → PreparationErrorType
type_of_last lower none = recoverable
type_of_last lower (some e) = if truthy (some e) then classify_preparation lower e else recoverable

abbrev pub by_type : PreparationErrorType → TaskStatus × RecoveryReason
by_type non_recoverable = (failed, non_recoverable_error)
by_type conflict = (backlog, conflict_retry)
by_type recoverable = (backlog, recoverable_error)

pub recover_task :
    (String → String) → StaleQueuedRecovery → Task → Option String → TaskStatus × RecoveryReason
unfolding classify_preparation
recover_task lower s task last_error =
    let error_type = type_of_last lower last_error in
    if leb s.max_attempts task.preparation_attempt_count
    then (failed, retry_exhaustion)
    else by_type error_type

-- The fields that the loop of `run_recovery_cycle` sets.
unfoldable pub with_status : ℕ → TaskStatus → Task → Task
with_status now status t = record t {
  status = status;
  queued_at = none;
  locked_by = none;
  preparation_attempt_count = if is_backlog status then 0 else t.preparation_attempt_count;
  last_preparation_error = if is_backlog status then none else t.last_preparation_error;
  updated_at = now;
}

-- One round of the loop: the task after it.
unfoldable pub recovered : (String → String) → StaleQueuedRecovery → ℕ → Task → Task
unfolding with_status
recovered lower s now t =
    let (status, why) = recover_task lower s t t.last_preparation_error in with_status now status t

-- The new row of an object of the session.
abbrev pub store : Task → List Task → List Task
store t = map (λ r. if r.id == t.id then t else r)

unfoldable pub recover_each :
    (String → String)
    → StaleQueuedRecovery
    → ℕ
    → List Task
    → List Task
    → List (Task × TaskStatus × RecoveryReason) × List Task
unfolding recovered
recover_each lower s now [] rows = ([], rows)
recover_each lower s now (t ∷ ts) rows =
    let (status, why) = recover_task lower s t t.last_preparation_error in
    let t' = recovered lower s now t in
    let (results, rows') = recover_each lower s now ts (store t' rows) in
    ((t', status, why) ∷ results, rows')

-- The results, and the rows after the commit.
pub run_recovery_cycle :
    (String → String)
    → Table Task
    → StaleQueuedRecovery
    → ℕ
    → Option String
    → List Task
    → List (Task × TaskStatus × RecoveryReason) × List Task
unfolding recover_each
run_recovery_cycle lower db s now worker rows =
    recover_each lower s now (find_stale_tasks db s now worker rows) rows
