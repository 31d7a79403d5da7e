-- ===== src/Runner/Recovery/Processing.antt =====
-- execqueue/runner/recovery.py: how the decisions about stale executions are written to the database,
-- and the events for them.
use exec_queue.Common.{
  ℕ, ◌≡◌, ◌+◌, String, Bool, true, false, Option, none, some, List, [], ◌∷◌, ◌++◌, map, refl, arith,
  if◌then◌else◌, str_eq, Outcome, ok, raise, attribute_error, ◌>>=◌, is_ok,
}
use mathlib.Core.Path.{ap₂}
use exec_queue.Database.{Table, maximum, top}
use exec_queue.Model.{
  ExecutionStatus, TaskExecution, TaskExecutionEvent, EventType, status_update, execution_failed,
  commit_adoption_conflict, retry_scheduled, retry_exhausted,
}
use exec_queue.Observability.{ExecutionMetrics}
use exec_queue.Runner.Staleness.{StaleThresholds, is_watched, find_stale_executions}
use exec_queue.Runner.Recovery.{
  RecoveryAction, observe, retry, review, failed, revalidate_adoption, RecoveryDecision,
  handle_stale_execution,
}

-- An execution in a session: the object, the row that was last committed, and its events.
pub record Tracked : Type 0 where
  pub execution : TaskExecution
  pub committed : TaskExecution
  pub events : List TaskExecutionEvent

-- `RecoveryAction.NAME`, which raises `AttributeError` for a name that is no member.
member : String → Outcome RecoveryAction
member name =
    if str_eq name "OBSERVE"
    then ok observe
    else if str_eq name "RETRY"
    then ok retry
    else if str_eq name "REVIEW"
    then ok review
    else if str_eq name "FAILED"
    then ok failed
    else if str_eq name "REVALIDATE_ADOPTION"
    then ok revalidate_adoption
    else raise attribute_error

abbrev same_action : RecoveryAction → RecoveryAction → Bool
same_action observe observe = true
same_action retry retry = true
same_action review review = true
same_action failed failed = true
same_action revalidate_adoption revalidate_adoption = true
same_action _ _ = false

-- `dict.get(action, default)` of a dictionary display; a later entry wins.
lookup_event : RecoveryAction → EventType → List (RecoveryAction × EventType) → EventType
lookup_event a found [] = found
lookup_event a found ((b, t) ∷ rest) = lookup_event a (if same_action a b then t else found) rest

-- The dictionary of `_apply_recovery_decision`, read from its first entry to its last.
event_table : Outcome (List (RecoveryAction × EventType))
unfolding member
event_table = do
  a ← member "RETRY"
  b ← member "RETRY_EXHAUSTED"
  c ← member "FAILED"
  d ← member "REVIEW"
  e ← member "REVALIDATE_ADOPTION"
  ok (
      (a, retry_scheduled)
      ∷ (b, retry_exhausted)
      ∷ (c, execution_failed)
      ∷ (d, execution_failed)
      ∷ (e, commit_adoption_conflict)
      ∷ [])

-- `execution.events[-1].sequence + 1 if execution.events else 1`
next_sequence : ℕ → List TaskExecutionEvent → ℕ
next_sequence n [] = n
next_sequence n (e ∷ es) = next_sequence (e.sequence + 1) es

abbrev set_status : ℕ → TaskExecution → Option ExecutionStatus → TaskExecution
set_status now e none = e
set_status now e (some ExecutionStatus.failed) = record e {
  status = ExecutionStatus.failed;
  finished_at = some now;
}
set_status now e (some ExecutionStatus.review) = record e {
  status = ExecutionStatus.review;
  finished_at = some now;
}
set_status now e (some s) = record e { status = s }

abbrev set_retry : TaskExecution → Option ℕ → TaskExecution
set_retry e none = e
set_retry e (some time) = record e { next_retry_at = some time }

-- `_apply_recovery_decision` once the table is there: the event, the fields, the commit.
write_decision :
    ℕ
    → RecoveryDecision
    → Tracked
    → List (RecoveryAction × EventType)
    → Outcome (Unit {0}) × Tracked
unfolding lookup_event next_sequence
write_decision now d t table =
    let kind = lookup_event d.action status_update table in
    let event : TaskExecutionEvent = record {
      execution_id = t.execution.id;
      sequence = next_sequence 1 t.events;
      event_type = kind;
    } in
    let e =
      if d.should_update_status then set_status now t.execution d.new_status else t.execution in
    let e' = set_retry e d.next_retry_at in
    (ok tt, record { execution = e'; committed = e'; events = t.events ++ event ∷ [] })

pub apply_recovery_decision : ℕ → RecoveryDecision → Tracked → Outcome (Unit {0}) × Tracked
unfolding event_table write_decision
apply_recovery_decision now d t = elim event_table [
  | ok table ↦ write_decision now d t table
  | raise x ↦ (raise x, t)
]

abbrev applied :
    ℕ → Tracked → ExecutionMetrics → Outcome RecoveryDecision → Bool × Tracked × ExecutionMetrics
applied now t m (raise x) = (false, t, m)
applied now t m (ok d) = let (r, t') = apply_recovery_decision now d t in (is_ok r, t', m)

-- One round of the loop of `process_stale_executions`: whether it was counted, the execution and the
-- counters. An exception is logged, and what was changed before it stays changed.
process_one : ℕ → ℕ → Tracked → ExecutionMetrics → Bool × Tracked × ExecutionMetrics
process_one now random t m =
    let (r, e, m') = handle_stale_execution now random t.execution m in
    applied now (record t { execution = e }) m' r

-- The loop; a round draws the random number of its execution's identifier.
process_each : ℕ → (ℕ → ℕ) → List Tracked → ExecutionMetrics → ℕ × List Tracked × ExecutionMetrics
unfolding process_one
process_each now random [] m = (0, [], m)
process_each now random (t ∷ ts) m =
    let (counted, t', m') = process_one now (random t.execution.id) t m in
    let (n, ts', m'') = process_each now random ts m' in
    (if counted then n + 1 else n, t' ∷ ts', m'')

-- What is processed, the executions that the query found as the loop leaves them, and the counters.
pub process_stale_executions :
    Table Tracked
    → StaleThresholds
    → ℕ
    → (ℕ → ℕ)
    → List Tracked
    → ExecutionMetrics
    → ℕ × List Tracked × ExecutionMetrics
unfolding process_each
process_stale_executions db th now random rows m =
    process_each now random (find_stale_executions (λ t. t.committed) db th now is_watched rows) m

-- `create_recovery_event`, whose number is one more than the largest of the execution's.
pub create_recovery_event : RecoveryAction → Tracked → TaskExecutionEvent
create_recovery_event action t = record {
  execution_id = t.execution.id;
  sequence = top (maximum (map (λ v. v.sequence) t.events)) + 1;
  event_type = elim action [
    | retry ↦ retry_scheduled
    | failed ↦ retry_exhausted
    | _ ↦ status_update
  ];
}

apply_recovery_decision_lem :
    (now : ℕ) (d : RecoveryDecision) (t : Tracked)
    → apply_recovery_decision now d t ≡ (raise attribute_error, t)
unfolding apply_recovery_decision
apply_recovery_decision_lem now d t = refl

process_one_lem :
    (now random : ℕ) (t : Tracked) (m : ExecutionMetrics)
    → let (counted, t', m') = process_one now random t m in
      (counted ≡ false) × (t'.committed ≡ t.committed) × (t'.events ≡ t.events)
unfolding process_one apply_recovery_decision
process_one_lem now random t m = ground arith

process_each_lem :
    (now : ℕ) (random : ℕ → ℕ) (ts : List Tracked) (m : ExecutionMetrics)
    → let (n, ts', m') = process_each now random ts m in
      (n ≡ 0)
      × (map (λ t. t.committed) ts' ≡ map (λ t. t.committed) ts)
      × (map (λ t. t.events) ts' ≡ map (λ t. t.events) ts)
unfolding process_each
process_each_lem now random [] m = (refl, refl, refl)
process_each_lem now random (t ∷ ts) m =
    let (counted, t', m') = process_one now (random t.execution.id) t m in
    let (none_counted, same_row, same_events) = process_one_lem now (random t.execution.id) t m in
    let (n, rows, events) = process_each_lem now random ts m' in
    (rw none_counted n, ap₂ ◌∷◌ same_row rows, ap₂ ◌∷◌ same_events events)

-- Whatever stale executions the query finds, none is processed: none is counted, no row is committed
-- and no event is written.
pub process_stale_executions_lem :
    (db : Table Tracked) (th : StaleThresholds) (now : ℕ) (random : ℕ → ℕ) (rows : List Tracked)
    (m : ExecutionMetrics)
    → let found = find_stale_executions (λ t. t.committed) db th now is_watched rows in
      let (n, ts, m') = process_stale_executions db th now random rows m in
      (n ≡ 0)
      × (map (λ t. t.committed) ts ≡ map (λ t. t.committed) found)
      × (map (λ t. t.events) ts ≡ map (λ t. t.events) found)
unfolding process_stale_executions
process_stale_executions_lem db th now random rows m =
    process_each_lem now random (find_stale_executions (λ t. t.committed) db th now is_watched rows)
      m
