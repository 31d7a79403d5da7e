-- ===== src/Orchestrator/Recovery/Decision.antt =====
-- What is decided about one stale task, and about all of them (execqueue/orchestrator/recovery.py).
use exec_queue.Common.{
  ℕ, ◌≤◌, ◌<◌, ◌≡◌, ◌⊎◌, ◌≢◌, ◌+◌, leb, refl, String, true, false, Option, some, List, [], ◌∷◌, map,
  count, arith, if◌then◌else◌, truthy, inl, inr, Bool-cases,
}
use exec_queue.Database.{Table}
use exec_queue.Model.{Task, TaskStatus, backlog, failed}
use exec_queue.Orchestrator.Locking.Safety.{IsKeyed}
use exec_queue.Orchestrator.Recovery.{
  with_status, retry_exhaustion, by_type, type_of_last, PreparationErrorType, recoverable, conflict,
  non_recoverable, classify_preparation, matches, non_recoverable_patterns, conflict_patterns,
  StaleQueuedRecovery, is_stale, recovered, recover_task, run_recovery_cycle,
}
use exec_queue.Orchestrator.Recovery.Cycle.{run_recovery_cycle-eq-map}

-- A task is failed exactly if its attempts are used up or its last error has a pattern of an error that
-- cannot be recovered from; otherwise it returns to the backlog.
pub recover_task_lem :
    (lower : String → String) (s : StaleQueuedRecovery) (t : Task) (message : String)
    → truthy (some message) ≡ true
    → let status = (recover_task lower s t (some message)).0 in
      ((status ≡ failed)
        × ((s.max_attempts ≤ t.preparation_attempt_count)
            ⊎ (matches non_recoverable_patterns (lower message) ≡ true)))
      ⊎ ((status ≡ backlog)
          × (t.preparation_attempt_count < s.max_attempts)
          × (matches non_recoverable_patterns (lower message) ≡ false))
unfolding recover_task classify_preparation
recover_task_lem lower s t message h =
    elim (Bool-cases (matches non_recoverable_patterns (lower message))) [
      | inl bad ↦ ground (arith, h, bad)
      | inr fine ↦ elim (Bool-cases (matches conflict_patterns (lower message))) [
        | inl taken ↦ ground (arith, h, fine, taken)
        | inr free ↦ ground (arith, h, fine, free)
      ]
    ]

-- A recovered task is not queued, so it is not stale at any time.
recovered_not-is_stale :
    (lower : String → String) (s : StaleQueuedRecovery) (now later : ℕ) (worker : Option String)
    (t : Task)
    → is_stale s later worker (recovered lower s now t) ≡ false
unfolding is_stale recovered recover_task with_status
recovered_not-is_stale lower s now later worker t =
    elim (Bool-cases (leb s.max_attempts t.preparation_attempt_count)) [
      | inl used ↦ ground (arith, used)
      | inr left ↦ ground (arith, left)
    ]

none_stale :
    (lower : String → String) (s : StaleQueuedRecovery) (now : ℕ) (worker : Option String)
    (rows : List Task)
    → count
        (is_stale s now worker)
        (map (λ t. if is_stale s now worker t then recovered lower s now t else t) rows)
      ≡ 0
none_stale lower s now worker [] = refl
none_stale lower s now worker (t ∷ ts) = elim (Bool-cases (is_stale s now worker t)) [
  | inl stale ↦ ground (
    arith,
    stale,
    recovered_not-is_stale lower s now now worker t,
    none_stale lower s now worker ts,
  )
  | inr live ↦ ground (arith, live, none_stale lower s now worker ts)
]

-- If no two tasks share an identifier, then after a cycle no task is stale for the time and the worker
-- of the cycle.
pub run_recovery_cycle-is_stale :
    (lower : String → String) (db : Table Task) (s : StaleQueuedRecovery) (now : ℕ)
    (worker : Option String) (rows : List Task)
    → IsKeyed rows
    → count (is_stale s now worker) (run_recovery_cycle lower db s now worker rows).1 ≡ 0
run_recovery_cycle-is_stale lower db s now worker rows keyed =
    rw (run_recovery_cycle-eq-map lower db s now worker rows keyed)
      (none_stale lower s now worker rows)

with_status-reset :
    (now : ℕ) (status : TaskStatus) (t : Task)
    → (with_status now status t).status ≡ backlog
    → (with_status now status t).preparation_attempt_count ≡ 0
unfolding with_status
with_status-reset now TaskStatus.backlog t h = refl
with_status-reset now _ t h = cc

by_type-ne-retry_exhaustion : (k : PreparationErrorType) → (by_type k).1 ≢ retry_exhaustion
by_type-ne-retry_exhaustion recoverable h = cc
by_type-ne-retry_exhaustion conflict h = cc
by_type-ne-retry_exhaustion non_recoverable h = cc

recover_task-exhausted :
    (lower : String → String) (s : StaleQueuedRecovery) (t : Task) (e : Option String)
    → (recover_task lower s t e).1 ≡ retry_exhaustion
    → s.max_attempts ≤ t.preparation_attempt_count
unfolding recover_task
recover_task-exhausted lower s t e h =
    ground (arith, by_type-ne-retry_exhaustion (type_of_last lower e))

-- A task that the recovery returns to the backlog starts anew: with one more failed preparation after
-- it, a second recovery does not find its attempts used up, if more than one attempt is allowed.
pub recovered-ne-retry_exhaustion :
    (lower : String → String) (s : StaleQueuedRecovery) (now : ℕ) (t t' : Task) (e : Option String)
    → 1 < s.max_attempts
    → (recovered lower s now t).status ≡ backlog
    → t'.preparation_attempt_count ≡ (recovered lower s now t).preparation_attempt_count + 1
    → (recover_task lower s t' e).1 ≢ retry_exhaustion
unfolding recovered
recovered-ne-retry_exhaustion lower s now t t' e many back once h =
    let status = (recover_task lower s t t.last_preparation_error).0 in
    omega (arith, once, recover_task-exhausted lower s t' e h, with_status-reset now status t back)
