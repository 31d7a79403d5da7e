-- ===== src/Orchestrator/Recovery/Decided.antt =====
-- What a recovery cycle makes of the table, told without the functions of the code
-- (execqueue/orchestrator/recovery.py).
use exec_queue.Common.{
  ℕ, ◌+◌, ◌≡◌, refl, String, Bool, true, false, not, ◌&&◌, ◌||◌, Option, none, some, List, map, any,
  contains, non_empty, leb, str_eq, arith, if◌then◌else◌, Bool-cases, Option-cases, inl, inr, ◌∙◌,
  ap,
}
use mathlib.Core.Path.{fun_ext}
use exec_queue.Database.{Table}
use exec_queue.Model.{Task, backlog, failed, is_queued}
use exec_queue.Orchestrator.Locking.Safety.{IsKeyed}
use exec_queue.Orchestrator.Recovery.{
  StaleQueuedRecovery, non_recoverable_patterns, classify_preparation, is_stale, recover_task,
  with_status, recovered, run_recovery_cycle,
}
use exec_queue.Orchestrator.Recovery.Cycle.{run_recovery_cycle-eq-map}

-- The task has been queued for the timeout or longer, and the worker that is asked for, if any, has it.
abbrev pub is_overdue : StaleQueuedRecovery → ℕ → Option String → Task → Bool
is_overdue s now worker t =
    is_queued t.status
    && elim t.queued_at [ none ↦ false | some queued ↦ leb (queued + s.stale_timeout) now ]
    && elim worker [
      | none ↦ true
      | some w ↦
          not (non_empty w) || elim t.locked_by [ none ↦ false | some holder ↦ str_eq holder w ]
    ]

-- The last error, in lower case, has one of the patterns that rule a recovery out.
abbrev pub is_hopeless : (String → String) → Option String → Bool
is_hopeless lower none = false
is_hopeless lower (some message) =
    non_empty message && any (λ pattern. contains pattern (lower message)) non_recoverable_patterns

-- A task whose attempts are used up, or with such an error, has failed; any other starts anew.
abbrev pub decided : (String → String) → StaleQueuedRecovery → ℕ → Task → Task
decided lower s now t =
    if leb s.max_attempts t.preparation_attempt_count || is_hopeless lower t.last_preparation_error
    then record t { status = failed; queued_at = none; locked_by = none; updated_at = now }
    else record t {
      status = backlog;
      queued_at = none;
      locked_by = none;
      preparation_attempt_count = 0;
      last_preparation_error = none;
      updated_at = now;
    }

is_overdue_lem :
    (s : StaleQueuedRecovery) (now : ℕ) (worker : Option String) (t : Task)
    → is_stale s now worker t ≡ is_overdue s now worker t
unfolding is_stale
is_overdue_lem s now worker t = elim (Option-cases t.queued_at) [
  | inl never ↦ ground (arith, never)
  | inr (queued, at) ↦ elim (Option-cases worker) [
    | inl anyone ↦ ground (arith, at, anyone)
    | inr (w, asked) ↦ elim (Option-cases t.locked_by) [
      | inl free ↦ ground (arith, at, asked, free)
      | inr (holder, held) ↦ ground (arith, at, asked, held)
    ]
  ]
]

recovered_lem :
    (lower : String → String) (s : StaleQueuedRecovery) (now : ℕ) (t : Task)
    → recovered lower s now t ≡ decided lower s now t
unfolding recovered recover_task classify_preparation with_status
recovered_lem lower s now t = elim (Bool-cases (leb s.max_attempts t.preparation_attempt_count)) [
  | inl used ↦ ground (arith, used)
  | inr left ↦ elim (Option-cases t.last_preparation_error) [
    | inl unknown ↦ ground (arith, left, unknown)
    | inr (message, known) ↦ ground (arith, left, known)
  ]
]

-- If no two tasks share an identifier, then in whatever order the query gives them, the cycle changes
-- exactly the tasks that have been queued for the timeout or longer, of the worker if one is named. One
-- whose attempts are used up, or whose last error has a pattern that rules a recovery out, has failed
-- and keeps its attempts and its error; any other is back in the backlog without attempts and error.
-- Both are unlocked and no longer queued.
pub run_recovery_cycle_lem :
    (lower : String → String) (db : Table Task) (s : StaleQueuedRecovery) (now : ℕ)
    (worker : Option String) (rows : List Task)
    → IsKeyed rows
    → (run_recovery_cycle lower db s now worker rows).1
      ≡ map (λ t. if is_overdue s now worker t then decided lower s now t else t) rows
run_recovery_cycle_lem lower db s now worker rows keyed =
    run_recovery_cycle-eq-map lower db s now worker rows keyed
    ∙ ap (λ f. map f rows)
        (fun_ext λ t. rw (is_overdue_lem s now worker t, recovered_lem lower s now t) refl)
