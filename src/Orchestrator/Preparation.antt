-- ===== src/Orchestrator/Preparation.antt =====
-- execqueue/orchestrator/main.py, the class `Orchestrator`: the cycle that composes the other parts, and
-- the preparation of one task. The texts of the exceptions are an argument; the faults of the database
-- are one for the lock, and no other statement fails.
pub mod Contexts
pub mod Cycle
pub mod Kept
pub mod Outcomes
mod Examples
use exec_queue.Common.{
  ℕ, ◌+◌, String, Bool, true, false, not, ◌||◌, Option, none, some, List, [], ◌∷◌, ◌++◌, map, null,
  ◌==◌, if◌then◌else◌,
}
use Prim.Native.String.{◌++◌ as ◌+++◌}
use exec_queue.Database.{Table}
use exec_queue.Model.{Task, TaskStatus, backlog, queued, prepared, failed}
use exec_queue.Orchestrator.Classification.{TaskData, classify, classify_batch}
use exec_queue.Orchestrator.Planning.{create_batch_plan}
use exec_queue.Orchestrator.Locking.{FailureReason, LockResult, lock_tasks, release_lock}
use exec_queue.Orchestrator.Recovery.{
  PreparationErrorType, recoverable, conflict, non_recoverable, store,
}
use exec_queue.Orchestrator.Context.{
  PreparedExecutionContext, ContextTask, Built, built, build_context, validate_context,
}
use exec_queue.Orchestrator.Git.{
  Platform, Attempt, done, refused, crashed, GitContext, prepare_context,
}
use exec_queue.Orchestrator.Candidates.{candidate_discovery, find_candidates}

pub record PreparationResult : Type 0 where
  pub task_id : ℕ
  pub task_number : ℕ
  pub success : Bool
  pub context : Option PreparedExecutionContext
  pub error : Option PreparationErrorType
  pub queued_at : Option ℕ

-- The settings of the orchestrator, with the texts of its exceptions.
pub record Orchestrator : Type 0 where
  pub worker_id : String
  pub max_batch_size : ℕ
  pub worktree_root : String
  pub base_repo_path : String
  pub message : PreparationErrorType → String
  pub unexpected : String

-- A context, or the class of the `PreparationError`, where the validation found something.
abbrev pub validated : Built → Attempt PreparedExecutionContext
validated (built c) = if null (validate_context c) then done c else refused non_recoverable
validated (Built.refused k) = refused k

abbrev pub some_context : Attempt GitContext → Attempt (Option GitContext)
some_context (done g) = done (some g)
some_context (refused k) = refused k
some_context crashed = crashed

module _ {S : Type 0} (p : Platform S) (o : Orchestrator) where
  -- The Git context, for a task that writes.
  unfoldable pub git_part : Bool → Task → S → Attempt (Option GitContext) × S
  git_part false t s = (done none, s)
  git_part true t s =
      let (r, s') = prepare_context p o.worktree_root t.id t.task_number none true s in
      (some_context r, s')

  -- The fields of the task that are set from the Git context.
  abbrev pub with_git : Option GitContext → Task → Task
  with_git none t = t
  with_git (some g) t = record t {
    branch_name = some g.branch_name;
    worktree_path = some g.worktree_path;
    commit_sha_before = some g.commit_sha_before;
  }

  abbrev pub of_git : (GitContext → String) → Option GitContext → Option String
  of_git f none = none
  of_git f (some g) = some (f g)

  -- The context of a task.
  unfoldable pub context_part :
      ℕ → String → Bool → Task → Option GitContext → Attempt PreparedExecutionContext
  context_part now batch_id writes t git = validated (
      build_context o.base_repo_path now
        (record {
          task_id = t.id;
          task_number = t.task_number;
          task_type = t.task_type;
          batch_id = some batch_id;
          correlation_id = some ("prep-" +++ p.short_id t.id);
          details = t.details;
        })
        writes (of_git (λ g. g.branch_name) git) (of_git (λ g. g.worktree_path) git)
        (of_git (λ g. g.commit_sha_before) git))

  -- The attempt is counted and its error kept, in both handlers.
  abbrev pub failed_attempt : ℕ → String → Task → Task
  failed_attempt now text t = record t {
    preparation_attempt_count = t.preparation_attempt_count + 1;
    last_preparation_error = some text;
    updated_at = now;
  }

  abbrev failure : Task → PreparationErrorType → PreparationResult
  failure t k = record {
    task_id = t.id;
    task_number = t.task_number;
    success = false;
    context = none;
    error = some k;
    queued_at = none;
  }

  -- The end of `_prepare_task_context`: the success, the handler of `PreparationError`, and the handler
  -- of any other exception. The rows are written before the lock is released.
  unfoldable pub finish :
      Table Task
      → ℕ
      → Attempt PreparedExecutionContext
      → Task
      → List Task
      → PreparationResult × List Task
  finish db now (done c) t rows = (
    record {
      task_id = t.id;
      task_number = t.task_number;
      success = true;
      context = some c;
      error = none;
      queued_at = t.queued_at;
    },
    store
        (record t {
          status = prepared;
          prepared_context_version = some c.version;
          updated_at = now;
        })
        rows,
  )
  finish db now (refused non_recoverable) t rows = (
    failure t non_recoverable,
    store (record (failed_attempt now (o.message non_recoverable) t) { status = failed }) rows,
  )
  finish db now (refused k) t rows = (
    failure t k,
    (release_lock db now false t.id backlog (store (failed_attempt now (o.message k) t) rows)).1,
  )
  finish db now crashed t rows =
      (failure t recoverable, store (failed_attempt now o.unexpected t) rows)

  -- Both parts of the `try` block; the fields that the first part sets stay set if the second fails.
  unfoldable pub after_git :
      Table Task
      → ℕ
      → String
      → Bool
      → Attempt (Option GitContext)
      → Task
      → List Task
      → PreparationResult × List Task
  unfolding context_part finish
  after_git db now batch_id writes (done git) t rows =
      finish db now (context_part now batch_id writes t git) (with_git git t) rows
  after_git db now batch_id writes (refused k) t rows = finish db now (refused k) t rows
  after_git db now batch_id writes crashed t rows = finish db now crashed t rows

  pub prepare_task_context :
      Table Task → ℕ → String → Task → List Task → S → PreparationResult × List Task × S
  unfolding git_part after_git
  prepare_task_context db now batch_id t rows s =
      let c = classify t.id t.task_number t.task_type t.details in
      let (git, s') = git_part c.requires_write_access t s in
      let (result, rows') = after_git db now batch_id c.requires_write_access git t rows in
      (result, rows', s')

  -- The loop over the tasks that the lock reports as locked.
  pub prepare_each :
      Table Task → ℕ → String → List ℕ → List Task → S → List PreparationResult × List Task × S
  prepare_each db now batch_id [] rows s = ([], rows, s)
  prepare_each db now batch_id (i ∷ is) rows s = elim (db.get (λ t. t.id == i) rows) [
    | none ↦ prepare_each db now batch_id is rows s
    | some t ↦
        let (result, rows', s') = prepare_task_context db now batch_id t rows s in
        let (rest, rows'', s'') = prepare_each db now batch_id is rows' s' in
        (result ∷ rest, rows'', s'')
  ]

  -- The results for the tasks that could not be locked.
  pub report_failures : Table Task → List (ℕ × FailureReason) → List Task → List PreparationResult
  report_failures db [] rows = []
  report_failures db ((i, why) ∷ rest) rows =
      let reported = report_failures db rest rows in
      elim (db.get (λ t. t.id == i) rows) [
        | none ↦ reported
        | some t ↦ record (failure t conflict) { task_id = i } ∷ reported
      ]

  abbrev pub data_of : Task → TaskData
  data_of t = record {
    id = t.id;
    number = t.task_number;
    task_type = t.task_type;
    details = t.details;
  }

  -- The cycle; `others` is what other sessions commit between the query and the lock.
  pub run_preparation_cycle :
      Table Task
      → ℕ
      → Bool
      → String
      → (List Task → List Task)
      → List Task
      → S
      → List PreparationResult × List Task × S
  unfolding prepare_each report_failures
  run_preparation_cycle db now fault batch_id others rows s =
      let candidates = find_candidates db (candidate_discovery o.max_batch_size []) [] rows in
      if null candidates
      then ([], others rows, s)
      else (let plan =
            create_batch_plan o.max_batch_size (classify_batch (map data_of candidates)) in
          let (lock, rows') =
            lock_tasks db o.worker_id now fault plan.task_ids batch_id (others rows) in
          let failures =
            if lock.success then [] else report_failures db lock.failure_reasons rows' in
          let (results, rows'', s') = prepare_each db now batch_id lock.locked_task_ids rows' s in
          (failures ++ results, rows'', s'))
