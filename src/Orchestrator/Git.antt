-- ===== src/Orchestrator/Git.antt =====
-- execqueue/orchestrator/git_context.py, the class `GitContextPreparer`. Git, the file system and the
-- text of numbers are not code of the repository: they are the record `Platform`, over a type of states
-- of the disk. The call that makes the root directory when the class is built, and `_worktree_exists`,
-- which nothing calls, are left out.
mod Examples
pub mod NewBranch
pub mod Worktree
use text.Mathlib.Text.{starts_with}
use Prim.Native.String.{◌++◌ as ◌+++◌}
use exec_queue.Common.{
  ℕ, zero, suc, String, Bool, true, false, not, ◌||◌, ◌&&◌, Option, none, some, List, [], ◌∷◌,
  length, ltb, leb, ◌==◌, non_empty, contains, if◌then◌else◌,
}
use exec_queue.Orchestrator.RefName.{validate_ref_name}
use exec_queue.Orchestrator.Recovery.{PreparationErrorType, recoverable, conflict, non_recoverable}

-- How `subprocess.run` ends: with a return code and the standard output, at the timeout, or with another
-- exception (Git is not there, the directory is not there).
pub data Ran : Type 0 where
  exited : ℕ → String → Ran
  timed_out not_started : Ran

pub record Platform (S : Type 0) : Type 0 where
  -- `git` with arguments in a directory, or in the base repository
  pub run : List String → Option String → S → Ran × S
  -- `Path.exists` and `Path.resolve`, where an error of the latter is `none`
  pub exists : S → String → Bool
  pub resolve : S → String → Option String
  -- `root / name` and `str.strip`
  pub join : String → String → String
  pub strip : String → String
  -- the text of a number, and the first eight digits of an identifier
  pub decimal : ℕ → String
  pub short_id : ℕ → String

-- A value, the class of the `PreparationError` that is raised, or another exception.
pub data Attempt (A : Type 0) : Type 0 where
  done : A → Attempt A
  refused : PreparationErrorType → Attempt A
  crashed : Attempt A

pub record GitContext : Type 0 where
  pub branch_name : String
  pub worktree_path : String
  pub commit_sha_before : String
  pub created : Bool

-- One call after another: an exception ends the chain.
abbrev pub and_then : {S A B : Type 0} → Attempt A × S → (A → S → Attempt B × S) → Attempt B × S
and_then (done a, s) f = f a s
and_then (refused k, s) f = (refused k, s)
and_then (crashed, s) f = (crashed, s)

-- What `_run_git_command` makes of the end of a command.
abbrev pub command_result : Bool → Ran → Attempt String
command_result check (exited zero out) = done out
command_result check (exited (suc n) out) = if check then refused non_recoverable else done out
command_result check timed_out = refused recoverable
command_result check not_started = crashed

module _ {S : Type 0} (p : Platform S) where
  unfoldable pub run_git_command : List String → Option String → Bool → S → Attempt String × S
  run_git_command args cwd check s = let (r, s') = p.run args cwd s in (command_result check r, s')

  unfoldable pub generate_branch_name : ℕ → ℕ → String
  generate_branch_name task_number task_id =
      let name = "execqueue/task-" +++ p.decimal task_number +++ "-" +++ p.short_id task_id in
      if validate_ref_name name then name else "execqueue/task-" +++ p.decimal task_number

  abbrev exists_by : Attempt String → Attempt Bool
  exists_by (done out) = done true
  exists_by (refused k) = done false
  exists_by crashed = crashed

  unfoldable pub branch_exists : String → S → Attempt Bool × S
  unfolding run_git_command
  branch_exists name s =
      let (r, s') = run_git_command ("rev-parse" ∷ "--verify" ∷ name ∷ []) none true s in
      (exists_by r, s')

  abbrev clean_by : Attempt String → Attempt Bool
  clean_by (done out) = done (not (non_empty (p.strip out)))
  clean_by (refused k) = done false
  clean_by crashed = crashed

  unfoldable pub is_worktree_clean : String → S → Attempt Bool × S
  unfolding run_git_command
  is_worktree_clean path s =
      let (r, s') = run_git_command ("status" ∷ "--porcelain" ∷ []) (some path) false s in
      (clean_by r, s')

  unfoldable pub get_current_commit : S → Attempt String × S
  unfolding run_git_command
  get_current_commit s =
      and_then (run_git_command ("rev-parse" ∷ "HEAD" ∷ []) none true s)
        (λ out s'. (done (p.strip out), s'))

  -- `_validate_path_within_root`: the text of the path begins with the text of the root.
  unfoldable pub validate_path_within_root : String → String → S → Bool
  validate_path_within_root root path s = elim (p.resolve s path) [
    | none ↦ false
    | some resolved ↦ starts_with resolved root
  ]

  -- The branch of `prepare_context`.
  unfoldable pub choose_branch : ℕ → ℕ → Option String → Attempt String
  unfolding generate_branch_name
  choose_branch task_id task_number none = done (generate_branch_name task_number task_id)
  choose_branch task_id task_number (some b) =
      if not (non_empty b)
      then done (generate_branch_name task_number task_id)
      else if not (validate_ref_name b)
      then refused non_recoverable
      else done b

  -- The second try, where a refusal becomes a conflict.
  abbrev pub or_conflict : Attempt String × S → Attempt (Unit {0}) × S
  or_conflict (done out, s) = (done tt, s)
  or_conflict (refused k, s) = (refused conflict, s)
  or_conflict (crashed, s) = (crashed, s)

  abbrev pub after_creation : String → Attempt String × S → Attempt (Unit {0}) × S
  after_creation name (done out, s) = (done tt, s)
  after_creation name (refused k, s) =
      or_conflict (run_git_command ("checkout" ∷ name ∷ []) none true s)
  after_creation name (crashed, s) = (crashed, s)

  unfoldable pub ensure_branch : String → S → Attempt (Unit {0}) × S
  unfolding branch_exists run_git_command
  ensure_branch name s = and_then (branch_exists name s) (λ found s'. elim found [
    | true ↦ (done tt, s')
    | false ↦ after_creation name (run_git_command ("checkout" ∷ "-b" ∷ name ∷ []) none true s')
  ])

  -- Whether a worktree has to be made: one that is there is taken if it is clean.
  unfoldable pub must_create : Bool → String → S → Attempt Bool × S
  unfolding is_worktree_clean
  must_create reuse path s =
      if p.exists s path && reuse
      then and_then (is_worktree_clean path s)
          (λ clean s'. (if clean then done false else refused conflict, s'))
      else (done true, s)

  -- A refusal is passed over where the path is there.
  abbrev pub unless_exists : String → Attempt String × S → Attempt (Unit {0}) × S
  unless_exists path (done out, s) = (done tt, s)
  unless_exists path (refused k, s) = (if p.exists s path then done tt else refused k, s)
  unless_exists path (crashed, s) = (crashed, s)

  unfoldable pub add_worktree : Bool → String → String → S → Attempt (Unit {0}) × S
  unfolding run_git_command
  add_worktree created path name s =
      if created || not (p.exists s path)
      then unless_exists path (run_git_command ("worktree" ∷ "add" ∷ path ∷ name ∷ []) none true s)
      else (done tt, s)

  abbrev pub worktree_of : String → ℕ → ℕ → String
  worktree_of root task_id task_number =
      p.join root ("task-" +++ p.decimal task_number +++ "-" +++ p.short_id task_id)

  -- The last check of `prepare_context`, and what it returns.
  unfoldable pub checked_context :
      String → Bool → String → String → String → S → Attempt GitContext × S
  unfolding validate_path_within_root
  checked_context root created path name sha s = (
    if validate_path_within_root root path s
        then done (record {
          branch_name = name;
          worktree_path = path;
          commit_sha_before = sha;
          created = created;
        })
        else refused non_recoverable,
    s,
  )

  -- `prepare_context` from the worktree on.
  unfoldable pub prepare_worktree :
      String → Bool → String → String → String → S → Attempt GitContext × S
  unfolding must_create add_worktree checked_context
  prepare_worktree root reuse path name sha s = and_then (must_create reuse path s) (λ created s'.
      and_then (add_worktree created path name s')
        (λ _ s''. checked_context root created path name sha s''))

  unfoldable pub prepare_context :
      String → ℕ → ℕ → Option String → Bool → S → Attempt GitContext × S
  unfolding choose_branch ensure_branch get_current_commit prepare_worktree
  prepare_context root task_id task_number explicit_branch reuse s =
      and_then (choose_branch task_id task_number explicit_branch, s)
        (λ name s₁. and_then (ensure_branch name s₁) (λ _ s₂.
          and_then (get_current_commit s₂) (λ sha s₃.
            prepare_worktree root reuse (worktree_of root task_id task_number) name sha s₃)))

  abbrev cleaned_by : Attempt String → Attempt Bool
  cleaned_by (done out) = done true
  cleaned_by (refused k) = done false
  cleaned_by crashed = crashed

  -- The command is not checked, so any return code is taken for a success.
  pub cleanup_worktree : String → S → Attempt Bool × S
  unfolding run_git_command
  cleanup_worktree path s =
      if not (p.exists s path)
      then (done true, s)
      else let (r, s') =
          run_git_command ("worktree" ∷ "remove" ∷ "--force" ∷ path ∷ []) none false s in
        (cleaned_by r, s')
