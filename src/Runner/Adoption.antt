-- ===== src/Runner/Adoption.antt =====
-- execqueue/runner/commit_adopter.py, the class `CommitAdopter`. Every command runs in the worktree of
-- the target branch, whose path the constructor has resolved. No Git command is checked, so one that
-- fails still gives its result.
pub mod Adopted
pub mod Outcomes
mod Examples
use Prim.Native.String
use Prim.Native.String.{◌++◌ as ◌+++◌}
use exec_queue.Common.{
  ℕ, zero, suc, ◌+◌, String, Bool, true, false, not, ◌&&◌, Option, none, some, List, [], ◌∷◌, null,
  non_empty, contains, str_eq, truthy, prefix, strip, ◌==◌, if◌then◌else◌,
}
use exec_queue.Runner.Commands.{Process, Ran, ran, raised, Machine, exited_zero}

pub record CommitAdopter : Type 0 where
  pub target_worktree_path : String
  pub target_branch : String
  pub task_worktree_path : String
  pub task_commit_sha : String
  pub validation_commands : List String

pub record AdoptionResult : Type 0 where
  pub success : Bool
  pub adopted_commit_sha : Option String
  pub original_commit_sha : Option String
  pub conflict_detected : Bool
  pub validation_passed : Bool
  pub target_branch_head : Option String
  pub error_message : Option String
  pub needs_review : Bool

abbrev pub same_head : Option String → Option String → Bool
same_head none none = true
same_head (some a) (some b) = str_eq a b
same_head _ _ = false

module _ {S : Type 0} (m : Machine S) (a : CommitAdopter) where
  -- `_run_git_command` with `check=False`.
  abbrev pub run_git_command : List String → S → Ran × S
  run_git_command args s = m.git a.target_worktree_path args s

  abbrev nothing_printed : Ran → Bool
  nothing_printed (ran p) = not (non_empty (strip p.stdout))
  nothing_printed raised = false

  unfoldable pub is_target_branch_clean : S → Bool × S
  is_target_branch_clean s =
      let (r, s') = run_git_command ("status" ∷ "--porcelain" ∷ []) s in (nothing_printed r, s')

  abbrev head_of : Ran → Option String
  head_of (ran p) = if p.returncode == 0 then some (strip p.stdout) else none
  head_of raised = none

  unfoldable pub get_current_target_head : S → Option String × S
  get_current_target_head s =
      let (r, s') = run_git_command ("rev-parse" ∷ "HEAD" ∷ []) s in (head_of r, s')

  -- The first eight digits of the commit stand in the output.
  abbrev pub named_in : Ran → Bool
  named_in (ran p) = p.returncode == 0 && contains (prefix 8 a.task_commit_sha) p.stdout
  named_in raised = false

  abbrev in_log : S → Bool × S
  in_log s = let (r, s') = run_git_command ("log" ∷ "--oneline" ∷ "HEAD" ∷ []) s in (named_in r, s')

  -- By the commit itself, and then by the lines of the log.
  unfoldable pub is_commit_already_adopted : S → Bool × S
  is_commit_already_adopted s =
      let (r, s') =
        run_git_command ("merge-base" ∷ "--is-ancestor" ∷ a.task_commit_sha ∷ "HEAD" ∷ []) s in
      elim r [ raised ↦ (false, s') | ran p ↦ if p.returncode == 0 then (true, s') else in_log s' ]

  abbrev pull : S → Ran × S
  pull s = run_git_command ("pull" ∷ "origin" ∷ a.target_branch ∷ []) s

  -- The last pull, whose return code is not read.
  abbrev last_pull : S → Bool × S
  last_pull s = let (r, s') = pull s in (elim r [ ran p ↦ true | raised ↦ false ], s')

  -- Where the checkout is refused, a pull is tried in its place.
  abbrev pull_instead : S → Bool × S
  pull_instead s = let (r, s') = pull s in if exited_zero r then last_pull s' else (false, s')

  unfoldable pub checkout_target_branch : S → Bool × S
  checkout_target_branch s =
      let (fetched, s₁) = run_git_command ("fetch" ∷ "origin" ∷ a.target_branch ∷ []) s in
      elim fetched [
        | raised ↦ (false, s₁)
        | ran _ ↦
            let (r, s₂) = run_git_command ("checkout" ∷ a.target_branch ∷ []) s₁ in
            elim r [
              | raised ↦ (false, s₂)
              | ran p ↦ if p.returncode == 0 then last_pull s₂ else pull_instead s₂
            ]
      ]

  -- The commands up to the first that does not exit with 0.
  unfoldable pub run_each : List String → S → Bool × S
  run_each [] s = (true, s)
  run_each (c ∷ cs) s =
      let (r, s') = m.shell a.target_worktree_path c s in
      let rest = run_each cs s' in if exited_zero r then rest else (false, s')

  unfoldable pub run_validation_commands : S → Bool × S
  unfolding run_each
  run_validation_commands s = run_each a.validation_commands s

  -- The result that `adopt` fills.
  abbrev pub new_result : AdoptionResult
  new_result = record {
    success = false;
    adopted_commit_sha = none;
    original_commit_sha = some a.task_commit_sha;
    conflict_detected = false;
    validation_passed = false;
    target_branch_head = none;
    error_message = none;
    needs_review = false;
  }

  abbrev for_review : String → AdoptionResult → AdoptionResult
  for_review text r = record r { error_message = some text; needs_review = true }

  -- Step 8: the head must have changed.
  unfoldable pub verify_adoption : Option String → AdoptionResult → S → AdoptionResult × S
  unfolding get_current_target_head
  verify_adoption before r s =
      let (head, s') = get_current_target_head s in
      let r' = record r { target_branch_head = head } in
      (
        if truthy head && not (same_head head before)
            then record r' { success = true }
            else for_review "Adoption verification failed: HEAD unchanged" r',
        s',
      )

  -- Steps 6 to 8.
  unfoldable pub after_pick : Option String → S → AdoptionResult × S
  unfolding verify_adoption run_validation_commands
  after_pick before s =
      let (sha, s₁) = get_current_target_head s in
      let r = record new_result { adopted_commit_sha = sha } in
      let (passed, s₂) = run_validation_commands s₁ in
      if null a.validation_commands
      then verify_adoption before (record r { validation_passed = true }) s₁
      else if passed
      then verify_adoption before (record r { validation_passed = true }) s₂
      else (for_review "Validation commands failed" r, s₂)

  abbrev pub conflicting : Process → AdoptionResult
  conflicting p =
      for_review ("Cherry-pick conflict: " +++ p.stderr)
        (record new_result { conflict_detected = true })

  -- The cherry-pick failed: the second operand of the test for a conflict always holds, so every
  -- failure is one. An exception of either command escapes.
  unfoldable pub report_conflict : Process → S → Option AdoptionResult × S
  report_conflict p s =
      let (status, s₁) = run_git_command ("status" ∷ "--porcelain" ∷ []) s in
      elim status [
        | raised ↦ (none, s₁)
        | ran _ ↦
            let (aborted, s₂) = run_git_command ("cherry-pick" ∷ "--abort" ∷ []) s₁ in
            elim aborted [ raised ↦ (none, s₂) | ran _ ↦ (some (conflicting p), s₂) ]
      ]

  -- Steps 4 to 8.
  unfoldable pub cherry_pick : S → Option AdoptionResult × S
  unfolding after_pick report_conflict
  cherry_pick s =
      let (before, s₁) = get_current_target_head s in
      let (picked, s₂) = run_git_command ("cherry-pick" ∷ a.task_commit_sha ∷ []) s₁ in
      elim picked [
        | raised ↦ (none, s₂)
        | ran p ↦
            if p.returncode == 0
            then (let (r, s₃) = after_pick before s₂ in (some r, s₃))
            else report_conflict p s₂
      ]

  -- Step 2: the result for a commit that is there.
  unfoldable pub skip_adopted : S → AdoptionResult × S
  unfolding get_current_target_head
  skip_adopted s =
      let (head, s') = get_current_target_head s in
      (
        record new_result {
          success = true;
          adopted_commit_sha = some a.task_commit_sha;
          validation_passed = true;
          target_branch_head = head;
        },
        s',
      )

  -- `adopt`; `none` is an exception that escapes.
  pub adopt : S → Option AdoptionResult × S
  unfolding is_target_branch_clean is_commit_already_adopted checkout_target_branch cherry_pick
      skip_adopted
  adopt s =
      let (clean, s₁) = is_target_branch_clean s in
      let (adopted, s₂) = is_commit_already_adopted s₁ in
      let (skipped, s₃) = skip_adopted s₂ in
      let (ready, s₄) = checkout_target_branch s₂ in
      if not clean
      then (some (for_review "Target worktree has uncommitted changes" new_result), s₁)
      else if adopted
      then (some skipped, s₃)
      else if not ready
      then (some (for_review "Failed to checkout target branch" new_result), s₄)
      else cherry_pick s₄
