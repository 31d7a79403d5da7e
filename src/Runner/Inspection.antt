-- ===== src/Runner/Inspection.antt =====
-- execqueue/runner/result_inspector.py, the class `ResultInspector`: what has changed in the worktree
-- of a task, and whether the task was allowed to. No command is checked, and an exception of one counts
-- as an answer without content.
pub mod Runs
pub mod Scope
pub mod Status
mod Examples
use Prim.Native.Nat.{Ordering}
use Prim.Native.Char.{Char, code}
use Prim.Native.String.{compare, ◌++◌ as ◌+++◌}
use text.Mathlib.Text.{starts_with}
use exec_queue.Common.{
  ℕ, String, Bool, true, false, not, ◌&&◌, ◌||◌, Option, none, some, List, [], ◌∷◌, any, null, keep,
  non_empty, truthy, strip, split_lines, drop_chars, first_word, replace, skip_while, ◌==◌,
  if◌then◌else◌,
}
use exec_queue.Orchestrator.Classification.{RunnerMode, read_only, write}
use exec_queue.Runner.Commands.{Process, Ran, ran, raised, Machine}

pub data InspectionStatus : Type 0 where
  passed failed review : InspectionStatus

-- The details of a violation: the reasons, and the files that are named with them.
pub data Violation : Type 0 where
  read_only_changes : List String → Bool → Violation
  out_of_scope_files : List String → Violation
  no_changes : Violation

pub record InspectionResult : Type 0 where
  pub commit_sha_after : Option String
  pub new_commit_shas : Option (List String)
  pub changed_files : Option (List String)
  pub diff_stat : Option String
  pub has_uncommitted_changes : Bool
  pub inspection_status : InspectionStatus
  pub read_only_violation : Bool
  pub out_of_scope_changes : Bool
  pub violation_details : List Violation

pub record ResultInspector : Type 0 where
  pub worktree_path : String
  pub commit_sha_before : Option String
  pub allowed_paths : List String
  pub runner_mode : RunnerMode

-- A set of texts as `sorted` gives it: in order, without repetition.
unfoldable pub add_sorted : String → List String → List String
add_sorted x [] = x ∷ []
add_sorted x (y ∷ ys) =
    let rest = add_sorted x ys in
    elim (compare x y) [ Ordering.lt ↦ x ∷ y ∷ ys | Ordering.eq ↦ y ∷ ys | Ordering.gt ↦ y ∷ rest ]

unfoldable pub add_all : List String → List String → List String
unfolding add_sorted
add_all [] set = set
add_all (x ∷ xs) set = add_sorted x (add_all xs set)

-- The output of a command that exited with 0, stripped; `none` for any other end, and for no output.
abbrev pub output_of : Ran → Option String
output_of raised = none
output_of (ran p) =
    if p.returncode == 0 && non_empty (strip p.stdout) then some (strip p.stdout) else none

abbrev pub lines_of : Option String → List String
lines_of none = []
lines_of (some out) = split_lines out

-- The paths of the lines of `git status --porcelain`: the first word after the third character.
unfoldable pub porcelain_paths : List String → List String
porcelain_paths [] = []
porcelain_paths (line ∷ lines) =
    let rest = porcelain_paths lines in
    let path = first_word (drop_chars 3 line) in if non_empty path then path ∷ rest else rest

-- `_normalize_path`
unfoldable pub normalize_path : String → String
normalize_path path = skip_while (λ c. code c == b'/') (replace "\\" "/" path)

-- `x if x else None` of a list.
abbrev pub or_none : List String → Option (List String)
or_none xs = if null xs then none else some xs

unfoldable pub is_path_allowed : ResultInspector → String → Bool
unfolding normalize_path
is_path_allowed i path =
    null i.allowed_paths
    || any (λ allowed. starts_with (normalize_path path) (normalize_path allowed)) i.allowed_paths

unfoldable pub check_out_of_scope_changes : ResultInspector → List String → Bool × List String
unfolding is_path_allowed
check_out_of_scope_changes i changed =
    let violations = keep (λ path. not (is_path_allowed i path)) changed in
    if null i.allowed_paths then (false, []) else (not (null violations), violations)

-- What is known of the worktree.
pub record Findings : Type 0 where
  pub current : Option String
  pub commits : List String
  pub changed : List String
  pub stat : Option String
  pub uncommitted : Bool

-- The result of `inspect` before its three checks.
abbrev pub initial_result : Findings → InspectionResult
initial_result f = record {
  commit_sha_after = f.current;
  new_commit_shas = or_none f.commits;
  changed_files = or_none f.changed;
  diff_stat = f.stat;
  has_uncommitted_changes = f.uncommitted;
  inspection_status = passed;
  read_only_violation = false;
  out_of_scope_changes = false;
  violation_details = [];
}

-- A review, unless there is a status already.
abbrev pub to_review : Violation → InspectionResult → InspectionResult
to_review v r = record r {
  inspection_status = elim r.inspection_status [ passed ↦ review | s ↦ s ];
  violation_details = v ∷ r.violation_details;
}

abbrev pub is_read_only : RunnerMode → Bool
is_read_only read_only = true
is_read_only write = false

unfoldable pub check_read_only : ResultInspector → Findings → InspectionResult → InspectionResult
check_read_only i f r =
    if is_read_only i.runner_mode && (not (null f.changed) || f.uncommitted)
    then record r {
      read_only_violation = true;
      inspection_status = failed;
      violation_details = read_only_changes f.changed f.uncommitted ∷ [];
    }
    else r

unfoldable pub check_scope : ResultInspector → Findings → InspectionResult → InspectionResult
unfolding check_out_of_scope_changes
check_scope i f r =
    let (out_of_scope, violations) = check_out_of_scope_changes i f.changed in
    if not (is_read_only i.runner_mode) && not (null i.allowed_paths) && out_of_scope
    then to_review (out_of_scope_files violations) (record r { out_of_scope_changes = true })
    else r

unfoldable pub check_missing : ResultInspector → Findings → InspectionResult → InspectionResult
check_missing i f r =
    if not (is_read_only i.runner_mode) && null f.commits && null f.changed
    then to_review no_changes r
    else r

-- The three checks of `inspect`, in their order.
unfoldable pub judge : ResultInspector → Findings → InspectionResult
unfolding check_read_only check_scope check_missing
judge i f = check_missing i f (check_scope i f (check_read_only i f (initial_result f)))

module _ {S : Type 0} (m : Machine S) (i : ResultInspector) where
  -- `_run_git_command` with `check=False`.
  abbrev pub run_git : List String → S → Ran × S
  run_git args s = m.git i.worktree_path args s

  abbrev head_of : Ran → Option String
  head_of raised = none
  head_of (ran p) = if p.returncode == 0 then some (strip p.stdout) else none

  unfoldable pub get_current_commit : S → Option String × S
  get_current_commit s = let (r, s') = run_git ("rev-parse" ∷ "HEAD" ∷ []) s in (head_of r, s')

  -- A command about the commits since the baseline, which is run only if there is one.
  abbrev pub since_baseline : (String → List String) → S → Option String × S
  since_baseline args s = elim i.commit_sha_before [
    | none ↦ (none, s)
    | some sha ↦
        let (r, s') = run_git (args sha) s in if non_empty sha then (output_of r, s') else (none, s)
  ]

  unfoldable pub get_new_commits : S → List String × S
  get_new_commits s =
      let (out, s') = since_baseline (λ sha. "rev-list" ∷ (sha +++ "..HEAD") ∷ []) s in
      (lines_of out, s')

  unfoldable pub get_changed_files : S → List String × S
  unfolding add_all porcelain_paths
  get_changed_files s =
      let (committed, s₁) =
        since_baseline (λ sha. "diff" ∷ "--name-only" ∷ (sha +++ "..HEAD") ∷ []) s in
      let (r, s₂) = run_git ("status" ∷ "--porcelain" ∷ []) s₁ in
      (add_all (lines_of committed) (add_all (porcelain_paths (lines_of (output_of r))) []), s₂)

  unfoldable pub get_diff_stat : S → Option String × S
  get_diff_stat s = since_baseline (λ sha. "diff" ∷ "--stat" ∷ sha ∷ []) s

  abbrev pub something_printed : Ran → Bool
  something_printed raised = false
  something_printed (ran p) = non_empty (strip p.stdout)

  unfoldable pub has_uncommitted_changes : S → Bool × S
  has_uncommitted_changes s =
      let (r, s') = run_git ("status" ∷ "--porcelain" ∷ []) s in (something_printed r, s')

  -- The state information that `inspect` gathers.
  unfoldable pub gather : S → Findings × S
  unfolding get_current_commit get_new_commits get_changed_files get_diff_stat
      has_uncommitted_changes
  gather s =
      let (current, s₁) = get_current_commit s in
      let (commits, s₂) = get_new_commits s₁ in
      let (changed, s₃) = get_changed_files s₂ in
      let (stat, s₄) = get_diff_stat s₃ in
      let (uncommitted, s₅) = has_uncommitted_changes s₄ in
      (
        record {
          current = current;
          commits = commits;
          changed = changed;
          stat = stat;
          uncommitted = uncommitted;
        },
        s₅,
      )

  pub inspect : S → InspectionResult × S
  unfolding judge gather
  inspect s = let (f, s') = gather s in (judge i f, s')
