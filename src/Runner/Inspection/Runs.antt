-- ===== src/Runner/Inspection/Runs.antt =====
-- How an inspection ends, told by what its Git commands print (execqueue/runner/result_inspector.py).
use Prim.Native.String.{◌++◌ as ◌+++◌}
use exec_queue.Common.{
  ◌≡◌, refl, ◌∙◌, ap, String, Option, Bool, false, not, ◌||◌, ◌&&◌, List, [], ◌∷◌, any, null, keep,
  map, arith, if◌then◌else◌, inl, inr, non_empty, first_word, drop_chars, skip_while, replace, ◌==◌,
}
use exec_queue.Orchestrator.Classification.{RunnerMode, read_only, write}
use text.Mathlib.Text.{starts_with}
use Prim.Native.Char.{code}
use exec_queue.Runner.Commands.{Ran, Machine}
use exec_queue.Runner.Inspection.{
  InspectionStatus, passed, failed, review, ResultInspector, add_sorted, add_all, output_of,
  lines_of, porcelain_paths, normalize_path, is_path_allowed, run_git, since_baseline,
  get_current_commit, get_new_commits, get_changed_files, get_diff_stat, has_uncommitted_changes,
  Findings, gather, inspect, something_printed,
}
use exec_queue.Runner.Inspection.Status.{status_of, is_out_of_scope, RunnerMode-cases}
use exec_queue.Runner.Inspection.Scope.{any-add_all, inspect_lem}

null-add_sorted : (x : String) (ys : List String) → null (add_sorted x ys) ≡ false
unfolding add_sorted
null-add_sorted x [] = refl
null-add_sorted x (y ∷ ys) = ground arith

null-add_all : (xs set : List String) → null (add_all xs set) ≡ (null xs && null set)
unfolding add_all
null-add_all [] set = refl
null-add_all (x ∷ xs) set = null-add_sorted x (add_all xs set)

-- A path with slashes for backslashes, and without slashes at its front.
abbrev pub slashed : String → String
slashed path = skip_while (λ c. code c == b'/') (replace "\\" "/" path)

-- There are allowed paths, and the path begins with none of them.
abbrev pub is_outside : List String → String → Bool
is_outside allowed path =
    not (null allowed) && not (any (λ a. starts_with (slashed path) (slashed a)) allowed)

is_outside_lem :
    (i : ResultInspector) (path : String)
    → not (is_path_allowed i path) ≡ is_outside i.allowed_paths path
unfolding is_path_allowed normalize_path
is_outside_lem i path = ground arith

-- The words that are read off the lines of a short status.
abbrev pub words_of : List String → List String
words_of lines = keep non_empty (map (λ line. first_word (drop_chars 3 line)) lines)

porcelain_paths_lem : (lines : List String) → porcelain_paths lines ≡ words_of lines
unfolding porcelain_paths
porcelain_paths_lem [] = refl
porcelain_paths_lem (line ∷ lines) = ground (arith, porcelain_paths_lem lines)

-- The status by what was printed: the commits, the paths that differ from the baseline, the words that
-- are read off the status, and whether the second call of the status printed anything.
abbrev pub expected :
    RunnerMode → List String → List String → List String → List String → Bool → InspectionStatus
expected read_only allowed commits differ words printed =
    if null differ && null words && not printed then passed else failed
expected write allowed commits differ words printed =
    if any (is_outside allowed) differ || any (is_outside allowed) words
    then review
    else if null commits && null differ && null words
    then review
    else passed

any-is_outside :
    (i : ResultInspector) (xs : List String)
    → any (λ path. not (is_path_allowed i path)) xs ≡ any (is_outside i.allowed_paths) xs
any-is_outside i [] = refl
any-is_outside i (x ∷ xs) = ground (arith, is_outside_lem i x, any-is_outside i xs)

status_of_lem :
    (i : ResultInspector) (f : Findings) (differ words : List String)
    → f.changed ≡ add_all differ (add_all words [])
    → status_of i f ≡ expected i.runner_mode i.allowed_paths f.commits differ words f.uncommitted
unfolding add_all
status_of_lem i f differ words e =
    let none_changed : null f.changed ≡ (null differ && null words) =
      rw (e, null-add_all differ (add_all words []), null-add_all words []) (ground arith) in
    let outside = is_outside i.allowed_paths in
    let some_outside : is_out_of_scope i f ≡ (any outside differ || any outside words) =
      any-is_outside i f.changed
      ∙ ap (any outside) e
      ∙ any-add_all outside differ (add_all words [])
      ∙ ap (λ b. any outside differ || b) (any-add_all outside words [])
      ∙ ground arith in
    elim (RunnerMode-cases i.runner_mode) [
      | inl reads ↦ ground (arith, reads, none_changed)
      | inr writes ↦ ground (arith, writes, none_changed, some_outside)
    ]

module _ {S : Type 0} (m : Machine S) (i : ResultInspector) where
  -- The states after the first three commands, the first status and the statistics.
  abbrev pub after_head : S → S
  after_head s = (run_git m i ("rev-parse" ∷ "HEAD" ∷ []) s).1

  abbrev pub new_commits : S → Option String × S
  new_commits s = since_baseline m i (λ sha. "rev-list" ∷ (sha +++ "..HEAD") ∷ []) s

  abbrev pub differing : S → Option String × S
  differing s = since_baseline m i (λ sha. "diff" ∷ "--name-only" ∷ (sha +++ "..HEAD") ∷ []) s

  abbrev pub short_status : S → Ran × S
  short_status s = run_git m i ("status" ∷ "--porcelain" ∷ []) s

  abbrev pub after_stat : S → S
  after_stat s = (since_baseline m i (λ sha. "diff" ∷ "--stat" ∷ sha ∷ []) s).1

  -- An inspection runs `rev-parse`, `rev-list`, `diff --name-only`, `status --porcelain`, `diff --stat`
  -- and the same status again, those about a baseline only if there is one, and its status follows from
  -- what they print, where a command that cannot be run counts as one that printed nothing, and so does
  -- one that fails, but for the second status. A read-only task passes exactly if the diff gives no line,
  -- no word is read off the first status, and the second printed no more than white space; else it
  -- fails. A writing task goes to review exactly if there are allowed paths and some line of the diff, or
  -- some of these words, begins with none of them, leading slashes aside, or if the list of commits, the
  -- diff and these words are all empty; else it passes. The words are the first ones after the third
  -- character of the lines of the stripped output, which need not be the paths that Git means.
  pub inspect-inspection_status :
      (s : S)
      → let (commits, s₂) = new_commits (after_head s) in
        let (differ, s₃) = differing s₂ in
        let (first, s₄) = short_status s₃ in
        let (second, s₆) = short_status (after_stat s₄) in
        (inspect m i s).0.inspection_status
        ≡ expected i.runner_mode i.allowed_paths
            (lines_of commits)
            (lines_of differ)
            (words_of (lines_of (output_of first)))
            (something_printed m i second)
  unfolding gather get_current_commit get_new_commits get_changed_files get_diff_stat
      has_uncommitted_changes
  inspect-inspection_status s =
      let (differ, s₃) = differing (new_commits (after_head s)).1 in
      let lines = lines_of (output_of (short_status s₃).0) in
      (inspect_lem m i s).0
      ∙ status_of_lem i (gather m i s).0 (lines_of differ) (words_of lines)
          (ap (λ words. add_all (lines_of differ) (add_all words [])) (porcelain_paths_lem lines))
