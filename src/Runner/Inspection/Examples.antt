-- ===== src/Runner/Inspection/Examples.antt =====
-- The inspection of small worktrees (execqueue/runner/result_inspector.py).
use exec_queue.Common.{◌≡◌, refl, String, true, some, List, [], ◌∷◌, str_eq, if◌then◌else◌}
use exec_queue.Orchestrator.Classification.{RunnerMode, write}
use exec_queue.Runner.Commands.{Ran, ran, raised, Machine}
use exec_queue.Runner.Inspection.{review, ResultInspector, is_path_allowed, inspect}
use exec_queue.Runner.Inspection.Runs.{expected, inspect-inspection_status}

abbrev prints : String → Ran
prints text = ran (record { returncode = 0; stdout = text; stderr = "" })

-- A worktree that never changes, with one commit since the baseline; the two texts are what the commit
-- and what the status names.
abbrev worktree : String → String → Machine Unit
worktree committed changed = record {
  git = λ path args s. (
    elim args [
      | (a ∷ _) ↦
          if str_eq a "status"
          then prints changed
          else if str_eq a "diff"
          then prints committed
          else prints "abc"
      | [] ↦ raised
    ],
    s,
  );
  shell = λ path command s. (raised, s);
}

abbrev inspector : RunnerMode → List String → ResultInspector
inspector mode allowed = record {
  worktree_path = "/work/t";
  commit_sha_before = some "base";
  allowed_paths = allowed;
  runner_mode = mode;
}

-- The first line of the status loses its first space, and its path the first letter: a change of an
-- allowed file is taken for one out of scope.
first_letter_lost :
    ((inspect (worktree "" " M src/a.py\n") (inspector write ("src/" ∷ [])) tt).0.changed_files
      ≡ some ("rc/a.py" ∷ []))
    × ((inspect
          (worktree "" " M src/a.py\n")
          (inspector write ("src/" ∷ []))
          tt).0.inspection_status
        ≡ review)
unfolding inspect
first_letter_lost = (refl, refl)

-- A directory whose name begins with the name of an allowed one is allowed.
beside_allowed : is_path_allowed (inspector write ("src" ∷ [])) "src-private/key" ≡ true
unfolding is_path_allowed
beside_allowed = refl

inspect-inspection_status_example :
    (inspect
      (worktree "src/a.py\ndoc/b.md\n" "?? src/c.py\n")
      (inspector write ("src/" ∷ []))
      tt).0.inspection_status
    ≡ expected write
        ("src/" ∷ [])
        ("abc" ∷ [])
        ("src/a.py" ∷ "doc/b.md" ∷ [])
        ("src/c.py" ∷ [])
        true
inspect-inspection_status_example =
    inspect-inspection_status (worktree "src/a.py\ndoc/b.md\n" "?? src/c.py\n")
      (inspector write ("src/" ∷ [])) tt

-- The file of the second line is not allowed.
file_outside :
    expected write ("src/" ∷ []) ("abc" ∷ []) ("src/a.py" ∷ "doc/b.md" ∷ []) ("src/c.py" ∷ []) true
    ≡ review
file_outside = refl
