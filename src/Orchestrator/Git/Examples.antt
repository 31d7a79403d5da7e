-- ===== src/Orchestrator/Git/Examples.antt =====
-- The Git context on a small disk (execqueue/orchestrator/git_context.py).
use text.Mathlib.TextEquality.{eq_iff}
use exec_queue.Common.{
  ◌≡◌, ◌≢◌, refl, String, Bool, true, false, some, List, [], ◌∷◌, arith, str_eq, if◌then◌else◌,
}
use exec_queue.Orchestrator.Git.{
  Ran, exited, not_started, Platform, done, GitContext, prepare_context, validate_path_within_root,
  cleanup_worktree,
}
use exec_queue.Orchestrator.RefName.{validate_ref_name, is_ref_char}
use exec_queue.Orchestrator.Git.NewBranch.{IsGit, prepare_context-ne-done}

-- The current branch, and what is at the path of the worktree.
pub record Disk : Type 0 where
  pub current : String
  pub there : Bool

-- A Git that knows the branch "old" and every other one that is checked out; every worktree is clean.
abbrev git : List String → Disk → Ran × Disk
git (a ∷ b ∷ []) d =
    if str_eq a "checkout"
    then (exited 0 "", record d { current = b })
    else if str_eq a "status"
    then (exited 0 "", d)
    else (exited 0 "abc", d)
git (a ∷ b ∷ c ∷ []) d =
    if str_eq a "checkout"
    then (exited 0 "", record d { current = c })
    else (if str_eq c "old" then exited 0 "abc" else exited 128 "", d)
git (a ∷ b ∷ path ∷ c ∷ []) d =
    if str_eq b "remove"
    then (exited 128 "", d)
    else if str_eq d.current c
    then (exited 128 "", d)
    else (exited 0 "", record d { there = true })
git _ d = (not_started, d)

abbrev disk : Platform Disk
disk = record {
  run = λ args cwd d. git args d;
  exists = λ d path. d.there;
  resolve = λ d path. some path;
  join = λ a b. "/work/t";
  strip = λ s. s;
  decimal = λ n. "1";
  short_id = λ n. "0000aaaa";
}

abbrev main_branch : Disk
main_branch = record { current = "main"; there = false }

-- A name with a newline at its end is taken for a valid one.
newline_at_the_end : validate_ref_name "task\n" ≡ true
unfolding validate_ref_name is_ref_char
newline_at_the_end = refl

-- A directory beside the root is taken for one within it.
beside_the_root : validate_path_within_root disk "/work" "/work-other/t" main_branch ≡ true
unfolding validate_path_within_root
beside_the_root = refl

-- Git refuses to remove the worktree, and the answer is that it was removed.
not_removed :
    cleanup_worktree disk "/work/t" (record main_branch { there = true })
    ≡ (done true, record main_branch { there = true })
unfolding cleanup_worktree
not_removed = refl

abbrev old_context : GitContext
old_context = record {
  branch_name = "old";
  worktree_path = "/work/t";
  commit_sha_before = "abc";
  created = true;
}

abbrev Current : String → Disk → Type 0
Current b d = d.current ≡ b

disk-IsGit : IsGit disk Current
disk-IsGit = record {
  created = λ b out s h. refl;
  switched = λ b out s h. refl;
  read = λ b s h. h;
  in_use = λ b path out s h r. ground (arith, h, eq_iff s.current b, r);
  not_made = λ b path s h free. ground (arith, h, eq_iff s.current b, free);
}

prepare_context-ne-done_example :
    (prepare_context disk "/work" 7 1 (some "new") true main_branch).0 ≢ done old_context
unfolding prepare_context validate_ref_name is_ref_char
prepare_context-ne-done_example =
    prepare_context-ne-done disk Current disk-IsGit "/work" 7 1 (some "new") true "new" main_branch
      refl refl refl old_context
