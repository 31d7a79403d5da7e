-- ===== src/Runner/Inspection/Scope.antt =====
-- The set of changed files, and the inspection that sees nothing
-- (execqueue/runner/result_inspector.py).
use Prim.Native.Nat.{Ordering}
use Prim.Native.String.{compare, ◌++◌ as ◌+++◌}
use text.Mathlib.TextEquality.{eq_iff}
use exec_queue.Common.{
  ◌≡◌, ◌⊎◌, inl, inr, refl, ◌∙◌, String, Bool, false, ◌||◌, none, List, [], ◌∷◌, any, arith,
  Bool-cases, Option-cases, ap, non_empty,
}
use exec_queue.Orchestrator.Classification.{read_only, write}
use exec_queue.Runner.Commands.{raised, Machine}
use exec_queue.Runner.Inspection.{
  passed, review, ResultInspector, add_sorted, add_all, lines_of, porcelain_paths, run_git,
  since_baseline, get_current_commit, get_new_commits, get_changed_files, gather, inspect, Findings,
  something_printed, get_diff_stat, has_uncommitted_changes,
}
use exec_queue.Runner.Inspection.Status.{IsFlagged, status_of, judge_lem, RunnerMode-cases}

Ordering-cases : (o : Ordering) → (o ≡ Ordering.lt) ⊎ ((o ≡ Ordering.eq) ⊎ (o ≡ Ordering.gt))
Ordering-cases Ordering.lt = inl refl
Ordering-cases Ordering.eq = inr (inl refl)
Ordering-cases Ordering.gt = inr (inr refl)

any-add_sorted :
    (p : String → Bool) (x : String) (ys : List String)
    → any p (add_sorted x ys) ≡ (p x || any p ys)
unfolding add_sorted
any-add_sorted p x [] = ground arith
any-add_sorted p x (y ∷ ys) = elim (Ordering-cases (compare x y)) [
  | inl less ↦ ground (arith, less)
  | inr (inl same) ↦ let e : x ≡ y = (eq_iff x y).0 (rw same refl) in ground (arith, same, ap p e)
  | inr (inr more) ↦ ground (arith, more, any-add_sorted p x ys)
]

pub any-add_all :
    (p : String → Bool) (xs set : List String) → any p (add_all xs set) ≡ (any p xs || any p set)
unfolding add_all
any-add_all p [] set = refl
any-add_all p (x ∷ xs) set =
    ground (arith, any-add_sorted p x (add_all xs set), any-add_all p xs set)

module _ (i : ResultInspector) where
  blind_status :
      (f : Findings)
      → f.commits ≡ []
      → f.changed ≡ []
      → f.uncommitted ≡ false
      → status_of i f ≡ elim i.runner_mode [ read_only ↦ passed | write ↦ review ]
  blind_status f commits changed uncommitted = elim (RunnerMode-cases i.runner_mode) [
    | inl reads ↦ ground (arith, reads, changed, uncommitted)
    | inr writes ↦ ground (arith, writes, commits, changed)
  ]

module _ {S : Type 0} (m : Machine S) (i : ResultInspector) where
  -- The status and the flags of an inspection follow from what it gathered.
  pub inspect_lem : (s : S) → IsFlagged i (gather m i s).0 (inspect m i s).0
  unfolding inspect
  inspect_lem s = judge_lem i (gather m i s).0

  none_since :
      (args : String → List String) (s : S)
      → ((args' : List String) (s' : S) → (run_git m i args' s').0 ≡ raised)
      → (since_baseline m i args s).0 ≡ none
  none_since args s dead = elim (Option-cases i.commit_sha_before) [
    | inl missing ↦ rw (missing, since_baseline) refl
    | inr (sha, found) ↦ elim (Bool-cases (non_empty sha)) [
      | inl full ↦ ground (arith, found, full, dead (args sha) s)
      | inr empty ↦ ground (arith, found, empty)
    ]
  ]

  -- If no Git command can be run, then a read-only task passes, and a writing one goes to review.
  pub inspect-blind :
      (s : S)
      → ((args : List String) (s' : S) → (run_git m i args s').0 ≡ raised)
      → (inspect m i s).0.inspection_status
        ≡ elim i.runner_mode [ read_only ↦ passed | write ↦ review ]
  unfolding gather get_changed_files get_new_commits has_uncommitted_changes add_all porcelain_paths
  inspect-blind s dead =
      let s₁ = (get_current_commit m i s).1 in
      let s₂ = (get_new_commits m i s₁).1 in
      let s₃ = (get_changed_files m i s₂).1 in
      let s₄ = (get_diff_stat m i s₃).1 in
      let s₂' =
        (since_baseline m i (λ sha. "diff" ∷ "--name-only" ∷ (sha +++ "..HEAD") ∷ []) s₂).1 in
      let commits = none_since (λ sha. "rev-list" ∷ (sha +++ "..HEAD") ∷ []) s₁ dead in
      let diff = none_since (λ sha. "diff" ∷ "--name-only" ∷ (sha +++ "..HEAD") ∷ []) s₂ dead in
      let status = dead ("status" ∷ "--porcelain" ∷ []) s₂' in
      let status' = dead ("status" ∷ "--porcelain" ∷ []) s₄ in
      (inspect_lem s).0
      ∙ blind_status i (gather m i s).0 (ap lines_of commits) (rw (diff, status) refl)
          (ap (something_printed m i) status')
