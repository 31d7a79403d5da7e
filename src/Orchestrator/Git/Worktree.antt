-- ===== src/Orchestrator/Git/Worktree.antt =====
-- What is true of a worktree that is prepared (execqueue/orchestrator/git_context.py).
use mathlib.Core.Path.{subst}
use text.Mathlib.Text.{starts_with}
use exec_queue.Common.{
  ℕ, [], ◌∷◌, non_empty, ◌≡◌, ◌⊎◌, refl, String, Bool, true, false, some, arith, sym, ap, ◌∙◌,
  if◌then◌else◌, Bool-cases, Option-cases, inl, inr,
}
use exec_queue.Orchestrator.Recovery.{PreparationErrorType, conflict}
use exec_queue.Orchestrator.Git.{
  exited, Platform, Attempt, done, refused, crashed, GitContext, and_then, is_worktree_clean,
  get_current_commit, validate_path_within_root, ensure_branch, must_create, add_worktree,
  prepare_worktree, checked_context,
}

pub Attempt-cases :
    {A : Type 0} (r : Attempt A)
    → ((a : A) × (r ≡ done a)) ⊎ (((k : PreparationErrorType) × (r ≡ refused k)) ⊎ (r ≡ crashed))
Attempt-cases (done a) = inl (a, refl)
Attempt-cases (refused k) = inr (inl (k, refl))
Attempt-cases crashed = inr (inr refl)

-- The calls of a chain that gives a value have given values.
pub and_then-done :
    {S A B : Type 0} (m : Attempt A × S) (f : A → S → Attempt B × S) (b : B)
    → (and_then m f).0 ≡ done b
    → (a : A) × (m.0 ≡ done a) × (and_then m f ≡ f a m.1)
and_then-done (done a, s) f b h = (a, refl, refl)
and_then-done (refused k, s) f b h = cc
and_then-done (crashed, s) f b h = cc

module _ {S : Type 0} (p : Platform S) (root : String) where
  within_root :
      (path : String) (s : S)
      → validate_path_within_root p root path s ≡ true
      → (r : String) × (p.resolve s path ≡ some r) × (starts_with r root ≡ true)
  unfolding validate_path_within_root
  within_root path s h = elim (Option-cases (p.resolve s path)) [
    | inl no_path ↦ ground (arith, no_path)
    | inr (r, found) ↦ (r, found, ground (arith, found))
  ]

  -- What a context that passes the last check is.
  abbrev IsChecked : Bool → String → String → Attempt GitContext × S → GitContext → Type 0
  IsChecked created path name m c =
      ((r : String) × (p.resolve m.1 path ≡ some r) × (starts_with r root ≡ true))
      × (c.worktree_path ≡ path)
      × (c.branch_name ≡ name)
      × (c.created ≡ created)

  checked_context-done :
      (created : Bool) (path name sha : String) (s : S) (c : GitContext)
      → (checked_context p root created path name sha s).0 ≡ done c
      → IsChecked created path name (checked_context p root created path name sha s) c
  unfolding checked_context
  checked_context-done created path name sha s c h =
      elim (Bool-cases (validate_path_within_root p root path s)) [
        | inl within ↦ (
          within_root path s within,
          ground (arith, within, h),
          ground (arith, within, h),
          ground (arith, within, h),
        )
        | inr outside ↦ ground (arith, outside, h)
      ]

  reused :
      {r : Attempt Bool} (clean created : Bool)
      → r ≡ done clean
      → (if clean then done false else refused conflict) ≡ done created
      → (r ≡ done true) × (created ≡ false)
  reused true created found h = (found, ground (arith, h))
  reused false created found h = cc

  -- A worktree that is there is reused only if it is clean.
  must_create-done :
      (path : String) (s : S) (created : Bool)
      → (must_create p true path s).0 ≡ done created
      → p.exists s path ≡ true
      → ((is_worktree_clean p path s).0 ≡ done true) × (created ≡ false)
  unfolding must_create
  must_create-done path s created h there =
      let f : Bool → S → Attempt Bool × S =
        λ clean s'. (if clean then done false else refused conflict, s') in
      let tested : must_create p true path s ≡ and_then (is_worktree_clean p path s) f =
        rw (there, must_create) in
      let h' = sym (ap (λ m. m.0) tested) ∙ h in
      let (clean, found, e) = and_then-done (is_worktree_clean p path s) f created h' in
      let answer : (if clean then done false else refused conflict) ≡ done created =
        sym (ap (λ m. m.0) e) ∙ h' in
      reused clean created found answer

  prepare_worktree-done :
      (path name sha : String) (s : S) (c : GitContext)
      → (prepare_worktree p root true path name sha s).0 ≡ done c
      → (created : Bool) × IsChecked created path name
          (prepare_worktree p root true path name sha s)
          c
        × ((must_create p true path s).0 ≡ done created)
  unfolding prepare_worktree
  prepare_worktree-done path name sha s c h =
      let (created, made, e) = and_then-done (must_create p true path s) _ c h in
      let s' = (must_create p true path s).1 in
      let (x, added, e') =
        and_then-done (add_worktree p created path name s') _ c (sym (ap (λ m. m.0) e) ∙ h) in
      let s'' = (add_worktree p created path name s').1 in
      let whole = e ∙ e' in
      (
        created,
        subst (λ m. IsChecked created path name m c) (sym whole)
            (checked_context-done created path name sha s'' c (sym (ap (λ m. m.0) whole) ∙ h)),
        made,
      )

  -- Where something is at the path of the worktree, a context is given only if it is a clean worktree,
  -- which is then reused.
  pub prepare_worktree-reuses :
      (path name sha : String) (s : S) (c : GitContext)
      → p.exists s path ≡ true
      → (prepare_worktree p root true path name sha s).0 ≡ done c
      → ((is_worktree_clean p path s).0 ≡ done true) × (c.created ≡ false)
  prepare_worktree-reuses path name sha s c there h =
      let (created, checked, made) = prepare_worktree-done path name sha s c h in
      let (clean, kept) = must_create-done path s created made there in (clean, checked.3 ∙ kept)

  -- Nothing is at the path; or `git status` there ended and printed only white space, and nothing is
  -- created.
  abbrev pub IsFresh : String → S → GitContext → Type 0
  IsFresh path s c =
      (p.exists s path ≡ false)
      ⊎ (((exit_code : ℕ) × (out : String) × ((p.run ("status" ∷ "--porcelain" ∷ []) (some path)
                s).0
              ≡ exited exit_code out)
            × (non_empty (p.strip out) ≡ false))
          × (c.created ≡ false))

  -- What is there once the branch is made and the commit is read.
  abbrev pub before_worktree : String → S → S
  before_worktree branch s = (get_current_commit p (ensure_branch p branch s).1).1
