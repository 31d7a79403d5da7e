-- ===== src/Orchestrator/Git/NewBranch.antt =====
-- A task whose branch is new (execqueue/orchestrator/git_context.py). What is used of Git is documented:
-- a checkout that succeeds makes the branch the current one of the base repository, reading a commit
-- leaves it so, and a worktree for the current branch of another worktree is refused and not made.
use exec_queue.Common.{
  ℕ, zero, suc, ◌≡◌, ◌≢◌, refl, String, Bool, true, false, Option, none, [], ◌∷◌, arith, sym, ap,
  ◌∙◌,
}
use mathlib.Core.Path.{subst}
use exec_queue.Orchestrator.Git.{
  Ran, exited, timed_out, not_started, Platform, Attempt, done, refused, crashed, GitContext,
  and_then, command_result, run_git_command, branch_exists, choose_branch, ensure_branch,
  get_current_commit, must_create, add_worktree, or_conflict, after_creation, unless_exists,
  checked_context, worktree_of, prepare_worktree, prepare_context,
}
use exec_queue.Orchestrator.Git.Worktree.{and_then-done}

command_result-done : (r : Ran) (a : String) → command_result true r ≡ done a → r ≡ exited 0 a
command_result-done (exited zero out) a h = cc
command_result-done (exited (suc n) out) a h = cc
command_result-done timed_out a h = cc
command_result-done not_started a h = cc

and_then-of_done :
    {S A B : Type 0} (m : Attempt A × S) (f : A → S → Attempt B × S) (a : A)
    → m.0 ≡ done a
    → and_then m f ≡ f a m.1
and_then-of_done (done b, s) f a h = cc
and_then-of_done (refused k, s) f a h = cc
and_then-of_done (crashed, s) f a h = cc

module _ {S : Type 0} (p : Platform S) where
  -- The current branch, and what Git does with it.
  pub record IsGit (Current : String → S → Type 0) : Type 0 where
    pub created :
        (b out : String) (s : S)
        → (p.run ("checkout" ∷ "-b" ∷ b ∷ []) none s).0 ≡ exited 0 out
        → Current b (p.run ("checkout" ∷ "-b" ∷ b ∷ []) none s).1
    pub switched :
        (b out : String) (s : S)
        → (p.run ("checkout" ∷ b ∷ []) none s).0 ≡ exited 0 out
        → Current b (p.run ("checkout" ∷ b ∷ []) none s).1
    pub read :
        (b : String) (s : S) → Current b s → Current b (p.run ("rev-parse" ∷ "HEAD" ∷ []) none s).1
    pub in_use :
        (b path out : String) (s : S)
        → Current b s
        → (p.run ("worktree" ∷ "add" ∷ path ∷ b ∷ []) none s).0 ≢ exited 0 out
    pub not_made :
        (b path : String) (s : S)
        → Current b s
        → p.exists s path ≡ false
        → p.exists (p.run ("worktree" ∷ "add" ∷ path ∷ b ∷ []) none s).1 path ≡ false

  module _ (Current : String → S → Type 0) (git : IsGit Current) where
    or_conflict-Current :
        (name : String) (r : Attempt String) (s : S)
        → ((out : String) → r ≡ done out → Current name s)
        → (or_conflict p (r, s)).0 ≡ done tt
        → Current name (or_conflict p (r, s)).1
    or_conflict-Current name (done out) s k h = k out refl
    or_conflict-Current name (refused why) s k h = cc
    or_conflict-Current name crashed s k h = cc

    after_creation-Current :
        (name : String) (r : Attempt String) (s : S)
        → ((out : String) → r ≡ done out → Current name s)
        → (after_creation p name (r, s)).0 ≡ done tt
        → Current name (after_creation p name (r, s)).1
    unfolding run_git_command
    after_creation-Current name (done out) s k h = k out refl
    after_creation-Current name (refused why) s k h =
        let ran = p.run ("checkout" ∷ name ∷ []) none s in
        or_conflict-Current name (command_result true ran.0) ran.1
          (λ out e. git.switched name out s (command_result-done ran.0 out e)) h
    after_creation-Current name crashed s k h = cc

    -- A branch that was not there is the current one afterwards.
    ensure_branch-Current :
        (name : String) (s : S)
        → (branch_exists p name s).0 ≡ done false
        → (ensure_branch p name s).0 ≡ done tt
        → Current name (ensure_branch p name s).1
    unfolding ensure_branch
    ensure_branch-Current name s absent h =
        let s' = (branch_exists p name s).1 in
        let ran = p.run ("checkout" ∷ "-b" ∷ name ∷ []) none s' in
        let e : ensure_branch p name s ≡ after_creation p name (command_result true ran.0, ran.1) =
          and_then-of_done (branch_exists p name s) _ false absent in
        subst (λ m. Current name m.1) (sym e)
          (after_creation-Current name (command_result true ran.0) ran.1
            (λ out d. git.created name out s' (command_result-done ran.0 out d))
            (sym (ap (λ m. m.0) e) ∙ h))

    keeps_state :
        (name : String) (r : Attempt String) (s : S)
        → Current name s
        → Current name (and_then (r, s) (λ out s'. (done (p.strip out), s'))).1
    keeps_state name (done out) s current = current
    keeps_state name (refused k) s current = current
    keeps_state name crashed s current = current

    get_current_commit-Current :
        (name : String) (s : S) → Current name s → Current name (get_current_commit p s).1
    unfolding get_current_commit
    get_current_commit-Current name s current =
        let ran = p.run ("rev-parse" ∷ "HEAD" ∷ []) none s in
        keeps_state name (command_result true ran.0) ran.1 (git.read name s current)

    unless_exists-ne-done :
        (path : String) (r : Attempt String) (s : S)
        → ((out : String) → r ≢ done out)
        → p.exists s path ≡ false
        → (unless_exists p path (r, s)).0 ≢ done tt
    unless_exists-ne-done path (done out) s k absent h = k out refl
    unless_exists-ne-done path (refused why) s k absent h = ground (arith, absent, h)
    unless_exists-ne-done path crashed s k absent h = cc

    add_worktree-ne-done :
        (path name : String) (s : S)
        → Current name s
        → p.exists s path ≡ false
        → (add_worktree p true path name s).0 ≢ done tt
    unfolding add_worktree
    add_worktree-ne-done path name s current absent h =
        let ran = p.run ("worktree" ∷ "add" ∷ path ∷ name ∷ []) none s in
        unless_exists-ne-done path (command_result true ran.0) ran.1
          (λ out d. git.in_use name path out s current (command_result-done ran.0 out d))
          (git.not_made name path s current absent) h

    prepare_worktree-ne-done :
        (root path name sha : String) (reuse : Bool) (s : S) (c : GitContext)
        → Current name s
        → p.exists s path ≡ false
        → (prepare_worktree p root reuse path name sha s).0 ≢ done c
    unfolding prepare_worktree
    prepare_worktree-ne-done root path name sha reuse s c current absent h =
        let new : must_create p reuse path s ≡ (done true, s) = rw (absent, must_create) in
        let f : Bool → S → Attempt GitContext × S = λ created s'.
          and_then (add_worktree p created path name s')
            (λ _ s''. checked_context p root created path name sha s'') in
        let e : prepare_worktree p root reuse path name sha s ≡ f true s =
          ap (λ m. and_then m f) new in
        let (_, added, _) =
          and_then-done (add_worktree p true path name s) _ c (sym (ap (λ m. m.0) e) ∙ h) in
        add_worktree-ne-done path name s current absent added

    -- If Git behaves as documented, the branch is not there yet, and nothing is at the path of the
    -- worktree once the commit was read, then no context is given: the branch is checked out in the
    -- base repository first, and no other worktree can have it.
    pub prepare_context-ne-done :
        (root : String) (task_id task_number : ℕ) (explicit_branch : Option String) (reuse : Bool)
        (name : String) (s : S)
        → choose_branch p task_id task_number explicit_branch ≡ done name
        → (branch_exists p name s).0 ≡ done false
        → p.exists
            (get_current_commit p (ensure_branch p name s).1).1
            (worktree_of p root task_id task_number)
          ≡ false
        → (c : GitContext)
        → (prepare_context p root task_id task_number explicit_branch reuse s).0 ≢ done c
    unfolding prepare_context
    prepare_context-ne-done root task_id task_number explicit_branch reuse name s chosen new free c
          h =
        let path = worktree_of p root task_id task_number in
        let rest : String → String → S → Attempt GitContext × S =
          λ n sha s₃. prepare_worktree p root reuse path n sha s₃ in
        let f : String → S → Attempt GitContext × S = λ n s₁.
          and_then (ensure_branch p n s₁) (λ _ s₂. and_then (get_current_commit p s₂) (rest n)) in
        let e : prepare_context p root task_id task_number explicit_branch reuse s ≡ f name s =
          and_then-of_done (choose_branch p task_id task_number explicit_branch, s) f name chosen in
        let h₁ = sym (ap (λ m. m.0) e) ∙ h in
        let (_, ensured, e₁) = and_then-done (ensure_branch p name s) _ c h₁ in
        let h₂ = sym (ap (λ m. m.0) e₁) ∙ h₁ in
        let s₂ = (ensure_branch p name s).1 in
        let (sha, _, e₂) = and_then-done (get_current_commit p s₂) (rest name) c h₂ in
        prepare_worktree-ne-done root path name sha reuse (get_current_commit p s₂).1 c
          (get_current_commit-Current name s₂ (ensure_branch-Current name s new ensured)) free
          (sym (ap (λ m. m.0) e₂) ∙ h₂)
