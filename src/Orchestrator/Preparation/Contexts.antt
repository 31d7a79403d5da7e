-- ===== src/Orchestrator/Preparation/Contexts.antt =====
-- What a prepared task hands to the runner (execqueue/orchestrator/main.py).
use exec_queue.Common.{
  ℕ, ◌≡◌, ◌≢◌, refl, String, Bool, true, false, ◌||◌, not, Option, none, some, List, [], ◌∷◌, null,
  arith, Bool-cases, inl, inr, ap, sym, truthy,
}
use mathlib.Core.Path.{subst}
use exec_queue.Database.{Table}
use exec_queue.Model.{Task, prepared}
use exec_queue.Orchestrator.Classification.{classify, write}
use exec_queue.Orchestrator.Recovery.{recoverable, conflict, non_recoverable}
use exec_queue.Orchestrator.Context.{
  PreparedExecutionContext, ContextError, ContextTask, Built, built, build_context,
  build_write_context, build_read_only_context, validate_context,
}
use exec_queue.Orchestrator.Context.Valid.{built_inj}
use exec_queue.Orchestrator.Git.{
  Platform, Attempt, done, refused, crashed, GitContext, prepare_context,
}
use exec_queue.Orchestrator.Preparation.{
  Orchestrator, validated, some_context, git_part, with_git, of_git, context_part, finish,
  after_git, prepare_task_context,
}
use exec_queue.Orchestrator.Lookup.{row_of, row_of-store_self}

some_context-ne-none : (r : Attempt GitContext) → some_context r ≢ done none
some_context-ne-none (done g) h = cc
some_context-ne-none (refused k) h = cc
some_context-ne-none crashed h = cc

null-nil : (xs : List ContextError) → null xs ≡ true → xs ≡ []
null-nil [] h = refl
null-nil (x ∷ xs) h = cc

done_inj :
    (c d : PreparedExecutionContext)
    → ◌≡◌ {A = Attempt PreparedExecutionContext} (done c) (done d)
    → c ≡ d
done_inj c d h = ap (λ a. elim a [ done x ↦ x | refused _ ↦ c | crashed ↦ c ]) h

validated-done :
    (b : Built) (c : PreparedExecutionContext)
    → validated b ≡ done c
    → (b ≡ built c) × (validate_context c ≡ [])
validated-done (built d) c h = elim (Bool-cases (null (validate_context d))) [
  | inl fine ↦
      let e : d ≡ c = done_inj d c (ground (arith, fine, h)) in
      (ap built e, subst (λ x. validate_context x ≡ []) e (null-nil _ fine))
  | inr bad ↦ ground (arith, bad, h)
]
validated-done (Built.refused k) c h = cc

-- The fields of a context for a task that writes are those given.
built_write :
    (base : String) (now : ℕ) (ct : ContextTask) (writes : Bool)
    (branch worktree sha : Option String) (c : PreparedExecutionContext)
    → build_context base now ct writes branch worktree sha ≡ built c
    → c.runner_mode ≡ write
    → (writes ≡ true)
      × (c.branch_name ≡ branch)
      × (c.worktree_path ≡ worktree)
      × (c.commit_sha_before ≡ sha)
unfolding build_context build_write_context build_read_only_context
built_write base now ct false branch worktree sha c h w =
    cc (ap (λ x. x.runner_mode) (built_inj (build_read_only_context base now ct) c h), w)
built_write base now ct true none worktree sha c h w = cc
built_write base now ct true (some b) none sha c h w = cc
built_write base now ct true (some b) (some x) none c h w = cc
built_write base now ct true (some b) (some x) (some y) c h w =
    elim (Bool-cases (not (truthy (some b)) || not (truthy (some x)) || not (truthy (some y)))) [
      | inl empty ↦ ground (arith, empty, h)
      | inr full ↦
          let e : build_write_context base now ct b x y ≡ c =
            built_inj _ c (ground (arith, full, h)) in
          (
            refl,
            sym (ap (λ d. d.branch_name) e),
            sym (ap (λ d. d.worktree_path) e),
            sym (ap (λ d. d.commit_sha_before) e),
          )
    ]

-- A context that the runner can use, and the row of its task.
abbrev pub IsHandover : PreparedExecutionContext → Task → Type 0
IsHandover c t' =
    (validate_context c ≡ [])
    × (t'.status ≡ prepared)
    × (t'.prepared_context_version ≡ some c.version)
    × (c.runner_mode ≡ write
        → (c.branch_name ≡ t'.branch_name)
          × (c.worktree_path ≡ t'.worktree_path)
          × (c.commit_sha_before ≡ t'.commit_sha_before))

module _ {S : Type 0} (p : Platform S) (o : Orchestrator) (db : Table Task) (now : ℕ) where
  context_part-done :
      (batch_id : String) (writes : Bool) (t : Task) (git : Option GitContext)
      (c : PreparedExecutionContext)
      → context_part p o now batch_id writes t git ≡ done c
      → (validate_context c ≡ [])
        × (c.runner_mode ≡ write
            → (writes ≡ true)
              × (c.branch_name ≡ of_git p o (λ g. g.branch_name) git)
              × (c.worktree_path ≡ of_git p o (λ g. g.worktree_path) git)
              × (c.commit_sha_before ≡ of_git p o (λ g. g.commit_sha_before) git))
  unfolding context_part
  context_part-done batch_id writes t git c h =
      let (made, valid) = validated-done _ c h in
      (valid, λ w. built_write o.base_repo_path now _ writes _ _ _ c made w)

  finish-success :
      (a : Attempt PreparedExecutionContext) (t t₀ : Task) (rows : List Task)
      → row_of t.id rows ≡ some t₀
      → let (r, rows') = finish p o db now a t rows in
        r.success ≡ true
        → (c : PreparedExecutionContext) × (a ≡ done c)
          × (r.context ≡ some c)
          × (row_of t.id rows'
              ≡ some (record t {
                status = prepared;
                prepared_context_version = some c.version;
                updated_at = now;
              }))
  unfolding finish
  finish-success (done c) t t₀ rows h e = (c, refl, refl, row_of-store_self t₀ _ t.id rows h refl)
  finish-success (refused non_recoverable) t t₀ rows h e = cc
  finish-success (refused recoverable) t t₀ rows h e = cc
  finish-success (refused conflict) t t₀ rows h e = cc
  finish-success crashed t t₀ rows h e = cc

  after_git-success :
      (batch_id : String) (writes : Bool) (a : Attempt (Option GitContext)) (t : Task)
      (rows : List Task)
      → row_of t.id rows ≡ some t
      → ((writes ≡ true) → a ≢ done none)
      → let (r, rows') = after_git p o db now batch_id writes a t rows in
        r.success ≡ true
        → (c : PreparedExecutionContext) × (t' : Task) × (r.context ≡ some c)
          × (row_of t.id rows' ≡ some t')
          × IsHandover c t'
  unfolding after_git
  after_git-success batch_id writes (done none) t rows h git e =
      let (c, made, given, stored) =
        finish-success (context_part p o now batch_id writes t none) t t rows h e in
      let (valid, fields) = context_part-done batch_id writes t none c made in
      (c, _, given, stored, (valid, refl, refl, λ w. absurd (git ((fields w).0) refl)))
  after_git-success batch_id writes (done (some g)) t rows h git e =
      let t' = with_git p o (some g) t in
      let (c, made, given, stored) =
        finish-success (context_part p o now batch_id writes t (some g)) t' t rows h e in
      let (valid, fields) = context_part-done batch_id writes t (some g) c made in
      (c, _, given, stored, (valid, refl, refl, λ w. ((fields w).1, (fields w).2, (fields w).3)))
  after_git-success batch_id writes (refused k) t rows h git e =
      let (c, made, _, _) = finish-success (refused k) t t rows h e in cc
  after_git-success batch_id writes crashed t rows h git e =
      let (c, made, _, _) = finish-success crashed t t rows h e in cc

  git_part-none :
      (t : Task) (s : S) (writes : Bool) → writes ≡ true → (git_part p o writes t s).0 ≢ done none
  unfolding git_part
  git_part-none t s false w h = cc
  git_part-none t s true w h =
      some_context-ne-none (prepare_context p o.worktree_root t.id t.task_number none true s).0 h

  -- If the task is in the table as it is, then a preparation that succeeds gives a context without an
  -- error, and its task is prepared with the version of the context; the branch, worktree and commit of
  -- a context for writing are those of the row.
  pub prepare_task_context-success :
      (batch_id : String) (t : Task) (rows : List Task) (s : S)
      → row_of t.id rows ≡ some t
      → let (r, rows', s') = prepare_task_context p o db now batch_id t rows s in
        r.success ≡ true
        → (c : PreparedExecutionContext) × (t' : Task) × (r.context ≡ some c)
          × (row_of t.id rows' ≡ some t')
          × IsHandover c t'
  unfolding prepare_task_context
  prepare_task_context-success batch_id t rows s h e =
      let writes = (classify t.id t.task_number t.task_type t.details).requires_write_access in
      after_git-success batch_id writes (git_part p o writes t s).0 t rows h
        (git_part-none t s writes) e
