-- ===== src/Orchestrator/Context/Valid.antt =====
-- Which contexts are built and which are valid (execqueue/orchestrator/context_contract.py).
use exec_queue.Common.{
  ℕ, ◌≡◌, ◌≢◌, ◌↔◌, ◌⊎◌, refl, String, Bool, true, false, not, ◌||◌, Option, none, some, List, [],
  arith, any-keep, keep-keep, ap, sym, any, contains, non_empty, truthy, Bool-cases, inl, inr,
}
use exec_queue.Orchestrator.Recovery.{non_recoverable}
use exec_queue.Orchestrator.Context.{
  PreparedExecutionContext, ContextTask, built, refused, build_context, validate_context, validate,
  write_errors, sanitize_details, secret_fields, build_read_only_context, build_write_context,
}

validate_context-read_only :
    (base : String) (now : ℕ) (t : ContextTask)
    → (validate_context (build_read_only_context base now t) ≡ [])
      ↔ ((t.task_number ≢ 0) × (non_empty t.task_type ≡ true) × (non_empty base ≡ true))
unfolding build_read_only_context validate_context
validate_context-read_only base now t = ground arith

validate_context-write :
    (base : String) (now : ℕ) (t : ContextTask) (branch worktree sha : String)
    → truthy (some branch) ≡ true
    → truthy (some worktree) ≡ true
    → truthy (some sha) ≡ true
    → (validate_context (build_write_context base now t branch worktree sha) ≡ [])
      ↔ ((t.task_number ≢ 0) × (non_empty t.task_type ≡ true) × (non_empty base ≡ true))
unfolding build_write_context validate_context
validate_context-write base now t branch worktree sha b w s = ground (arith, b, w, s)

pub built_inj : (c d : PreparedExecutionContext) → built c ≡ built d → c ≡ d
built_inj c d h = ap (λ b. elim b [ built x ↦ x | refused _ ↦ c ]) h

-- A context that is built has no error exactly if the number of its task is not 0 and neither its type
-- nor the path of the repository is empty.
pub build_context-validate_context :
    (base : String) (now : ℕ) (t : ContextTask) (writes : Bool)
    (branch worktree sha : Option String) (c : PreparedExecutionContext)
    → build_context base now t writes branch worktree sha ≡ built c
    → (validate_context c ≡ [])
      ↔ ((t.task_number ≢ 0) × (non_empty t.task_type ≡ true) × (non_empty base ≡ true))
unfolding build_context validate_context
build_context-validate_context base now t false branch worktree sha c h =
    rw (sym (built_inj _ c h)) (validate_context-read_only base now t)
build_context-validate_context base now t true (some b) (some w) (some s) c h =
    elim (Bool-cases (not (truthy (some b)) || not (truthy (some w)) || not (truthy (some s)))) [
      | inl empty ↦ ground (arith, empty)
      | inr full ↦
          let same : built (build_write_context base now t b w s) ≡ built c =
            ground (arith, full, h) in
          rw (sym (built_inj _ c same)) (
            validate_context-write base now t b w s (ground (arith, full)) (ground (arith, full))
              (ground (arith, full)))
    ]
build_context-validate_context base now t true _ _ _ c h = cc

-- A context is refused exactly for a task that writes and has no branch, no worktree or no commit, or an
-- empty one.
pub build_context_lem :
    (base : String) (now : ℕ) (t : ContextTask) (writes : Bool)
    (branch worktree sha : Option String)
    → (build_context base now t writes branch worktree sha ≡ refused non_recoverable) ↔ (
        (writes ≡ true)
        × ((truthy branch ≡ false) ⊎ (truthy worktree ≡ false) ⊎ (truthy sha ≡ false)))
unfolding build_context
build_context_lem base now t false branch worktree sha = ground arith
build_context_lem base now t true none worktree sha = ground arith
build_context_lem base now t true (some b) none sha = ground arith
build_context_lem base now t true (some b) (some w) none = ground arith
build_context_lem base now t true (some b) (some w) (some s) = ground arith

-- A context that the builder finds no error in passes its own check too.
pub validate_context-validate :
    (c : PreparedExecutionContext) → validate_context c ≡ [] → validate c ≡ []
unfolding validate_context validate write_errors
validate_context-validate c h = ground (arith, h)

-- Nothing of the details that are kept has a key with a secret word, and keeping them again removes
-- nothing more.
pub sanitize_details_lem :
    (lower : String → String) {V : Type 0} (items : List (String × V))
    → (any (λ i. any (λ s. contains s (lower i.0)) secret_fields) (sanitize_details lower items)
        ≡ false)
      × (sanitize_details lower (sanitize_details lower items) ≡ sanitize_details lower items)
unfolding sanitize_details
sanitize_details_lem lower items =
    let secret = λ (i : String × _). any (λ s. contains s (lower i.0)) secret_fields in
    (any-keep secret (λ i. not (secret i)) items (λ i. refl), keep-keep (λ i. not (secret i)) items)
