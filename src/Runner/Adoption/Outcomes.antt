-- ===== src/Runner/Adoption/Outcomes.antt =====
-- What the cherry-pick and the steps after it give (execqueue/runner/commit_adopter.py).
use exec_queue.Common.{
  ◌≡◌, ◌≢◌, ◌⊎◌, refl, inl, inr, sym, ap, String, true, false, not, ◌&&◌, Option, none, some, List,
  [], ◌∷◌, null, truthy, arith, ◌==◌, if◌then◌else◌, Bool-cases,
}
use mathlib.Core.Path.{subst}
use exec_queue.Runner.Commands.{Process, raised, Machine, exited_zero, Ran-cases}
use exec_queue.Runner.Adoption.{
  CommitAdopter, AdoptionResult, same_head, new_result, conflicting, run_git_command,
  get_current_target_head, run_validation_commands, verify_adoption, after_pick, report_conflict,
  cherry_pick, run_each,
}

-- Either a success without a complaint, or a review with the reason for it.
abbrev pub IsReported : AdoptionResult → Type 0
IsReported r =
    ((r.success ≡ true)
      × (r.needs_review ≡ false)
      × (r.validation_passed ≡ true)
      × (r.conflict_detected ≡ false)
      × (r.error_message ≡ none))
    ⊎ ((r.success ≡ false) × (r.needs_review ≡ true) × (r.error_message ≢ none))

some_inj : (r q : AdoptionResult) → ◌≡◌ {A = Option AdoptionResult} (some r) (some q) → r ≡ q
some_inj r q h = ap (λ o. elim o [ some x ↦ x | none ↦ r ]) h

pub some_ne_none : (text : String) → some text ≢ none
some_ne_none text h = cc

module _ {S : Type 0} (m : Machine S) (a : CommitAdopter) where
  -- The result of a cherry-pick that was made: a success has another head than before.
  abbrev IsPicked : Option String → Option String → AdoptionResult → Type 0
  IsPicked before sha r =
      IsReported r
      × (r.conflict_detected ≡ false)
      × (r.adopted_commit_sha ≡ sha)
      × (r.success ≡ true
          → (truthy r.target_branch_head ≡ true) × (same_head r.target_branch_head before ≡ false))

  verify_adoption_lem :
      (before sha : Option String) (s : S)
      → IsPicked before sha
          (verify_adoption m a before
            (record (new_result m a) { adopted_commit_sha = sha; validation_passed = true })
            s).0
  unfolding verify_adoption
  verify_adoption_lem before sha s =
      let head = (get_current_target_head m a s).0 in
      elim (Bool-cases (truthy head && not (same_head head before))) [
        | inl new ↦ ground (arith, new)
        | inr old ↦ ground (arith, old)
      ]

  run_each_none : (cs : List String) (s : S) → null cs ≡ true → (run_each m a cs s).0 ≡ true
  unfolding run_each
  run_each_none [] s h = refl
  run_each_none (c ∷ cs) s h = cc

  after_pick_lem :
      (before : Option String) (s : S)
      → let r = (after_pick m a before s).0 in
        let (sha, s') = get_current_target_head m a s in
        IsPicked before sha r × (r.success ≡ true → (run_validation_commands m a s').0 ≡ true)
  unfolding after_pick run_validation_commands
  after_pick_lem before s =
      let sha = (get_current_target_head m a s).0 in
      let s₁ = (get_current_target_head m a s).1 in
      let s₂ = (run_validation_commands m a s₁).1 in
      elim (Bool-cases (null a.validation_commands)) [
        | inl free ↦
            rw (free, if◌then◌else◌)
              (verify_adoption_lem before sha s₁, λ _. run_each_none a.validation_commands s₁ free)
        | inr commands ↦ elim (Bool-cases (run_validation_commands m a s₁).0) [
          | inl passed ↦
              rw (commands, passed, if◌then◌else◌) (verify_adoption_lem before sha s₂, λ _. refl)
          | inr broken ↦ ground (arith, commands, broken)
        ]
      ]

  -- A commit was picked in a state: the cherry-pick exited with 0, then every validation command passed,
  -- and the head is another one than before.
  abbrev pub IsPickedIn : S → AdoptionResult → Type 0
  IsPickedIn s r =
      let (before, s₁) = get_current_target_head m a s in
      let (picked, s₂) = run_git_command m a ("cherry-pick" ∷ a.task_commit_sha ∷ []) s₁ in
      let (after, s₃) = get_current_target_head m a s₂ in
      (exited_zero picked ≡ true)
      × (r.adopted_commit_sha ≡ after)
      × ((run_validation_commands m a s₃).0 ≡ true)
      × (truthy r.target_branch_head ≡ true)
      × (same_head r.target_branch_head before ≡ false)

  -- What a result tells of the state that the cherry-pick was made in, and of the state after it.
  abbrev pub IsOutcome : S → Option AdoptionResult × S → Type 0
  IsOutcome s (none, s') = Unit
  IsOutcome s (some r, s') =
      IsReported r
      × (r.success ≡ true → IsPickedIn s r)
      × (r.conflict_detected ≡ true
          → (s'' : S) × (s' ≡ (run_git_command m a ("cherry-pick" ∷ "--abort" ∷ []) s'').1))

  IsOutcome-by :
      (s : S) (o o' : Option AdoptionResult × S) → o ≡ o' → IsOutcome s o' → IsOutcome s o
  IsOutcome-by s o o' e h = subst (IsOutcome s) (sym e) h

  report_conflict_lem : (p : Process) (s s' : S) → IsOutcome s' (report_conflict m a p s)
  unfolding report_conflict
  report_conflict_lem p s s' =
      let (status, s₁) = run_git_command m a ("status" ∷ "--porcelain" ∷ []) s in
      let (aborted, s₂) = run_git_command m a ("cherry-pick" ∷ "--abort" ∷ []) s₁ in
      elim (Ran-cases status) [
        | inl e ↦ IsOutcome-by s' _ (none, s₁) (rw (e, report_conflict) refl) tt
        | inr (_, e) ↦ elim (Ran-cases aborted) [
          | inl f ↦ IsOutcome-by s' _ (none, s₂) (rw (e, f, report_conflict) refl) tt
          | inr (_, f) ↦
              IsOutcome-by s' _ (some (conflicting m a p), s₂) (rw (e, f, report_conflict) refl)
                (inr (refl, refl, some_ne_none _), cc, λ _. (s₁, refl))
        ]
      ]

  pub cherry_pick_lem : (s : S) → IsOutcome s (cherry_pick m a s)
  unfolding cherry_pick
  cherry_pick_lem s =
      let (before, s₁) = get_current_target_head m a s in
      let (picked, s₂) = run_git_command m a ("cherry-pick" ∷ a.task_commit_sha ∷ []) s₁ in
      elim (Ran-cases picked) [
        | inl e ↦ IsOutcome-by s _ (none, s₂) (rw (e, cherry_pick) refl) tt
        | inr (p, e) ↦ elim (Bool-cases (p.returncode == 0)) [
          | inl zero ↦
              let (told, rest) = after_pick_lem before s₂ in
              let (r, s₃) = after_pick m a before s₂ in
              let done : exited_zero picked ≡ true = rw e zero in
              IsOutcome-by s _ (some r, s₃) (rw (e, zero, if◌then◌else◌, cherry_pick) refl)
                (
                  told.0,
                  (λ h. (done, told.2, rest h, (told.3 h).0, (told.3 h).1)),
                  λ h. cc (h, told.1),
                )
          | inr failed ↦
              IsOutcome-by s _ (report_conflict m a p s₂)
                (rw (e, failed, if◌then◌else◌, cherry_pick) refl) (report_conflict_lem p s₂ s)
        ]
      ]

  report_conflict-ne-none :
      ((args : List String) (s : S) → (run_git_command m a args s).0 ≢ raised)
      → (p : Process) (s : S) → (report_conflict m a p s).0 ≢ none
  unfolding report_conflict
  report_conflict-ne-none runs p s =
      let (status, s₁) = run_git_command m a ("status" ∷ "--porcelain" ∷ []) s in
      ground
        (arith, runs ("status" ∷ "--porcelain" ∷ []) s, runs ("cherry-pick" ∷ "--abort" ∷ []) s₁)

  pub cherry_pick-ne-none :
      ((args : List String) (s : S) → (run_git_command m a args s).0 ≢ raised)
      → (s : S) → (cherry_pick m a s).0 ≢ none
  unfolding cherry_pick
  cherry_pick-ne-none runs s =
      let (before, s₁) = get_current_target_head m a s in
      let (picked, s₂) = run_git_command m a ("cherry-pick" ∷ a.task_commit_sha ∷ []) s₁ in
      elim (Ran-cases picked) [
        | inl e ↦ absurd (runs _ s₁ e)
        | inr (p, e) ↦ ground (arith, e, report_conflict-ne-none runs p s₂)
      ]
