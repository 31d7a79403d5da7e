-- ===== src/Runner/Adoption/Adopted.antt =====
-- What the result of an adoption tells (execqueue/runner/commit_adopter.py).
use exec_queue.Common.{
  ◌≡◌, ◌≢◌, ◌⊎◌, refl, inl, inr, sym, ap, String, true, Option, none, some, List, [], ◌∷◌, arith,
  if◌then◌else◌, Bool-cases,
}
use mathlib.Core.Path.{subst}
use exec_queue.Runner.Commands.{raised, Machine}
use exec_queue.Runner.Adoption.{
  CommitAdopter, AdoptionResult, new_result, for_review, run_git_command, is_target_branch_clean,
  is_commit_already_adopted, checkout_target_branch, cherry_pick, skip_adopted, adopt,
}
use exec_queue.Runner.Adoption.Outcomes.{
  IsReported, some_ne_none, IsPickedIn, IsOutcome, cherry_pick_lem, cherry_pick-ne-none,
}

module _ {S : Type 0} (m : Machine S) (a : CommitAdopter) where
  -- The same of the whole adoption, with what a success was found or made from.
  abbrev IsAdoption : S → Option AdoptionResult × S → Type 0
  IsAdoption s (none, s') = Unit
  IsAdoption s (some r, s') =
      let (clean, s₁) = is_target_branch_clean m a s in
      IsReported r
      × (r.success ≡ true
          → (clean ≡ true)
            × (((is_commit_already_adopted m a s₁).0 ≡ true) ⊎ ((s₂ : S) × IsPickedIn m a s₂ r)))
      × (r.conflict_detected ≡ true
          → (s'' : S) × (s' ≡ (run_git_command m a ("cherry-pick" ∷ "--abort" ∷ []) s'').1))

  IsAdoption-by :
      (s : S) (o o' : Option AdoptionResult × S) → o ≡ o' → IsAdoption s o' → IsAdoption s o
  IsAdoption-by s o o' e h = subst (IsAdoption s) (sym e) h

  picked-IsAdoption :
      (s s' : S) (o : Option AdoptionResult × S)
      → (is_target_branch_clean m a s).0 ≡ true
      → IsOutcome m a s' o
      → IsAdoption s o
  picked-IsAdoption s s' (none, _) clean h = tt
  picked-IsAdoption s s' (some r, _) clean h = (h.0, (λ e. (clean, inr (s', h.1 e))), h.2)

  adopt_lem : (s : S) → IsAdoption s (adopt m a s)
  unfolding adopt skip_adopted
  adopt_lem s =
      let (clean, s₁) = is_target_branch_clean m a s in
      let (adopted, s₂) = is_commit_already_adopted m a s₁ in
      let (ready, s₃) = checkout_target_branch m a s₂ in
      elim (Bool-cases clean) [
        | inr dirty ↦
            IsAdoption-by s _
              (some (for_review m a "Target worktree has uncommitted changes" (new_result m a)), s₁)
              (rw (dirty, if◌then◌else◌, adopt) refl) (inr (refl, refl, some_ne_none _), cc, cc)
        | inl tidy ↦ elim (Bool-cases adopted) [
          | inl there ↦
              IsAdoption-by s _ (some (skip_adopted m a s₂).0, (skip_adopted m a s₂).1)
                (rw (tidy, there, if◌then◌else◌, adopt) refl)
                (inl (refl, refl, refl, refl, refl), (λ _. (tidy, inl there)), cc)
          | inr new ↦ elim (Bool-cases ready) [
            | inr refused ↦
                IsAdoption-by s _
                  (some (for_review m a "Failed to checkout target branch" (new_result m a)), s₃)
                  (rw (tidy, new, refused, if◌then◌else◌, adopt) refl)
                  (inr (refl, refl, some_ne_none _), cc, cc)
            | inl on ↦
                IsAdoption-by s _ (cherry_pick m a s₃)
                  (rw (tidy, new, on, if◌then◌else◌, adopt) refl)
                  (picked-IsAdoption s s₃ _ tidy (cherry_pick_lem m a s₃))
          ]
        ]
      ]

  told :
      (s : S) (r : AdoptionResult) (o : Option AdoptionResult × S)
      → o.0 ≡ some r
      → IsAdoption s o
      → IsAdoption s (some r, o.1)
  told s r o e h = IsAdoption-by s (some r, o.1) o (sym (ap (λ x. (x, o.1)) e)) h

  -- Whatever Git and the commands do, a result is either a success, with the validation passed and
  -- neither a conflict nor an error, or it asks for a review and has an error. A conflict is answered
  -- by an abort of the cherry-pick, after which nothing is run.
  pub adopt-conflict :
      (s : S) (r : AdoptionResult)
      → (adopt m a s).0 ≡ some r
      → IsReported r
        × (r.conflict_detected ≡ true
            → (s' : S) × ((adopt m a s).1
                ≡ (run_git_command m a ("cherry-pick" ∷ "--abort" ∷ []) s').1))
  adopt-conflict s r e = let h = told s r (adopt m a s) e (adopt_lem s) in (h.0, h.2)

  -- An adoption succeeds only in a worktree that was clean, and only if the commit was found there or
  -- was picked: then the cherry-pick exited with 0, every validation command passed after it, and the
  -- head is there and another one than before.
  pub adopt-success :
      (s : S) (r : AdoptionResult)
      → (adopt m a s).0 ≡ some r
      → r.success ≡ true
      → let (clean, s₁) = is_target_branch_clean m a s in
        (clean ≡ true)
        × (((is_commit_already_adopted m a s₁).0 ≡ true) ⊎ ((s₂ : S) × IsPickedIn m a s₂ r))
  adopt-success s r e h = (told s r (adopt m a s) e (adopt_lem s)).1 h

  -- If no Git command raises an exception, then an adoption gives a result, whatever the validation
  -- commands do.
  pub adopt-ne-none :
      ((args : List String) (s : S) → (run_git_command m a args s).0 ≢ raised)
      → (s : S) → (adopt m a s).0 ≢ none
  unfolding adopt
  adopt-ne-none runs s =
      let (clean, s₁) = is_target_branch_clean m a s in
      let (adopted, s₂) = is_commit_already_adopted m a s₁ in
      let (ready, s₃) = checkout_target_branch m a s₂ in
      ground (arith, cherry_pick-ne-none m a runs s₃)
