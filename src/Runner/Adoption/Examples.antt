-- ===== src/Runner/Adoption/Examples.antt =====
-- An adoption in a small repository (execqueue/runner/commit_adopter.py).
use exec_queue.Common.{
  ◌≡◌, ◌≢◌, ◌⊎◌, refl, String, Bool, true, false, ◌||◌, Option, none, some, List, [], ◌∷◌, arith,
  str_eq, if◌then◌else◌,
}
use exec_queue.Runner.Commands.{Ran, ran, raised, Machine}
use exec_queue.Runner.Adoption.{
  CommitAdopter, AdoptionResult, is_target_branch_clean, is_commit_already_adopted, adopt,
}
use exec_queue.Runner.Adoption.Outcomes.{IsReported, IsPickedIn}
use exec_queue.Runner.Adoption.Adopted.{adopt-conflict, adopt-success}

-- The branch that is checked out, its head, whether the change of the commit is in it, and whether a
-- checkout is refused.
record Repository : Type 0 where
  branch : String
  head : String
  changed : Bool
  stuck : Bool

abbrev exits : Bool → Ran
exits true = ran (record { returncode = 0; stdout = ""; stderr = "" })
exits false = ran (record { returncode = 1; stdout = ""; stderr = "refused" })

abbrev prints : String → Ran
prints text = ran (record { returncode = 0; stdout = text; stderr = "" })

-- The commit is on another branch, and a pick of a change that is there is empty, which Git refuses.
abbrev git : List String → Repository → Ran × Repository
git (a ∷ b ∷ []) r =
    if str_eq a "checkout"
    then (if r.stuck then (exits false, r) else (exits true, record r { branch = b }))
    else if str_eq a "rev-parse"
    then (prints r.head, r)
    else if str_eq b "--porcelain" || str_eq b "--abort"
    then (exits true, r)
    else if r.changed
    then (exits false, r)
    else (exits true, record r { head = "picked"; changed = true })
git (a ∷ b ∷ c ∷ []) r = (if str_eq a "log" then prints "0000000 first" else exits true, r)
git _ r = (exits false, r)

abbrev machine : Machine Repository
machine = record {
  git = λ path args r. git args r;
  shell = λ path command r. (exits (str_eq command "true"), r);
}

abbrev adopter : String → List String → CommitAdopter
adopter sha commands = record {
  target_worktree_path = "/work/main";
  target_branch = "main";
  task_worktree_path = "/work/t";
  task_commit_sha = sha;
  validation_commands = commands;
}

abbrev repository : Repository
repository = record { branch = "main"; head = "first"; changed = false; stuck = false }

abbrev is_success : Option AdoptionResult → Bool
is_success none = false
is_success (some r) = r.success

abbrev is_conflict : Option AdoptionResult → Bool
is_conflict none = false
is_conflict (some r) = r.conflict_detected

-- A commit that was picked has another name in the branch: a second adoption does not find it, and
-- reports a conflict.
second_adoption :
    let (first, r) = adopt machine (adopter "12345678" []) repository in
    (is_success first ≡ true) × (is_conflict (adopt machine (adopter "12345678" []) r).0 ≡ true)
unfolding adopt
second_adoption = (refl, refl)

-- The checkout is refused and the pull is not: the commit is picked on the branch that is there.
picked_elsewhere :
    let (result, r) =
      adopt machine
        (adopter "12345678" [])
        (record repository { branch = "feature"; stuck = true }) in
    (is_success result ≡ true) × (r.branch ≡ "feature") × (r.changed ≡ true)
unfolding adopt
picked_elsewhere = (refl, refl, refl)

-- The empty commit name is found in every log.
empty_commit :
    let (result, r) = adopt machine (adopter "" []) repository in
    (is_success result ≡ true) × (r ≡ repository)
unfolding adopt
empty_commit = (refl, refl)

-- A failed validation leaves the commit in the branch.
left_in_branch :
    let (result, r) = adopt machine (adopter "12345678" ("false" ∷ [])) repository in
    (is_success result ≡ false) × (r.changed ≡ true)
unfolding adopt
left_in_branch = (refl, refl)

-- The result of the adoption into the branch as it is.
abbrev adopted_now : AdoptionResult
adopted_now = record {
  success = true;
  adopted_commit_sha = some "picked";
  original_commit_sha = some "12345678";
  conflict_detected = false;
  validation_passed = true;
  target_branch_head = some "picked";
  error_message = none;
  needs_review = false;
}

adopt-success_example :
    let (clean, r) = is_target_branch_clean machine (adopter "12345678" ("true" ∷ [])) repository in
    (clean ≡ true)
    × (((is_commit_already_adopted machine (adopter "12345678" ("true" ∷ [])) r).0 ≡ true)
        ⊎ ((r' : Repository) × IsPickedIn machine
              (adopter "12345678" ("true" ∷ []))
              r'
              adopted_now))
unfolding adopt
adopt-success_example =
    adopt-success machine (adopter "12345678" ("true" ∷ [])) repository adopted_now refl refl

abbrev conflict_now : AdoptionResult
conflict_now = record {
  success = false;
  adopted_commit_sha = none;
  original_commit_sha = some "12345678";
  conflict_detected = true;
  validation_passed = false;
  target_branch_head = none;
  error_message = some "Cherry-pick conflict: refused";
  needs_review = true;
}

adopt-conflict_example :
    IsReported conflict_now
    × (conflict_now.conflict_detected ≡ true
        → (r' : Repository) × ((adopt machine
              (adopter "12345678" [])
              (record repository { changed = true })).1
            ≡ (git ("cherry-pick" ∷ "--abort" ∷ []) r').1))
unfolding adopt
adopt-conflict_example =
    adopt-conflict machine (adopter "12345678" []) (record repository { changed = true })
      conflict_now refl

always_runs : (args : List String) (r : Repository) → (git args r).0 ≢ raised
always_runs [] r = ground arith
always_runs (a ∷ []) r = ground arith
always_runs (a ∷ b ∷ []) r = ground arith
always_runs (a ∷ b ∷ c ∷ []) r = ground arith
always_runs (a ∷ b ∷ c ∷ d ∷ rest) r = ground arith
