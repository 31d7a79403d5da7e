-- ===== src/Runner/Commands.antt =====
-- Git and the shell, which the runner starts by `subprocess.run` and which are not code of the
-- repository: a record of operations over a type of states of the machine.
use exec_queue.Common.{ℕ, ◌≡◌, ◌⊎◌, inl, inr, refl, String, Bool, false, List, ◌==◌}

-- `subprocess.CompletedProcess`. A return code is only compared with 0, and a negative one stands for
-- some other number that is not 0.
pub record Process : Type 0 where
  pub returncode : ℕ
  pub stdout : String
  pub stderr : String

-- A command has run, or raised an exception (a timeout, or a program that is not there).
pub data Ran : Type 0 where
  ran : Process → Ran
  raised : Ran

-- `git` with arguments, and a command for the shell, in a directory.
pub record Machine (S : Type 0) : Type 0 where
  pub git : String → List String → S → Ran × S
  pub shell : String → String → S → Ran × S

-- Whether a command has run with the return code 0.
abbrev pub exited_zero : Ran → Bool
exited_zero (ran p) = p.returncode == 0
exited_zero raised = false

pub Ran-cases : (r : Ran) → (r ≡ raised) ⊎ ((p : Process) × (r ≡ ran p))
Ran-cases (ran p) = inr (p, refl)
Ran-cases raised = inl refl
