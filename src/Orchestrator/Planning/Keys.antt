-- ===== src/Orchestrator/Planning/Keys.antt =====
-- Equality of conflict keys (execqueue/orchestrator/classification.py).
use text.Mathlib.TextEquality.{eq_iff}
use exec_queue.Common.{◌≡◌, ◌↔◌, true, none, some, arith, Option, refl}
use exec_queue.Orchestrator.Classification.{ConflictKey, branch, task}
use exec_queue.Orchestrator.Planning.{key_eq}

pub key_eq_iff : (a b : Option ConflictKey) → (key_eq a b ≡ true) ↔ (a ≡ b)
unfolding key_eq
key_eq_iff none none = ground arith
key_eq_iff (some (branch a)) (some (branch b)) = ground (arith, eq_iff a b)
key_eq_iff (some (task a)) (some (task b)) = ground arith
key_eq_iff _ _ = ground arith

pub key_eq_refl : (a : Option ConflictKey) → key_eq a a ≡ true
key_eq_refl a = (key_eq_iff a a).1 refl

pub key_eq_comm : (a b : Option ConflictKey) → key_eq a b ≡ key_eq b a
key_eq_comm a b =
    ground (arith, (key_eq_iff a b).0, (key_eq_iff a b).1, (key_eq_iff b a).0, (key_eq_iff b a).1)
