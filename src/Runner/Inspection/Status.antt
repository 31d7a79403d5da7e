-- ===== src/Runner/Inspection/Status.antt =====
-- How an inspection ends (execqueue/runner/result_inspector.py).
use exec_queue.Common.{
  ◌≡◌, ◌⊎◌, ◌↔◌, inl, inr, refl, String, Bool, true, false, not, ◌&&◌, ◌||◌, List, [], ◌∷◌, any,
  null, keep, arith, if◌then◌else◌, Bool-cases,
}
use exec_queue.Orchestrator.Classification.{RunnerMode, read_only, write}
use exec_queue.Runner.Inspection.{
  InspectionStatus, passed, failed, review, InspectionResult, ResultInspector, Findings,
  is_path_allowed, check_out_of_scope_changes, judge, check_read_only, check_scope, check_missing,
}

-- Some changed file is not allowed.
abbrev pub is_out_of_scope : ResultInspector → Findings → Bool
is_out_of_scope i f = any (λ path. not (is_path_allowed i path)) f.changed

null-keep : (p : String → Bool) (xs : List String) → not (null (keep p xs)) ≡ any p xs
null-keep p [] = refl
null-keep p (x ∷ xs) = ground (arith, null-keep p xs)

nothing_out :
    (i : ResultInspector) (xs : List String)
    → null i.allowed_paths ≡ true
    → any (λ path. not (is_path_allowed i path)) xs ≡ false
unfolding is_path_allowed
nothing_out i [] h = refl
nothing_out i (x ∷ xs) h = ground (arith, h, nothing_out i xs h)

check_out_of_scope_changes_lem :
    (i : ResultInspector) (f : Findings)
    → (check_out_of_scope_changes i f.changed).0 ≡ is_out_of_scope i f
unfolding check_out_of_scope_changes
check_out_of_scope_changes_lem i f = elim (Bool-cases (null i.allowed_paths)) [
  | inl free ↦ ground (arith, free, nothing_out i f.changed free)
  | inr bound ↦ ground (arith, bound, null-keep (λ path. not (is_path_allowed i path)) f.changed)
]

-- The status by the mode, told without the order of the checks.
abbrev pub status_of : ResultInspector → Findings → InspectionStatus
status_of i f = elim i.runner_mode [
  | read_only ↦ if not (null f.changed) || f.uncommitted then failed else passed
  | write ↦ if is_out_of_scope i f || (null f.commits && null f.changed) then review else passed
]

pub RunnerMode-cases : (mode : RunnerMode) → (mode ≡ read_only) ⊎ (mode ≡ write)
RunnerMode-cases read_only = inl refl
RunnerMode-cases write = inr refl

-- The flags of a result say what its status says.
abbrev pub IsFlagged : ResultInspector → Findings → InspectionResult → Type 0
IsFlagged i f r =
    (r.inspection_status ≡ status_of i f)
    × ((r.read_only_violation ≡ true) ↔ (r.inspection_status ≡ failed))
    × ((r.out_of_scope_changes ≡ true) ↔ ((i.runner_mode ≡ write) × (is_out_of_scope i f ≡ true)))

pub judge_lem : (i : ResultInspector) (f : Findings) → IsFlagged i f (judge i f)
unfolding judge check_read_only check_scope check_missing
judge_lem i f = elim (RunnerMode-cases i.runner_mode) [
  | inl reads ↦ ground (arith, reads)
  | inr writes ↦ ground (arith, writes, check_out_of_scope_changes_lem i f, nothing_out i f.changed)
]
