-- ===== src/Orchestrator/Planning/Size.antt =====
-- How large a batch gets (execqueue/orchestrator/classification.py).
use exec_queue.Common.{
  ℕ, ◌+◌, ◌*◌, ◌≤◌, ◌≡◌, none, some, List, [], ◌∷◌, arith, refl, keep, take, drop, map, length,
  length-append, length-take-le,
}
use exec_queue.Orchestrator.Classification.{TaskClassification}
use exec_queue.Orchestrator.Planning.{
  Group, Batch, ExclusionReason, exceeded_max_batch_size, conflict_with, is_read_only, is_write,
  group_from, plan_group, plan_groups, plan_batch, include_or_exclude, all_for, create_batch_plan,
}

-- At most `max_size` writing tasks are counted, and all but `first` included tasks are counted.
abbrev Fits : ℕ → ℕ → Batch → Type 0
Fits max_size first b = (b.write_count ≤ max_size) × (length b.included ≡ first + b.write_count)

module _ (max_size first : ℕ) where
  include_or_exclude-Fits :
      (reason : ExclusionReason) (b : Batch) (t : TaskClassification)
      → Fits max_size first b
      → Fits max_size first (include_or_exclude max_size reason b t)
  unfolding include_or_exclude
  include_or_exclude-Fits reason b t h = ground (arith, length-append b.included (t ∷ []))

  plan_group-Fits :
      (b : Batch) (g : Group)
      → Fits max_size first b
      → Fits max_size first (plan_group max_size b g)
  unfolding plan_group
  plan_group-Fits b (k, []) h = h
  plan_group-Fits b (none, t ∷ rest) h = include_or_exclude-Fits exceeded_max_batch_size b t h
  plan_group-Fits b (some k, t ∷ []) h = include_or_exclude-Fits exceeded_max_batch_size b t h
  plan_group-Fits b (some k, t ∷ u ∷ rest) h = include_or_exclude-Fits (conflict_with k) b t h

  plan_groups-Fits :
      (b : Batch) (gs : List Group)
      → Fits max_size first b
      → Fits max_size first (plan_groups max_size b gs)
  unfolding plan_groups
  plan_groups-Fits b [] h = h
  plan_groups-Fits b (g ∷ gs) h =
      plan_groups-Fits (plan_group max_size b g) gs (plan_group-Fits b g h)

length-map : {A B : Type 0} (f : A → B) (xs : List A) → length (map f xs) ≡ length xs
length-map f [] = refl
length-map f (x ∷ xs) = omega (arith, length-map f xs)

-- A batch has at most twice as many tasks as the maximum of its planner.
pub create_batch_plan-le :
    (max_size : ℕ) (cs : List TaskClassification)
    → length (create_batch_plan max_size cs).task_ids ≤ 2 * max_size
unfolding create_batch_plan plan_batch
create_batch_plan-le max_size cs =
    let readonly = take max_size (keep is_read_only cs) in
    let b : Batch = record {
      included = readonly;
      excluded = all_for exceeded_max_batch_size (drop max_size (keep is_read_only cs));
      write_count = 0;
    } in
    omega (
      arith,
      length-map (λ t. t.task_id) (plan_batch max_size cs).included,
      plan_groups-Fits max_size (length readonly) b (group_from [] (keep is_write cs))
          (omega arith),
      length-take-le max_size (keep is_read_only cs),
    )
