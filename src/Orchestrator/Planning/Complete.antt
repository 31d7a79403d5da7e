-- ===== src/Orchestrator/Planning/Complete.antt =====
-- A batch plan loses no task (execqueue/orchestrator/classification.py).
use exec_queue.Common.{
  ℕ, ◌+◌, ◌≡◌, ◌≢◌, Bool, Option, none, some, List, [], ◌∷◌, arith, refl, count, keep, take, drop,
  count-append, count-take-drop, count-keep_split, All, count-map, ◌==◌,
}
use exec_queue.Orchestrator.Classification.{
  TaskClassification, TaskData, classify, classify_batch, classify-IsCoherent,
}
use exec_queue.Orchestrator.Planning.{
  Group, Batch, ExclusionReason, exceeded_max_batch_size, conflict_with, blocked_by,
  create_batch_plan, is_read_only, is_write, add_to_group, group_from, plan_group, plan_groups,
  plan_batch, include_or_exclude, all_for,
}
use exec_queue.Orchestrator.Planning.Groups.{group_count, group_from-count}

abbrev HasSomeKey : Group → Type 0
HasSomeKey g = g.0 ≢ none

add_to_group-HasSomeKey :
    (k : Option _) (t : TaskClassification) (gs : List Group)
    → k ≢ none
    → All HasSomeKey gs
    → All HasSomeKey (add_to_group k t gs)
unfolding add_to_group
add_to_group-HasSomeKey k t [] h a = (h, tt)
add_to_group-HasSomeKey k t ((j, g) ∷ gs) h a = ground (arith, add_to_group-HasSomeKey k t gs h a.1)

group_from-HasSomeKey :
    (gs : List Group) (ts : List TaskClassification)
    → All (λ t. t.conflict_key ≢ none) ts
    → All HasSomeKey gs
    → All HasSomeKey (group_from gs ts)
unfolding group_from
group_from-HasSomeKey gs [] h a = a
group_from-HasSomeKey gs (t ∷ ts) h a =
    group_from-HasSomeKey (add_to_group t.conflict_key t gs) ts h.1
      (add_to_group-HasSomeKey t.conflict_key t gs h.0 a)

module _ (p : TaskClassification → Bool) where
  -- How many tasks of a batch, included or excluded, pass a test.
  abbrev pub batch_count : Batch → ℕ
  batch_count b = count p b.included + count (λ x. p x.0) b.excluded

  include_or_exclude-count :
      (max_size : ℕ) (reason : ExclusionReason) (b : Batch) (t : TaskClassification)
      → batch_count (include_or_exclude max_size reason b t) ≡ batch_count b + count p (t ∷ [])
  unfolding include_or_exclude
  include_or_exclude-count max_size reason b t = ground (
    arith,
    count-append p b.included (t ∷ []),
    count-append (λ x. p x.0) b.excluded ((t, reason) ∷ []),
  )

  all_for-count :
      (reason : ExclusionReason) (ts : List TaskClassification)
      → count (λ x. p x.0) (all_for reason ts) ≡ count p ts
  all_for-count reason [] = refl
  all_for-count reason (t ∷ ts) = ground (arith, all_for-count reason ts)

  plan_group-count :
      (max_size : ℕ) (b : Batch) (g : Group)
      → HasSomeKey g
      → batch_count (plan_group max_size b g) ≡ batch_count b + count p g.1
  unfolding plan_group
  plan_group-count max_size b (k, []) h = omega arith
  plan_group-count max_size b (none, t ∷ rest) h = absurd (h refl)
  plan_group-count max_size b (some k, t ∷ []) h =
      include_or_exclude-count max_size exceeded_max_batch_size b t
  plan_group-count max_size b (some k, t ∷ u ∷ rest) h =
      let b' = include_or_exclude max_size (conflict_with k) b t in
      ground (
        arith,
        include_or_exclude-count max_size (conflict_with k) b t,
        count-append (λ x. p x.0) b'.excluded (all_for (blocked_by k) (u ∷ rest)),
        all_for-count (blocked_by k) rest,
      )

  plan_groups-count :
      (max_size : ℕ) (b : Batch) (gs : List Group)
      → All HasSomeKey gs
      → batch_count (plan_groups max_size b gs) ≡ batch_count b + group_count p gs
  unfolding plan_groups
  plan_groups-count max_size b [] h = omega arith
  plan_groups-count max_size b (g ∷ gs) h = omega (
    arith,
    plan_groups-count max_size (plan_group max_size b g) gs h.1,
    plan_group-count max_size b g h.0,
  )

  plan_batch-count :
      (max_size : ℕ) (cs : List TaskClassification)
      → All (λ t. t.conflict_key ≢ none) (keep is_write cs)
      → batch_count (plan_batch max_size cs) ≡ count p cs
  unfolding plan_batch
  plan_batch-count max_size cs h =
      let readonly = keep is_read_only cs in
      let writes = keep is_write cs in
      let b : Batch = record {
        included = take max_size readonly;
        excluded = all_for exceeded_max_batch_size (drop max_size readonly);
        write_count = 0;
      } in
      omega (
        arith,
        plan_groups-count max_size b (group_from [] writes) (group_from-HasSomeKey [] writes h tt),
        group_from-count p [] writes,
        all_for-count exceeded_max_batch_size (drop max_size readonly),
        count-take-drop p max_size readonly,
        count-keep_split p is_read_only is_write cs (λ t. refl),
      )

writes_have_keys :
    (tasks : List TaskData)
    → All (λ t. t.conflict_key ≢ none) (keep is_write (classify_batch tasks))
unfolding classify_batch
writes_have_keys [] = tt
writes_have_keys (t ∷ ts) =
    ground (arith, classify-IsCoherent t.id t.number t.task_type t.details, writes_have_keys ts)

-- The plan for tasks as the classifier classifies them names every task as often as it was given,
-- either as included or as excluded.
pub create_batch_plan_complete :
    (max_size : ℕ) (tasks : List TaskData) (i : ℕ)
    → let plan = create_batch_plan max_size (classify_batch tasks) in
      count (λ j. j == i) plan.task_ids + count (λ j. j == i) plan.excluded_task_ids
      ≡ count (λ t. t.id == i) tasks
unfolding create_batch_plan classify_batch classify
create_batch_plan_complete max_size tasks i =
    let b = plan_batch max_size (classify_batch tasks) in
    omega (
      arith,
      count-map (λ j. j == i) (λ t. t.task_id) b.included,
      count-map (λ j. j == i) (λ x. x.0.task_id) b.excluded,
      plan_batch-count (λ t. t.task_id == i) max_size (classify_batch tasks)
          (writes_have_keys tasks),
      count-map (λ t. t.task_id == i) (λ t. classify t.id t.number t.task_type t.details) tasks,
    )
