-- ===== src/Orchestrator/Planning/Isolated.antt =====
-- A batch plan includes at most one task for each conflict key
-- (execqueue/orchestrator/classification.py).
use exec_queue.Common.{
  ℕ, suc, ◌+◌, ◌≤◌, ◌≡◌, Bool, true, false, ◌&&◌, Option, none, some, List, [], ◌∷◌, arith, refl,
  count, keep, take, drop, count-append, All, count-take-drop, any, length, Bool-cases, inl, inr,
}
use exec_queue.Orchestrator.Classification.{TaskClassification, ConflictKey}
use exec_queue.Orchestrator.Planning.{
  Group, Batch, ExclusionReason, exceeded_max_batch_size, conflict_with, key_eq, is_read_only,
  is_write, group_from, plan_group, plan_groups, plan_batch, include_or_exclude, all_for, distinct,
  batch_type_of, keys_of, create_batch_plan, write_parallel_isolated,
}
use exec_queue.Orchestrator.Planning.Keys.{key_eq_iff, key_eq_comm}
use exec_queue.Orchestrator.Planning.Groups.{
  groups_with, group_from-le, IsKeyed, HasKey, group_from-IsKeyed,
}

-- Whether a task writes and has a key.
abbrev pub writes_under : ConflictKey → TaskClassification → Bool
writes_under k t = is_write t && key_eq t.conflict_key (some k)

module _ (k : ConflictKey) where
  include_or_exclude-le :
      (max_size : ℕ) (reason : ExclusionReason) (b : Batch) (t : TaskClassification)
      → count (writes_under k) (include_or_exclude max_size reason b t).included
        ≤ count (writes_under k) b.included + count (λ u. key_eq u.conflict_key (some k)) (t ∷ [])
  unfolding include_or_exclude
  include_or_exclude-le max_size reason b t =
      ground (arith, count-append (writes_under k) b.included (t ∷ []))

  plan_group-le :
      (max_size : ℕ) (b : Batch) (g : Group)
      → All (HasKey g.0) g.1
      → count (writes_under k) (plan_group max_size b g).included
        ≤ count (writes_under k) b.included + groups_with (some k) (g ∷ [])
  unfolding plan_group
  plan_group-le max_size b (j, []) h = omega arith
  plan_group-le max_size b (none, t ∷ rest) h =
      rw (← h.0) (include_or_exclude-le max_size exceeded_max_batch_size b t)
  plan_group-le max_size b (some j, t ∷ []) h =
      rw (← h.0) (include_or_exclude-le max_size exceeded_max_batch_size b t)
  plan_group-le max_size b (some j, t ∷ u ∷ rest) h =
      ground (arith, include_or_exclude-le max_size (conflict_with j) b t)

  plan_groups-le :
      (max_size : ℕ) (b : Batch) (gs : List Group)
      → IsKeyed gs
      → count (writes_under k) (plan_groups max_size b gs).included
        ≤ count (writes_under k) b.included + groups_with (some k) gs
  unfolding plan_groups
  plan_groups-le max_size b [] h = omega arith
  plan_groups-le max_size b (g ∷ gs) h = ground (
    arith,
    plan_groups-le max_size (plan_group max_size b g) gs h.1,
    plan_group-le max_size b g h.0,
  )

  no_writes : (cs : List TaskClassification) → count (writes_under k) (keep is_read_only cs) ≡ 0
  no_writes [] = refl
  no_writes (c ∷ cs) = ground (arith, no_writes cs)

-- Of the included tasks at most one writes under a given conflict key.
pub plan_batch-isolated :
    (max_size : ℕ) (cs : List TaskClassification) (k : ConflictKey)
    → count (writes_under k) (plan_batch max_size cs).included ≤ 1
unfolding plan_batch
plan_batch-isolated max_size cs k =
    let readonly = keep is_read_only cs in
    let b : Batch = record {
      included = take max_size readonly;
      excluded = all_for exceeded_max_batch_size (drop max_size readonly);
      write_count = 0;
    } in
    let groups = group_from [] (keep is_write cs) in
    omega (
      arith,
      plan_groups-le k max_size b groups (group_from-IsKeyed [] (keep is_write cs) tt),
      group_from-le (some k) [] (keep is_write cs) (omega arith),
      count-take-drop (writes_under k) max_size readonly,
      no_writes k cs,
    )

any-distinct :
    (k : Option ConflictKey) (ks : List (Option ConflictKey))
    → any (key_eq k) (distinct ks) ≡ any (key_eq k) ks
unfolding distinct
any-distinct k [] = refl
any-distinct k (j ∷ ks) = elim (Bool-cases (any (key_eq j) (distinct ks))) [
  | inl old ↦ rw old (elim (Bool-cases (key_eq k j)) [
    | inl same ↦
        let here : any (key_eq k) (distinct ks) ≡ true = rw ((key_eq_iff k j).0 same) old in
        rw (here, same)
    | inr other ↦ rw other (any-distinct k ks)
  ])
  | inr new ↦ rw new (ground (arith, any-distinct k ks))
]

length-distinct : (ks : List (Option ConflictKey)) → length (distinct ks) ≤ length ks
unfolding distinct
length-distinct [] = omega arith
length-distinct (k ∷ ks) = ground (arith, length-distinct ks)

count_of_not_any :
    (k : Option ConflictKey) (ks : List (Option ConflictKey))
    → any (key_eq k) ks ≡ false
    → count (key_eq k) ks ≡ 0
count_of_not_any k [] h = refl
count_of_not_any k (j ∷ ks) h = ground (arith, count_of_not_any k ks)

count-le-suc :
    (k j : Option ConflictKey) (ks : List (Option ConflictKey))
    → count (key_eq k) (j ∷ ks) ≤ suc (count (key_eq k) ks)
count-le-suc k j ks = ground arith

count-distinct :
    (k : Option ConflictKey) (ks : List (Option ConflictKey))
    → length ks ≤ length (distinct ks)
    → count (key_eq k) ks ≤ 1
unfolding distinct
count-distinct k [] h = omega arith
count-distinct k (j ∷ ks) h = elim (Bool-cases (any (key_eq j) (distinct ks))) [
  | inl old ↦ absurd (ground (arith, old, length-distinct ks))
  | inr new ↦ elim (Bool-cases (key_eq k j)) [
    | inl same ↦
        let absent : any (key_eq k) ks ≡ false =
          rw (← any-distinct k ks) (rw ((key_eq_iff k j).0 same) new) in
        omega (arith, count-le-suc k j ks, count_of_not_any k ks absent)
    | inr other ↦ rw other (count-distinct k ks (ground (arith, new)))
  ]
]

count_keys :
    (k : ConflictKey) (cs : List TaskClassification)
    → count (key_eq (some k)) (keys_of (keep is_write cs)) ≡ count (writes_under k) cs
unfolding key_eq
count_keys k [] = refl
count_keys k (c ∷ cs) = ground (arith, count_keys k cs, key_eq_comm c.conflict_key (some k))

-- A plan is of the isolated parallel type only if no two writing tasks have the same key.
pub create_batch_plan-isolated :
    (max_size : ℕ) (cs : List TaskClassification) (k : ConflictKey)
    → (create_batch_plan max_size cs).batch_type ≡ write_parallel_isolated
    → count (writes_under k) cs ≤ 1
unfolding create_batch_plan batch_type_of
create_batch_plan-isolated max_size cs k h =
    rw (← count_keys k cs) (count-distinct (some k) (keys_of (keep is_write cs)) (ground arith))
