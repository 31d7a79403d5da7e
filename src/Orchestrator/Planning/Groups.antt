-- ===== src/Orchestrator/Planning/Groups.antt =====
-- What the grouping by conflict key keeps (execqueue/orchestrator/classification.py).
use exec_queue.Common.{
  ℕ, ◌+◌, ◌≤◌, ◌≡◌, Bool, false, Option, List, [], ◌∷◌, arith, refl, sym, count, count-append, All,
  All-append, Bool-cases, inl, inr, max,
}
use exec_queue.Orchestrator.Classification.{ConflictKey, TaskClassification}
use exec_queue.Orchestrator.Planning.{Group, key_eq, add_to_group, group_from}
use exec_queue.Orchestrator.Planning.Keys.{key_eq_iff, key_eq_refl}

module _ (p : TaskClassification → Bool) where
  -- How many tasks of the groups pass a test.
  abbrev pub group_count : List Group → ℕ
  group_count [] = 0
  group_count ((k, g) ∷ gs) = count p g + group_count gs

  add_to_group-count :
      (k : Option ConflictKey) (t : TaskClassification) (gs : List Group)
      → group_count (add_to_group k t gs) ≡ group_count gs + count p (t ∷ [])
  unfolding add_to_group
  add_to_group-count k t [] = omega arith
  add_to_group-count k t ((j, g) ∷ gs) =
      ground (arith, add_to_group-count k t gs, count-append p g (t ∷ []))

  pub group_from-count :
      (gs : List Group) (ts : List TaskClassification)
      → group_count (group_from gs ts) ≡ group_count gs + count p ts
  unfolding group_from
  group_from-count gs [] = omega arith
  group_from-count gs (t ∷ ts) = ground (
    arith,
    group_from-count (add_to_group t.conflict_key t gs) ts,
    add_to_group-count t.conflict_key t gs,
  )

-- How many groups have a key.
abbrev pub groups_with : Option ConflictKey → List Group → ℕ
groups_with k = count (λ g. key_eq g.0 k)

-- Every member of a group has the key of the group.
abbrev pub HasKey : Option ConflictKey → TaskClassification → Type 0
HasKey k t = t.conflict_key ≡ k

abbrev pub IsKeyed : List Group → Type 0
IsKeyed = All (λ g. All (HasKey g.0) g.1)

add_to_group_ne :
    (k j : Option ConflictKey) (t : TaskClassification) (gs : List Group)
    → key_eq k j ≡ false
    → groups_with j (add_to_group k t gs) ≡ groups_with j gs
unfolding add_to_group
add_to_group_ne k j t [] h = ground arith
add_to_group_ne k j t ((i, g) ∷ gs) h = ground (arith, add_to_group_ne k j t gs h)

add_to_group_self :
    (k : Option ConflictKey) (t : TaskClassification) (gs : List Group)
    → groups_with k (add_to_group k t gs) ≤ max 1 (groups_with k gs)
unfolding add_to_group
add_to_group_self k t [] = ground (arith, key_eq_refl k)
add_to_group_self k t ((i, g) ∷ gs) = ground (arith, add_to_group_self k t gs)

add_to_group-le :
    (k j : Option ConflictKey) (t : TaskClassification) (gs : List Group)
    → groups_with j (add_to_group k t gs) ≤ max 1 (groups_with j gs)
add_to_group-le k j t gs = elim (Bool-cases (key_eq k j)) [
  | inl same ↦ rw (← (key_eq_iff k j).0 same) (add_to_group_self k t gs)
  | inr other ↦ omega (arith, add_to_group_ne k j t gs other)
]

-- A key has at most one group.
pub group_from-le :
    (k : Option ConflictKey) (gs : List Group) (ts : List TaskClassification)
    → groups_with k gs ≤ 1
    → groups_with k (group_from gs ts) ≤ 1
unfolding group_from
group_from-le k gs [] h = h
group_from-le k gs (t ∷ ts) h =
    group_from-le k (add_to_group t.conflict_key t gs) ts
      (omega (arith, add_to_group-le t.conflict_key k t gs))

add_to_group-IsKeyed :
    (t : TaskClassification) (gs : List Group)
    → IsKeyed gs
    → IsKeyed (add_to_group t.conflict_key t gs)
unfolding add_to_group
add_to_group-IsKeyed t [] h = ((refl, tt), tt)
add_to_group-IsKeyed t ((i, g) ∷ gs) h = elim (Bool-cases (key_eq i t.conflict_key)) [
  | inl same ↦
      rw same
        (All-append (HasKey i) g (t ∷ []) h.0 (sym ((key_eq_iff i t.conflict_key).0 same), tt), h.1)
  | inr other ↦ rw other (h.0, add_to_group-IsKeyed t gs h.1)
]

pub group_from-IsKeyed :
    (gs : List Group) (ts : List TaskClassification) → IsKeyed gs → IsKeyed (group_from gs ts)
unfolding group_from
group_from-IsKeyed gs [] h = h
group_from-IsKeyed gs (t ∷ ts) h =
    group_from-IsKeyed (add_to_group t.conflict_key t gs) ts (add_to_group-IsKeyed t gs h)
