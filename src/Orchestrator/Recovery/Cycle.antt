-- ===== src/Orchestrator/Recovery/Cycle.antt =====
-- The recovery cycle reaches every stale task once, whatever order the query gives
-- (execqueue/orchestrator/recovery.py).
use mathlib.Core.List.{
  Mem, Mem-prop, mem-cons_of_mem, mem-cons_self, eq-or-mem_of_mem-cons, not-mem-nil,
}
use mathlib.Core.List.Perm
use mathlib.Core.Path.{subst, ap₂}
use mathlib.Core.Bool.{Bool-set}
use native.Mathlib.Bridge.{le_prop}
use mathlib.Core.HLevel.{hedberg}
use mathlib.Core.Logic.Or
use text.Mathlib.TextEquality.{eq_iff}
use exec_queue.Common.{
  ℕ, ◌≤◌, ◌<◌, ◌≡◌, refl, String, Bool, true, false, Option, List, [], ◌∷◌, map, keep, count, any,
  arith, str_eq, ◌==◌, if◌then◌else◌, Bool-cases, inl, inr, ◌∙◌, ap, sym,
}
use exec_queue.Database.{Table}
use exec_queue.Model.{Task}
use exec_queue.Orchestrator.Locking.Safety.{IsKeyed}
use exec_queue.Orchestrator.Recovery.{
  StaleQueuedRecovery, is_stale, find_stale_tasks, recovered, store, recover_each,
  run_recovery_cycle,
}

String-discrete : Discrete String
String-discrete s t = elim (Bool-cases (str_eq s t)) [
  | inl same ↦ yes ((eq_iff s t).0 same)
  | inr other ↦ no (λ e. ground (arith, other, (eq_iff s t).1 e))
]

Task_set : IsSet Task
Task_set = hlevel (hedberg String-discrete)

-- What the stores of a list of objects make of a row.
after_stores : (Task → Task) → List Task → Task → Task
after_stores f [] r = r
after_stores f (t ∷ ts) r = after_stores f ts (if r.id == t.id then f t else r)

-- The objects that carry the identifier of a row are that row.
abbrev Agrees : Task → List Task → Type 0
Agrees r ts = (t : Task) → Mem t ts → (r.id == t.id) ≡ true → t ≡ r

module _ (f : Task → Task) (keeps_id : (t : Task) → (f t).id ≡ t.id) where
  after_stores_fixed : (ts : List Task) (r : Task) → Agrees r ts → after_stores f ts (f r) ≡ f r
  unfolding after_stores
  after_stores_fixed [] r a = refl
  after_stores_fixed (t ∷ ts) r a =
      let ih = after_stores_fixed ts r (λ u m. a u (mem-cons_of_mem t m)) in
      elim (Bool-cases (r.id == t.id)) [
        | inl same ↦ ground (arith, same, keeps_id r, ih, a t mem-cons_self same)
        | inr other ↦ ground (arith, other, keeps_id r, ih)
      ]

  after_stores_lem :
      (ts : List Task) (r : Task)
      → Agrees r ts
      → after_stores f ts r ≡ (if any (λ t. r.id == t.id) ts then f r else r)
  unfolding after_stores
  after_stores_lem [] r a = refl
  after_stores_lem (t ∷ ts) r a =
      let rest : Agrees r ts = λ u m. a u (mem-cons_of_mem t m) in
      elim (Bool-cases (r.id == t.id)) [
        | inl same ↦ ground (arith, same, after_stores_fixed ts r rest, a t mem-cons_self same)
        | inr other ↦ ground (arith, other, after_stores_lem ts r rest)
      ]

map-map : (g f : Task → Task) (ts : List Task) → map g (map f ts) ≡ map (λ t. g (f t)) ts
map-map g f [] = refl
map-map g f (t ∷ ts) = ap (◌∷◌ (g (f t))) (map-map g f ts)

map_id : (ts : List Task) → map (λ t. t) ts ≡ ts
map_id [] = refl
map_id (t ∷ ts) = ap (◌∷◌ t) (map_id ts)

recovered_id :
    (lower : String → String) (s : StaleQueuedRecovery) (now : ℕ) (t : Task)
    → (recovered lower s now t).id ≡ t.id
unfolding recovered
recovered_id lower s now t = refl

recover_each-eq-map :
    (lower : String → String) (s : StaleQueuedRecovery) (now : ℕ) (ts rows : List Task)
    → (recover_each lower s now ts rows).1 ≡ map (after_stores (recovered lower s now) ts) rows
unfolding recover_each after_stores
recover_each-eq-map lower s now [] rows = sym (map_id rows)
recover_each-eq-map lower s now (t ∷ ts) rows =
    recover_each-eq-map lower s now ts (store (recovered lower s now t) rows) ∙ map-map _ _ rows

keep_passing :
    (p : Task → Bool) (r : Task) (rs : List Task) → p r ≡ true → keep p (r ∷ rs) ≡ r ∷ keep p rs
keep_passing p r rs h = ground (arith, h)

keep_failing :
    (p : Task → Bool) (r : Task) (rs : List Task) → p r ≡ false → keep p (r ∷ rs) ≡ keep p rs
keep_failing p r rs h = ground (arith, h)

-- What is in a filtered list passes the test and is in the list.
mem-keep : (p : Task → Bool) (rows : List Task) (t : Task) → Mem t (keep p rows) → p t ≡ true
mem-keep p [] t m = absurd (not-mem-nil m)
mem-keep p (r ∷ rs) t m = elim (Bool-cases (p r)) [
  | inl passes ↦
      Or.elim (Bool-set (p t) true)
        (eq-or-mem_of_mem-cons (subst (Mem t) (keep_passing p r rs passes) m))
        (λ e. ap p e ∙ passes) (mem-keep p rs t)
  | inr fails ↦ mem-keep p rs t (subst (Mem t) (keep_failing p r rs fails) m)
]

mem_of_mem-keep : (p : Task → Bool) (rows : List Task) (t : Task) → Mem t (keep p rows) → Mem t rows
mem_of_mem-keep p [] t m = absurd (not-mem-nil m)
mem_of_mem-keep p (r ∷ rs) t m = elim (Bool-cases (p r)) [
  | inl passes ↦
      Or.elim Mem-prop (eq-or-mem_of_mem-cons (subst (Mem t) (keep_passing p r rs passes) m))
        (λ e. subst (λ u. Mem u (r ∷ rs)) (sym e) mem-cons_self)
        (λ n. mem-cons_of_mem r (mem_of_mem-keep p rs t n))
  | inr fails ↦
      mem-cons_of_mem r (mem_of_mem-keep p rs t (subst (Mem t) (keep_failing p r rs fails) m))
]

keep-of_mem :
    (p : Task → Bool) (rows : List Task) (t : Task) → Mem t rows → p t ≡ true → Mem t (keep p rows)
keep-of_mem p [] t m h = absurd (not-mem-nil m)
keep-of_mem p (r ∷ rs) t m h =
    Or.elim Mem-prop (eq-or-mem_of_mem-cons m)
      (λ e.
        subst (Mem t) (sym (keep_passing p r rs (sym (ap p e) ∙ h)))
          (subst (λ u. Mem u (r ∷ keep p rs)) (sym e) mem-cons_self))
      (λ n. elim (Bool-cases (p r)) [
        | inl passes ↦
            subst (Mem t) (sym (keep_passing p r rs passes))
              (mem-cons_of_mem r (keep-of_mem p rs t n h))
        | inr fails ↦ subst (Mem t) (sym (keep_failing p r rs fails)) (keep-of_mem p rs t n h)
      ])

count-pos :
    (p : Task → Bool) (rows : List Task) (t : Task) → Mem t rows → p t ≡ true → 0 < count p rows
count-pos p [] t m h = absurd (not-mem-nil m)
count-pos p (r ∷ rs) t m h =
    Or.elim le_prop (eq-or-mem_of_mem-cons m) (λ e. ground (arith, sym (ap p e) ∙ h))
      (λ n. ground (arith, count-pos p rs t n h))

-- Two rows with one identifier are one row.
same_row :
    (rows : List Task) (r t : Task)
    → count (λ u. r.id == u.id) rows ≤ 1
    → Mem r rows
    → Mem t rows
    → (r.id == t.id) ≡ true
    → t ≡ r
same_row [] r t k mr mt h = absurd (not-mem-nil mr)
same_row (u ∷ us) r t k mr mt h =
    let is_r : Task → Bool = λ v. r.id == v.id in
    let self : is_r r ≡ true = ground arith in
    Or.elim (Task_set t r) (eq-or-mem_of_mem-cons mr)
      (λ e.
        Or.elim (Task_set t r) (eq-or-mem_of_mem-cons mt) (λ e'. e' ∙ sym e)
          (λ m. ground (arith, sym (ap is_r e) ∙ self, count-pos is_r us t m h)))
      (λ n.
        Or.elim (Task_set t r) (eq-or-mem_of_mem-cons mt)
          (λ e'. ground (arith, sym (ap is_r e') ∙ h, count-pos is_r us r n self))
          (λ m. same_row us r t (ground (arith, k)) n m h))

any-of_mem : (q : Task → Bool) (ts : List Task) (t : Task) → Mem t ts → q t ≡ true → any q ts ≡ true
any-of_mem q [] t m h = absurd (not-mem-nil m)
any-of_mem q (u ∷ us) t m h =
    Or.elim (Bool-set _ _) (eq-or-mem_of_mem-cons m) (λ e. ground (arith, sym (ap q e) ∙ h))
      (λ n. ground (arith, any-of_mem q us t n h))

any-none :
    (q : Task → Bool) (ts : List Task) → ((t : Task) → Mem t ts → q t ≡ false) → any q ts ≡ false
any-none q [] h = refl
any-none q (u ∷ us) h =
    ground (arith, h u mem-cons_self, any-none q us (λ t m. h t (mem-cons_of_mem u m)))

map_agree :
    (f g : Task → Task) (ts : List Task) → ((t : Task) → Mem t ts → f t ≡ g t) → map f ts ≡ map g ts
map_agree f g [] h = refl
map_agree f g (t ∷ ts) h =
    ap₂ ◌∷◌ (h t mem-cons_self) (map_agree f g ts (λ u m. h u (mem-cons_of_mem t m)))

-- The rows that a query gives carry the identifier of a row exactly if it passes the test.
any-select :
    (db : Table Task) (p : Task → Bool) (rows : List Task) (r : Task)
    → Agrees r (db.select_where p rows)
    → Mem r rows
    → any (λ t. r.id == t.id) (db.select_where p rows) ≡ p r
any-select db p rows r a m =
    let same = Perm.mem_iff (db.select_where_perm p rows) in
    elim (Bool-cases (p r)) [
      | inl passes ↦
          any-of_mem (λ t. r.id == t.id) _ r (same.1 (keep-of_mem p rows r m passes)) (ground arith)
          ∙ sym passes
      | inr fails ↦
          any-none (λ t. r.id == t.id) (db.select_where p rows)
            (λ t n. elim (Bool-cases (r.id == t.id)) [
              | inl e ↦ ground (
                arith,
                fails,
                sym (ap p (a t n e))
                    ∙ mem-keep p rows t ((Perm.mem_iff (db.select_where_perm p rows)).0 n),
              )
              | inr e ↦ e
            ])
          ∙ sym fails
    ]

-- If no two tasks share an identifier, then in whatever order the query gives them, the cycle puts
-- every stale task into the state that `recover_task` decides for it, and changes no other task.
pub run_recovery_cycle-eq-map :
    (lower : String → String) (db : Table Task) (s : StaleQueuedRecovery) (now : ℕ)
    (worker : Option String) (rows : List Task)
    → IsKeyed rows
    → (run_recovery_cycle lower db s now worker rows).1
      ≡ map (λ t. if is_stale s now worker t then recovered lower s now t else t) rows
unfolding run_recovery_cycle find_stale_tasks
run_recovery_cycle-eq-map lower db s now worker rows keyed =
    let p = is_stale s now worker in
    recover_each-eq-map lower s now (db.select_where p rows) rows
    ∙ map_agree _ _ rows (λ r m.
      let a : Agrees r (db.select_where p rows) = λ t n e.
        same_row rows r t (keyed r.id) m
          (mem_of_mem-keep p rows t ((Perm.mem_iff (db.select_where_perm p rows)).0 n)) e in
      after_stores_lem (recovered lower s now) (recovered_id lower s now) (db.select_where p rows) r
        a
      ∙ ap (λ b. if b then recovered lower s now r else r) (any-select db p rows r a m))
