-- ===== src/Orchestrator/Lookup.antt =====
-- The rows of the task table seen as a function from identifiers, for the proofs about the services
-- that change single rows (execqueue/db/models.py).
use exec_queue.Common.{
  ℕ, ◌≡◌, refl, false, Option, none, some, List, [], ◌∷◌, map, count, find, arith, ◌==◌,
  if◌then◌else◌, Bool-cases, inl, inr, ap, ◌∙◌,
}
use exec_queue.Database.{Table}
use exec_queue.Model.{Task}
use exec_queue.Orchestrator.Locking.Safety.{IsKeyed}
use exec_queue.Orchestrator.Recovery.{store}

-- The row with an identifier.
abbrev pub row_of : ℕ → List Task → Option Task
row_of i rows = find (λ t. i == t.id) rows

abbrev pub changed : (Task → Task) → Option Task → Option Task
changed f none = none
changed f (some t) = some (f t)

pub row_of_id : (i : ℕ) (rows : List Task) (t : Task) → row_of i rows ≡ some t → i ≡ t.id
row_of_id i [] t h = cc
row_of_id i (r ∷ rs) t h = ground (arith, row_of_id i rs t, h)

-- A change of every row that keeps the identifiers changes the one row.
pub row_of-map :
    (f : Task → Task)
    → ((t : Task) → (f t).id ≡ t.id)
    → (i : ℕ) (rows : List Task) → row_of i (map f rows) ≡ changed f (row_of i rows)
row_of-map f keeps i [] = refl
row_of-map f keeps i (r ∷ rs) = ground (arith, keeps r, row_of-map f keeps i rs)

pub count-map_id :
    (f : Task → Task)
    → ((t : Task) → (f t).id ≡ t.id)
    → (i : ℕ) (rows : List Task) → count (λ t. i == t.id) (map f rows) ≡ count (λ t. i == t.id) rows
count-map_id f keeps i [] = refl
count-map_id f keeps i (r ∷ rs) = ground (arith, keeps r, count-map_id f keeps i rs)

abbrev pub put_row : Task → Task → Task
put_row t r = if r.id == t.id then t else r

pub put_row_id : (t r : Task) → (put_row t r).id ≡ r.id
put_row_id t r = ground arith

-- A stored row is found under its identifier, if there was one, and no other row changes.
pub row_of-store :
    (t : Task) (i : ℕ) (rows : List Task)
    → row_of i (store t rows) ≡ changed (put_row t) (row_of i rows)
row_of-store t i rows = row_of-map (put_row t) (put_row_id t) i rows

pub store-IsKeyed : (t : Task) (rows : List Task) → IsKeyed rows → IsKeyed (store t rows)
store-IsKeyed t rows k i = omega (arith, k i, count-map_id (put_row t) (put_row_id t) i rows)

pub row_of-store_self :
    (t t' : Task) (i : ℕ) (rows : List Task)
    → row_of i rows ≡ some t
    → t'.id ≡ i
    → row_of i (store t' rows) ≡ some t'
row_of-store_self t t' i rows h e =
    row_of-store t' i rows ∙ ap (changed (put_row t')) h ∙ ground (arith, row_of_id i rows t h, e)

pub row_of-store_other :
    (t : Task) (i : ℕ) (rows : List Task)
    → (i == t.id) ≡ false
    → row_of i (store t rows) ≡ row_of i rows
row_of-store_other t i [] h = refl
row_of-store_other t i (r ∷ rs) h = ground (arith, h, row_of-store_other t i rs h)

-- A change that leaves the rows with an identifier alone does not change the one row.
pub row_of-map_other :
    (f : Task → Task) (i : ℕ) (rows : List Task)
    → ((t : Task) → (f t).id ≡ t.id)
    → ((t : Task) → i ≡ t.id → f t ≡ t)
    → row_of i (map f rows) ≡ row_of i rows
row_of-map_other f i [] keeps same = refl
row_of-map_other f i (r ∷ rs) keeps same = elim (Bool-cases (i == r.id)) [
  | inl here ↦ ground (arith, here, keeps r, same r)
  | inr other ↦ ground (arith, other, keeps r, row_of-map_other f i rs keeps same)
]

find_flip : (i : ℕ) (rows : List Task) → find (λ t. t.id == i) rows ≡ row_of i rows
find_flip i [] = refl
find_flip i (r ∷ rs) = ground (arith, find_flip i rs)

count_flip : (i : ℕ) (rows : List Task) → count (λ t. t.id == i) rows ≡ count (λ t. i == t.id) rows
count_flip i [] = refl
count_flip i (r ∷ rs) = ground (arith, count_flip i rs)

-- `session.get` finds the one row.
pub get-row_of :
    (db : Table Task) (i : ℕ) (rows : List Task)
    → IsKeyed rows
    → db.get (λ t. t.id == i) rows ≡ row_of i rows
get-row_of db i rows k =
    db.get_lem (λ t. t.id == i) rows (omega (arith, k i, count_flip i rows)) ∙ find_flip i rows
