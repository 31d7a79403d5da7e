-- ===== src/Database.antt =====
-- What the services use of the database, which SQLAlchemy provides: a table is a list of rows, in an
-- order that means nothing, and a statement has the documented result of SELECT and UPDATE with a
-- WHERE clause. The SELECTs may give their rows in any order.
pub mod Selected
use mathlib.Core.List.{Perm}
use mathlib.Core.List.Perm
use exec_queue.Common.{
  ℕ, max, ◌≡◌, refl, Bool, List, [], ◌∷◌, map, keep, take, count, find, Option, none, some, ◌≤◌,
  if◌then◌else◌,
}

-- The largest number of a list, if it has one.
abbrev pub maximum : List ℕ → Option ℕ
maximum [] = none
maximum (n ∷ ns) = elim (maximum ns) [ none ↦ some n | some m ↦ some (max n m) ]

-- A largest number, or 0.
abbrev pub top : Option ℕ → ℕ
top none = 0
top (some n) = n

pub record Table (Row : Type 0) : Type 0 where
  -- `select(Row).where(p)`
  pub select_where : (Row → Bool) → List Row → List Row
  -- `update(Row).where(p).values(f)`: the rows after it, and the row count
  pub update_where : (Row → Bool) → (Row → Row) → List Row → List Row × ℕ
  -- `session.get(Row, key)`, by the test for the key
  pub get : (Row → Bool) → List Row → Option Row
  -- `select(Row).where(p).order_by(key).limit(n)`, by the list of the numbers to order by
  pub select_first : (Row → Bool) → (Row → List ℕ) → ℕ → List Row → List Row
  -- `select(func.max(f)).where(p)`
  pub select_max : (Row → Bool) → (Row → ℕ) → List Row → Option ℕ
  pub select_max_lem :
      (p : Row → Bool) (f : Row → ℕ) (rows : List Row)
      → select_max p f rows ≡ maximum (map f (keep p rows))
  pub select_where_perm :
      (p : Row → Bool) (rows : List Row) → Perm (select_where p rows) (keep p rows)
  -- the limit cuts the answer in its order, of which nothing is used
  pub select_first_lem :
      (p : Row → Bool) (key : Row → List ℕ) (n : ℕ) (rows : List Row)
      → (answer : List Row) × Perm answer (keep p rows)
        × (select_first p key n rows ≡ take n answer)
  pub update_where_lem :
      (p : Row → Bool) (f : Row → Row) (rows : List Row)
      → update_where p f rows ≡ (map (λ r. if p r then f r else r) rows, count p rows)
  -- with a primary key there is one row at most
  pub get_lem : (p : Row → Bool) (rows : List Row) → count p rows ≤ 1 → get p rows ≡ find p rows

-- A table that answers in the order of its rows.
unfoldable pub plain_table : (Row : Type 0) → Table Row
plain_table Row = record {
  select_where = keep;
  select_first = λ p key n rows. take n (keep p rows);
  select_first_lem = λ p key n rows. (keep p rows, Perm.refl (keep p rows), refl);
  get = find;
  select_max = λ p f rows. maximum (map f (keep p rows));
  select_max_lem = λ p f rows. refl;
  update_where = λ p f rows. (map (λ r. if p r then f r else r) rows, count p rows);
  select_where_perm = λ p rows. Perm.refl (keep p rows);
  update_where_lem = λ p f rows. refl;
  get_lem = λ p rows h. refl;
}
