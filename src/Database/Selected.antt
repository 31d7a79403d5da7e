-- ===== src/Database/Selected.antt =====
-- What an empty answer of a SELECT tells, and an UPDATE that meets no row.
use mathlib.Core.List.{Perm}
use mathlib.Core.List.Perm
use exec_queue.Common.{
  ◌≡◌, Bool, true, List, [], ◌∷◌, map, keep, count, null, arith, refl, if◌then◌else◌, sym,
}
use mathlib.Core.Path.{subst}
use exec_queue.Database.{Table}

module _ {Row : Type 0} where
  nothing_kept : (p : Row → Bool) (rows : List Row) → keep p rows ≡ [] → count p rows ≡ 0
  nothing_kept p [] h = refl
  nothing_kept p (r ∷ rs) h = ground (arith, nothing_kept p rs)

  keeps_nothing : (p : Row → Bool) (rows : List Row) → count p rows ≡ 0 → keep p rows ≡ []
  keeps_nothing p [] h = refl
  keeps_nothing p (r ∷ rs) h = ground (arith, keeps_nothing p rs)

  empty_of_null : (xs : List Row) → null xs ≡ true → xs ≡ []
  empty_of_null [] h = refl
  empty_of_null (x ∷ xs) h = cc

  -- An empty answer means that no row passes.
  pub select_where-null :
      (db : Table Row) (p : Row → Bool) (rows : List Row)
      → null (db.select_where p rows) ≡ true
      → count p rows ≡ 0
  select_where-null db p rows h = nothing_kept p rows (
      sym (
        Perm.nil-eq
          (subst (λ l. Perm l (keep p rows)) (empty_of_null _ h) (db.select_where_perm p rows))))

  -- If no row passes the answer is empty.
  pub select_where-none :
      (db : Table Row) (p : Row → Bool) (rows : List Row)
      → count p rows ≡ 0
      → null (db.select_where p rows) ≡ true
  select_where-none db p rows h = rw (
      Perm.eq-nil (
        subst (λ l. Perm (db.select_where p rows) l) (keeps_nothing p rows h)
          (db.select_where_perm p rows)))

  -- An update that meets no row changes none.
  pub update_none :
      (p : Row → Bool) (f : Row → Row) (rows : List Row)
      → count p rows ≡ 0
      → map (λ r. if p r then f r else r) rows ≡ rows
  update_none p f [] h = refl
  update_none p f (r ∷ rs) h = ground (arith, update_none p f rs)
