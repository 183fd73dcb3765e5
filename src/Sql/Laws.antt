-- ===== src/Sql/Laws.antt =====
-- What the statements do to the rows of a table, as SQL documents it, for a database that gives no
-- error.
use ratnet.Prelude.{◌≡◌, Bool, not, List, [], ◌∷◌, ◌++◌, length, if◌then◌else◌}
use ratnet.Go.{Failure, returned, failed}
use ratnet.Sql.{Collection}

unfoldable pub rows_where : {Row : Type 0} → (Row → Bool) → List Row → List Row
rows_where q [] = []
rows_where q (r ∷ rows) = let rest = rows_where q rows in if q r then r ∷ rest else rest

unfoldable pub changed : {Row : Type 0} → (Row → Bool) → Row → List Row → List Row
changed q new [] = []
changed q new (r ∷ rows) = (if q r then new else r) ∷ changed q new rows

-- `rows` lists the rows in the order in which they were inserted, which a query need not follow.
pub record IsTable {Row S : Type 0} (col : Collection Row S) (rows : S → List Row) : Type 0 where
  pub counts :
      (q : Row → Bool) (s : S) → col.count q s ≡ (returned (length (rows_where q (rows s))), s)
  pub finds :
      (q : Row → Bool) (r : Row) (s : S)
      → rows_where q (rows s) ≡ r ∷ []
      → col.one q s ≡ (returned r, s)
  pub finds_none :
      (q : Row → Bool) (s : S)
      → rows_where q (rows s) ≡ []
      → col.one q s ≡ (failed Failure.from_sql, s)
  pub deletes :
      (q : Row → Bool) (s : S)
      → ((col.delete_rows q s).0 ≡ returned tt)
        × (rows (col.delete_rows q s).1 ≡ rows_where (λ r. not (q r)) (rows s))
  pub inserts :
      (r : Row) (s : S)
      → ((col.insert_row r s).0 ≡ returned tt) × (rows (col.insert_row r s).1 ≡ rows s ++ r ∷ [])
  pub updates :
      (q : Row → Bool) (r : Row) (s : S)
      → ((col.update_rows q r s).0 ≡ returned tt)
        × (rows (col.update_rows q r s).1 ≡ changed q r (rows s))
