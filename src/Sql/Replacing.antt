-- ===== src/Sql/Replacing.antt =====
-- What a deletion, and an insertion in place of the rows that are there, do to the rows of a table.
use ratnet.Prelude.{
  ◌≡◌, refl, ap, ◌∙◌, Bool, true, false, not, List, [], ◌∷◌, ◌++◌, length, ltb, Bool-cases, inl,
  inr, arith,
}
use ratnet.Go.{returned}
use ratnet.Sql.{Collection, replace_row, dropped, error_dropped}
use ratnet.Sql.Laws.{rows_where, IsTable}
use ratnet.Sql.Keys.{returned_pair}

rows_where-append :
    {Row : Type 0} (q : Row → Bool) (xs ys : List Row)
    → rows_where q (xs ++ ys) ≡ rows_where q xs ++ rows_where q ys
unfolding rows_where
rows_where-append q [] ys = refl
rows_where-append q (x ∷ xs) ys = elim (Bool-cases (q x)) [
  | inl y ↦ rw y (ap (λ r. x ∷ r) (rows_where-append q xs ys))
  | inr n ↦ rw n (rows_where-append q xs ys)
]

-- After a deletion, the rows that are asked for are left where none of them was deleted.
pub rows_where_kept :
    {Row : Type 0} (q p : Row → Bool) (rows : List Row)
    → ((r : Row) → q r ≡ true → p r ≡ false)
    → rows_where q (rows_where (λ r. not (p r)) rows) ≡ rows_where q rows
unfolding rows_where
rows_where_kept q p [] h = refl
rows_where_kept q p (r ∷ rows) h = elim (Bool-cases (q r)) [
  | inl y ↦ rw (h r y, y) (ap (λ rs. r ∷ rs) (rows_where_kept q p rows h))
  | inr n ↦ elim (Bool-cases (p r)) [
    | inl gone ↦ rw (gone, n) (rows_where_kept q p rows h)
    | inr left ↦ rw (left, n) (rows_where_kept q p rows h)
  ]
]

pub rows_where_gone :
    {Row : Type 0} (q : Row → Bool) (rows : List Row)
    → rows_where q (rows_where (λ r. not (q r)) rows) ≡ []
unfolding rows_where
rows_where_gone q [] = refl
rows_where_gone q (r ∷ rows) = elim (Bool-cases (q r)) [
  | inl y ↦ rw y (rows_where_gone q rows)
  | inr n ↦ rw (n, n) (rows_where_gone q rows)
]

no_rows : {Row : Type 0} (xs : List Row) → ltb 0 (length xs) ≡ false → xs ≡ []
no_rows [] h = refl
no_rows (x ∷ xs) h = absurd (ground (arith, h))

-- Of the rows after a change: the ones that the condition finds, and all others.
pub record IsReplaced {Row : Type 0} (q : Row → Bool) (new before after : List Row) : Type 0 where
  pub found : rows_where q after ≡ rows_where q new
  pub others :
      (p : Row → Bool)
      → ((r : Row) → p r ≡ true → q r ≡ false)
      → rows_where p after ≡ rows_where p before ++ rows_where p new

module _ {Row S : Type 0} (col : Collection Row S) (rows : S → List Row)
    (table : IsTable col rows) where
  pub dropped-delete :
      (q : Row → Bool) (s : S)
      → dropped (col.delete_rows q) s ≡ (returned tt, (col.delete_rows q s).1)
  unfolding dropped error_dropped
  dropped-delete q s = rw (returned_pair (col.delete_rows q s) (table.deletes q s).0)

  pub replace_row-IsReplaced :
      (q : Row → Bool) (row : Row) (s : S)
      → (s' : S) × (replace_row col q row s ≡ (returned tt, s'))
        × IsReplaced q (row ∷ []) (rows s) (rows s')
  unfolding replace_row
  replace_row-IsReplaced q row s = elim (Bool-cases (ltb 0 (length (rows_where q (rows s))))) [
    | inl there ↦
        let s₁ = (col.delete_rows q s).1 in
        let (ok, after) = table.inserts row s₁ in
        let left = (table.deletes q s).1 in
        (
          (col.insert_row row s₁).1,
          rw (
            table.counts q s,
            there,
            dropped-delete q s,
            returned_pair (col.insert_row row s₁) ok,
          ),
          record {
            found =
                ap (rows_where q) (after ∙ ap (λ r. r ++ row ∷ []) left)
                ∙ rows_where-append q (rows_where (λ r. not (q r)) (rows s)) (row ∷ [])
                ∙ ap (λ r. r ++ rows_where q (row ∷ [])) (rows_where_gone q (rows s));
            others = λ p h.
                ap (rows_where p) (after ∙ ap (λ r. r ++ row ∷ []) left)
                ∙ rows_where-append p (rows_where (λ r. not (q r)) (rows s)) (row ∷ [])
                ∙ ap (λ r. r ++ rows_where p (row ∷ [])) (rows_where_kept p q (rows s) h);
          },
        )
    | inr absent ↦
        let (ok, after) = table.inserts row s in
        (
          (col.insert_row row s).1,
          rw (table.counts q s, absent, returned_pair (col.insert_row row s) ok),
          record {
            found =
                ap (rows_where q) after
                ∙ rows_where-append q (rows s) (row ∷ [])
                ∙ ap (λ r. r ++ rows_where q (row ∷ [])) (no_rows (rows_where q (rows s)) absent);
            others = λ p h. ap (rows_where p) after ∙ rows_where-append p (rows s) (row ∷ []);
          },
        )
  ]
