-- ===== src/Sql/Contacts.antt =====
-- The table of contacts as a map from names to keys.
use ratnet.Prelude.{
  ◌≡◌, refl, ◌∙◌, sym, Bool, true, false, not, Option, none, some, List, [], ◌∷◌, if◌then◌else◌,
  Bytes, bytes_beq, bytes_beq_iff, append-nil, subst, Bool-cases, inl, inr, arith,
}
use ratnet.Go.{Failure, Outcome, returned, failed, Action}
use ratnet.Wire.Value.{Contact}
use ratnet.Sql.{Database, replace_row, db_get_contact_pub_key, db_add_contact, db_delete_contact}
use ratnet.Sql.Laws.{rows_where, IsTable}
use ratnet.Sql.Replacing.{
  rows_where_kept, rows_where_gone, IsReplaced, dropped-delete, replace_row-IsReplaced,
}

-- What the table stands for: the key of each name.
abbrev pub Book : Type 0
Book = Bytes → Option Bytes

unfoldable pub rows_of : Bytes → Option Bytes → List Contact
rows_of name none = []
rows_of name (some key) = record { name = name; pubkey = key } ∷ []

abbrev pub IsBook : Book → List Contact → Type 0
IsBook book rows =
    (name : Bytes) → rows_where (λ c. bytes_beq c.name name) rows ≡ rows_of name (book name)

abbrev pub written : Bytes → Bytes → Book → Book
written name key book n = if bytes_beq name n then some key else book n

abbrev pub struck : Bytes → Book → Book
struck name book n = if bytes_beq name n then none else book n

abbrev pub looked_up : Option Bytes → Outcome Bytes
looked_up none = failed Failure.from_sql
looked_up (some key) = returned key

same_name : (name : Bytes) → bytes_beq name name ≡ true
same_name name = (bytes_beq_iff name name).1 refl

-- A row of one name is not of another.
other_name :
    (name n : Bytes) (c : Contact)
    → bytes_beq name n ≡ false
    → bytes_beq c.name n ≡ true
    → bytes_beq c.name name ≡ false
other_name name n c ne e = elim (Bool-cases (bytes_beq c.name name)) [
  | inl y ↦
      let there : c.name ≡ n = (bytes_beq_iff c.name n).0 e in
      let here : c.name ≡ name = (bytes_beq_iff c.name name).0 y in
      let both : bytes_beq name n ≡ true = (bytes_beq_iff name n).1 (sym here ∙ there) in
      absurd (ground (arith, both, ne))
  | inr own ↦ own
]

module _ {S : Type 0} (db : Database S) (rows : S → List Contact) (table : IsTable db.contacts rows)
    (commits : (act : Action S Unit) (s s' : S)
      → act s ≡ (returned tt, s')
      → db.tx act s ≡ (returned tt, s')) where
  get_lem :
      (name : Bytes) (s : S) (found : Option Bytes)
      → rows_where (λ c. bytes_beq c.name name) (rows s) ≡ rows_of name found
      → db_get_contact_pub_key db name s ≡ (looked_up found, s)
  unfolding db_get_contact_pub_key rows_of
  get_lem name s none e = rw (table.finds_none (λ c. bytes_beq c.name name) s e)
  get_lem name s (some key) e =
      rw (table.finds (λ c. bytes_beq c.name name) (record { name = name; pubkey = key }) s e)

  written-IsBook :
      (book : Book) (name key : Bytes) (before after : List Contact)
      → IsBook book before
      → IsReplaced
          (λ c. bytes_beq c.name name)
          (record { name = name; pubkey = key } ∷ [])
          before
          after
      → IsBook (written name key book) after
  unfolding rows_where rows_of
  written-IsBook book name key before after is replaced n = elim (Bool-cases (bytes_beq name n)) [
    | inl y ↦
        let same : name ≡ n = (bytes_beq_iff name n).0 y in
        rw y (
          subst
            (λ m.
              rows_where (λ c. bytes_beq c.name m) after ≡ record { name = m; pubkey = key } ∷ [])
            same (replaced.found ∙ rw (same_name name)))
    | inr ne ↦
        let kept = replaced.others (λ c. bytes_beq c.name n) (λ c. other_name name n c ne) in
        rw ne (kept ∙ rw ne (append-nil _ ∙ is n))
  ]

  struck-IsBook :
      (book : Book) (name : Bytes) (before : List Contact)
      → IsBook book before
      → IsBook (struck name book) (rows_where (λ c. not (bytes_beq c.name name)) before)
  unfolding rows_of
  struck-IsBook book name before is n = elim (Bool-cases (bytes_beq name n)) [
    | inl y ↦
        let same : name ≡ n = (bytes_beq_iff name n).0 y in
        rw y (
          subst
            (λ m.
              rows_where (λ c. bytes_beq c.name m)
                (rows_where (λ c. not (bytes_beq c.name name)) before)
              ≡ [])
            same (rows_where_gone (λ c. bytes_beq c.name name) before))
    | inr ne ↦ rw ne (
        rows_where_kept (λ c. bytes_beq c.name n) (λ c. bytes_beq c.name name) before
          (λ c. other_name name n c ne)
        ∙ is n)
  ]

  -- Where the table of contacts holds each name at most once, as a book of names and keys does, and
  -- the database gives no error: a key is read as the book says; a contact that is added is written
  -- into the book, over the key that the name had; a contact that is deleted is struck out; and no other
  -- name changes.
  pub contacts-IsBook :
      (book : Book) (s : S)
      → IsBook book (rows s)
      → ((name : Bytes) → db_get_contact_pub_key db name s ≡ (looked_up (book name), s))
        × ((name key : Bytes)
            → (s' : S) × (db_add_contact db name key s ≡ (returned tt, s'))
              × IsBook (written name key book) (rows s'))
        × ((name : Bytes)
            → (s' : S) × (db_delete_contact db name s ≡ (returned tt, s'))
              × IsBook (struck name book) (rows s'))
  unfolding db_add_contact db_delete_contact
  contacts-IsBook book s is = (
    λ name. get_lem name s (book name) (is name),
    λ name key.
        let q : Contact → Bool = λ c. bytes_beq c.name name in
        let row : Contact = record { name = name; pubkey = key } in
        let (s', ok, replaced) = replace_row-IsReplaced db.contacts rows table q row s in
        (
          s',
          commits (replace_row db.contacts q row) s s' ok,
          written-IsBook book name key (rows s) (rows s') is replaced,
        ),
    λ name.
        let q : Contact → Bool = λ c. bytes_beq c.name name in
        (
          (db.contacts.delete_rows q s).1,
          dropped-delete db.contacts rows table q s,
          subst (IsBook (struck name book)) (sym (table.deletes q s).1)
              (struck-IsBook book name (rows s) is),
        ),
  )
