-- ===== src/Sql/Keys.antt =====
-- The keys of a node over a database, when it starts and when it starts again.
use ratnet.Prelude.{◌≡◌, ap, some, List, [], ◌∷◌, ◌++◌, Bytes}
use ratnet.Go.{Outcome, returned}
use ratnet.Node.{Crypto}
use ratnet.Sql.{Database, ConfigValue}
use ratnet.Sql.Laws.{rows_where, IsTable}
use ratnet.Sql.Secrets.{
  has_name, key_setup, or_no_value, with_priv, critical, bootstrap_keys, content_key_name,
  routing_key_name,
}

pub returned_pair :
    {S : Type 0} (p : Outcome (Unit {0}) × S) → p.0 ≡ returned tt → p ≡ (returned tt, p.1)
returned_pair p e = ap (λ o. (o, p.1)) e

module _ {S Pub Priv : Type 0} (db : Database S) (crypto : Crypto Pub Priv)
    (rows : S → List ConfigValue) (table : IsTable db.config rows)
    (reads_back : (k p : Priv) → crypto.priv_from_b64 k (crypto.priv_to_b64 p) ≡ some p) where
  row_of : Bytes → Priv → ConfigValue
  row_of name p = record { name = name; value = crypto.priv_to_b64 p }

  key_setup-new :
      (old : Priv) (name read_name : Bytes) (fresh : Priv) (s : S)
      → rows_where (has_name name) (rows s) ≡ []
      → (s' : S) × (key_setup db crypto old name read_name fresh s ≡ (returned fresh, s'))
        × (rows s' ≡ rows s ++ row_of name fresh ∷ [])
  unfolding key_setup row_of
  key_setup-new old name read_name fresh s absent =
      let (inserted, after) = table.inserts (row_of name fresh) s in
      (
        (db.config.insert_row (row_of name fresh) s).1,
        rw (
          table.counts (has_name name) s,
          absent,
          returned_pair (db.config.insert_row (row_of name fresh) s) inserted,
        ),
        after,
      )

  key_setup-known :
      (old : Priv) (name read_name : Bytes) (fresh p : Priv) (c : ConfigValue) (s : S)
      → rows_where (has_name name) (rows s) ≡ c ∷ []
      → rows_where (has_name read_name) (rows s) ≡ row_of read_name p ∷ []
      → key_setup db crypto old name read_name fresh s ≡ (returned p, s)
  unfolding key_setup row_of or_no_value with_priv
  key_setup-known old name read_name fresh p c s here there = rw (
    table.counts (has_name name) s,
    here,
    table.finds (has_name read_name) (row_of read_name p) s there,
    reads_back old p,
  )

  -- A node that starts with an empty configuration makes its content key and its routing key. When it
  -- starts again on what it then stored, its content key is the same, and so is its routing key: it is
  -- the content key, and not the routing key that it had.
  pub bootstrap_keys_again :
      (old old' content routing content' routing' : Priv) (s : S)
      → rows s ≡ []
      → (s' : S) × (bootstrap_keys db crypto old content routing s
          ≡ (returned (content, routing), s'))
        × (bootstrap_keys db crypto old' content' routing' s' ≡ (returned (content, content), s'))
  unfolding bootstrap_keys critical rows_where has_name row_of
  bootstrap_keys_again old old' content routing content' routing' s empty =
      let (s₁, first, rows₁) =
        key_setup-new old content_key_name content_key_name content s
          (none_named content_key_name) in
      let both₁ : rows s₁ ≡ row_of content_key_name content ∷ [] = rw rows₁ (rw empty) in
      let (s₂, second, rows₂) =
        key_setup-new old routing_key_name content_key_name routing s₁ (rw both₁) in
      let both₂ : rows s₂ ≡ row_of content_key_name content ∷ row_of routing_key_name routing ∷ [] =
        rw rows₂ (rw both₁) in
      let again_content =
        key_setup-known old' content_key_name content_key_name content' content
          (row_of content_key_name content) s₂ (rw both₂) (rw both₂) in
      let again_routing =
        key_setup-known old' routing_key_name content_key_name routing' content
          (row_of routing_key_name routing) s₂ (rw both₂) (rw both₂) in
      (s₂, rw (first, second), rw (again_content, again_routing))
    where
      none_named : (name : Bytes) → rows_where (has_name name) (rows s) ≡ []
      none_named name = rw empty
