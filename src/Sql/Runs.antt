-- ===== src/Sql/Runs.antt =====
-- A database of one table, which is a list.
use ratnet.Prelude.{
  ℕ, ◌≤◌, ◌≡◌, refl, ap, true, not, Option, none, some, List, [], ◌∷◌, ◌++◌, length, if◌then◌else◌,
  Bytes, bytes_beq, bytes_beq_iff, Bool-cases, inl, inr, All, arith, ◌+◌, false,
}
use ratnet.Go.{Failure, Outcome, returned, failed, fail}
use ratnet.Api.{Msg, OutboxMsg}
use ratnet.Wire.Value.{Contact, KeyCodec}
use ratnet.Node.{Crypto, World}
use ratnet.Node.Sending.{forward, send_whole_msg}
use ratnet.Node.Receiving.{pickup}
use ratnet.Outbox.{picked, total}
use ratnet.Sql.{
  Collection, Database, ConfigValue, db_get_contact_pub_key, db_add_contact, db_delete_contact,
}
use ratnet.Outbox.Limit.{Small}
use ratnet.Outbox.Since.{eligible}
use ratnet.Sql.Laws.{rows_where, changed, IsTable}
use ratnet.Sql.Mail.{db_get_messages}
use ratnet.Sql.Secrets.{bootstrap_keys}
use ratnet.Sql.Messages.{selected, is_after, db_get_messages-le}
use ratnet.Sql.Outbox.{SqlNode, sql_forward, sql_send_whole_msg, sql_pickup}
use ratnet.Sql.Outbox.Refines.{in_memory, seen, outbox-in_memory}
use ratnet.Sql.Keys.{bootstrap_keys_again}
use ratnet.Sql.Contacts.{Book, IsBook, written, struck, looked_up, rows_of, contacts-IsBook}

module _ {Row : Type 0} where
  first_of : List Row → Outcome Row
  first_of [] = failed Failure.from_sql
  first_of (r ∷ rows) = returned r

  unfoldable listed : Collection Row (List Row)
  unfolding rows_where changed first_of
  listed = record {
    count = λ q s. (returned (length (rows_where q s)), s);
    one = λ q s. (first_of (rows_where q s), s);
    all = λ q s. (returned (rows_where q s), s);
    ordered_by = λ key q s. (returned (rows_where q s), s);
    delete_rows = λ q s. (returned tt, rows_where (λ r. not (q r)) s);
    insert_row = λ r s. (returned tt, s ++ r ∷ []);
    update_rows = λ q r s. (returned tt, changed q r s);
  }

  listed-IsTable : IsTable listed (λ s. s)
  unfolding listed first_of
  listed-IsTable = record {
    counts = λ q s. refl;
    finds = λ q r s e. ap (λ rs. (first_of rs, s)) e;
    finds_none = λ q s e. ap (λ rs. (first_of rs, s)) e;
    deletes = λ q s. (refl, refl);
    inserts = λ r s. (refl, refl);
    updates = λ q r s. (refl, refl);
  }

-- A table that is not there.
abbrev missing : {Row S : Type 0} → Collection Row S
missing = record {
  count = λ q. fail Failure.from_sql;
  one = λ q. fail Failure.from_sql;
  all = λ q. fail Failure.from_sql;
  ordered_by = λ key q. fail Failure.from_sql;
  delete_rows = λ q. fail Failure.from_sql;
  insert_row = λ r. fail Failure.from_sql;
  update_rows = λ q r. fail Failure.from_sql;
}

abbrev contacts_db : Database (List Contact)
contacts_db = record {
  contacts = listed;
  channels = missing;
  profiles = missing;
  peers = missing;
  outbox = missing;
  streams = missing;
  chunks = missing;
  config = missing;
  tx = λ act. act;
  messages = λ q. fail Failure.from_sql;
}

abbrev config_db : Database (List ConfigValue)
config_db = record {
  contacts = missing;
  channels = missing;
  profiles = missing;
  peers = missing;
  outbox = missing;
  streams = missing;
  chunks = missing;
  config = listed;
  tx = λ act. act;
  messages = λ q. fail Failure.from_sql;
}

abbrev mail_db : Database (List OutboxMsg)
mail_db = record {
  contacts = missing;
  channels = missing;
  profiles = missing;
  peers = missing;
  outbox = listed;
  streams = missing;
  chunks = missing;
  config = missing;
  tx = λ act. act;
  messages = λ q s. (returned (selected q s), s);
}

-- "a" has the key 1.
abbrev ann : Contact
ann = record { name = 97 ∷ []; pubkey = 1 ∷ [] }

abbrev book : Book
book n = if bytes_beq (97 ∷ []) n then some (1 ∷ []) else none

book-IsBook : IsBook book (ann ∷ [])
unfolding rows_where rows_of
book-IsBook n = elim (Bool-cases (bytes_beq (97 ∷ []) n)) [
  | inl y ↦
      let same : (97 ∷ []) ≡ n = (bytes_beq_iff (97 ∷ []) n).0 y in
      rw y (ap (λ m. record { name = m; pubkey = 1 ∷ [] } ∷ []) same)
  | inr ne ↦ rw ne
]

contacts-IsBook_example :
    ((name : Bytes)
      → db_get_contact_pub_key contacts_db name (ann ∷ []) ≡ (looked_up (book name), ann ∷ []))
    × ((name key : Bytes)
        → (s' : List Contact) × (db_add_contact contacts_db name key (ann ∷ []) ≡ (returned tt, s'))
          × IsBook (written name key book) s')
    × ((name : Bytes)
        → (s' : List Contact) × (db_delete_contact contacts_db name (ann ∷ []) ≡ (returned tt, s'))
          × IsBook (struck name book) s')
contacts-IsBook_example =
    contacts-IsBook contacts_db (λ s. s) listed-IsTable (λ act s s' e. e) book (ann ∷ [])
      book-IsBook

abbrev head_of : Bytes → Option ℕ
head_of [] = none
head_of (b ∷ bs) = some b

-- A key is a number, and its text is that number.
abbrev plain : Crypto ℕ ℕ
plain = record {
  get_pub = λ k. k;
  clone = λ k. k;
  pub_to_b64 = λ k. k ∷ [];
  pub_from_b64 = λ _. head_of;
  priv_to_b64 = λ k. k ∷ [];
  priv_from_b64 = λ _. head_of;
  validate_pub_key = λ _ bs. true;
  encrypt = λ _ _ bs _. some bs;
  decrypt = λ _ bs. record { tag_ok = true; clear = some bs };
}

bootstrap_keys_again_example :
    (s' : List ConfigValue) × (bootstrap_keys config_db plain 0 7 8 [] ≡ (returned (7, 8), s'))
    × (bootstrap_keys config_db plain 0 5 6 s' ≡ (returned (7, 7), s'))
bootstrap_keys_again_example =
    bootstrap_keys_again config_db plain (λ s. s) listed-IsTable (λ k p. refl) 0 0 7 8 5 6 [] refl

abbrev early : OutboxMsg
early = record { channel = []; msg = 1 ∷ 2 ∷ []; time_stamp = 5 }

abbrev late : OutboxMsg
late = record { channel = 7 ∷ []; msg = 3 ∷ []; time_stamp = 9 }

within_limit : All (Small 3) (eligible 0 [] (early ∷ late ∷ []))
unfolding eligible picked
within_limit = omega arith

few : (db_get_messages mail_db 0 2 [] (early ∷ late ∷ [])).0 ≡ returned ((1 ∷ 2 ∷ []) ∷ [], 5)
unfolding db_get_messages selected is_after picked
few = refl

db_get_messages-le_example : (total ((1 ∷ 2 ∷ []) ∷ []) ≤ 2) × (0 ≤ 5)
db_get_messages-le_example =
    db_get_messages-le mail_db (early ∷ late ∷ []) 0 2 5 [] ((1 ∷ 2 ∷ []) ∷ []) few

abbrev world : World
world = record { now = λ t. 10 + t; random_id = λ _. none }

abbrev keys : KeyCodec Bytes Bytes
keys = record {
  ecc_to_bytes = λ k. k;
  ecc_from_bytes = λ bs. some bs;
  rsa_to_bytes = λ k. k;
  rsa_from_bytes = λ bs. some bs;
}

abbrev mail_node : SqlNode ℕ ℕ (List OutboxMsg)
mail_node = record {
  node = record {
    content_key = 1;
    routing_key = 2;
    channels = [];
    contacts = [];
    peers = [];
    profiles = [];
    outbox = [];
    store = record { streams = []; chunks = []; out = [] };
    limits = [];
    ticks = 0;
  };
  tables = early ∷ late ∷ [];
}

abbrev to_seven : Msg ℕ
to_seven = record {
  name = 7 ∷ [];
  content = 104 ∷ 105 ∷ [];
  is_chan = true;
  pub_key = some 5;
  chunked = false;
  stream_header = false;
}

outbox-in_memory_example :
    (seen plain world mail_db (λ s. s) (sql_forward plain world mail_db to_seven mail_node)
      ≡ forward plain world to_seven (in_memory plain world mail_db (λ s. s) mail_node))
    × (seen plain world mail_db (λ s. s) (sql_send_whole_msg plain world mail_db to_seven mail_node)
        ≡ send_whole_msg plain world to_seven (in_memory plain world mail_db (λ s. s) mail_node))
    × (seen plain world mail_db (λ s. s) (sql_pickup plain world mail_db keys 5 0 3 [] mail_node)
        ≡ pickup plain world keys 5 0 3 [] (in_memory plain world mail_db (λ s. s) mail_node))
outbox-in_memory_example =
    outbox-in_memory plain world mail_db (λ s. s) keys to_seven 5 0 3 [] mail_node listed-IsTable
      refl (λ q. refl) (omega arith) (omega arith) (omega arith) within_limit
