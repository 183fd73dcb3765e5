-- ===== src/Sql.antt =====
-- The tables of nodes/db/database.go. The collections and the queries are upper/db's, and a parameter:
-- a condition is a test of a row. What the library locks, and the debouncer that is set off when a
-- stream or a chunk is written over, are left out.
pub mod Mail
pub mod Secrets
pub mod Laws
pub mod Replacing
pub mod Contacts
pub mod Messages
pub mod Outbox
pub mod Keys
mod Runs
use ratnet.Prelude.{
  ℕ, zero, suc, ◌+◌, ◌-◌, ◌*◌, Bool, true, false, ◌&&◌, Option, none, some, List, [], ◌∷◌, ◌++◌,
  length, ltb, ◌==◌, if◌then◌else◌, Bytes, bytes_beq,
}
use ratnet.Go.{Failure, Outcome, returned, failed, panicked, Action, pure, fail, ◌>>=◌, ◌>>◌}
use ratnet.Api.{OutboxMsg, StreamHeader, Chunk, ChannelPriv}
use ratnet.Wire.Value.{Contact, Channel, Profile, Peer}
use ratnet.Node.{Crypto}

-- What a query can do to a table with the rows that a condition finds.
pub record Collection (Row S : Type 0) : Type 0 where
  pub count : (Row → Bool) → Action S ℕ
  pub one : (Row → Bool) → Action S Row
  pub all : (Row → Bool) → Action S (List Row)
  pub ordered_by : (Row → ℕ) → (Row → Bool) → Action S (List Row)
  pub delete_rows : (Row → Bool) → Action S Unit
  pub insert_row : Row → Action S Unit
  pub update_rows : (Row → Bool) → Row → Action S Unit

pub record ChannelPrivB64 : Type 0 where
  pub name : Bytes
  pub privkey : Bytes

pub record ProfilePrivB64 : Type 0 where
  pub name : Bytes
  pub enabled : Bool
  pub privkey : Bytes

pub record ConfigValue : Type 0 where
  pub name : Bytes
  pub value : Bytes

-- The query of `dbGetMessages`: after a time stamp, on one of the channels where there are any, in
-- the order of the time stamps.
pub record Query : Type 0 where
  pub after : Option ℕ
  pub channels : List Bytes

pub record Database (S : Type 0) : Type 0 where
  pub contacts : Collection Contact S
  pub channels : Collection ChannelPrivB64 S
  pub profiles : Collection ProfilePrivB64 S
  pub peers : Collection Peer S
  pub outbox : Collection OutboxMsg S
  pub streams : Collection StreamHeader S
  pub chunks : Collection Chunk S
  pub config : Collection ConfigValue S
  pub tx : Action S Unit → Action S Unit
  pub messages : Query → Action S (List (Bytes × ℕ))

-- `_ = ...`
unfoldable pub error_dropped : {S : Type 0} → Outcome (Unit {0}) × S → Outcome (Unit {0}) × S
error_dropped (failed e, s) = (returned tt, s)
error_dropped (o, s) = (o, s)

unfoldable pub dropped : {S : Type 0} → Action S Unit → Action S Unit
unfolding error_dropped
dropped act s = error_dropped (act s)

unfoldable pub for_each : {S A B : Type 0} → (A → Action S B) → List A → Action S (List B)
for_each f [] = pure []
for_each f (a ∷ as') = f a >>= λ b. for_each f as' >>= λ bs. pure (b ∷ bs)

-- The row is put in place of those that are there.
unfoldable pub replace_row :
    {Row S : Type 0} → Collection Row S → (Row → Bool) → Row → Action S Unit
unfolding dropped
replace_row col q row = col.count q >>= λ cnt.
    (if ltb 0 cnt then dropped (col.delete_rows q) else pure tt) >> col.insert_row row

-- The row is inserted, or the one that is there is changed to it.
unfoldable pub upsert_row : {Row S : Type 0} → Collection Row S → (Row → Bool) → Row → Action S Unit
upsert_row col q row = col.count q >>= λ cnt.
    if cnt == 0 then col.insert_row row else (col.one q >>= λ _. col.update_rows q row)

unfoldable pub key_or_empty : {S : Type 0} → Outcome ProfilePrivB64 × S → Outcome Bytes × S
key_or_empty (returned p, s) = (returned p.privkey, s)
key_or_empty (failed e, s) = (returned [], s)
key_or_empty (panicked, s) = (panicked, s)

module _ {S : Type 0} (db : Database S) where
  unfoldable pub db_get_contact_pub_key : Bytes → Action S Bytes
  db_get_contact_pub_key name =
      db.contacts.one (λ c. bytes_beq c.name name) >>= λ contact. pure contact.pubkey

  unfoldable pub db_get_contacts : Action S (List Contact)
  db_get_contacts = db.contacts.all (λ _. true)

  unfoldable pub db_add_contact : Bytes → Bytes → Action S Unit
  unfolding replace_row
  db_add_contact name pubkey = db.tx (
      replace_row db.contacts (λ c. bytes_beq c.name name)
        (record { name = name; pubkey = pubkey }))

  unfoldable pub db_delete_contact : Bytes → Action S Unit
  unfolding dropped
  db_delete_contact name = dropped (db.contacts.delete_rows (λ c. bytes_beq c.name name))

  unfoldable pub db_get_channel_priv_key : Bytes → Action S Bytes
  db_get_channel_priv_key name =
      db.channels.one (λ c. bytes_beq c.name name) >>= λ channel. pure channel.privkey

  unfoldable pub db_delete_channel : Bytes → Action S Unit
  unfolding dropped
  db_delete_channel name = dropped (db.channels.delete_rows (λ c. bytes_beq c.name name))

  unfoldable pub db_get_profiles_priv : Action S (List ProfilePrivB64)
  db_get_profiles_priv = db.profiles.all (λ _. true)

  unfoldable pub db_add_profile_priv : Bytes → Bool → Bytes → Action S Unit
  unfolding upsert_row
  db_add_profile_priv name enabled b64key =
      upsert_row db.profiles (λ p. bytes_beq p.name name)
        (record { name = name; enabled = enabled; privkey = b64key })

  unfoldable pub db_delete_profile : Bytes → Action S Unit
  unfolding dropped
  db_delete_profile name = dropped (db.profiles.delete_rows (λ p. bytes_beq p.name name))

  unfoldable pub db_get_profile_private_key : Bytes → Action S Bytes
  unfolding key_or_empty
  db_get_profile_private_key name s = key_or_empty (db.profiles.one (λ p. bytes_beq p.name name) s)

  unfoldable pub db_get_peer : Bytes → Action S Peer
  db_get_peer name = db.peers.one (λ p. bytes_beq p.name name)

  unfoldable pub db_get_peers : Bytes → Action S (List Peer)
  db_get_peers group = db.peers.all (λ p. bytes_beq p.group group)

  unfoldable pub db_add_peer : Bytes → Bool → Bytes → Bytes → Action S Unit
  unfolding upsert_row
  db_add_peer name enabled uri group =
      upsert_row db.peers (λ p. bytes_beq p.name name && bytes_beq p.group group)
        (record { name = name; enabled = enabled; uri = uri; group = group })

  unfoldable pub db_delete_peer : Bytes → Action S Unit
  unfolding dropped
  db_delete_peer name = dropped (db.peers.delete_rows (λ p. bytes_beq p.name name))
