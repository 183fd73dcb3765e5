-- ===== src/Sql/Secrets.antt =====
-- The private keys in tables, and those of the node, which `BootstrapDB` reads or makes.
use ratnet.Prelude.{
  Bool, true, Option, none, some, List, [], ◌∷◌, ltb, ◌==◌, if◌then◌else◌, Bytes, bytes_beq,
}
use ratnet.Go.{Failure, Outcome, returned, failed, panicked, Action, pure, fail, ◌>>=◌, ◌>>◌}
use ratnet.Api.{ChannelPriv}
use ratnet.Wire.Value.{Channel, Profile}
use ratnet.Node.{Crypto}
use ratnet.Sql.{Database, ChannelPrivB64, ProfilePrivB64, ConfigValue, dropped, for_each}

unfoldable pub with_priv : {S A Priv : Type 0} → Option Priv → (Priv → Action S A) → Action S A
with_priv none k = fail Failure.from_crypto
with_priv (some prv) k = k prv

-- A value that is not found is left empty.
unfoldable pub or_no_value : {S : Type 0} → Outcome ConfigValue × S → Outcome Bytes × S
or_no_value (returned c, s) = (returned c.value, s)
or_no_value (failed e, s) = (returned [], s)
or_no_value (panicked, s) = (panicked, s)

-- events.Critical of an error.
unfoldable pub critical : {S A : Type 0} → Outcome A × S → Outcome A × S
critical (returned a, s) = (returned a, s)
critical (failed e, s) = (panicked, s)
critical (panicked, s) = (panicked, s)

-- "contentkey" and "routingkey"
abbrev pub content_key_name : Bytes
content_key_name = 99 ∷ 111 ∷ 110 ∷ 116 ∷ 101 ∷ 110 ∷ 116 ∷ 107 ∷ 101 ∷ 121 ∷ []

abbrev pub routing_key_name : Bytes
routing_key_name = 114 ∷ 111 ∷ 117 ∷ 116 ∷ 105 ∷ 110 ∷ 103 ∷ 107 ∷ 101 ∷ 121 ∷ []

unfoldable pub has_name : Bytes → ConfigValue → Bool
has_name name c = bytes_beq c.name name

-- `old` is a key of the node before it is read, which the library clones, and `fresh` what
-- `GenerateKey` gives.
module _ {S Pub Priv : Type 0} (db : Database S) (crypto : Crypto Pub Priv) (old : Priv) where
  unfoldable pub priv_of : Bytes → Option Priv
  priv_of b64 = crypto.priv_from_b64 (crypto.clone old) b64

  unfoldable pub pub_b64 : Priv → Bytes
  pub_b64 prv = crypto.pub_to_b64 (crypto.get_pub prv)

  unfoldable pub db_get_channels : Action S (List Channel)
  unfolding for_each with_priv priv_of pub_b64
  db_get_channels =
      db.channels.all (λ _. true)
      >>= for_each λ v.
        with_priv (priv_of v.privkey) λ prv. pure (record { name = v.name; pubkey = pub_b64 prv })

  unfoldable pub db_get_channels_priv : Action S (List (ChannelPriv Priv))
  unfolding for_each with_priv priv_of pub_b64
  db_get_channels_priv =
      db.channels.all (λ _. true)
      >>= for_each λ v.
        with_priv (priv_of v.privkey)
          λ prv. pure (record { name = v.name; pubkey = pub_b64 prv; privkey = prv })

  -- The row is deleted before the key is read.
  unfoldable pub db_add_channel : Bytes → Bytes → Action S Unit
  unfolding dropped with_priv priv_of
  db_add_channel name privkey =
      let q : ChannelPrivB64 → Bool = λ c. bytes_beq c.name name in
      db.tx (
        db.channels.count q >>= λ cnt.
        (if ltb 0 cnt then dropped (db.channels.delete_rows q) else pure tt)
        >> with_priv (priv_of privkey) λ prv.
          db.channels.insert_row (record { name = name; privkey = crypto.priv_to_b64 prv }))

  unfoldable pub row_profile : ProfilePrivB64 → Action S Profile
  unfolding with_priv priv_of pub_b64
  row_profile v =
      with_priv (priv_of v.privkey)
        λ prv. pure (record { name = v.name; enabled = v.enabled; pubkey = pub_b64 prv })

  unfoldable pub db_get_profile : Bytes → Action S Profile
  unfolding row_profile
  db_get_profile name = db.profiles.one (λ p. bytes_beq p.name name) >>= row_profile

  unfoldable pub db_get_profiles : Action S (List Profile)
  unfolding for_each row_profile
  db_get_profiles = db.profiles.all (λ _. true) >>= for_each row_profile

  -- A profile that is there keeps its key.
  unfoldable pub db_add_profile : Priv → Bytes → Bool → Action S Unit
  db_add_profile fresh name enabled =
      let q : ProfilePrivB64 → Bool = λ p. bytes_beq p.name name in
      db.profiles.count q >>= λ cnt.
      if cnt == 0
      then db.profiles.insert_row
          (record { name = name; enabled = enabled; privkey = crypto.priv_to_b64 fresh })
      else (db.profiles.one q >>= λ p.
          db.profiles.update_rows q
            (record { name = name; enabled = enabled; privkey = p.privkey }))

  -- A key that is counted under one name, and read under another.
  unfoldable pub key_setup : Bytes → Bytes → Priv → Action S Priv
  unfolding or_no_value with_priv has_name
  key_setup name read_name fresh = db.config.count (has_name name) >>= λ cnt.
      if cnt == 0
      then (db.config.insert_row (record { name = name; value = crypto.priv_to_b64 fresh })
          >> pure fresh)
      else ((λ s. or_no_value (db.config.one (has_name read_name) s)) >>= λ value.
          with_priv (crypto.priv_from_b64 old value) pure)

  -- The keys that `BootstrapDB` ends with: content and routing. The routing key is read from `res1`,
  -- which is the query for the content key.
  unfoldable pub bootstrap_keys : Priv → Priv → Action S (Priv × Priv)
  unfolding key_setup critical
  bootstrap_keys content routing =
      (λ s. critical (key_setup content_key_name content_key_name content s)) >>= λ content_key.
      (λ s. critical (key_setup routing_key_name content_key_name routing s)) >>= λ routing_key.
      pure (content_key, routing_key)
