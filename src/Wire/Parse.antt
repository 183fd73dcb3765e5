-- ===== src/Wire/Parse.antt =====
-- `deserialize` of api/remoting.go.
pub mod Structs
pub mod Payloads
pub mod Leaves
pub mod Total
pub mod ReadsBack
use ratnet.Prelude.{
  ℕ, zero, suc, ◌+◌, ◌*◌, Bool, Option, none, some, List, length, Bytes, ◌==◌, if◌then◌else◌,
}
use ratnet.Wire.Value.{
  Contact, Channel, Profile, Peer, Bundle, PubKey, ecc, rsa, Value, Values, end, item, KeyCodec,
}
use ratnet.Wire.Read.{
  Result, ok, err, out_of_fuel, bind, Reader, pure, ◌>>=◌, read_byte, read_word, read_lv, times,
  with_count, unknown_type, bad_key,
}
use ratnet.Wire.Write.{ApiType}

-- The case of the two switches that a type byte selects.
unfoldable pub type_of : ℕ → Option ApiType
type_of t =
    if t == 0x1
    then some ApiType.nil
    else if t == 0x2
    then some ApiType.int64
    else if t == 0x3
    then some ApiType.uint64
    else if t == 0x4
    then some ApiType.string
    else if t == 0x5
    then some ApiType.bytes
    else if t == 0x6
    then some ApiType.bytes_bytes
    else if t == 0x7
    then some ApiType.interface_array
    else if t == 0x10
    then some ApiType.pub_key_ecc
    else if t == 0x11
    then some ApiType.pub_key_rsa
    else if t == 0x20
    then some ApiType.contact_array
    else if t == 0x21
    then some ApiType.channel_array
    else if t == 0x22
    then some ApiType.profile_array
    else if t == 0x23
    then some ApiType.peer_array
    else if t == 0x30
    then some ApiType.contact
    else if t == 0x31
    then some ApiType.channel
    else if t == 0x32
    then some ApiType.profile
    else if t == 0x33
    then some ApiType.peer
    else if t == 0x40
    then some ApiType.bundle
    else none

-- Every byte but 1 reads as false.
unfoldable pub read_flag : Reader Bool
unfolding read_byte
read_flag = do bt ← read_byte; pure (bt == 1)

unfoldable pub read_contact : Reader Contact
read_contact = do name ← read_lv; pubkey ← read_lv; pure (record { name = name; pubkey = pubkey })

unfoldable pub read_channel : Reader Channel
read_channel = do name ← read_lv; pubkey ← read_lv; pure (record { name = name; pubkey = pubkey })

unfoldable pub read_profile : Reader Profile
unfolding read_flag
read_profile = do
  name ← read_lv
  pubkey ← read_lv
  enabled ← read_flag
  pure (record { name = name; enabled = enabled; pubkey = pubkey })

unfoldable pub read_peer : Reader Peer
unfolding read_flag
read_peer = do
  name ← read_lv
  group ← read_lv
  uri ← read_lv
  enabled ← read_flag
  pure (record { name = name; enabled = enabled; uri = uri; group = group })

unfoldable pub read_bundle : Reader Bundle
read_bundle = do
  payload ← read_lv
  time ← read_word
  pure (record { payload = payload; time = time })

-- A reader run on a payload: what it leaves is dropped.
abbrev pub on_payload {ℓ κ} : {A : Type ℓ} {B : Type κ} → (A → B) → Reader A → Bytes → Result B
on_payload f p v = bind (p v) λ (a, _). ok (f a)

-- A payload of counted elements.
abbrev pub on_slice {ℓ κ} : {A : Type ℓ} {B : Type κ} → (List A → B) → Reader A → Bytes → Result B
on_slice f p v = bind (with_count (times p) v) λ xs. ok (f xs)

-- A key of a payload, or the error of the key library.
key_of : {K Ecc Rsa : Type 0} → (K → PubKey Ecc Rsa) → Option K → Result (Value Ecc Rsa)
key_of f none = err bad_key
key_of f (some k) = ok (Value.pub_key (f k))

module _ {Ecc Rsa : Type 0} (codec : KeyCodec Ecc Rsa) where
  -- `items` reads a count of elements and the elements.
  unfoldable pub decode :
      (Bytes → Result (Values Ecc Rsa)) → ApiType → Bytes → Result (Value Ecc Rsa)
  unfolding key_of
  decode items ApiType.nil v = err unknown_type
  decode items ApiType.int64 v = err unknown_type
  decode items ApiType.uint64 v = err unknown_type
  decode items ApiType.string v = ok (Value.string v)
  decode items ApiType.bytes v = ok (Value.bytes v)
  decode items ApiType.bytes_bytes v = on_slice Value.bytes_bytes read_lv v
  decode items ApiType.interface_array v = bind (items v) λ ia. ok (Value.array ia)
  decode items ApiType.pub_key_ecc v = key_of ecc (codec.ecc_from_bytes v)
  decode items ApiType.pub_key_rsa v = key_of rsa (codec.rsa_from_bytes v)
  decode items ApiType.contact_array v = on_slice Value.contacts read_contact v
  decode items ApiType.channel_array v = on_slice Value.channels read_channel v
  decode items ApiType.profile_array v = on_slice Value.profiles read_profile v
  decode items ApiType.peer_array v = on_slice Value.peers read_peer v
  decode items ApiType.contact v = on_payload Value.contact read_contact v
  decode items ApiType.channel v = on_payload Value.channel read_channel v
  decode items ApiType.profile v = on_payload Value.profile read_profile v
  decode items ApiType.peer v = on_payload Value.peer read_peer v
  decode items ApiType.bundle v = on_payload Value.bundle read_bundle v

  -- What follows the type byte. The length and the payload are read before the type is refused.
  unfoldable pub read_typed :
      (Bytes → Result (Values Ecc Rsa)) → Option ApiType → Reader (Value Ecc Rsa)
  read_typed items (some ApiType.nil) = pure Value.nil
  read_typed items (some ApiType.int64) = do n ← read_word; pure (Value.int64 n)
  read_typed items (some ApiType.uint64) = do n ← read_word; pure (Value.uint64 n)
  read_typed items (some t) = do v ← read_lv; λ rest. bind (decode items t v) λ x. ok (x, rest)
  read_typed items none = do v ← read_lv; λ rest. err unknown_type

  -- Each call costs a unit of fuel.
  unfoldable mutual
    pub deserialize : ℕ → Reader (Value Ecc Rsa)
    deserialize zero bs = out_of_fuel
    deserialize (suc f) bs =
        bind (read_byte bs) λ (t, rest). read_typed (with_count (read_items f)) (type_of t) rest

    pub read_items : ℕ → ℕ → Reader (Values Ecc Rsa)
    read_items zero l bs = out_of_fuel
    read_items (suc f) zero bs = ok (end, bs)
    read_items (suc f) (suc l) bs =
        bind (deserialize f bs)
          λ (v, rest). bind (read_items f l rest) λ (vs, rest'). ok (item v vs, rest')

  -- Enough fuel for any input (Wire/Parse/Total.antt).
  unfoldable pub deserialize_all : Reader (Value Ecc Rsa)
  deserialize_all bs = deserialize (2 * length bs + 1) bs
