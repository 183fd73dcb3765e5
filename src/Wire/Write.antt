-- ===== src/Wire/Write.antt =====
-- `serialize`, `writeTLV` and `writeLV` of api/remoting.go. A writer is the bytes that it appends.
use ratnet.Prelude.{ℕ, zero, suc, ◌/◌, ◌%◌, Bool, List, [], ◌∷◌, ◌++◌, length, Bytes, if◌then◌else◌}
use ratnet.Wire.Value.{
  Contact, Channel, Profile, Peer, Bundle, PubKey, ecc, rsa, Value, Values, end, item, KeyCodec,
}
use ratnet.Wire.Varint.{put_uvarint}

-- The API parameter data types.
pub data ApiType : Type 0 where
  nil int64 uint64 string bytes bytes_bytes interface_array pub_key_ecc pub_key_rsa : ApiType
  contact_array channel_array profile_array peer_array contact channel profile peer bundle : ApiType

unfoldable pub type_code : ApiType → ℕ
type_code ApiType.nil = 0x1
type_code ApiType.int64 = 0x2
type_code ApiType.uint64 = 0x3
type_code ApiType.string = 0x4
type_code ApiType.bytes = 0x5
type_code ApiType.bytes_bytes = 0x6
type_code ApiType.interface_array = 0x7
type_code ApiType.pub_key_ecc = 0x10
type_code ApiType.pub_key_rsa = 0x11
type_code ApiType.contact_array = 0x20
type_code ApiType.channel_array = 0x21
type_code ApiType.profile_array = 0x22
type_code ApiType.peer_array = 0x23
type_code ApiType.contact = 0x30
type_code ApiType.channel = 0x31
type_code ApiType.profile = 0x32
type_code ApiType.peer = 0x33
type_code ApiType.bundle = 0x40

-- The low `k` bytes of `x` in network order.
unfoldable pub put_be : ℕ → ℕ → Bytes
put_be zero x = []
put_be (suc k) x = put_be k (x / 256) ++ x % 256 ∷ []

unfoldable pub write_lv : Bytes → Bytes
write_lv v = put_uvarint (length v) ++ v

unfoldable pub write_tlv : ApiType → Bytes → Bytes
write_tlv ApiType.nil v = type_code ApiType.nil ∷ []
write_tlv t v = type_code t ∷ write_lv v

unfoldable pub write_flag : Bool → Bytes
write_flag b = (if b then 1 else 0) ∷ []

unfoldable pub write_contact : Contact → Bytes
write_contact c = write_lv c.name ++ write_lv c.pubkey

unfoldable pub write_channel : Channel → Bytes
write_channel c = write_lv c.name ++ write_lv c.pubkey

unfoldable pub write_profile : Profile → Bytes
unfolding write_flag
write_profile p = write_lv p.name ++ (write_lv p.pubkey ++ write_flag p.enabled)

unfoldable pub write_peer : Peer → Bytes
unfolding write_flag
write_peer p = write_lv p.name ++ (write_lv p.group ++ (write_lv p.uri ++ write_flag p.enabled))

unfoldable pub write_bundle : Bundle → Bytes
write_bundle b = write_lv b.payload ++ put_be 8 b.time

-- The loop that writes each element of a slice.
unfoldable pub write_each {ℓ} : {A : Type ℓ} → (A → Bytes) → List A → Bytes
write_each f [] = []
write_each f (x ∷ xs) = f x ++ write_each f xs

-- The number of elements, then the elements.
unfoldable pub write_slice {ℓ} : {A : Type ℓ} → (A → Bytes) → List A → Bytes
write_slice f xs = put_uvarint (length xs) ++ write_each f xs

module _ {Ecc Rsa : Type 0} where
  abbrev pub length_values : Values Ecc Rsa → ℕ
  length_values end = 0
  length_values (item v vs) = suc (length_values vs)

module _ {Ecc Rsa : Type 0} (codec : KeyCodec Ecc Rsa) where
  unfoldable pub write_key : PubKey Ecc Rsa → Bytes
  write_key (ecc k) = write_tlv ApiType.pub_key_ecc (codec.ecc_to_bytes k)
  write_key (rsa k) = write_tlv ApiType.pub_key_rsa (codec.rsa_to_bytes k)

  -- A type with no case in the switch writes nothing.
  unfoldable mutual
    pub serialize : Value Ecc Rsa → Bytes
    serialize Value.nil = write_tlv ApiType.nil []
    serialize (Value.int64 n) = type_code ApiType.int64 ∷ put_be 8 n
    serialize (Value.uint64 n) = type_code ApiType.uint64 ∷ put_be 8 n
    serialize (Value.string s) = write_tlv ApiType.string s
    serialize (Value.bytes b) = write_tlv ApiType.bytes b
    serialize (Value.bytes_bytes bba) = write_tlv ApiType.bytes_bytes (write_slice write_lv bba)
    serialize (Value.array ia) =
        write_tlv ApiType.interface_array (put_uvarint (length_values ia) ++ serialize_each ia)
    serialize (Value.pub_key k) = write_key k
    serialize (Value.contact c) = write_tlv ApiType.contact (write_contact c)
    serialize (Value.contacts cs) = write_tlv ApiType.contact_array (write_slice write_contact cs)
    serialize (Value.channel c) = write_tlv ApiType.channel (write_channel c)
    serialize (Value.channels cs) = write_tlv ApiType.channel_array (write_slice write_channel cs)
    serialize (Value.profile p) = write_tlv ApiType.profile (write_profile p)
    serialize (Value.profiles ps) = write_tlv ApiType.profile_array (write_slice write_profile ps)
    serialize (Value.peer p) = write_tlv ApiType.peer (write_peer p)
    serialize (Value.peers ps) = write_tlv ApiType.peer_array (write_slice write_peer ps)
    serialize (Value.bundle b) = write_tlv ApiType.bundle (write_bundle b)
    serialize Value.unlisted = []

    pub serialize_each : Values Ecc Rsa → Bytes
    serialize_each end = []
    serialize_each (item v vs) = serialize v ++ serialize_each vs
