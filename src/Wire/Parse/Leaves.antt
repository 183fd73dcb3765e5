-- ===== src/Wire/Parse/Leaves.antt =====
-- `deserialize` reads back every value but an array; an array, given its elements, is in ReadsBack.
use ratnet.Prelude.{ℕ, suc, ◌^◌, ◌<◌, ◌≤◌, ◌≡◌, refl, [], ◌∷◌, arith, Bytes, length, some}
use ratnet.Wire.Value.{PubKey, ecc, rsa, Value, Values, end, item, KeyCodec, KeyCodecLaws}
use ratnet.Wire.Read.{Result, ok, max_alloc, read_byte, read_lv, with_count}
use ratnet.Wire.Read.ReadsBack.{Reads, read_lv-write_lv, read_word-put_be}
use ratnet.Wire.Write.{
  ApiType, type_code, write_lv, write_tlv, write_contact, write_channel, write_profile, write_peer,
  serialize, write_key, put_be,
}
use ratnet.Wire.Parse.{
  type_of, read_typed, decode, read_contact, read_channel, read_profile, read_peer, read_bundle,
  deserialize, read_items,
}
use ratnet.Wire.Parse.Payloads.{
  payload-Fits, payload-Reads, payload_slice-Reads, read_lv-Fits, write_lv_pos, write_contact_pos,
  write_channel_pos, write_profile_pos, write_peer_pos,
}
use ratnet.Wire.Parse.Structs.{
  Fits, length-le-write_lv, read_contact-write_contact, read_channel-write_channel,
  read_profile-write_profile, read_peer-write_peer, read_bundle-write_bundle,
}

module _ {Ecc Rsa : Type 0} where
  abbrev pub IsLeaf : Value Ecc Rsa → Type 0
  IsLeaf (Value.array ia) = ⊥
  IsLeaf _ = Unit

  -- A value that some case of `serialize` writes, with its integers in 64 bits, all the way down.
  abbrev mutual
    pub IsWire : Value Ecc Rsa → Type 0
    IsWire (Value.int64 n) = n < 2 ^ 64
    IsWire (Value.uint64 n) = n < 2 ^ 64
    IsWire (Value.array ia) = AreWire ia
    IsWire (Value.bundle b) = b.time < 2 ^ 64
    IsWire Value.unlisted = ⊥
    IsWire _ = Unit

    pub AreWire : Values Ecc Rsa → Type 0
    AreWire end = Unit
    AreWire (item v vs) = IsWire v × AreWire vs

type_of-type_code : (t : ApiType) → type_of (type_code t) ≡ some t
unfolding type_of type_code
type_of-type_code ApiType.nil = refl
type_of-type_code _ = refl

module _ {Ecc Rsa : Type 0} (codec : KeyCodec Ecc Rsa) where
  read_typed-write_lv :
      (items : Bytes → Result (Values Ecc Rsa)) (t : ApiType) (v : Bytes) (x : Value Ecc Rsa)
      → decode codec items t v ≡ ok x
      → length v ≤ max_alloc
      → Reads (read_typed codec items (some t)) (write_lv v) x
  unfolding read_typed
  read_typed-write_lv items ApiType.nil v x e h rest = unfold decode in cc
  read_typed-write_lv items ApiType.int64 v x e h rest = unfold decode in cc
  read_typed-write_lv items ApiType.uint64 v x e h rest = unfold decode in cc
  read_typed-write_lv items _ v x e h rest = rw (read_lv-write_lv v h rest, e)

  -- A payload that decodes is read back from its type, length and value.
  pub deserialize-write_tlv :
      (f : ℕ) (t : ApiType) (v : Bytes) (x : Value Ecc Rsa)
      → decode codec (with_count (read_items codec f)) t v ≡ ok x
      → Fits (write_tlv t v)
      → Reads (deserialize codec (suc f)) (write_tlv t v) x
  unfolding deserialize write_tlv read_byte
  deserialize-write_tlv f ApiType.nil v x e h rest = unfold decode in cc
  deserialize-write_tlv f _ v x e h rest = rw type_of-type_code (
      read_typed-write_lv (with_count (read_items codec f)) _ v x e
        (omega (arith, length-le-write_lv v)) rest)

  pub serialize_pos : (v : Value Ecc Rsa) → IsWire v → 0 < length (serialize codec v)
  unfolding serialize write_tlv write_key
  serialize_pos Value.unlisted h = elim h [ ]
  serialize_pos (Value.pub_key (ecc k)) h = omega arith
  serialize_pos (Value.pub_key (rsa k)) h = omega arith
  serialize_pos _ h = omega arith

  -- Words carry no length.
  deserialize-int64 :
      (f n : ℕ)
      → n < 2 ^ 64
      → Reads (deserialize codec (suc f)) (type_code ApiType.int64 ∷ put_be 8 n) (Value.int64 n)
  unfolding deserialize read_byte read_typed
  deserialize-int64 f n h rest = rw (type_of-type_code, read_word-put_be n h rest)

  deserialize-uint64 :
      (f n : ℕ)
      → n < 2 ^ 64
      → Reads (deserialize codec (suc f)) (type_code ApiType.uint64 ∷ put_be 8 n) (Value.uint64 n)
  unfolding deserialize read_byte read_typed
  deserialize-uint64 f n h rest = rw (type_of-type_code, read_word-put_be n h rest)

  deserialize-nil : (f : ℕ) → Reads (deserialize codec (suc f)) (write_tlv ApiType.nil []) Value.nil
  unfolding deserialize read_byte read_typed write_tlv
  deserialize-nil f rest = rw type_of-type_code

module _ {Ecc Rsa : Type 0} (codec : KeyCodec Ecc Rsa) (laws : KeyCodecLaws codec) where
  key-Reads :
      (f : ℕ) (k : PubKey Ecc Rsa)
      → Fits (write_key codec k)
      → Reads (deserialize codec (suc f)) (write_key codec k) (Value.pub_key k)
  unfolding write_key
  key-Reads f (ecc k) h =
      deserialize-write_tlv codec f ApiType.pub_key_ecc _ _
        (unfold decode in rw (laws.ecc_reads_back k)) h
  key-Reads f (rsa k) h =
      deserialize-write_tlv codec f ApiType.pub_key_rsa _ _
        (unfold decode in rw (laws.rsa_reads_back k)) h

  -- Every value but an array is read back outright.
  pub leaf-Reads :
      (v : Value Ecc Rsa) (f : ℕ)
      → IsLeaf v
      → IsWire v
      → Fits (serialize codec v)
      → Reads (deserialize codec (suc f)) (serialize codec v) v
  unfolding serialize decode
  leaf-Reads Value.nil f l w h = deserialize-nil codec f
  leaf-Reads (Value.int64 n) f l w h = deserialize-int64 codec f n w
  leaf-Reads (Value.uint64 n) f l w h = deserialize-uint64 codec f n w
  leaf-Reads (Value.string s) f l w h = deserialize-write_tlv codec f _ s _ refl h
  leaf-Reads (Value.bytes s) f l w h = deserialize-write_tlv codec f _ s _ refl h
  leaf-Reads (Value.bytes_bytes bba) f l w h =
      deserialize-write_tlv codec f ApiType.bytes_bytes _ _
        (payload_slice-Reads Value.bytes_bytes read_lv write_lv read_lv-Fits write_lv_pos bba
          (payload-Fits _ _ (λ e. cc) h))
        h
  leaf-Reads (Value.array ia) f l w h = elim l [ ]
  leaf-Reads (Value.pub_key k) f l w h = key-Reads f k h
  leaf-Reads (Value.contact c) f l w h =
      deserialize-write_tlv codec f ApiType.contact _ _
        (payload-Reads Value.contact read_contact _ c
          (read_contact-write_contact c (payload-Fits _ _ (λ e. cc) h)))
        h
  leaf-Reads (Value.contacts cs) f l w h =
      deserialize-write_tlv codec f ApiType.contact_array _ _
        (payload_slice-Reads Value.contacts read_contact write_contact read_contact-write_contact
          write_contact_pos cs (payload-Fits _ _ (λ e. cc) h))
        h
  leaf-Reads (Value.channel c) f l w h =
      deserialize-write_tlv codec f ApiType.channel _ _
        (payload-Reads Value.channel read_channel _ c
          (read_channel-write_channel c (payload-Fits _ _ (λ e. cc) h)))
        h
  leaf-Reads (Value.channels cs) f l w h =
      deserialize-write_tlv codec f ApiType.channel_array _ _
        (payload_slice-Reads Value.channels read_channel write_channel read_channel-write_channel
          write_channel_pos cs (payload-Fits _ _ (λ e. cc) h))
        h
  leaf-Reads (Value.profile c) f l w h =
      deserialize-write_tlv codec f ApiType.profile _ _
        (payload-Reads Value.profile read_profile _ c
          (read_profile-write_profile c (payload-Fits _ _ (λ e. cc) h)))
        h
  leaf-Reads (Value.profiles cs) f l w h =
      deserialize-write_tlv codec f ApiType.profile_array _ _
        (payload_slice-Reads Value.profiles read_profile write_profile read_profile-write_profile
          write_profile_pos cs (payload-Fits _ _ (λ e. cc) h))
        h
  leaf-Reads (Value.peer c) f l w h =
      deserialize-write_tlv codec f ApiType.peer _ _
        (payload-Reads Value.peer read_peer _ c
          (read_peer-write_peer c (payload-Fits _ _ (λ e. cc) h)))
        h
  leaf-Reads (Value.peers cs) f l w h =
      deserialize-write_tlv codec f ApiType.peer_array _ _
        (payload_slice-Reads Value.peers read_peer write_peer read_peer-write_peer write_peer_pos cs
          (payload-Fits _ _ (λ e. cc) h))
        h
  leaf-Reads (Value.bundle c) f l w h =
      deserialize-write_tlv codec f ApiType.bundle _ _
        (payload-Reads Value.bundle read_bundle _ c
          (read_bundle-write_bundle c w (payload-Fits _ _ (λ e. cc) h)))
        h
  leaf-Reads Value.unlisted f l w h = elim w [ ]
