-- ===== src/Wire/Parse/Total.antt =====
-- `deserialize` ends on every input: the model's fuel never runs out.
use ratnet.Prelude.{
  ℕ, zero, suc, ◌+◌, ◌*◌, ◌<◌, ◌≤◌, ◌≢◌, List, arith, Bytes, length, Option, none, some,
}
use ratnet.Wire.Value.{PubKey, ecc, rsa, Value, Values, KeyCodec}
use ratnet.Wire.Read.{
  Result, ok, out_of_fuel, bind, Reader, ◌>>=◌, read_byte, read_word, read_lv, times, with_count,
}
use ratnet.Wire.Read.Total.{
  Ends, returned, failed, Ends-ne-out_of_fuel, Ends-bind, Ends-map, read_lv_sizes, Takes,
  Takes-bind, Takes-pure, Takes-zero, times-Takes, with_count-Ends, read_byte-Takes, read_lv-Takes,
  read_word-Takes,
}
use ratnet.Wire.Write.{ApiType}
use ratnet.Wire.Parse.{
  type_of, read_typed, decode, key_of, on_payload, on_slice, read_flag, read_contact, read_channel,
  read_profile, read_peer, read_bundle, deserialize, read_items, deserialize_all,
}

lv-Takes :
    {A : Type 0} (f : Bytes → Reader A) → ((v : Bytes) → Takes 0 (f v)) → Takes 0 (read_lv >>= f)
lv-Takes f h = Takes-zero 1 _ (Takes-bind 1 read_lv f read_lv-Takes h)

read_flag-Takes : Takes 0 read_flag
unfolding read_flag
read_flag-Takes = Takes-zero 1 _ (Takes-bind 1 read_byte _ read_byte-Takes λ b. Takes-pure _)

read_contact-Takes : Takes 0 read_contact
unfolding read_contact
read_contact-Takes = lv-Takes _ λ n. lv-Takes _ λ k. Takes-pure _

read_channel-Takes : Takes 0 read_channel
unfolding read_channel
read_channel-Takes = lv-Takes _ λ n. lv-Takes _ λ k. Takes-pure _

read_profile-Takes : Takes 0 read_profile
unfolding read_profile
read_profile-Takes =
    lv-Takes _ λ n. lv-Takes _ λ k. Takes-bind 0 read_flag _ read_flag-Takes λ e. Takes-pure _

read_peer-Takes : Takes 0 read_peer
unfolding read_peer
read_peer-Takes =
    lv-Takes _ λ n.
      lv-Takes _ λ g. lv-Takes _ λ u. Takes-bind 0 read_flag _ read_flag-Takes λ e. Takes-pure _

read_bundle-Takes : Takes 0 read_bundle
unfolding read_bundle
read_bundle-Takes = lv-Takes _ λ n. Takes-bind 0 read_word _ read_word-Takes λ e. Takes-pure _

module _ {ℓ κ} {A : Type ℓ} {B : Type κ} where
  on_payload-Ends :
      (wrap : A → B) (p : Reader A) (v : Bytes)
      → Takes 0 p
      → Ends (λ _. Unit {0}) (on_payload wrap p v)
  on_payload-Ends wrap p v h = Ends-bind (h v) (λ _ _. returned tt)

  on_slice-Ends :
      (wrap : List A → B) (p : Reader A) (v : Bytes)
      → Takes 0 p
      → Ends (λ _. Unit {0}) (on_slice wrap p v)
  on_slice-Ends wrap p v h =
      Ends-bind
        (with_count-Ends (times p) v
          λ l rest _. Ends-map (times-Takes p h l rest) (λ _ _. returned tt))
        (λ _ _. returned tt)

key_of-Ends :
    {K Ecc Rsa : Type 0} (f : K → PubKey Ecc Rsa) (k : Option K) → Ends (λ _. Unit {0}) (key_of f k)
unfolding key_of
key_of-Ends f none = failed
key_of-Ends f (some k) = returned tt

module _ {Ecc Rsa : Type 0} (codec : KeyCodec Ecc Rsa) where
  decode-Ends :
      (items : Bytes → Result (Values Ecc Rsa)) (t : ApiType) (v : Bytes)
      → Ends (λ _. Unit {0}) (items v)
      → Ends (λ _. Unit {0}) (decode codec items t v)
  unfolding decode
  decode-Ends items ApiType.nil v h = failed
  decode-Ends items ApiType.int64 v h = failed
  decode-Ends items ApiType.uint64 v h = failed
  decode-Ends items ApiType.string v h = returned tt
  decode-Ends items ApiType.bytes v h = returned tt
  decode-Ends items ApiType.bytes_bytes v h =
      on_slice-Ends _ read_lv v (Takes-zero 1 read_lv read_lv-Takes)
  decode-Ends items ApiType.interface_array v h = Ends-bind h (λ _ _. returned tt)
  decode-Ends items ApiType.pub_key_ecc v h = key_of-Ends ecc (codec.ecc_from_bytes v)
  decode-Ends items ApiType.pub_key_rsa v h = key_of-Ends rsa (codec.rsa_from_bytes v)
  decode-Ends items ApiType.contact_array v h = on_slice-Ends _ read_contact v read_contact-Takes
  decode-Ends items ApiType.channel_array v h = on_slice-Ends _ read_channel v read_channel-Takes
  decode-Ends items ApiType.profile_array v h = on_slice-Ends _ read_profile v read_profile-Takes
  decode-Ends items ApiType.peer_array v h = on_slice-Ends _ read_peer v read_peer-Takes
  decode-Ends items ApiType.contact v h = on_payload-Ends _ read_contact v read_contact-Takes
  decode-Ends items ApiType.channel v h = on_payload-Ends _ read_channel v read_channel-Takes
  decode-Ends items ApiType.profile v h = on_payload-Ends _ read_profile v read_profile-Takes
  decode-Ends items ApiType.peer v h = on_payload-Ends _ read_peer v read_peer-Takes
  decode-Ends items ApiType.bundle v h = on_payload-Ends _ read_bundle v read_bundle-Takes

  -- The elements of a payload end, for payloads shorter than the input.
  abbrev ItemsEnd : (Bytes → Result (Values Ecc Rsa)) → ℕ → Type 0
  ItemsEnd items n = (v : Bytes) → length v ≤ n → Ends (λ _. Unit {0}) (items v)

  lengthy-Ends :
      (items : Bytes → Result (Values Ecc Rsa)) (t : ApiType) (bs : Bytes)
      → ItemsEnd items (length bs)
      → Ends {A = Value Ecc Rsa × Bytes}
          (λ r. length r.1 ≤ length bs)
          (bind (read_lv bs) λ (v, rest). bind (decode codec items t v) λ x. ok (x, rest))
  lengthy-Ends items t bs h = Ends-bind (read_lv_sizes bs) λ (v, rest) hv.
      Ends-bind (decode-Ends items t v (h v (omega arith))) λ x _. returned (omega arith)

  read_typed-Ends :
      (items : Bytes → Result (Values Ecc Rsa)) (t : Option ApiType) (bs : Bytes)
      → ItemsEnd items (length bs)
      → Ends (λ r. length r.1 ≤ length bs) (read_typed codec items t bs)
  unfolding read_typed
  read_typed-Ends items (some ApiType.nil) bs h = returned (omega arith)
  read_typed-Ends items (some ApiType.int64) bs h =
      Ends-bind (read_word-Takes bs) (λ r p. returned (omega arith))
  read_typed-Ends items (some ApiType.uint64) bs h =
      Ends-bind (read_word-Takes bs) (λ r p. returned (omega arith))
  read_typed-Ends items (some t) bs h = lengthy-Ends items t bs h
  read_typed-Ends items none bs h = Ends-bind (read_lv-Takes bs) (λ r p. failed)

  mutual
    unfolding deserialize read_items

    deserialize-Ends :
        (f : ℕ) (bs : Bytes)
        → 2 * length bs < f
        → Ends (λ r. length r.1 + 1 ≤ length bs) (deserialize codec f bs)
    deserialize-Ends zero bs h = absurd (omega arith)
    deserialize-Ends (suc f) bs h = Ends-bind (read_byte-Takes bs) λ (t, rest) hr.
        Ends-map
          (read_typed-Ends (with_count (read_items codec f)) (type_of t) rest λ v hv.
            with_count-Ends (read_items codec f) v λ l rest' hr'.
              Ends-map (read_items-Ends f l rest' (omega arith)) (λ _ _. returned tt))
          (λ r p. returned (omega arith))

    read_items-Ends :
        (f l : ℕ) (bs : Bytes)
        → 2 * length bs + 1 < f
        → Ends (λ r. length r.1 ≤ length bs) (read_items codec f l bs)
    read_items-Ends zero l bs h = absurd (omega arith)
    read_items-Ends (suc f) zero bs h = returned (omega arith)
    read_items-Ends (suc f) (suc l) bs h =
        Ends-bind (deserialize-Ends f bs (omega arith)) λ (v, rest) hr.
          Ends-bind (read_items-Ends f l rest (omega arith))
            λ (vs, rest') hr'. returned (omega arith)

  -- On every input `deserialize` ends.
  pub deserialize-ne-out_of_fuel : (bs : Bytes) → deserialize_all codec bs ≢ out_of_fuel
  unfolding deserialize_all
  deserialize-ne-out_of_fuel bs =
      Ends-ne-out_of_fuel (deserialize-Ends (2 * length bs + 1) bs (omega arith))
