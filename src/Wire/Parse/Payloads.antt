-- ===== src/Wire/Parse/Payloads.antt =====
-- Payloads read back: a struct, or a counted slice of them, in a type-length-value print.
use ratnet.Prelude.{
  ◌<◌, ◌≡◌, ◌≢◌, refl, List, [], ◌++◌, arith, Bytes, length, length-append, append-nil,
}
use ratnet.Wire.Value.{Contact, Channel, Profile, Peer}
use ratnet.Wire.Read.{ok, Reader, read_lv}
use ratnet.Wire.Read.ReadsBack.{Reads, read_lv-write_lv}
use ratnet.Wire.Write.{
  ApiType, write_lv, write_tlv, write_contact, write_channel, write_profile, write_peer,
  write_slice,
}
use ratnet.Wire.Parse.{on_payload, on_slice}
use ratnet.Wire.Parse.Structs.{Fits, length-le-write_lv, slice-Reads}

-- A reader that reads a whole print leaves nothing.
pub whole {ℓ} :
    {A : Type ℓ} (p : Reader A) (printed : Bytes) (a : A)
    → Reads p printed a
    → p printed ≡ ok (a, [])
whole p printed a back = rw append-nil at (back [])

pub read_lv-Fits : (v : Bytes) → Fits (write_lv v) → Reads read_lv (write_lv v) v
read_lv-Fits v h = read_lv-write_lv v (omega (arith, length-le-write_lv v))

pub write_lv_pos : (v : Bytes) → 0 < length (write_lv v)
write_lv_pos v = omega (arith, length-le-write_lv v)

pos_append : (xs ys : Bytes) → 0 < length xs → 0 < length (xs ++ ys)
pos_append xs ys h = omega (arith, length-append xs ys)

pub write_contact_pos : (c : Contact) → 0 < length (write_contact c)
unfolding write_contact
write_contact_pos c = pos_append _ _ (write_lv_pos c.name)

pub write_channel_pos : (c : Channel) → 0 < length (write_channel c)
unfolding write_channel
write_channel_pos c = pos_append _ _ (write_lv_pos c.name)

pub write_profile_pos : (p : Profile) → 0 < length (write_profile p)
unfolding write_profile
write_profile_pos p = pos_append _ _ (write_lv_pos p.name)

pub write_peer_pos : (p : Peer) → 0 < length (write_peer p)
unfolding write_peer
write_peer_pos p = pos_append _ _ (write_lv_pos p.name)

pub payload-Fits : (t : ApiType) (v : Bytes) → t ≢ ApiType.nil → Fits (write_tlv t v) → Fits v
unfolding write_tlv
payload-Fits ApiType.nil v h f = absurd (h refl)
payload-Fits _ v h f = omega (arith, length-le-write_lv v)

module _ {ℓ κ} {A : Type ℓ} {B : Type κ} where
  pub payload-Reads :
      (wrap : A → B) (p : Reader A) (printed : Bytes) (a : A)
      → Reads p printed a
      → on_payload wrap p printed ≡ ok (wrap a)
  payload-Reads wrap p printed a back = rw (whole p printed a back)

  pub payload_slice-Reads :
      (wrap : List A → B) (p : Reader A) (f : A → Bytes)
      → ((x : A) → Fits (f x) → Reads p (f x) x)
      → ((x : A) → 0 < length (f x))
      → (xs : List A) → Fits (write_slice f xs)
      → on_slice wrap p (write_slice f xs) ≡ ok (wrap xs)
  payload_slice-Reads wrap p f back some_byte xs h = rw (slice-Reads p f back some_byte xs h)
