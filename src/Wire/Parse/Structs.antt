-- ===== src/Wire/Parse/Structs.antt =====
-- The structs of api/node.go read back from their prints.
use ratnet.Prelude.{
  ◌^◌, ◌<◌, ◌≤◌, ◌≡◌, refl, List, [], ◌∷◌, ◌++◌, arith, Bytes, length, length-append, append_assoc,
  Bool, true, false, if◌then◌else◌, ◌==◌,
}
use ratnet.Wire.Value.{Contact, Channel, Profile, Peer, Bundle}
use ratnet.Wire.Read.{ok, Reader, max_alloc, times, with_count}
use ratnet.Wire.Read.ReadsBack.{
  Reads, ReadsEach, read_lv-write_lv, read_word-put_be, with_count-write_slice,
}
use ratnet.Wire.Varint.{put_uvarint}
use ratnet.Wire.Varint.Bounds.{put_uvarint_bounds}
use ratnet.Wire.Write.{
  write_lv, write_flag, write_contact, write_channel, write_profile, write_peer, write_bundle,
  write_each, write_slice,
}
use ratnet.Wire.Parse.{read_contact, read_channel, read_profile, read_peer, read_bundle}

pub length-le-write_lv : (v : Bytes) → length v < length (write_lv v)
unfolding write_lv
length-le-write_lv v =
    omega (arith, length-append (put_uvarint (length v)) v, put_uvarint_bounds (length v))

flag_value : (b : Bool) → ((if b then 1 else 0) == 1) ≡ b
flag_value true = refl
flag_value false = refl

-- A print of at most this length can be allocated, and so can each of its parts.
abbrev pub Fits : Bytes → Type 0
Fits printed = length printed ≤ max_alloc

pub length_parts : (xs ys : Bytes) → Fits (xs ++ ys) → Fits xs × Fits ys
length_parts xs ys h = omega (arith, length-append xs ys)

lv_part : (v ys : Bytes) → Fits (write_lv v ++ ys) → (length v ≤ max_alloc) × Fits ys
lv_part v ys h = omega (arith, length_parts (write_lv v) ys h, length-le-write_lv v)

lv_whole : (v : Bytes) → Fits (write_lv v) → length v ≤ max_alloc
lv_whole v h = omega (arith, length-le-write_lv v)

pub read_contact-write_contact :
    (c : Contact) → Fits (write_contact c) → Reads read_contact (write_contact c) c
unfolding read_contact write_contact
read_contact-write_contact c h rest =
    let (hn, hk) = lv_part c.name _ h in
    rw (
      append_assoc,
      read_lv-write_lv c.name hn,
      read_lv-write_lv c.pubkey (lv_whole c.pubkey hk) rest,
    )

pub read_channel-write_channel :
    (c : Channel) → Fits (write_channel c) → Reads read_channel (write_channel c) c
unfolding read_channel write_channel
read_channel-write_channel c h rest =
    let (hn, hk) = lv_part c.name _ h in
    rw (
      append_assoc,
      read_lv-write_lv c.name hn,
      read_lv-write_lv c.pubkey (lv_whole c.pubkey hk) rest,
    )

pub read_profile-write_profile :
    (p : Profile) → Fits (write_profile p) → Reads read_profile (write_profile p) p
unfolding read_profile write_profile write_flag
read_profile-write_profile p h rest =
    let (hn, hk) = lv_part p.name _ h in
    let (hp, hf) = lv_part p.pubkey _ hk in
    rw (
      append_assoc,
      read_lv-write_lv p.name hn,
      append_assoc,
      read_lv-write_lv p.pubkey hp,
      flag_value p.enabled,
    )

pub read_peer-write_peer : (p : Peer) → Fits (write_peer p) → Reads read_peer (write_peer p) p
unfolding read_peer write_peer write_flag
read_peer-write_peer p h rest =
    let (hn, hk) = lv_part p.name _ h in
    let (hg, hu) = lv_part p.group _ hk in
    let (hp, hf) = lv_part p.uri _ hu in
    rw (
      append_assoc,
      read_lv-write_lv p.name hn,
      append_assoc,
      read_lv-write_lv p.group hg,
      append_assoc,
      read_lv-write_lv p.uri hp,
      flag_value p.enabled,
    )

pub read_bundle-write_bundle :
    (b : Bundle) → b.time < 2 ^ 64 → Fits (write_bundle b) → Reads read_bundle (write_bundle b) b
unfolding read_bundle write_bundle
read_bundle-write_bundle b ht h rest =
    let (hn, hk) = lv_part b.payload _ h in
    rw (append_assoc, read_lv-write_lv b.payload hn, read_word-put_be b.time ht rest)

-- A slice whose print fits has parts that fit, and each of them is read back.
module _ {ℓ} {A : Type ℓ} (p : Reader A) (f : A → Bytes) where
  pub ReadsEach-write_each :
      ((x : A) → Fits (f x) → Reads p (f x) x)
      → (xs : List A) → Fits (write_each f xs)
      → ReadsEach p f xs
  unfolding write_each
  ReadsEach-write_each back [] h = tt
  ReadsEach-write_each back (x ∷ xs) h =
      let (hx, hxs) = length_parts (f x) (write_each f xs) h in
      (back x hx, ReadsEach-write_each back xs hxs)

  -- A count is at most the length of what is counted, where each element prints a byte at least.
  pub length-le-write_each :
      ((x : A) → 0 < length (f x)) → (xs : List A) → length xs ≤ length (write_each f xs)
  unfolding write_each
  length-le-write_each some_byte [] = omega arith
  length-le-write_each some_byte (x ∷ xs) =
      omega (
        arith,
        length-append (f x) (write_each f xs),
        some_byte x,
        length-le-write_each some_byte xs,
      )

  pub slice-Reads :
      ((x : A) → Fits (f x) → Reads p (f x) x)
      → ((x : A) → 0 < length (f x))
      → (xs : List A) → Fits (write_slice f xs)
      → with_count (times p) (write_slice f xs) ≡ ok xs
  unfolding write_slice
  slice-Reads back some_byte xs h =
      let (_, hs) = length_parts (put_uvarint (length xs)) (write_each f xs) h in
      with_count-write_slice p f xs (omega (arith, length-le-write_each some_byte xs))
        (ReadsEach-write_each back xs hs)
