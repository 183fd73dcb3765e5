-- ===== src/Wire/Parse/ReadsBack.antt =====
-- `deserialize` reads back what `serialize` wrote.
use ratnet.Prelude.{
  ℕ, zero, suc, ◌+◌, ◌*◌, ◌^◌, ◌<◌, ◌≤◌, ◌≡◌, refl, ◌++◌, arith, Bytes, length, length-append,
  append_assoc,
}
use native.Mathlib.Numerals.{add-one}
use ratnet.Wire.Value.{Value, Values, end, item, KeyCodec, KeyCodecLaws}
use ratnet.Wire.Read.{ok, with_count}
use ratnet.Wire.Read.ReadsBack.{Reads}
use ratnet.Wire.Varint.{put_uvarint}
use ratnet.Wire.Varint.ReadsBack.{uvarint-put_uvarint}
use ratnet.Wire.Varint.Bounds.{put_uvarint_bounds}
use ratnet.Wire.Write.{ApiType, write_tlv, serialize, serialize_each, length_values}
use ratnet.Wire.Parse.{decode, deserialize, read_items, deserialize_all}
use ratnet.Wire.Parse.Leaves.{IsWire, AreWire, leaf-Reads, serialize_pos, deserialize-write_tlv}
use ratnet.Wire.Parse.Payloads.{whole}
use ratnet.Wire.Parse.Structs.{Fits, length_parts, length-le-write_lv}

module _ {Ecc Rsa : Type 0} (codec : KeyCodec Ecc Rsa) (laws : KeyCodecLaws codec) where
  -- Each element prints a byte at least, so the count fits in 64 bits.
  length_values-le :
      (vs : Values Ecc Rsa) → AreWire vs → length_values vs ≤ length (serialize_each codec vs)
  unfolding serialize_each
  length_values-le end w = omega arith
  length_values-le (item v vs) (wv, wvs) = omega (
    arith,
    length-append (serialize codec v) (serialize_each codec vs),
    serialize_pos codec v wv,
    length_values-le vs wvs,
  )

  array_room :
      (ia : Values Ecc Rsa)
      → length (serialize_each codec ia) + 3 ≤ length (serialize codec (Value.array ia))
  unfolding serialize write_tlv
  array_room ia =
      let n = put_uvarint (length_values ia) in
      omega (
        arith,
        length-le-write_lv (n ++ serialize_each codec ia),
        length-append n (serialize_each codec ia),
        put_uvarint_bounds (length_values ia),
      )

  items-Read :
      (ia : Values Ecc Rsa) (f : ℕ)
      → Reads (read_items codec f (length_values ia)) (serialize_each codec ia) ia
      → length_values ia < 2 ^ 64
      → with_count (read_items codec f) (put_uvarint (length_values ia) ++ serialize_each codec ia)
        ≡ ok ia
  unfolding with_count
  items-Read ia f back small = rw (
    uvarint-put_uvarint (length_values ia) _ small,
    whole (read_items codec f (length_values ia)) _ ia back,
  )

  array-Reads :
      (ia : Values Ecc Rsa) (f : ℕ)
      → AreWire ia
      → Fits (serialize codec (Value.array ia))
      → Reads (read_items codec f (length_values ia)) (serialize_each codec ia) ia
      → Reads (deserialize codec (suc f)) (serialize codec (Value.array ia)) (Value.array ia)
  unfolding serialize decode
  array-Reads ia f w h back =
      let small = fits_count ia w h in
      deserialize-write_tlv codec f ApiType.interface_array _ _ (rw (items-Read ia f back small)) h
    where
      fits_count :
          (ia : Values Ecc Rsa)
          → AreWire ia
          → Fits (serialize codec (Value.array ia))
          → length_values ia < 2 ^ 64
      fits_count ia w h = omega (arith, length_values-le ia w, array_room ia)

  items_room :
      (v : Value Ecc Rsa) (vs : Values Ecc Rsa) (f : ℕ)
      → IsWire v
      → 2 * length (serialize_each codec (item v vs)) + 1 ≤ suc f
      → (2 * length (serialize codec v) ≤ f) × (2 * length (serialize_each codec vs) + 1 ≤ f)
  unfolding serialize_each
  items_room v vs f wv b = omega (
    arith,
    length-append (serialize codec v) (serialize_each codec vs),
    serialize_pos codec v wv,
    b,
  )

  mutual
    unfolding serialize read_items

    value-Reads :
        (v : Value Ecc Rsa) (f : ℕ)
        → IsWire v
        → Fits (serialize codec v)
        → 2 * length (serialize codec v) ≤ f
        → Reads (deserialize codec (suc f)) (serialize codec v) v
    value-Reads (Value.array ia) zero w h b = absurd (omega (arith, array_room ia))
    value-Reads (Value.array ia) (suc f) w h b =
        array-Reads ia (suc f) w h
          (values-Read ia f w (omega (arith, array_room ia)) (omega (arith, array_room ia)))
    value-Reads v f w h b = leaf-Reads codec laws v f tt w h

    values-Read :
        (vs : Values Ecc Rsa) (f : ℕ)
        → AreWire vs
        → Fits (serialize_each codec vs)
        → 2 * length (serialize_each codec vs) + 1 ≤ f
        → Reads (read_items codec (suc f) (length_values vs)) (serialize_each codec vs) vs
    values-Read end f w h b rest = refl
    values-Read (item v vs) zero w h b rest = absurd (omega arith)
    values-Read (item v vs) (suc f) (wv, wvs) h b rest = rw (
      append_assoc,
      value-Reads v f wv (length_parts (serialize codec v) _ h).0 (items_room v vs f wv b).0 _,
      values-Read vs f wvs (length_parts (serialize codec v) _ h).1 (items_room v vs f wv b).1 rest,
    )

  -- Any value that `serialize` writes, and that fits in memory, is read back from the front of any
  -- input that begins with its print.
  pub deserialize-serialize :
      (v : Value Ecc Rsa) (rest : Bytes)
      → IsWire v
      → Fits (serialize codec v)
      → deserialize_all codec (serialize codec v ++ rest) ≡ ok (v, rest)
  unfolding deserialize_all
  deserialize-serialize v rest w h =
      let n = 2 * length (serialize codec v ++ rest) in
      rw add-one (value-Reads v n w h (omega (arith, length-append (serialize codec v) rest)) rest)
