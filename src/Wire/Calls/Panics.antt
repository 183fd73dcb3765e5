-- ===== src/Wire/Calls/Panics.antt =====
-- Inputs on which the readers of api/remoting.go panic, where the code means to return an error.
use ratnet.Prelude.{ℕ, ◌^◌, ◌<◌, ◌≡◌, refl, [], ◌∷◌, ◌++◌, Bytes, length, Option, none, some}
use native.Mathlib.Numerals.{add-one}
use ratnet.Wire.Value.{Value, Values, KeyCodec, KeyCodecLaws}
use ratnet.Wire.Varint.{put_uvarint}
use ratnet.Wire.Read.Alloc.{read_lv_huge}
use ratnet.Wire.Read.{Result, panic, max_alloc, read_byte, read_lv}
use ratnet.Wire.Write.{ApiType, serialize}
use ratnet.Wire.Parse.{type_of, read_typed, deserialize, deserialize_all}
use ratnet.Wire.Parse.Structs.{Fits}
use ratnet.Wire.Parse.Leaves.{IsWire, serialize_pos}
use ratnet.Wire.Calls.{as_args, args_from_bytes, remote_call_from_bytes}
use ratnet.Wire.Calls.ReadsBack.{deserialize-serialize_whole}

-- The type bytes of values with no length.
abbrev pub HasLength : Option ApiType → Type 0
HasLength (some ApiType.nil) = ⊥
HasLength (some ApiType.int64) = ⊥
HasLength (some ApiType.uint64) = ⊥
HasLength _ = Unit

module _ {Ecc Rsa : Type 0} (codec : KeyCodec Ecc Rsa) where
  read_typed_huge :
      (items : Bytes → Result (Values Ecc Rsa)) (t : Option ApiType) (bs : Bytes)
      → HasLength t
      → read_lv bs ≡ panic
      → read_typed codec items t bs ≡ panic
  unfolding read_typed
  read_typed_huge items (some ApiType.nil) bs h e = elim h [ ]
  read_typed_huge items (some ApiType.int64) bs h e = elim h [ ]
  read_typed_huge items (some ApiType.uint64) bs h e = elim h [ ]
  read_typed_huge items (some t) bs h e = rw e
  read_typed_huge items none bs h e = rw e

  -- An input that begins with any type byte whose value has a length, known or not, and a length
  -- above what can be allocated makes `deserialize` panic, whatever follows.
  pub deserialize_huge :
      (t l : ℕ) (rest : Bytes)
      → HasLength (type_of t)
      → max_alloc < l
      → l < 2 ^ 64
      → deserialize_all codec (t ∷ (put_uvarint l ++ rest)) ≡ panic
  unfolding deserialize_all deserialize read_byte
  deserialize_huge t l rest ht h hl =
      rw add-one (read_typed_huge _ (type_of t) _ ht (read_lv_huge l rest h hl))

  -- Neither an array nor nil.
  abbrev pub IsOther : Value Ecc Rsa → Type 0
  IsOther Value.nil = ⊥
  IsOther (Value.array ia) = ⊥
  IsOther _ = Unit

  as_args_other : (v : Value Ecc Rsa) → IsOther v → as_args v ≡ panic
  unfolding as_args
  as_args_other Value.nil h = elim h [ ]
  as_args_other (Value.array ia) h = elim h [ ]
  as_args_other _ h = refl

  remote_call_panics :
      (action : ℕ) (bs : Bytes)
      → 0 < length bs
      → args_from_bytes codec bs ≡ panic
      → remote_call_from_bytes codec (action ∷ bs) ≡ panic
  unfolding remote_call_from_bytes
  remote_call_panics action [] h e = elim h [ ]
  remote_call_panics action (b ∷ bs) h e = rw e

  -- A call whose arguments are the print of any value but an array or nil panics, for each action.
  pub remote_call_from_bytes_other :
      (laws : KeyCodecLaws codec) (action : ℕ) (v : Value Ecc Rsa)
      → IsWire v
      → Fits (serialize codec v)
      → IsOther v
      → remote_call_from_bytes codec (action ∷ serialize codec v) ≡ panic
  unfolding args_from_bytes
  remote_call_from_bytes_other laws action v w h o =
      remote_call_panics action (serialize codec v) (serialize_pos codec v w)
        (rw (deserialize-serialize_whole codec laws v w h) (as_args_other v o))
