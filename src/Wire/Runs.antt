-- ===== src/Wire/Runs.antt =====
-- The wire format on concrete inputs, and the theorems at inputs that meet their conditions.
use ratnet.Prelude.{◌^◌, ◌≡◌, ◌≢◌, refl, [], ◌∷◌, ◌++◌, arith, Bytes, some}
use ratnet.Wire.Value.{Contact, Value, end, item, KeyCodec, KeyCodecLaws, ecc}
use ratnet.Wire.Varint.{put_uvarint, read_uvarint, uvarint, overflow}
use ratnet.Wire.Read.{
  ok, err, panic, out_of_fuel, read_byte, read_full, read_lv, eof, unexpected_eof, unknown_type,
}
use ratnet.Wire.Write.{
  type_code, write_lv, write_tlv, write_contact, write_slice, write_each, put_be, write_key,
  serialize,
}
use ratnet.Wire.Parse.{type_of, read_typed, deserialize, deserialize_all}
use ratnet.Wire.Parse.Structs.{Fits}
use ratnet.Wire.Parse.ReadsBack.{deserialize-serialize}
use ratnet.Wire.Calls.{
  RemoteCall, RemoteResponse, args_to_bytes, remote_call_to_bytes, remote_call_from_bytes,
  bytes_bytes_to_bytes,
}
use ratnet.Wire.Parse.Total.{deserialize-ne-out_of_fuel}
use ratnet.Wire.Calls.ReadsBack.{remote_call_reads_back}
use ratnet.Wire.Calls.Panics.{HasLength, deserialize_huge, remote_call_from_bytes_other}
use ratnet.Wire.Frame.{write_buffer, read_buffer}
use ratnet.Wire.Frame.ReadsBack.{read_buffer-write_buffer}

-- Keys that are their own bytes.
abbrev toy : KeyCodec Bytes Bytes
toy = record {
  ecc_to_bytes = λ k. k;
  ecc_from_bytes = λ bs. some bs;
  rsa_to_bytes = λ k. k;
  rsa_from_bytes = λ bs. some bs;
}

abbrev toy_laws : KeyCodecLaws toy
toy_laws = record { ecc_reads_back = λ k. refl; rsa_reads_back = λ k. refl }

abbrev alice : Contact
alice = record { name = 97 ∷ 108 ∷ []; pubkey = 1 ∷ 2 ∷ 3 ∷ [] }

-- [4096, nil, [alice]] and a key.
abbrev sample : Value Bytes Bytes
sample = Value.array (
    item (Value.int64 4096) (
      item Value.nil
        (item (Value.contacts (alice ∷ [])) (item (Value.pub_key (ecc (9 ∷ []))) end))))

int64_print : serialize toy (Value.int64 4096) ≡ 2 ∷ 0 ∷ 0 ∷ 0 ∷ 0 ∷ 0 ∷ 0 ∷ 16 ∷ 0 ∷ []
unfolding serialize type_code put_be
int64_print = refl

string_print : serialize toy (Value.string (104 ∷ 105 ∷ [])) ≡ 4 ∷ 2 ∷ 104 ∷ 105 ∷ []
unfolding serialize write_tlv write_lv type_code put_uvarint
string_print = refl

-- A payload is read to its end before its unknown type is refused.
unknown_tag : deserialize_all toy (0x50 ∷ 1 ∷ 7 ∷ []) ≡ err unknown_type
unfolding deserialize_all deserialize read_byte type_of read_typed read_lv read_uvarint read_full
unknown_tag = refl

cut_string : deserialize_all toy (4 ∷ 3 ∷ 7 ∷ []) ≡ err unexpected_eof
unfolding deserialize_all deserialize read_byte type_of read_typed read_lv read_uvarint read_full
cut_string = refl

no_input : deserialize_all toy [] ≡ err eof
unfolding deserialize_all deserialize read_byte
no_input = refl

eleven_groups :
    uvarint (128 ∷ 128 ∷ 128 ∷ 128 ∷ 128 ∷ 128 ∷ 128 ∷ 128 ∷ 128 ∷ 128 ∷ 0 ∷ []) ≡ overflow
unfolding uvarint
eleven_groups = refl

abbrev abc : Bytes
abc = 97 ∷ 98 ∷ 99 ∷ []

abbrev call : RemoteCall Bytes Bytes
call = record { action = 17; args = item (Value.string abc) (item (Value.uint64 7) end) }

abbrev response : RemoteResponse Bytes Bytes
response = record { error = []; value = sample }

-- What the conditions of the theorems below come to.
sample-Fits : Fits (serialize toy sample)
unfolding serialize write_tlv write_lv type_code put_uvarint put_be write_key write_slice write_each
    write_contact
sample-Fits = omega arith

args-Fits : Fits (args_to_bytes toy call.args)
unfolding args_to_bytes serialize write_tlv write_lv type_code put_uvarint put_be
args-Fits = omega arith

no_error-Fits : Fits (serialize toy (Value.string []))
unfolding serialize write_tlv write_lv type_code put_uvarint
no_error-Fits = omega arith

two-Fits : Fits (bytes_bytes_to_bytes toy (abc ∷ [] ∷ []))
unfolding bytes_bytes_to_bytes serialize write_tlv write_lv type_code put_uvarint write_slice
    write_each
two-Fits = omega arith

word-Fits : Fits (serialize toy (Value.int64 3))
unfolding serialize put_be
word-Fits = omega arith

type_0x50 : HasLength (type_of 0x50)
unfolding type_of
type_0x50 = tt

write_buffer-abc : write_buffer abc ≡ 3 ∷ 97 ∷ 98 ∷ 99 ∷ []
unfolding write_buffer put_uvarint
write_buffer-abc = refl

deserialize-serialize_example :
    deserialize_all toy (serialize toy sample ++ 5 ∷ []) ≡ ok (sample, 5 ∷ [])
deserialize-serialize_example =
    deserialize-serialize toy toy_laws sample (5 ∷ []) (omega arith) sample-Fits

deserialize-ne-out_of_fuel_example : deserialize_all toy (7 ∷ 3 ∷ 2 ∷ 1 ∷ []) ≢ out_of_fuel
deserialize-ne-out_of_fuel_example = deserialize-ne-out_of_fuel toy (7 ∷ 3 ∷ 2 ∷ 1 ∷ [])

remote_call_reads_back_example :
    remote_call_from_bytes toy (remote_call_to_bytes toy call) ≡ ok call
remote_call_reads_back_example = remote_call_reads_back toy toy_laws call (omega arith) args-Fits

deserialize_huge_example : deserialize_all toy (0x50 ∷ (put_uvarint (2 ^ 63) ++ [])) ≡ panic
deserialize_huge_example =
    deserialize_huge toy 0x50 (2 ^ 63) [] type_0x50 (omega arith) (omega arith)

remote_call_from_bytes_other_example :
    remote_call_from_bytes toy (1 ∷ serialize toy (Value.int64 3)) ≡ panic
remote_call_from_bytes_other_example =
    remote_call_from_bytes_other toy toy_laws 1 (Value.int64 3) (omega arith) word-Fits tt

read_buffer-write_buffer_example : read_buffer (write_buffer abc ++ 9 ∷ []) ≡ ok (abc, 9 ∷ [])
read_buffer-write_buffer_example = read_buffer-write_buffer abc (9 ∷ []) (omega arith)
