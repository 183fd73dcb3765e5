-- ===== src/Wire/Calls.antt =====
-- Remote calls and responses as bytes: api/remoting.go from RemoteCall to BytesBytesFromBytes.
-- A Go type assertion without `ok` panics on a value of another type.
pub mod ReadsBack
pub mod Panics
use ratnet.Prelude.{ℕ, ◌+◌, ◌*◌, Bool, true, false, List, [], ◌∷◌, ◌++◌, Bytes}
use ratnet.Wire.Value.{Value, Values, end, KeyCodec}
use ratnet.Wire.Read.{Result, ok, err, panic, bind, input_too_short}
use ratnet.Wire.Write.{serialize}
use ratnet.Wire.Parse.{deserialize_all}

module _ (Ecc Rsa : Type 0) where
  -- `action` is a byte.
  pub record RemoteCall : Type 0 where
    pub action : ℕ
    pub args : Values Ecc Rsa

  pub record RemoteResponse : Type 0 where
    pub error : Bytes
    pub value : Value Ecc Rsa

unfoldable pub text_is_err : Bytes → Bool
text_is_err [] = false
text_is_err (b ∷ bs) = true

module _ {Ecc Rsa : Type 0} where
  unfoldable pub value_is_nil : Value Ecc Rsa → Bool
  value_is_nil Value.nil = true
  value_is_nil _ = false

  unfoldable pub is_nil : RemoteResponse Ecc Rsa → Bool
  unfolding value_is_nil
  is_nil r = value_is_nil r.value

  unfoldable pub is_err : RemoteResponse Ecc Rsa → Bool
  unfolding text_is_err
  is_err r = text_is_err r.error

  -- `rv.([]interface{})`, under the test that `rv` is not nil.
  unfoldable pub as_args : Value Ecc Rsa → Result (Values Ecc Rsa)
  as_args Value.nil = ok end
  as_args (Value.array ia) = ok ia
  as_args _ = panic

  -- `errString.(string)`
  unfoldable pub as_string : Value Ecc Rsa → Result Bytes
  as_string (Value.string s) = ok s
  as_string _ = panic

  -- `bytesBytesArray.([][]byte)`
  unfoldable pub as_bytes_bytes : Value Ecc Rsa → Result (List Bytes)
  as_bytes_bytes (Value.bytes_bytes bba) = ok bba
  as_bytes_bytes _ = panic

module _ {Ecc Rsa : Type 0} (codec : KeyCodec Ecc Rsa) where
  unfoldable pub args_to_bytes : Values Ecc Rsa → Bytes
  args_to_bytes args = serialize codec (Value.array args)

  unfoldable pub args_from_bytes : Bytes → Result (Values Ecc Rsa)
  args_from_bytes bs = bind (deserialize_all codec bs) λ (rv, _). as_args rv

  unfoldable pub remote_call_to_bytes : RemoteCall Ecc Rsa → Bytes
  remote_call_to_bytes call = call.action ∷ args_to_bytes call.args

  unfoldable pub remote_call_from_bytes : Bytes → Result (RemoteCall Ecc Rsa)
  remote_call_from_bytes [] = err input_too_short
  remote_call_from_bytes (action ∷ []) = err input_too_short
  remote_call_from_bytes (action ∷ b ∷ bs) =
      bind (args_from_bytes (b ∷ bs)) λ args. ok (record { action = action; args = args })

  unfoldable pub remote_response_to_bytes : RemoteResponse Ecc Rsa → Bytes
  remote_response_to_bytes resp =
      serialize codec (Value.string resp.error) ++ serialize codec resp.value

  unfoldable pub remote_response_from_bytes : Bytes → Result (RemoteResponse Ecc Rsa)
  remote_response_from_bytes bs = bind (deserialize_all codec bs) λ (err_string, rest).
      bind (as_string err_string) λ error.
        bind (deserialize_all codec rest) λ (value, _). ok (record { error = error; value = value })

  unfoldable pub bytes_bytes_to_bytes : List Bytes → Bytes
  bytes_bytes_to_bytes bba = serialize codec (Value.bytes_bytes bba)

  unfoldable pub bytes_bytes_from_bytes : Bytes → Result (List Bytes)
  bytes_bytes_from_bytes bs = bind (deserialize_all codec bs) λ (v, _). as_bytes_bytes v
