-- ===== src/Wire/Calls/ReadsBack.antt =====
-- Calls, responses and arrays of byte strings survive the wire.
use ratnet.Prelude.{ℕ, ◌<◌, ◌≡◌, List, [], ◌∷◌, append-nil, Bytes, length}
use ratnet.Wire.Value.{Value, Values, KeyCodec, KeyCodecLaws}
use ratnet.Wire.Read.{ok}
use ratnet.Wire.Write.{serialize}
use ratnet.Wire.Parse.{deserialize_all}
use ratnet.Wire.Parse.Structs.{Fits}
use ratnet.Wire.Parse.Leaves.{IsWire, AreWire, serialize_pos}
use ratnet.Wire.Parse.ReadsBack.{deserialize-serialize}
use ratnet.Wire.Calls.{
  RemoteCall, RemoteResponse, as_args, as_string, as_bytes_bytes, args_to_bytes, args_from_bytes,
  remote_call_to_bytes, remote_call_from_bytes, remote_response_to_bytes,
  remote_response_from_bytes, bytes_bytes_to_bytes, bytes_bytes_from_bytes,
}

module _ {Ecc Rsa : Type 0} (codec : KeyCodec Ecc Rsa) (laws : KeyCodecLaws codec) where
  -- A print with nothing behind it.
  pub deserialize-serialize_whole :
      (v : Value Ecc Rsa)
      → IsWire v
      → Fits (serialize codec v)
      → deserialize_all codec (serialize codec v) ≡ ok (v, [])
  deserialize-serialize_whole v w h = rw append-nil at (deserialize-serialize codec laws v [] w h)

  args_from_bytes-args_to_bytes :
      (args : Values Ecc Rsa)
      → AreWire args
      → Fits (args_to_bytes codec args)
      → args_from_bytes codec (args_to_bytes codec args) ≡ ok args
  unfolding args_to_bytes args_from_bytes as_args
  args_from_bytes-args_to_bytes args w h = rw (deserialize-serialize_whole (Value.array args) w h)

  -- From two bytes on `remote_call_from_bytes` reads the arguments behind the action.
  pub remote_call_from_bytes-cons :
      (action : ℕ) (bs : Bytes) {args : Values Ecc Rsa}
      → 0 < length bs
      → args_from_bytes codec bs ≡ ok args
      → remote_call_from_bytes codec (action ∷ bs) ≡ ok (record { action = action; args = args })
  unfolding remote_call_from_bytes
  remote_call_from_bytes-cons action [] h e = elim h [ ]
  remote_call_from_bytes-cons action (b ∷ bs) h e = rw e

  -- A remote call whose arguments can all be written, and whose print fits in memory, arrives as it
  -- was sent.
  pub remote_call_reads_back :
      (call : RemoteCall Ecc Rsa)
      → AreWire call.args
      → Fits (args_to_bytes codec call.args)
      → remote_call_from_bytes codec (remote_call_to_bytes codec call) ≡ ok call
  unfolding remote_call_to_bytes args_to_bytes
  remote_call_reads_back call w h =
      remote_call_from_bytes-cons call.action _ (serialize_pos codec (Value.array call.args) w)
        (args_from_bytes-args_to_bytes call.args w h)

  -- A remote response whose value can be written, and whose two parts fit in memory, arrives as it
  -- was sent: its error text and its value.
  pub remote_response_reads_back :
      (resp : RemoteResponse Ecc Rsa)
      → IsWire resp.value
      → Fits (serialize codec (Value.string resp.error))
      → Fits (serialize codec resp.value)
      → remote_response_from_bytes codec (remote_response_to_bytes codec resp) ≡ ok resp
  unfolding remote_response_to_bytes remote_response_from_bytes as_string
  remote_response_reads_back resp w he hv = rw (
    deserialize-serialize codec laws (Value.string resp.error) (serialize codec resp.value) tt he,
    deserialize-serialize_whole resp.value w hv,
  )

  -- An array of byte strings whose print fits in memory is read back from that print.
  pub bytes_bytes_reads_back :
      (bba : List Bytes)
      → Fits (bytes_bytes_to_bytes codec bba)
      → bytes_bytes_from_bytes codec (bytes_bytes_to_bytes codec bba) ≡ ok bba
  unfolding bytes_bytes_to_bytes bytes_bytes_from_bytes as_bytes_bytes
  bytes_bytes_reads_back bba h = rw (deserialize-serialize_whole (Value.bytes_bytes bba) tt h)
