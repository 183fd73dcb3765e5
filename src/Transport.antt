-- ===== src/Transport.antt =====
-- What a transport does with a request: transports/https, transports/tls and transports/udp. A
-- connection is the bytes that arrive before it closes, and every write succeeds. The transport is
-- running.
pub mod Remote
pub mod Connection
use ratnet.Prelude.{
  ℕ, zero, suc, Bool, true, false, Option, none, some, List, [], ◌∷◌, ◌++◌, length, Bytes, ◌⊎◌, inl,
  inr, if◌then◌else◌,
}
use ratnet.Go.{
  Failure, Outcome, returned, failed, panicked, Action, pure, panic, continue, ◌>>=◌, ◌>>◌,
}
use ratnet.Wire.Value.{Value, KeyCodec}
use ratnet.Wire.Read.{Result, ok, err, bind}
use ratnet.Wire.Frame.{write_buffer, read_buffer}
use ratnet.Wire.Calls.{
  RemoteCall, RemoteResponse, is_err, remote_call_to_bytes, remote_call_from_bytes,
  remote_response_to_bytes, remote_response_from_bytes,
}
use ratnet.Rpc.{NodeApi, Answer, public_rpc}
use ratnet.Rpc.Admin.{admin_rpc}

-- `text` is what `err.Error()` prints.
module _ {Ecc Rsa : Type 0} (text : Failure → Bytes) where
  unfoldable pub response_of : Outcome (Value Ecc Rsa) → Outcome (RemoteResponse Ecc Rsa)
  response_of (returned v) = returned (record { error = []; value = v })
  response_of (failed e) = returned (record { error = text e; value = Value.nil })
  response_of panicked = panicked

  -- What there is to tell a caller of an outcome: the text of an error, or a value.
  abbrev pub reported : Outcome (Value Ecc Rsa) → Option (Bytes ⊎ Value Ecc Rsa)
  reported (returned v) = some (inr v)
  reported (failed e) = some (inl (text e))
  reported panicked = none

module _ {S Ecc Rsa : Type 0} (codec : KeyCodec Ecc Rsa) (text : Failure → Bytes)
    (node : NodeApi S Ecc Rsa) (byte_limit : ℕ) where
  -- A listener in admin mode gives the administrative calls too.
  unfoldable pub dispatch : Bool → RemoteCall Ecc Rsa → Answer S Ecc Rsa
  unfolding admin_rpc public_rpc
  dispatch true call = admin_rpc node byte_limit call
  dispatch false call = public_rpc node byte_limit call

  unfoldable pub print_response : Outcome (RemoteResponse Ecc Rsa) → Outcome (Option Bytes)
  unfolding remote_response_to_bytes
  print_response (returned rr) = returned (some (remote_response_to_bytes codec rr))
  print_response (failed e) = failed e
  print_response panicked = panicked

  unfoldable pub run_call : Bool → RemoteCall Ecc Rsa → Action S (Option Bytes)
  unfolding dispatch print_response response_of
  run_call admin call s =
      let (o, s') = dispatch admin call s in (print_response (response_of text o), s')

  -- `none` where the call cannot be read.
  unfoldable pub answer_read : Bool → Result (RemoteCall Ecc Rsa) → Action S (Option Bytes)
  unfolding run_call
  answer_read admin (ok call) = run_call admin call
  answer_read admin (err e) = pure none
  answer_read admin _ = panic

  unfoldable pub answer_buffer : Bool → Bytes → Action S (Option Bytes)
  unfolding answer_read remote_call_from_bytes
  answer_buffer admin buf = answer_read admin (remote_call_from_bytes codec buf)

  -- What the HTTP handler writes: nothing where the request cannot be read.
  unfoldable pub http_reply : Option Bytes → Bytes
  unfolding write_buffer
  http_reply none = []
  http_reply (some rbytes) = write_buffer rbytes

  unfoldable pub handle_body : Bool → Result (Bytes × Bytes) → Action S Bytes
  unfolding answer_buffer http_reply
  handle_body admin (ok (buf, rest)) = answer_buffer admin buf >>= λ reply. pure (http_reply reply)
  handle_body admin (err e) = pure []
  handle_body admin _ = panic

  -- h.HandleResponse of transports/https.
  unfoldable pub handle_response : Bool → Bytes → Action S Bytes
  unfolding handle_body read_buffer
  handle_response admin body = handle_body admin (read_buffer body)

  -- The bytes that are written stay beside the state.
  unfoldable pub after_answer :
      Outcome (Option Bytes) × S
      → Bytes
      → Action (S × Bytes) Unit
      → Outcome (Unit {0}) × (S × Bytes)
  unfolding write_buffer
  after_answer (returned none, s) out next = (returned tt, (s, out))
  after_answer (returned (some rbytes), s) out next = next (s, out ++ write_buffer rbytes)
  after_answer (failed e, s) out next = (failed e, (s, out))
  after_answer (panicked, s) out next = (panicked, (s, out))

  unfoldable pub on_buffer :
      Bool → (Bytes → Action (S × Bytes) Unit) → Result (Bytes × Bytes) → Action (S × Bytes) Unit
  unfolding answer_buffer after_answer
  on_buffer admin next (ok (buf, rest)) (s, out) =
      after_answer (answer_buffer admin buf s) out (next rest)
  on_buffer admin next (err e) s = (returned tt, s)
  on_buffer admin next _ s = (panicked, s)

  -- The loop over the messages of one connection, which the fuel bounds.
  unfoldable pub connection_loop : Bool → ℕ → Bytes → Action (S × Bytes) Unit
  unfolding on_buffer read_buffer
  connection_loop admin zero input s = (returned tt, s)
  connection_loop admin (suc f) input s =
      on_buffer admin (connection_loop admin f) (read_buffer input) s

  -- h.handleConnection of transports/tls, and the loop in `Listen` of transports/udp. A message
  -- takes a byte at least.
  unfoldable pub handle_connection : Bool → Bytes → Action (S × Bytes) Unit
  unfolding connection_loop
  handle_connection admin input = connection_loop admin (suc (length input)) input

module _ {Ecc Rsa : Type 0} (codec : KeyCodec Ecc Rsa) where
  -- What the client's RPC writes.
  unfoldable pub request : RemoteCall Ecc Rsa → Bytes
  unfolding remote_call_to_bytes write_buffer
  request call = write_buffer (remote_call_to_bytes codec call)

  -- An error of the node, or a value, which may be nil.
  unfoldable pub outcome_of : RemoteResponse Ecc Rsa → Bytes ⊎ Value Ecc Rsa
  unfolding is_err
  outcome_of rr = if is_err rr then inl rr.error else inr rr.value

  -- How the client's RPC reads the reply.
  unfoldable pub read_reply : Bytes → Result (Bytes ⊎ Value Ecc Rsa)
  unfolding outcome_of read_buffer remote_response_from_bytes
  read_reply reply =
      bind (read_buffer reply)
        λ (buf, _). bind (remote_response_from_bytes codec buf) λ rr. ok (outcome_of rr)
