-- ===== src/Transport/Connection.antt =====
-- Calls that follow one another on one connection.
use ratnet.Prelude.{
  ℕ, zero, suc, ◌≤◌, ◌≡◌, refl, ap, ◌∙◌, Bool, Option, List, [], ◌∷◌, ◌++◌, length, length-append,
  Bytes, arith, map,
}
use ratnet.Go.{
  Failure, Outcome, returned, failed, panicked, Action, pure, continue, continue_ext, ◌>>◌,
}
use ratnet.Wire.Value.{KeyCodec, KeyCodecLaws}
use ratnet.Wire.Varint.{put_uvarint, read_uvarint}
use ratnet.Wire.Frame.{write_buffer, write_buffers}
use ratnet.Wire.Frame.ReadsBack.{read_buffer-write_buffer}
use ratnet.Wire.Calls.{RemoteCall, RemoteResponse, remote_call_to_bytes}
use ratnet.Rpc.{NodeApi}
use ratnet.Transport.{
  response_of, dispatch, print_response, run_call, after_answer, on_buffer, connection_loop,
  handle_connection,
}
use ratnet.Transport.Remote.{Sendable, answer_buffer_lem}

module _ {S Ecc Rsa : Type 0} (codec : KeyCodec Ecc Rsa) (laws : KeyCodecLaws codec)
    (text : Failure → Bytes) (node : NodeApi S Ecc Rsa) (byte_limit : ℕ) (admin : Bool) where
  -- One call after the other, each answered before the next.
  abbrev respond : RemoteCall Ecc Rsa → Action (S × Bytes) Unit
  respond call (s, out) =
      after_answer codec text node byte_limit (run_call codec text node byte_limit admin call s) out
        (pure tt)

  abbrev pub serve_all : List (RemoteCall Ecc Rsa) → Action (S × Bytes) Unit
  serve_all [] = pure tt
  serve_all (call ∷ calls) = respond call >> serve_all calls

  abbrev pub AllSendable : List (RemoteCall Ecc Rsa) → Type 0
  AllSendable [] = Unit
  AllSendable (call ∷ calls) = Sendable codec laws text node byte_limit call × AllSendable calls

  abbrev pub printed : List (RemoteCall Ecc Rsa) → Bytes
  printed calls = write_buffers (map (remote_call_to_bytes codec) calls)

  -- A response that was printed lets the loop go on.
  after_printed :
      (o : Outcome (RemoteResponse Ecc Rsa)) (s : S) (out : Bytes) (next : Action (S × Bytes) Unit)
      → let answer : Outcome (Option Bytes) × S =
          (print_response codec text node byte_limit o, s) in
        after_answer codec text node byte_limit answer out next
        ≡ continue (after_answer codec text node byte_limit answer out (pure tt)) (λ _. next)
  unfolding after_answer print_response
  after_printed (returned rr) s out next = refl
  after_printed (failed e) s out next = refl
  after_printed panicked s out next = refl

  length-printed : (calls : List (RemoteCall Ecc Rsa)) → length calls ≤ length (printed calls)
  unfolding write_buffers write_buffer remote_call_to_bytes
  length-printed [] = omega arith
  length-printed (call ∷ calls) =
      let n = put_uvarint (length (remote_call_to_bytes codec call)) in
      omega (
        arith,
        length-printed calls,
        length-append (n ++ remote_call_to_bytes codec call) (printed calls),
        length-append n (remote_call_to_bytes codec call),
      )

  connection_loop-printed :
      (f : ℕ) (calls : List (RemoteCall Ecc Rsa)) (so : S × Bytes)
      → length calls ≤ f
      → AllSendable calls
      → connection_loop codec text node byte_limit admin (suc f) (printed calls) so
        ≡ serve_all calls so
  unfolding connection_loop write_buffers read_uvarint run_call
  connection_loop-printed f [] (s, out) h a = refl
  connection_loop-printed zero (call ∷ calls) (s, out) h a = elim h [ ]
  connection_loop-printed (suc f) (call ∷ calls) (s, out) h (a, as') =
      let loop = connection_loop codec text node byte_limit admin in
      let next = loop (suc f) (printed calls) in
      let buf = remote_call_to_bytes codec call in
      let (o, s') = dispatch codec text node byte_limit admin call s in
      let read =
        ap (λ r. on_buffer codec text node byte_limit admin (loop (suc f)) r (s, out))
          (read_buffer-write_buffer buf (printed calls) a.1) in
      let answer =
        ap (λ r. after_answer codec text node byte_limit r out next)
          (answer_buffer_lem codec laws text node byte_limit admin call s a) in
      let more =
        continue_ext (respond call (s, out)) (λ _. next) (λ _. serve_all calls)
          (λ _ so. connection_loop-printed f calls so (omega arith) as') in
      read ∙ answer ∙ after_printed (response_of text o) s' out next ∙ more

  -- Calls that a client writes one after the other on a connection, each of which can be written and
  -- fits in a buffer: the server's loop does them all in that order, each on the node that the one
  -- before left, and writes the responses in that order. It ends where the connection does, or at a
  -- call that panics.
  pub connection_serves_all :
      (calls : List (RemoteCall Ecc Rsa)) (so : S × Bytes)
      → AllSendable calls
      → handle_connection codec text node byte_limit admin (printed calls) so ≡ serve_all calls so
  unfolding handle_connection
  connection_serves_all calls so a =
      connection_loop-printed (length (printed calls)) calls so (length-printed calls) a
