-- ===== src/Transport/Remote.antt =====
-- A remote call does what a local one does.
use ratnet.Prelude.{
  ℕ, ◌<◌, ◌≡◌, refl, sym, ap, ◌∙◌, Bool, true, Option, none, some, [], ◌∷◌, length, ◌⊎◌, inl,
  append-nil, Bytes, arith,
}
use ratnet.Go.{Failure, Outcome, returned, failed, panicked, pure, continue}
use ratnet.Wire.Value.{Value, KeyCodec, KeyCodecLaws}
use ratnet.Wire.Read.{ok}
use ratnet.Wire.Write.{serialize}
use ratnet.Wire.Parse.Structs.{Fits, length_parts}
use ratnet.Wire.Parse.Leaves.{IsWire, AreWire}
use ratnet.Wire.Frame.{write_buffer, read_buffer}
use ratnet.Wire.Frame.ReadsBack.{read_buffer-write_buffer}
use ratnet.Wire.Calls.{
  RemoteCall, RemoteResponse, is_err, text_is_err, args_to_bytes, remote_call_to_bytes,
  remote_response_to_bytes,
}
use ratnet.Wire.Calls.ReadsBack.{remote_call_reads_back, remote_response_reads_back}
use ratnet.Rpc.{NodeApi}
use ratnet.Rpc.Admin.Requests.{Request, call_of, perform}
use ratnet.Rpc.Admin.Dispatch.{admin_rpc-call_of}
use ratnet.Transport.{
  response_of, reported, dispatch, print_response, run_call, answer_read, answer_buffer, http_reply,
  handle_body, handle_response, request, outcome_of, read_reply,
}

module _ {S Ecc Rsa : Type 0} (codec : KeyCodec Ecc Rsa) (laws : KeyCodecLaws codec)
    (text : Failure → Bytes) (node : NodeApi S Ecc Rsa) (byte_limit : ℕ) where
  -- A call that can be written, and whose print fits in a buffer.
  abbrev pub Sendable : RemoteCall Ecc Rsa → Type 0
  Sendable call = AreWire call.args × Fits (remote_call_to_bytes codec call)

  args-Fits :
      (call : RemoteCall Ecc Rsa)
      → Fits (remote_call_to_bytes codec call)
      → Fits (args_to_bytes codec call.args)
  unfolding remote_call_to_bytes
  args-Fits call h = omega arith

  pub answer_buffer_lem :
      (admin : Bool) (call : RemoteCall Ecc Rsa) (s : S)
      → Sendable call
      → answer_buffer codec text node byte_limit admin (remote_call_to_bytes codec call) s
        ≡ run_call codec text node byte_limit admin call s
  unfolding answer_buffer
  answer_buffer_lem admin call s (w, h) =
      ap (λ r. answer_read codec text node byte_limit admin r s)
        (remote_call_reads_back codec laws call w (args-Fits call h))

  run_call_lem :
      (r : Request Ecc Rsa) (resp : RemoteResponse Ecc Rsa) (s : S)
      → response_of text (perform node byte_limit r s).0 ≡ returned resp
      → run_call codec text node byte_limit true (call_of r) s
        ≡ (returned (some (remote_response_to_bytes codec resp)), (perform node byte_limit r s).1)
  unfolding run_call dispatch
  run_call_lem r resp s e =
      ap
        (λ (o : Outcome (Value Ecc Rsa) × S).
          (print_response codec text node byte_limit (response_of text o.0), o.1))
        (admin_rpc-call_of node byte_limit r s)
      ∙ ap (λ o. (print_response codec text node byte_limit o, (perform node byte_limit r s).1)) e

  handle_response_lem :
      (admin : Bool) (call : RemoteCall Ecc Rsa) (s : S)
      → Sendable call
      → handle_response codec text node byte_limit admin (request codec call) s
        ≡ continue
            (run_call codec text node byte_limit admin call s)
            (λ reply. pure (http_reply codec text node byte_limit reply))
  unfolding handle_response request
  handle_response_lem admin call s (w, h) =
      ap (λ r. handle_body codec text node byte_limit admin r s)
        (ap read_buffer (sym (append-nil (write_buffer (remote_call_to_bytes codec call))))
          ∙ read_buffer-write_buffer (remote_call_to_bytes codec call) [] h)
      ∙ ap (λ o. continue o (λ reply. pure (http_reply codec text node byte_limit reply)))
          (answer_buffer_lem admin call s (w, h))

  read_reply_lem :
      (resp : RemoteResponse Ecc Rsa)
      → IsWire resp.value
      → Fits (remote_response_to_bytes codec resp)
      → read_reply codec (write_buffer (remote_response_to_bytes codec resp))
        ≡ ok (outcome_of codec resp)
  unfolding read_reply
  read_reply_lem resp w f =
      let both =
        length_parts (serialize codec (Value.string resp.error)) (serialize codec resp.value)
          (unfold remote_response_to_bytes in f) in
      let back = remote_response_reads_back codec laws resp w both.0 both.1 in
      let buf = remote_response_to_bytes codec resp in
      let framed : read_buffer (write_buffer buf) ≡ ok (buf, []) =
        ap read_buffer (sym (append-nil (write_buffer buf))) ∙ read_buffer-write_buffer buf [] f in
      rw (framed, back)

  abbrev told : Outcome (RemoteResponse Ecc Rsa) → Option (Bytes ⊎ Value Ecc Rsa)
  told (returned rr) = some (outcome_of codec rr)
  told _ = none

  outcome_of-error :
      (t : Bytes)
      → 0 < length t
      → let rr : RemoteResponse Ecc Rsa = record { error = t; value = Value.nil } in
        outcome_of codec rr ≡ inl t
  unfolding outcome_of is_err text_is_err
  outcome_of-error [] h = elim h [ ]
  outcome_of-error (b ∷ bs) h = refl

  reported_lem :
      (o : Outcome (Value Ecc Rsa))
      → ((e : Failure) → 0 < length (text e))
      → reported text o ≡ told (response_of text o)
  unfolding response_of outcome_of is_err text_is_err
  reported_lem (returned v) h = refl
  reported_lem (failed f) h = ap some (sym (outcome_of-error (text f) (h f)))
  reported_lem panicked h = refl

  -- A call that an administrator can send, its print and that of the response being such that they
  -- fit in a buffer: the handler does to the node what the operation does, and the client reads from
  -- what the handler wrote the value that the operation returns, or the text of its error. An error's
  -- text is not empty, and the key library reads its own prints.
  pub remote_perform :
      (r : Request Ecc Rsa) (resp : RemoteResponse Ecc Rsa) (s : S)
      → ((e : Failure) → 0 < length (text e))
      → Sendable (call_of r)
      → response_of text (perform node byte_limit r s).0 ≡ returned resp
      → IsWire resp.value
      → Fits (remote_response_to_bytes codec resp)
      → (handle_response codec text node byte_limit true (request codec (call_of r)) s ≡ (
        returned (write_buffer (remote_response_to_bytes codec resp)),
        (perform node byte_limit r s).1,
      ))
        × (read_reply codec (write_buffer (remote_response_to_bytes codec resp))
            ≡ ok (outcome_of codec resp))
        × (reported text (perform node byte_limit r s).0 ≡ some (outcome_of codec resp))
  unfolding http_reply
  remote_perform r resp s t h e w f = (
    handle_response_lem true (call_of r) s h
        ∙ ap (λ o. continue o (λ reply. pure (http_reply codec text node byte_limit reply)))
            (run_call_lem r resp s e),
    read_reply_lem resp w f,
    reported_lem (perform node byte_limit r s).0 t ∙ ap told e,
  )
