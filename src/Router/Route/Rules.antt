-- ===== src/Router/Route/Rules.antt =====
-- What `Route` does with a message.
use ratnet.Prelude.{
  ℕ, ◌+◌, ◌<◌, ◌≤◌, ◌≡◌, refl, ap, ◌∙◌, Bool, true, false, [], ◌∷◌, length, take, drop, ltb, leb,
  le→ltb, Bytes, arith, suc,
}
use ratnet.Go.{returned, panicked}
use ratnet.Api.{Msg}
use ratnet.Router.Recent.{RecentBuffer, seen_recently, max_int32}
use ratnet.Router.Recent.Queue.{IsQueue}
use ratnet.Router.Recent.Window.{seen_again}
use ratnet.Router.Route.{
  Settings, RouterNode, Parsed, flag_set, parse, nonce_size, after_seen, route_parsed, route,
}

module _ {S Pub : Type 0} (r : Settings) (node : RouterNode S Pub) where
  abbrev pub nonce_of : Bytes → ℕ → Bytes
  nonce_of message idx = take nonce_size (drop idx message)

  route_parsed_lem :
      (message : Bytes) (p : Parsed Pub) (recent : RecentBuffer) (s : S)
      → p.idx + nonce_size ≤ length message
      → route_parsed r node message (returned p) (recent, s)
        ≡ after_seen r node p.msg (seen_recently (nonce_of message p.idx) recent) s
  unfolding route_parsed
  route_parsed_lem message p recent s h =
      let long : leb (length message) (p.idx + 16) ≡ false = ground (arith, h) in
      let enough : ltb (length message) (p.idx + nonce_size) ≡ false = le→ltb _ _ h in
      rw (long, enough)

  after_seen_seen :
      (msg : Msg Pub) (b : Bool × RecentBuffer) (s : S)
      → b.0 ≡ true
      → after_seen r node msg b s ≡ (returned tt, (b.1, s))
  unfolding after_seen
  after_seen_seen msg (true, recent) s h = refl
  after_seen_seen msg (false, recent) s h = absurd (ground (arith, h))

  after_seen_recent :
      (msg : Msg Pub) (b : Bool × RecentBuffer) (s : S) → (after_seen r node msg b s).1.0 ≡ b.1
  unfolding after_seen
  after_seen_recent msg (true, recent) s = refl
  after_seen_recent msg (false, recent) s = refl

  route_lem :
      (message : Bytes) (p : Parsed Pub) (recent : RecentBuffer) (s : S)
      → parse message ≡ returned p
      → p.idx + nonce_size ≤ length message
      → route r node message (recent, s)
        ≡ after_seen r node p.msg (seen_recently (nonce_of message p.idx) recent) s
  unfolding route
  route_lem message p recent s e h =
      ap (λ o. route_parsed r node message o (recent, s)) e ∙ route_parsed_lem message p recent s h

  -- A message that is routed again after it was taken in as new, from a well-formed buffer whose
  -- counter is below its wrap: the second time `Route` returns without an error and the node is left
  -- as it was, whatever the node did with the message the first time.
  pub route_again :
      (message : Bytes) (p : Parsed Pub) (recent : RecentBuffer) (s : S)
      → parse message ≡ returned p
      → p.idx + nonce_size ≤ length message
      → IsQueue recent
      → recent.counter + 1 < max_int32
      → (seen_recently (nonce_of message p.idx) recent).0 ≡ false
      → let first = route r node message (recent, s) in
        let second = route r node message first.1 in
        (second.0 ≡ returned tt) × (second.1.1 ≡ first.1.1)
  route_again message p recent s e h q c new =
      let nonce = nonce_of message p.idx in
      let first = route r node message (recent, s) in
      let kept : first.1.0 ≡ (seen_recently nonce recent).1 =
        ap (λ o. o.1.0) (route_lem message p recent s e h)
        ∙ after_seen_recent p.msg (seen_recently nonce recent) s in
      let seen : (seen_recently nonce first.1.0).0 ≡ true =
        ap (λ b. (seen_recently nonce b).0) kept
        ∙ seen_again nonce [] recent q (omega (arith, c)) (omega arith) new in
      let second =
        route_lem message p first.1.0 first.1.1 e h
        ∙ after_seen_seen p.msg (seen_recently nonce first.1.0) first.1.1 seen in
      (ap (λ o. o.0) second, ap (λ o. o.1.1) second)

  -- `Route` of a private message of more than 17 bytes and fewer than 33 panics, where it means to
  -- give an error for a message that is too short.
  pub route_short_panics :
      (flags : ℕ) (rest : Bytes) (recent : RecentBuffer) (s : S)
      → flag_set flags 4 ≡ false
      → 17 ≤ length rest
      → length rest < 32
      → route r node (flags ∷ rest) (recent, s) ≡ (panicked, (recent, s))
  unfolding route route_parsed parse
  route_short_panics flags rest recent s f long short =
      let enough : leb (suc (length rest)) (1 + 16) ≡ false = ground (arith, long) in
      let cut : ltb (suc (length rest)) (1 + nonce_size) ≡ true = ground (arith, short) in
      rw (f, enough, cut)
