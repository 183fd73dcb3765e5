-- ===== src/Outbox/Polls.antt =====
-- Polling again and again: what a peer gets that asks each time from the time it was given last.
use ratnet.Prelude.{
  ℕ, zero, suc, ◌<◌, ◌≤◌, ◌≡◌, refl, sym, subst, ap, ◌∙◌, List, [], ◌∷◌, ◌++◌, length,
  length-append, Bytes, arith, All,
}
use ratnet.Api.{OutboxMsg}
use ratnet.Go.{Outcome, returned, failed, panicked}
use ratnet.Outbox.{total, since_loop, msgs_since}
use ratnet.Outbox.Since.{eligible, messages, IsRising, msgs_since_resumes}
use ratnet.Outbox.Limit.{Small, msgs_since_returns}

joined : List Bytes → Outcome (List Bytes × ℕ) → Outcome (List Bytes × ℕ)
joined msgs (returned (more, t)) = returned (msgs ++ more, t)
joined msgs (failed e) = failed e
joined msgs panicked = panicked

then_from : (ℕ → Outcome (List Bytes × ℕ)) → Outcome (List Bytes × ℕ) → Outcome (List Bytes × ℕ)
unfolding joined
then_from next (returned (msgs, t)) = joined msgs (next t)
then_from next (failed e) = failed e
then_from next panicked = panicked

module _ (outbox : List OutboxMsg) (max_bytes : ℕ) (names : List Bytes) where
  -- So many polls, and all that they give.
  unfoldable pub polls : ℕ → ℕ → Outcome (List Bytes × ℕ)
  unfolding then_from
  polls zero last = returned ([], last)
  polls (suc n) last = then_from (polls n) (msgs_since outbox last max_bytes names)

since_loop_grows :
    (last max_bytes : ℕ) (names msgs msgs' : List Bytes) (t t' : ℕ) (rest : List OutboxMsg)
    → since_loop last max_bytes names msgs t rest ≡ returned (msgs', t')
    → length msgs ≤ length msgs'
unfolding since_loop
since_loop_grows last max_bytes names msgs msgs' t t' [] s = ground arith
since_loop_grows last max_bytes names msgs msgs' t t' (m ∷ rest) s = ground (
  arith,
  length-append msgs (m.msg ∷ []),
  since_loop_grows last max_bytes names msgs msgs' t t' rest,
  since_loop_grows last max_bytes names (msgs ++ m.msg ∷ []) msgs' m.time_stamp t' rest,
)

since_loop_some :
    (last max_bytes : ℕ) (names msgs : List Bytes) (t t' : ℕ) (rest : List OutboxMsg)
    → All (Small max_bytes) (eligible last names rest)
    → since_loop last max_bytes names [] t rest ≡ returned (msgs, t')
    → 0 < length (eligible last names rest)
    → 0 < length msgs
unfolding since_loop eligible total
since_loop_some last max_bytes names msgs t t' [] small s h = elim h [ ]
since_loop_some last max_bytes names msgs t t' (m ∷ rest) small s h = ground (
  arith,
  since_loop_some last max_bytes names msgs t t' rest,
  since_loop_grows last max_bytes names (m.msg ∷ []) msgs m.time_stamp t' rest,
)

messages-append : (xs ys : List OutboxMsg) → messages (xs ++ ys) ≡ messages xs ++ messages ys
messages-append [] ys = refl
messages-append (x ∷ xs) ys = ap (λ ms. x.msg ∷ ms) (messages-append xs ys)

length-messages : (xs : List OutboxMsg) → length (messages xs) ≡ length xs
length-messages [] = refl
length-messages (x ∷ xs) = omega (arith, length-messages xs)

All-back : (P : OutboxMsg → Type 0) (xs ys : List OutboxMsg) → All P (xs ++ ys) → All P ys
All-back P [] ys a = a
All-back P (x ∷ xs) ys (ax, a) = All-back P xs ys a

none_left : (xs : List OutboxMsg) → length xs ≤ 0 → xs ≡ []
none_left [] h = refl
none_left (x ∷ xs) h = elim h [ ]

fewer_left :
    (n : ℕ) (all sent left : List OutboxMsg)
    → all ≡ sent ++ left
    → (0 < length all → 0 < length sent)
    → length all ≤ suc n
    → length left ≤ n
fewer_left n all [] left e some h = ground (arith, e, some)
fewer_left n all (x ∷ sent) left e some h =
    omega (arith, ap length e, length-append (x ∷ sent) left)

-- One poll: it returns, and either nothing was left, or less is left.
record Progress (outbox : List OutboxMsg) (last max_bytes : ℕ) (names : List Bytes) : Type 0 where
  sent : List OutboxMsg
  time : ℕ
  returns : msgs_since outbox last max_bytes names ≡ returned (messages sent, time)
  parted : eligible last names outbox ≡ sent ++ eligible time names outbox
  some_sent : 0 < length (eligible last names outbox) → 0 < length sent

progress :
    (outbox : List OutboxMsg) (last max_bytes : ℕ) (names : List Bytes)
    → IsRising outbox
    → All (Small max_bytes) (eligible last names outbox)
    → Progress outbox last max_bytes names
unfolding msgs_since
progress outbox last max_bytes names rises small =
    let ((msgs, t), e) = msgs_since_returns outbox last max_bytes names small in
    let (sent, collected, parted) = msgs_since_resumes outbox last max_bytes t names msgs rises e in
    record {
      sent = sent;
      time = t;
      returns = e ∙ ap (λ ms. returned (ms, t)) collected;
      parted = parted;
      some_sent = λ h. omega (
        arith,
        since_loop_some last max_bytes names msgs last t outbox small e h,
        ap length collected,
        length-messages sent,
      );
    }

module _ (outbox : List OutboxMsg) (max_bytes : ℕ) (names : List Bytes) where
  -- All that is waiting came, and nothing is left.
  abbrev pub Drained : ℕ → Outcome (List Bytes × ℕ) → Type 0
  Drained last o =
      (t : ℕ) × (o ≡ returned (messages (eligible last names outbox), t))
      × (eligible t names outbox ≡ [])

  -- In an outbox whose time stamps rise, and where each message after the given time on the channels
  -- asked for is within the limit: after as many polls as there are such messages, each from the time
  -- that the one before returned, all of them have come, in order and each once, and none is left.
  pub polls_drain :
      (n last : ℕ)
      → IsRising outbox
      → All (Small max_bytes) (eligible last names outbox)
      → length (eligible last names outbox) ≤ n
      → Drained last (polls outbox max_bytes names n last)
  unfolding polls
  polls_drain zero last rises small h =
      let e = none_left (eligible last names outbox) h in
      (last, ap (λ ms. returned (messages ms, last)) (sym e), e)
  polls_drain (suc n) last rises small h =
      let p = progress outbox last max_bytes names rises small in
      let left = eligible p.time names outbox in
      let (t, gives, empty) =
        polls_drain n p.time rises
          (All-back (Small max_bytes) p.sent left (subst (All (Small max_bytes)) p.parted small))
          (fewer_left n _ p.sent left p.parted p.some_sent h) in
      let all : messages p.sent ++ messages left ≡ messages (eligible last names outbox) =
        sym (messages-append p.sent left) ∙ ap messages (sym p.parted) in
      let now = ap (then_from (polls outbox max_bytes names n)) p.returns in
      let later = ap (joined (messages p.sent)) gives in
      (t, now ∙ later ∙ ap (λ ms. returned (ms, t)) all, empty)
