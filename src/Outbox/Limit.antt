-- ===== src/Outbox/Limit.antt =====
-- When `MsgsSince` returns everything, how much it returns under a limit, and when it panics.
use ratnet.Prelude.{
  ℕ, ◌+◌, ◌<◌, ◌≤◌, ◌≡◌, refl, ◌&&◌, List, [], ◌∷◌, ◌++◌, append_assoc, append-nil, length, ltb,
  ◌==◌, Bytes, arith, All, Bool-cases, inl, inr,
}
use ratnet.Api.{OutboxMsg}
use ratnet.Go.{returned, panicked}
use ratnet.Outbox.{picked, total, since_loop, msgs_since}
use ratnet.Outbox.Since.{eligible, messages}

since_loop_all :
    (last : ℕ) (names msgs : List Bytes) (t : ℕ) (rest : List OutboxMsg)
    → (t' : ℕ) × (since_loop last 0 names msgs t rest
        ≡ returned (msgs ++ messages (eligible last names rest), t'))
unfolding since_loop eligible
since_loop_all last names msgs t [] = (t, rw append-nil)
since_loop_all last names msgs t (m ∷ rest) =
    let skip = since_loop_all last names msgs t rest in
    let take_it = since_loop_all last names (msgs ++ m.msg ∷ []) m.time_stamp rest in
    elim (Bool-cases (ltb last m.time_stamp && picked names m.channel)) [
      | inl w ↦ (take_it.0, rw w (rw append_assoc at take_it.1))
      | inr w ↦ (skip.0, rw w skip.1)
    ]

-- Without a limit on the size `MsgsSince` does not panic, and returns all the messages after the
-- given time on the channels asked for, in the order of the outbox.
pub msgs_since_all :
    (outbox : List OutboxMsg) (last : ℕ) (names : List Bytes)
    → (t : ℕ) × (msgs_since outbox last 0 names
        ≡ returned (messages (eligible last names outbox), t))
unfolding msgs_since
msgs_since_all outbox last names = since_loop_all last names [] last outbox

abbrev pub Small : ℕ → OutboxMsg → Type 0
Small max_bytes m = length m.msg ≤ max_bytes

since_loop_returns :
    (last max_bytes : ℕ) (names msgs : List Bytes) (t : ℕ) (rest : List OutboxMsg)
    → All (Small max_bytes) (eligible last names rest)
    → (r : List Bytes × ℕ) × (since_loop last max_bytes names msgs t rest ≡ returned r)
unfolding since_loop eligible
since_loop_returns last max_bytes names msgs t [] h = (_, refl)
since_loop_returns last max_bytes names msgs t (m ∷ rest) h =
    let wanted = ltb last m.time_stamp && picked names m.channel in
    let full = ltb 0 max_bytes && ltb max_bytes (length m.msg + total msgs) in
    elim (Bool-cases wanted) [
      | inl w ↦
          let (small, rest_small) : All (Small max_bytes) (m ∷ eligible last names rest) =
            rw w at h in
          elim (Bool-cases full) [
            | inl f ↦ elim (Bool-cases (total msgs == 0)) [
              | inl z ↦ absurd (ground (arith, f, z, small))
              | inr z ↦ ((msgs, t), rw (w, f, z))
            ]
            | inr f ↦
                let r =
                  since_loop_returns last max_bytes names (msgs ++ m.msg ∷ []) m.time_stamp rest
                    rest_small in
                (r.0, rw (w, f) r.1)
          ]
      | inr w ↦
          let r = since_loop_returns last max_bytes names msgs t rest (rw w at h) in (r.0, rw w r.1)
    ]

-- If every message after the given time on the channels asked for is within the limit, `MsgsSince`
-- does not panic.
pub msgs_since_returns :
    (outbox : List OutboxMsg) (last max_bytes : ℕ) (names : List Bytes)
    → All (Small max_bytes) (eligible last names outbox)
    → (r : List Bytes × ℕ) × (msgs_since outbox last max_bytes names ≡ returned r)
unfolding msgs_since
msgs_since_returns outbox last max_bytes names =
    since_loop_returns last max_bytes names [] last outbox

since_loop_panics :
    (last max_bytes : ℕ) (names : List Bytes) (t : ℕ) (rest ms : List OutboxMsg) (m : OutboxMsg)
    → 0 < max_bytes
    → eligible last names rest ≡ m ∷ ms
    → max_bytes < length m.msg
    → since_loop last max_bytes names [] t rest ≡ panicked
unfolding since_loop eligible total
since_loop_panics last max_bytes names t [] ms m hp e h = ground arith
since_loop_panics last max_bytes names t (n ∷ rest) ms m hp e h =
    ground (arith, since_loop_panics last max_bytes names t rest ms m hp, h, hp)

-- If the first message after the given time on the channels asked for is over the limit,
-- `MsgsSince` panics, whatever stands behind that message.
pub msgs_since_panics :
    (outbox ms : List OutboxMsg) (last max_bytes : ℕ) (names : List Bytes) (m : OutboxMsg)
    → 0 < max_bytes
    → eligible last names outbox ≡ m ∷ ms
    → max_bytes < length m.msg
    → msgs_since outbox last max_bytes names ≡ panicked
unfolding msgs_since
msgs_since_panics outbox ms last max_bytes names m =
    since_loop_panics last max_bytes names last outbox ms m

total-append : (ms ns : List Bytes) → total (ms ++ ns) ≡ total ms + total ns
unfolding total
total-append [] ns = omega arith
total-append (m ∷ ms) ns = omega (arith, total-append ms ns)

since_loop-le :
    (last max_bytes : ℕ) (names msgs msgs' : List Bytes) (t t' : ℕ) (rest : List OutboxMsg)
    → 0 < max_bytes
    → total msgs ≤ max_bytes
    → since_loop last max_bytes names msgs t rest ≡ returned (msgs', t')
    → total msgs' ≤ max_bytes
unfolding since_loop total
since_loop-le last max_bytes names msgs msgs' t t' [] hp h s = ground arith
since_loop-le last max_bytes names msgs msgs' t t' (m ∷ rest) hp h s = ground (
  arith,
  total-append msgs (m.msg ∷ []),
  since_loop-le last max_bytes names msgs msgs' t t' rest hp h,
  since_loop-le last max_bytes names (msgs ++ m.msg ∷ []) msgs' m.time_stamp t' rest hp,
)

-- Under a limit, what `MsgsSince` returns is not larger than the limit.
pub msgs_since-le :
    (outbox : List OutboxMsg) (last max_bytes t : ℕ) (names msgs : List Bytes)
    → 0 < max_bytes
    → msgs_since outbox last max_bytes names ≡ returned (msgs, t)
    → total msgs ≤ max_bytes
unfolding msgs_since
msgs_since-le outbox last max_bytes t names msgs hp s =
    since_loop-le last max_bytes names [] msgs last t outbox hp (unfold total in omega arith) s
