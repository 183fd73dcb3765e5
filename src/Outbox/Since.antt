-- ===== src/Outbox/Since.antt =====
-- What `MsgsSince` collects, and that polling again from the returned time goes on where it stopped.
use ratnet.Prelude.{
  ℕ, ◌+◌, ◌<◌, ◌≤◌, ◌≡◌, refl, ◌∙◌, Bool, true, false, ◌&&◌, List, [], ◌∷◌, ◌++◌, append_assoc,
  length, ltb, if◌then◌else◌, Bytes, arith, Bool-cases, inl, inr, lt→ltb, le→ltb, append-nil, sym,
  ◌⊎◌,
}
use ratnet.Api.{OutboxMsg}
use ratnet.Go.{returned}
use ratnet.Outbox.{picked, total, since_loop, msgs_since}

-- The mails after a time, on the channels asked for.
unfoldable pub eligible : ℕ → List Bytes → List OutboxMsg → List OutboxMsg
eligible t names [] = []
eligible t names (mail ∷ rest) =
    let more = eligible t names rest in
    if ltb t mail.time_stamp && picked names mail.channel then mail ∷ more else more

abbrev pub messages : List OutboxMsg → List Bytes
messages [] = []
messages (m ∷ ms) = m.msg ∷ messages ms

-- Time stamps above `t`, and rising.
abbrev pub RisesFrom : ℕ → List OutboxMsg → Type 0
RisesFrom t [] = Unit
RisesFrom t (m ∷ ms) = (t < m.time_stamp) × RisesFrom m.time_stamp ms

abbrev pub IsRising : List OutboxMsg → Type 0
IsRising [] = Unit
IsRising (m ∷ ms) = RisesFrom m.time_stamp ms

pub RisesFrom-weaken : (t u : ℕ) (ms : List OutboxMsg) → t ≤ u → RisesFrom u ms → RisesFrom t ms
RisesFrom-weaken t u [] h r = tt
RisesFrom-weaken t u (m ∷ ms) h (r, rs) = (omega arith, rs)

-- Above a later time that no mail reaches, nothing changes.
eligible_later :
    (t u : ℕ) (names : List Bytes) (ms : List OutboxMsg)
    → RisesFrom u ms
    → t ≤ u
    → eligible t names ms ≡ eligible u names ms
unfolding eligible
eligible_later t u names [] r h = refl
eligible_later t u names (m ∷ ms) (r, rs) h = rw (
  lt→ltb t m.time_stamp (omega arith),
  lt→ltb u m.time_stamp r,
  eligible_later t u names ms (RisesFrom-weaken u m.time_stamp ms (omega arith) rs) h,
)

-- What a call has collected: the mails `sent`, and its time.
record Split (last t : ℕ) (names msgs msgs' : List Bytes) (t' : ℕ) (rest : List OutboxMsg)
    : Type 0 where
  sent : List OutboxMsg
  collected : msgs' ≡ msgs ++ messages sent
  parted : eligible last names rest ≡ sent ++ eligible t' names rest
  forward : t ≤ t'

module _ (names : List Bytes) (m : OutboxMsg) (rest : List OutboxMsg) where
  eligible_skip :
      (last u : ℕ)
      → last ≤ u
      → (ltb last m.time_stamp && picked names m.channel) ≡ false
      → eligible u names (m ∷ rest) ≡ eligible u names rest
  unfolding eligible
  eligible_skip last u h e = ground arith

  eligible_past : (u : ℕ) → m.time_stamp ≤ u → eligible u names (m ∷ rest) ≡ eligible u names rest
  unfolding eligible
  eligible_past u h = rw (le→ltb u m.time_stamp h)

  eligible_take :
      (last : ℕ)
      → (ltb last m.time_stamp && picked names m.channel) ≡ true
      → eligible last names (m ∷ rest) ≡ m ∷ eligible last names rest
  unfolding eligible
  eligible_take last e = rw e

pub IsRising-tail :
    (m : OutboxMsg) (rest : List OutboxMsg) → RisesFrom m.time_stamp rest → IsRising rest
IsRising-tail m [] r = tt
IsRising-tail m (n ∷ rest) (r, rs) = rs

-- The three ways a round goes on.
module _ (last max_bytes : ℕ) (names msgs : List Bytes) (t : ℕ) (m : OutboxMsg)
    (rest : List OutboxMsg) where
  abbrev wanted : Bool
  wanted = ltb last m.time_stamp && picked names m.channel

  abbrev full : Bool
  full = ltb 0 max_bytes && ltb max_bytes (length m.msg + total msgs)

  since_skip :
      wanted ≡ false
      → since_loop last max_bytes names msgs t (m ∷ rest)
        ≡ since_loop last max_bytes names msgs t rest
  unfolding since_loop
  since_skip e = rw e

  since_stop :
      {msgs' : List Bytes} {t' : ℕ}
      → wanted ≡ true
      → full ≡ true
      → since_loop last max_bytes names msgs t (m ∷ rest) ≡ returned (msgs', t')
      → (msgs' ≡ msgs) × (t' ≡ t)
  unfolding since_loop
  since_stop w f e = ground arith

  since_take :
      wanted ≡ true
      → full ≡ false
      → since_loop last max_bytes names msgs t (m ∷ rest)
        ≡ since_loop last max_bytes names (msgs ++ m.msg ∷ []) m.time_stamp rest
  unfolding since_loop
  since_take w f = rw (w, f)

since_loop-Split :
    (last max_bytes : ℕ) (names msgs msgs' : List Bytes) (t t' : ℕ) (rest : List OutboxMsg)
    → last ≤ t
    → IsRising rest
    → (t ≡ last) ⊎ RisesFrom t rest
    → since_loop last max_bytes names msgs t rest ≡ returned (msgs', t')
    → Split last t names msgs msgs' t' rest
since_loop-Split last max_bytes names msgs msgs' t t' [] h r e s =
    unfold since_loop eligible in
    record {
      sent = [];
      collected = ground (arith, append-nil msgs);
      parted = refl;
      forward = ground arith;
    }
since_loop-Split last max_bytes names msgs msgs' t t' (m ∷ rest) h r e s =
    elim (Bool-cases (wanted last max_bytes names msgs t m rest)) [
      | inl w ↦ elim (Bool-cases (full last max_bytes names msgs t m rest)) [
        | inl f ↦
            let (em, et) = since_stop last max_bytes names msgs t m rest w f s in
            record {
              sent = [];
              collected = rw (em, append-nil);
              parted = rw et (same e);
              forward = omega (arith, et);
            }
        | inr f ↦
            let more =
              since_loop-Split last max_bytes names (msgs ++ m.msg ∷ []) msgs' m.time_stamp t' rest
                (newer w) (IsRising-tail m rest r) (inr r)
                (sym (since_take last max_bytes names msgs t m rest w f) ∙ s) in
            record {
              sent = m ∷ more.sent;
              collected = more.collected ∙ append_assoc msgs (m.msg ∷ []) (messages more.sent);
              parted = rw (
                eligible_take names m rest last w,
                eligible_past names m rest t' more.forward,
                more.parted,
              );
              forward = omega (arith, more.forward, reached e w);
            }
      ]
      | inr w ↦
          let more =
            since_loop-Split last max_bytes names msgs msgs' t t' rest h (IsRising-tail m rest r)
              (tail_up e) (sym (since_skip last max_bytes names msgs t m rest w) ∙ s) in
          record {
            sent = more.sent;
            collected = more.collected;
            parted =
                rw
                  (
                    eligible_skip names m rest last last (omega arith) w,
                    eligible_skip names m rest last t' (omega (arith, more.forward)) w,
                  )
                  more.parted;
            forward = more.forward;
          }
    ]
  where
    newer : (ltb last m.time_stamp && picked names m.channel) ≡ true → last ≤ m.time_stamp
    newer w = ground arith

    reached :
        (t ≡ last) ⊎ RisesFrom t (m ∷ rest)
        → (ltb last m.time_stamp && picked names m.channel) ≡ true
        → t ≤ m.time_stamp
    reached (inl e) w = ground arith
    reached (inr (r, rs)) w = omega arith

    same :
        (t ≡ last) ⊎ RisesFrom t (m ∷ rest)
        → eligible last names (m ∷ rest) ≡ eligible t names (m ∷ rest)
    same (inl e) = rw e
    same (inr rs) = eligible_later last t names (m ∷ rest) rs h

    tail_up : (t ≡ last) ⊎ RisesFrom t (m ∷ rest) → (t ≡ last) ⊎ RisesFrom t rest
    tail_up (inl e) = inl e
    tail_up (inr (r, rs)) = inr (RisesFrom-weaken t m.time_stamp rest (omega arith) rs)

-- In an outbox whose time stamps rise, whatever the limit on the size: the messages that `MsgsSince`
-- returns are the first of those after the given time on the channels asked for, in order, and those
-- that it leaves out are the ones that a call with the returned time finds.
pub msgs_since_resumes :
    (outbox : List OutboxMsg) (last max_bytes t : ℕ) (names msgs : List Bytes)
    → IsRising outbox
    → msgs_since outbox last max_bytes names ≡ returned (msgs, t)
    → (sent : List OutboxMsg) × (msgs ≡ messages sent)
      × (eligible last names outbox ≡ sent ++ eligible t names outbox)
unfolding msgs_since
msgs_since_resumes outbox last max_bytes t names msgs r s =
    let done =
      since_loop-Split last max_bytes names [] msgs last t outbox (omega arith) r (inl refl) s in
    (done.sent, done.collected, done.parted)
