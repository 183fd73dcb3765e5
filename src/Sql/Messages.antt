-- ===== src/Sql/Messages.antt =====
-- What `dbGetMessages` gives, beside the queue of the node in memory.
use ratnet.Prelude.{
  ℕ, ◌+◌, ◌<◌, ◌≤◌, ◌≡◌, refl, sym, ap, ◌∙◌, Bool, true, false, ◌&&◌, Bool-cases, inl, inr, ◌⊎◌,
  Option, none, some, List, [], ◌∷◌, ◌++◌, length, subst, ltb, lt→ltb, ◌==◌, if◌then◌else◌, Bytes,
  All, arith,
}
use ratnet.Go.{Outcome, returned, failed, panicked, continue}
use ratnet.Api.{OutboxMsg}
use ratnet.Outbox.{picked, total, since_loop, msgs_since}
use ratnet.Outbox.Since.{eligible, RisesFrom, RisesFrom-weaken, IsRising, IsRising-tail}
use ratnet.Outbox.Limit.{Small}
use ratnet.Sql.{Database, Query}
use ratnet.Sql.Mail.{after_time, read_rows, db_get_messages}

-- The rows that the query asks for, of an outbox in the order of the time stamps.
unfoldable pub is_after : Option ℕ → ℕ → Bool
is_after none ts = true
is_after (some t) ts = ltb t ts

unfoldable pub selected : Query → List OutboxMsg → List (Bytes × ℕ)
unfolding is_after
selected q [] = []
selected q (m ∷ ms) =
    let rest = selected q ms in
    if is_after q.after m.time_stamp && picked q.channels m.channel
    then (m.msg, m.time_stamp) ∷ rest
    else rest

-- A database whose query gives the rows of an outbox that it asks for.
abbrev pub Answers : {S : Type 0} → Database S → S → List OutboxMsg → Type 0
Answers db s outbox = (q : Query) → db.messages q s ≡ (returned (selected q outbox), s)

abbrev pub Stamped : OutboxMsg → Type 0
Stamped m = 0 < m.time_stamp

total-append : (msgs : List Bytes) (m : Bytes) → total (msgs ++ m ∷ []) ≡ total msgs + length m
unfolding total
total-append [] m = omega arith
total-append (n ∷ msgs) m = omega (arith, total-append msgs m)

is_after-after_time : (last ts : ℕ) → 0 < ts → is_after (after_time last) ts ≡ ltb last ts
unfolding is_after after_time
is_after-after_time last ts h = elim (Bool-cases (last == 0)) [
  | inl z ↦ rw z (sym (lt→ltb last ts (ground (arith, z, h))))
  | inr nz ↦ rw nz
]

-- The loop over the rows reads on as the loop over the queue does.
read_rows-since_loop :
    (last max_bytes read : ℕ) (names msgs : List Bytes) (t : ℕ) (ms : List OutboxMsg)
    → 0 < max_bytes
    → read ≡ total msgs
    → last ≤ t
    → IsRising ms
    → (t ≡ last) ⊎ RisesFrom t ms
    → All Stamped ms
    → All (Small max_bytes) (eligible last names ms)
    → returned (
        read_rows max_bytes read msgs t
          (selected (record { after = after_time last; channels = names }) ms))
      ≡ since_loop last max_bytes names msgs t ms
unfolding since_loop eligible selected read_rows
read_rows-since_loop last max_bytes read names msgs t [] limit e h rises from stamps small = refl
read_rows-since_loop last max_bytes read names msgs t (m ∷ ms) limit e h rises from (stamp, stamps)
      small =
    let asked = is_after-after_time last m.time_stamp stamp in
    elim (Bool-cases (ltb last m.time_stamp && picked names m.channel)) [
      | inl w ↦
          let (fits, rest_small) : All (Small max_bytes) (m ∷ eligible last names ms) =
            rw w at small in
          let newer : ltb t m.time_stamp ≡ true = ground (arith, newer_if from, w) in
          elim (Bool-cases (ltb max_bytes (read + length m.msg))) [
            | inl full ↦
                let some_read : (total msgs == 0) ≡ false = ground (arith, full, fits, e) in
                let full_too : ltb max_bytes (length m.msg + total msgs) ≡ true =
                  ground (arith, full, e) in
                rw (asked, w, full, lt→ltb 0 max_bytes limit, full_too, some_read)
            | inr room ↦
                let room_too : ltb max_bytes (length m.msg + total msgs) ≡ false =
                  ground (arith, room, e) in
                let ih =
                  read_rows-since_loop last max_bytes (read + length m.msg) names
                    (msgs ++ m.msg ∷ []) m.time_stamp ms limit
                    (ap (λ n. n + length m.msg) e ∙ sym (total-append msgs m.msg))
                    (ground (arith, w)) (IsRising-tail m ms rises) (inr rises) stamps rest_small in
                rw (asked, w, room, newer, room_too, lt→ltb 0 max_bytes limit) ih
          ]
      | inr w ↦
          let ih =
            read_rows-since_loop last max_bytes read names msgs t ms limit e h
              (IsRising-tail m ms rises) (skip_from from) stamps (rw w at small) in
          rw (asked, w) ih
    ]
  where
    skip_from : (t ≡ last) ⊎ RisesFrom t (m ∷ ms) → (t ≡ last) ⊎ RisesFrom t ms
    skip_from (inl e) = inl e
    skip_from (inr (r, rs)) = inr (RisesFrom-weaken t m.time_stamp ms (omega (arith, r)) rs)

    newer_if :
        (t ≡ last) ⊎ RisesFrom t (m ∷ ms) → ltb last m.time_stamp ≡ true → ltb t m.time_stamp ≡ true
    newer_if (inl e) later = rw e later
    newer_if (inr (r, rs)) later = lt→ltb t m.time_stamp r

read_rows-le :
    (max_bytes read : ℕ) (msgs : List Bytes) (t : ℕ) (rows : List (Bytes × ℕ))
    → read ≡ total msgs
    → total msgs ≤ max_bytes
    → (total (read_rows max_bytes read msgs t rows).0 ≤ max_bytes)
      × (t ≤ (read_rows max_bytes read msgs t rows).1)
unfolding read_rows
read_rows-le max_bytes read msgs t [] e h = (h, omega arith)
read_rows-le max_bytes read msgs t ((msg, ts) ∷ rows) e h =
    let next : ℕ = if ltb t ts then ts else t in
    let up : t ≤ next = ground arith in
    elim (Bool-cases (ltb max_bytes (read + length msg))) [
      | inl full ↦ rw full (h, omega arith)
      | inr room ↦
          let (le, on) =
            read_rows-le max_bytes (read + length msg) (msgs ++ msg ∷ []) next rows
              (ap (λ n. n + length msg) e ∙ sym (total-append msgs msg))
              (ground (arith, room, e, total-append msgs msg)) in
          rw room (le, omega (arith, up, on))
    ]

module _ {S : Type 0} (db : Database S) (s : S) where
  -- Where the query gives what it asks for of an outbox whose time stamps rise from 1, there is a limit,
  -- and each message after the given time on the channels asked for is within it: the messages and the
  -- time are those that the queue of the node in memory gives.
  pub db_get_messages-msgs_since :
      (outbox : List OutboxMsg) (last max_bytes : ℕ) (names : List Bytes)
      → Answers db s outbox
      → IsRising outbox
      → All Stamped outbox
      → 0 < max_bytes
      → All (Small max_bytes) (eligible last names outbox)
      → db_get_messages db last max_bytes names s ≡ (msgs_since outbox last max_bytes names, s)
  unfolding db_get_messages msgs_since
  db_get_messages-msgs_since outbox last max_bytes names answers rises stamps limit small =
      rw (answers (record { after = after_time last; channels = names })) (
        ap (λ o. (o, s))
          (read_rows-since_loop last max_bytes 0 names [] last outbox limit (unfold total in refl)
            (omega arith) rises (inl refl) stamps small))

  -- Whatever rows the query gives: the messages are within the limit, which is 0 for none, and the time
  -- does not go back.
  pub db_get_messages-le :
      (last max_bytes t : ℕ) (names msgs : List Bytes)
      → (db_get_messages db last max_bytes names s).0 ≡ returned (msgs, t)
      → (total msgs ≤ max_bytes) × (last ≤ t)
  unfolding db_get_messages
  db_get_messages-le last max_bytes t names msgs e =
      within (db.messages (record { after = after_time last; channels = names }) s) e
    where
      within :
          (r : Outcome (List (Bytes × ℕ)) × S)
          → (continue r (λ rows s'. (returned (read_rows max_bytes 0 [] last rows), s'))).0
            ≡ returned (msgs, t)
          → (total msgs ≤ max_bytes) × (last ≤ t)
      within (returned rows, s') e =
          let same : read_rows max_bytes 0 [] last rows ≡ (msgs, t) = ground (arith, e) in
          let (le, on) =
            read_rows-le max_bytes 0 [] last rows (unfold total in refl)
              (unfold total in omega arith) in
          (subst (λ r. total r.0 ≤ max_bytes) same le, subst (λ r. last ≤ r.1) same on)
      within (failed f, s') e = absurd (ground (arith, e))
      within (panicked, s') e = absurd (ground (arith, e))
