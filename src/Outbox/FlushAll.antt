-- ===== src/Outbox/FlushAll.antt =====
-- What `Flush` leaves of an outbox without a fresh message.
use ratnet.Prelude.{
  ℕ, zero, suc, ◌+◌, ◌-◌, ◌<◌, ◌≤◌, ◌≡◌, refl, ap, ◌∙◌, sym, List, [], ◌∷◌, ◌++◌, length,
  length-append, length-take, length-drop, take, drop, ltb, arith, All, All-append, All-take,
  All-drop, lt→ltb, Bool-cases, inl, inr, ltb→lt,
}
use ratnet.Api.{OutboxMsg}
use ratnet.Outbox.{Slice, remove_at, flush_at, flush_loop, flush}
use ratnet.Outbox.Flush.{Old}

length-remove_at :
    (i : ℕ) (s : Slice)
    → i < s.len
    → s.len ≤ length s.array
    → length (remove_at i s).array ≡ length s.array
unfolding remove_at
length-remove_at i s h l =
    let front = take i s.array in
    let middle = take (s.len - (i + 1)) (drop (i + 1) s.array) in
    let back = drop (s.len - 1) s.array in
    omega (
      arith,
      length-append front (middle ++ back),
      length-append middle back,
      length-take i s.array,
      length-take (s.len - (i + 1)) (drop (i + 1) s.array),
      length-drop (i + 1) s.array,
      length-drop (s.len - 1) s.array,
    )

remove_at-Old : (c i : ℕ) (s : Slice) → All (Old c) s.array → All (Old c) (remove_at i s).array
unfolding remove_at
remove_at-Old c i s h =
    let behind = All-drop (Old c) (i + 1) s.array h in
    All-append (Old c) _ _ (All-take (Old c) i s.array h) (
      All-append (Old c) _ _ (All-take (Old c) (s.len - (i + 1)) _ behind)
        (All-drop (Old c) (s.len - 1) s.array h))

-- `n` rounds are left, and all that is in the array is old.
record IsDraining (c n index : ℕ) (s : Slice) : Type 0 where
  rounds : length s.array ≡ index + n
  short : s.len ≤ n
  old : All (Old c) s.array

flush_at-IsDraining :
    (c n index : ℕ) (s : Slice) (ms : List OutboxMsg)
    → drop index s.array ≡ ms
    → IsDraining c (suc n) index s
    → IsDraining c n (suc index) (flush_at c index ms s)
unfolding flush_at
flush_at-IsDraining c n index s [] e d =
    let none_left : length s.array - index ≡ 0 = sym (length-drop index s.array) ∙ ap length e in
    absurd (omega (arith, d.rounds, none_left))
flush_at-IsDraining c n index s (m ∷ ms) e d =
    let old_here : All (Old c) (drop index s.array) = All-drop (Old c) index s.array d.old in
    let old_here' : All (Old c) (m ∷ ms) = rw e at old_here in
    let hit = lt→ltb m.time_stamp c old_here'.0 in
    let fits : s.len ≤ length s.array = omega (arith, d.short, d.rounds) in
    elim (Bool-cases (ltb index s.len)) [
      | inl inside ↦
          rw (hit, inside)
            record {
              rounds =
                  omega
                    (arith, length-remove_at index s (ltb→lt index s.len inside) fits, d.rounds);
              short = omega (arith, d.short);
              old = remove_at-Old c index s d.old;
            }
      | inr behind ↦
          rw (hit, behind)
            record { rounds = omega (arith, d.rounds); short = omega arith; old = d.old }
    ]

flush_loop_drains :
    (c n index : ℕ) (s : Slice) → IsDraining c n index s → (flush_loop c n index s).len ≡ 0
unfolding flush_loop
flush_loop_drains c zero index s d = omega (arith, d.short)
flush_loop_drains c (suc n) index s d =
    flush_loop_drains c n (suc index) _ (flush_at-IsDraining c n index s _ refl d)

-- A flush of an outbox in which every message is old leaves no message.
pub flush_drains : (c : ℕ) (olds : List OutboxMsg) → All (Old c) olds → flush c olds ≡ []
unfolding flush
flush_drains c olds h =
    let s : Slice = record { array = olds; len = length olds } in
    let d : IsDraining c (length olds) 0 s = record {
      rounds = omega arith;
      short = omega arith;
      old = h;
    } in
    rw (flush_loop_drains c (length olds) 0 s d)
