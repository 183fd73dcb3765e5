-- ===== src/Outbox/Rising.antt =====
-- Appends and flushes keep the time stamps rising.
use ratnet.Prelude.{
  ℕ, ◌<◌, ◌≤◌, ◌≡◌, refl, sym, ap, subst, Bool-cases, inl, inr, List, [], ◌∷◌, ◌++◌, All, ltb,
  arith, append-nil,
}
use ratnet.Api.{OutboxMsg}
use ratnet.Outbox.{append, flush}
use ratnet.Outbox.Since.{RisesFrom, IsRising, IsRising-tail, RisesFrom-weaken}
use ratnet.Outbox.Flush.{Old, Fresh, seconds, flush_keeps_seconds}
use ratnet.Outbox.FlushAll.{flush_drains}

RisesFrom-append :
    (t : ℕ) (ms : List OutboxMsg) (m : OutboxMsg)
    → RisesFrom t ms
    → t < m.time_stamp
    → All (λ x. x.time_stamp < m.time_stamp) ms
    → RisesFrom t (ms ++ m ∷ [])
RisesFrom-append t [] m r h a = (h, tt)
RisesFrom-append t (x ∷ ms) m (rx, r) h (ax, a) = (rx, RisesFrom-append x.time_stamp ms m r ax a)

-- A message that is later than all others goes to the end.
pub append-IsRising :
    (ms : List OutboxMsg) (m : OutboxMsg)
    → IsRising ms
    → All (λ x. x.time_stamp < m.time_stamp) ms
    → IsRising (append ms m)
unfolding append
append-IsRising [] m r a = tt
append-IsRising (x ∷ ms) m r (ax, a) = RisesFrom-append x.time_stamp ms m r ax a

RisesFrom-Fresh : (c t : ℕ) (ms : List OutboxMsg) → c ≤ t → RisesFrom t ms → All (Fresh c) ms
RisesFrom-Fresh c t [] h r = tt
RisesFrom-Fresh c t (m ∷ ms) h (rm, r) =
    (omega arith, RisesFrom-Fresh c m.time_stamp ms (omega arith) r)

-- Where the time stamps rise, the old messages stand in front of the fresh ones.
record Parted (c : ℕ) (ms : List OutboxMsg) : Type 0 where
  olds : List OutboxMsg
  news : List OutboxMsg
  whole : ms ≡ olds ++ news
  are_old : All (Old c) olds
  are_fresh : All (Fresh c) news

part : (c : ℕ) (ms : List OutboxMsg) → IsRising ms → Parted c ms
part c [] r = record { olds = []; news = []; whole = refl; are_old = tt; are_fresh = tt }
part c (m ∷ ms) r = elim (Bool-cases (ltb m.time_stamp c)) [
  | inl h ↦
      let p = part c ms (IsRising-tail m ms r) in
      record {
        olds = m ∷ p.olds;
        news = p.news;
        whole = ap (λ xs. m ∷ xs) p.whole;
        are_old = (ground (arith, h), p.are_old);
        are_fresh = p.are_fresh;
      }
  | inr h ↦
      let fresh : c ≤ m.time_stamp = ground (arith, h) in
      record {
        olds = [];
        news = m ∷ ms;
        whole = refl;
        are_old = tt;
        are_fresh = (fresh, RisesFrom-Fresh c m.time_stamp ms fresh r);
      }
]

seconds-RisesFrom :
    (t : ℕ) (olds news : List OutboxMsg)
    → RisesFrom t (olds ++ news)
    → RisesFrom t (seconds olds ++ news)
unfolding seconds
seconds-RisesFrom t [] news r = r
seconds-RisesFrom t (x ∷ []) news (rx, r) = RisesFrom-weaken t x.time_stamp news (omega arith) r
seconds-RisesFrom t (x ∷ y ∷ olds) news (rx, (ry, r)) =
    (omega arith, seconds-RisesFrom y.time_stamp olds news r)

seconds-IsRising :
    (olds news : List OutboxMsg) → IsRising (olds ++ news) → IsRising (seconds olds ++ news)
unfolding seconds
seconds-IsRising [] news r = r
seconds-IsRising (x ∷ []) news r = IsRising-tail x news r
seconds-IsRising (x ∷ y ∷ olds) news (ry, r) = seconds-RisesFrom y.time_stamp olds news r

seconds-All :
    (P : OutboxMsg → Type 0) (olds news : List OutboxMsg)
    → All P (olds ++ news)
    → All P (seconds olds ++ news)
unfolding seconds
seconds-All P [] news a = a
seconds-All P (x ∷ []) news (ax, a) = a
seconds-All P (x ∷ y ∷ olds) news (ax, (ay, a)) = (ay, seconds-All P olds news a)

flush_parted :
    (P : OutboxMsg → Type 0) (c : ℕ) (olds news : List OutboxMsg)
    → All (Old c) olds
    → All (Fresh c) news
    → IsRising (olds ++ news)
    → All P (olds ++ news)
    → IsRising (flush c (olds ++ news)) × All P (flush c (olds ++ news))
flush_parted P c olds [] ho hn r a =
    let e : flush c (olds ++ []) ≡ [] = rw append-nil (flush_drains c olds ho) in rw e (tt, tt)
flush_parted P c olds (n ∷ news) ho hn r a =
    rw (flush_keeps_seconds c olds news n ho hn)
      (seconds-IsRising olds (n ∷ news) r, seconds-All P olds (n ∷ news) a)

-- A flush of an outbox whose time stamps rise leaves them rising, and brings no new message.
pub flush-IsRising :
    (P : OutboxMsg → Type 0) (c : ℕ) (ms : List OutboxMsg)
    → IsRising ms
    → All P ms
    → IsRising (flush c ms) × All P (flush c ms)
flush-IsRising P c ms r a =
    let p = part c ms r in
    subst (λ xs. IsRising (flush c xs) × All P (flush c xs)) (sym p.whole)
      (flush_parted P c p.olds p.news p.are_old p.are_fresh (subst IsRising p.whole r)
        (subst (All P) p.whole a))
