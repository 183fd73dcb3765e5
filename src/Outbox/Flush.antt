-- ===== src/Outbox/Flush.antt =====
-- What `Flush` leaves of an outbox whose old messages stand in front of its fresh ones.
use ratnet.Prelude.{
  ℕ, zero, suc, ◌+◌, ◌-◌, ◌<◌, ◌≤◌, ◌≡◌, refl, ap, ◌∙◌, List, [], ◌∷◌, ◌++◌, append_assoc,
  append-nil, length, length-append, take, drop, take-append, drop-append, ltb, arith, All,
  All-append, All-drop-suc, lt→ltb, le→ltb, true,
}
use ratnet.Api.{OutboxMsg}
use ratnet.Outbox.{Slice, remove_at, flush_at, flush_loop, flush}

abbrev pub Old : ℕ → OutboxMsg → Type 0
Old c m = m.time_stamp < c

abbrev pub Fresh : ℕ → OutboxMsg → Type 0
Fresh c m = c ≤ m.time_stamp

-- Every second message.
unfoldable pub seconds : List OutboxMsg → List OutboxMsg
seconds [] = []
seconds (x ∷ []) = []
seconds (x ∷ y ∷ r) = y ∷ seconds r

-- The array is what is kept, what the loop still meets inside the slice, and what stands behind it.
abbrev slice : List OutboxMsg → List OutboxMsg → List OutboxMsg → Slice
slice kept todo tail = record { array = kept ++ (todo ++ tail); len = length kept + length todo }

-- At the end of what is kept stands the next message.
drop_kept : (kept rest : List OutboxMsg) → drop (length kept) (kept ++ rest) ≡ rest
drop_kept = drop-append

drop_more :
    (n : ℕ) (kept rest : List OutboxMsg) → drop (length kept + n) (kept ++ rest) ≡ drop n rest
drop_more n [] rest = let e : 0 + n ≡ n = omega arith in rw e
drop_more n (k ∷ kept) rest =
    let e : suc (length kept) + n ≡ suc (length kept + n) = omega arith in
    rw e (drop_more n kept rest)

-- Removing the next message moves the others down; the last one stays behind the slice too.
remove_next :
    (kept rest tail : List OutboxMsg) (x : OutboxMsg)
    → remove_at (length kept) (slice kept (x ∷ rest) tail)
      ≡ slice kept rest (drop (length rest) (x ∷ (rest ++ tail)))
unfolding remove_at
remove_next kept rest tail x =
    let k = length kept in
    let n = length rest in
    let e₁ : k + suc n - (k + 1) ≡ n = omega arith in
    let e₂ : k + suc n - 1 ≡ k + n = omega arith in
    rw (
      e₁,
      e₂,
      take-append kept (x ∷ (rest ++ tail)),
      drop_more 1 kept (x ∷ (rest ++ tail)),
      drop_more n kept (x ∷ (rest ++ tail)),
      take-append rest tail,
    )

-- What a round does at an old message of the slice, and at a fresh one.
flush_at-Old :
    (c : ℕ) (kept rest tail : List OutboxMsg) (x : OutboxMsg)
    → Old c x
    → flush_at c (length kept) (x ∷ (rest ++ tail)) (slice kept (x ∷ rest) tail)
      ≡ slice kept rest (drop (length rest) (x ∷ (rest ++ tail)))
unfolding flush_at
flush_at-Old c kept rest tail x h =
    let inside : ltb (length kept) (length kept + suc (length rest)) ≡ true =
      lt→ltb _ _ (omega arith) in
    rw (lt→ltb x.time_stamp c h, inside) (remove_next kept rest tail x)

flush_at-Fresh :
    (c index : ℕ) (x : OutboxMsg) (rest : List OutboxMsg) (s : Slice)
    → Fresh c x
    → flush_at c index (x ∷ rest) s ≡ s
unfolding flush_at
flush_at-Fresh c index x rest s h = rw (le→ltb x.time_stamp c h)

flush_at-All :
    (c index : ℕ) (ms : List OutboxMsg) (s : Slice) → All (Fresh c) ms → flush_at c index ms s ≡ s
unfolding flush_at
flush_at-All c index [] s h = refl
flush_at-All c index (m ∷ ms) s (hm, hms) = rw (le→ltb m.time_stamp c hm)

-- Over fresh messages the loop changes nothing.
flush_loop-Fresh :
    (c n index : ℕ) (s : Slice) → All (Fresh c) (drop index s.array) → flush_loop c n index s ≡ s
unfolding flush_loop
flush_loop-Fresh c zero index s h = refl
flush_loop-Fresh c (suc n) index s h =
    rw (flush_at-All c index (drop index s.array) s h)
      (flush_loop-Fresh c n (suc index) s (All-drop-suc (Fresh c) index s.array h))

-- Behind the old messages the slice ends, and the array goes on, with fresh ones.
tail-Fresh :
    (c : ℕ) (olds news tail : List OutboxMsg) (x n : OutboxMsg)
    → All (Fresh c) (n ∷ news)
    → All (Fresh c) tail
    → All (Fresh c) (drop (length (olds ++ n ∷ news)) (x ∷ ((olds ++ n ∷ news) ++ tail)))
tail-Fresh c [] [] tail x n (hn, _) ht = (hn, ht)
tail-Fresh c [] (n' ∷ news) tail x n (hn, hns) ht = tail-Fresh c [] news tail n n' hns ht
tail-Fresh c (o ∷ olds) news tail x n hn ht = tail-Fresh c olds news tail o n hn ht

abbrev contents : Slice → List OutboxMsg
contents s = take s.len s.array

contents-slice : (kept todo tail : List OutboxMsg) → contents (slice kept todo tail) ≡ kept ++ todo
contents-slice kept todo tail =
    let whole : take (length (kept ++ todo)) ((kept ++ todo) ++ tail) ≡ kept ++ todo =
      take-append (kept ++ todo) tail in
    rw (length-append, append_assoc) at whole

-- One more message is kept.
slice_keep :
    (kept todo tail : List OutboxMsg) (y : OutboxMsg)
    → slice kept (y ∷ todo) tail ≡ slice (kept ++ y ∷ []) todo tail
slice_keep kept todo tail y =
    let e : length kept + suc (length todo) ≡ length (kept ++ y ∷ []) + length todo =
      omega (arith, length-append kept (y ∷ [])) in
    rw (e, append_assoc)

-- One round of the loop, at an old message.
flush_loop-Old :
    (c k : ℕ) (kept rest tail : List OutboxMsg) (x : OutboxMsg)
    → Old c x
    → flush_loop c (suc k) (length kept) (slice kept (x ∷ rest) tail)
      ≡ flush_loop c k
          (suc (length kept))
          (slice kept rest (drop (length rest) (x ∷ (rest ++ tail))))
unfolding flush_loop
flush_loop-Old c k kept rest tail x h =
    let s = slice kept (x ∷ rest) tail in
    ap (flush_loop c k (suc (length kept))) (
      ap (λ ms. flush_at c (length kept) ms s) (drop-append kept (x ∷ (rest ++ tail)))
      ∙ flush_at-Old c kept rest tail x h)

-- The loop at the front of the old messages that are left.
flush_loop-seconds :
    (c k : ℕ) (kept olds news tail : List OutboxMsg) (n : OutboxMsg)
    → All (Old c) olds
    → All (Fresh c) (n ∷ news)
    → All (Fresh c) tail
    → length olds ≤ k
    → contents (flush_loop c k (length kept) (slice kept (olds ++ n ∷ news) tail))
      ≡ kept ++ (seconds olds ++ n ∷ news)
unfolding seconds
flush_loop-seconds c k kept [] news tail n ho hn ht hk =
    rw
      (flush_loop-Fresh c k (length kept) (slice kept (n ∷ news) tail)
        (rw (drop-append kept (n ∷ (news ++ tail))) (All-append (Fresh c) (n ∷ news) tail hn ht)))
      (contents-slice kept (n ∷ news) tail)
flush_loop-seconds c zero kept (x ∷ olds) news tail n ho hn ht hk = elim hk [ ]
flush_loop-seconds c (suc k) kept (x ∷ []) news tail n (hx, ho) hn ht hk =
    let todo = n ∷ news in
    let tail' = drop (length todo) (x ∷ (todo ++ tail)) in
    let ht' = tail-Fresh c [] news tail x n hn ht in
    let fresh = All-append (Fresh c) todo tail' hn ht' in
    let behind : All (Fresh c) (drop (suc (length kept)) (kept ++ (todo ++ tail'))) =
      All-drop-suc (Fresh c) (length kept) _ (rw (drop-append kept (todo ++ tail')) fresh) in
    let step = flush_loop-Old c k kept todo tail x hx in
    let rest = flush_loop-Fresh c k (suc (length kept)) (slice kept todo tail') behind in
    ap contents (step ∙ rest) ∙ contents-slice kept todo tail'
flush_loop-seconds c (suc k) kept (x ∷ y ∷ olds) news tail n (hx, hyo) hn ht hk =
    let todo = olds ++ n ∷ news in
    let tail' = drop (length (y ∷ todo)) (x ∷ ((y ∷ todo) ++ tail)) in
    let ht' = tail-Fresh c (y ∷ olds) news tail x n hn ht in
    let e : suc (length kept) ≡ length (kept ++ y ∷ []) =
      omega (arith, length-append kept (y ∷ [])) in
    let ih = flush_loop-seconds c k (kept ++ y ∷ []) olds news tail' n hyo.1 hn ht' (omega arith) in
    let first = ap contents (flush_loop-Old c k kept (y ∷ todo) tail x hx) in
    first ∙ rw (slice_keep kept todo tail' y, e, ih, append_assoc)

-- A flush of an outbox whose old messages stand in front of at least one fresh message keeps every
-- fresh message and every second old one.
pub flush_keeps_seconds :
    (c : ℕ) (olds news : List OutboxMsg) (n : OutboxMsg)
    → All (Old c) olds
    → All (Fresh c) (n ∷ news)
    → flush c (olds ++ n ∷ news) ≡ seconds olds ++ n ∷ news
unfolding flush
flush_keeps_seconds c olds news n ho hn =
    let e = append-nil (olds ++ n ∷ news) in
    let z : 0 + length (olds ++ n ∷ news) ≡ length (olds ++ n ∷ news) = omega arith in
    let run =
      flush_loop-seconds c (length (olds ++ n ∷ news)) [] olds news [] n ho hn tt
        (omega (arith, length-append olds (n ∷ news))) in
    rw (e, z) at run
