-- ===== src/Router/Recent/Window.antt =====
-- How long loop detection remembers a nonce.
use ratnet.Prelude.{
  ℕ, zero, suc, ◌+◌, ◌<◌, ◌≤◌, ◌≡◌, refl, sym, ap, ◌∙◌, true, false, List, [], ◌∷◌, ◌++◌, length,
  length-append, drop, append_assoc, ltb, Bytes, arith, Bool-cases, inl, inr, ltb→le,
}
use ratnet.Router.Crc.{checksum_ieee}
use ratnet.Router.Recent.{RecentBuffer, seen_recently, cache_size, cache_discount, max_int32}
use ratnet.Router.Recent.Queue.{holds, trim, observe, hashes, IsQueue, length-hashes}
use ratnet.Router.Recent.Queue.Refines.{seen_recently_refines, seen_recently_counter}

-- Calls of `SeenRecently`, one after the other.
abbrev pub run : List Bytes → RecentBuffer → RecentBuffer
run [] r = r
run (n ∷ ns) r = run ns (seen_recently n r).1

-- `h` stands in the queue with at most `k` hashes behind it.
record Behind (h k : ℕ) (q : List ℕ) : Type 0 where
  front : List ℕ
  back : List ℕ
  split : q ≡ front ++ h ∷ back
  few : length back ≤ k

holds_middle : (h : ℕ) (front back : List ℕ) → holds h (front ++ h ∷ back) ≡ true
unfolding holds
holds_middle h [] back = ground arith
holds_middle h (x ∷ front) back = ground (arith, holds_middle h front back)

drop_front : (n : ℕ) (xs ys : List ℕ) → n ≤ length xs → drop n (xs ++ ys) ≡ drop n xs ++ ys
drop_front zero xs ys h = refl
drop_front (suc n) [] ys h = elim h [ ]
drop_front (suc n) (x ∷ xs) ys h = drop_front n xs ys (omega arith)

trim-Behind :
    (h k : ℕ) (q : List ℕ) → k ≤ 3071 → length q ≤ cache_size → Behind h k q → Behind h k (trim q)
unfolding trim
trim-Behind h k q hk hq b = elim (Bool-cases (ltb (length q) cache_size)) [
  | inl small ↦ rw small b
  | inr large ↦ rw large (record {
    front = drop cache_discount b.front;
    back = b.back;
    split = rw b.split (drop_front cache_discount b.front (h ∷ b.back) (room large));
    few = b.few;
  })
]
  where
    room : ltb (length q) cache_size ≡ false → cache_discount ≤ length b.front
    room large = omega (
      arith,
      ltb→le (length q) cache_size large,
      ap length b.split,
      length-append b.front (h ∷ b.back),
      b.few,
    )

observe-Behind :
    (x h k : ℕ) (q : List ℕ)
    → k < 3071
    → length q < cache_size
    → Behind h k q
    → Behind h (k + 1) (observe x q).1
unfolding observe
observe-Behind x h k q hk hq b = elim (Bool-cases (holds x q)) [
  | inl old ↦
      rw old
        (record { front = b.front; back = b.back; split = b.split; few = omega (arith, b.few) })
  | inr new ↦ rw new (
      trim-Behind h (k + 1) (q ++ x ∷ []) (omega arith) (omega (arith, length-append q (x ∷ [])))
        (record {
          front = b.front;
          back = b.back ++ x ∷ [];
          split = rw b.split (append_assoc b.front (h ∷ b.back) (x ∷ []));
          few = omega (arith, b.few, length-append b.back (x ∷ []));
        }))
]

-- The state after a call, by `seen_recently_refines`.
module _ (n : Bytes) (r : RecentBuffer) (q : IsQueue r) (hc : r.counter < max_int32) where
  next-IsQueue : IsQueue (seen_recently n r).1
  next-IsQueue = (seen_recently_refines n r q hc).2

  next-Behind :
      (h k : ℕ)
      → k < 3071
      → Behind h k (hashes r.recent)
      → Behind h (k + 1) (hashes (seen_recently n r).1.recent)
  next-Behind h k hk b = rw (seen_recently_refines n r q hc).1 (
      observe-Behind (checksum_ieee n) h k (hashes r.recent) hk
        (rw (length-hashes r.recent) q.short) b)

record After (h : ℕ) (r : RecentBuffer) : Type 0 where
  kept : IsQueue r
  low : r.counter < max_int32
  behind : Behind h 3071 (hashes r.recent)

run-After :
    (ns : List Bytes) (r : RecentBuffer) (h k : ℕ)
    → IsQueue r
    → r.counter + length ns < max_int32
    → k + length ns ≤ 3071
    → Behind h k (hashes r.recent)
    → After h (run ns r)
run-After [] r h k q hc hk b = record {
  kept = q;
  low = omega arith;
  behind = record { front = b.front; back = b.back; split = b.split; few = omega (arith, b.few) };
}
run-After (n ∷ ns) r h k q hc hk b =
    run-After ns (seen_recently n r).1 h (k + 1) (next-IsQueue n r q (omega arith))
      (omega (arith, seen_recently_counter n r)) (omega arith)
      (next-Behind n r q (omega arith) h k (omega arith) b)

-- A hash that is put into the queue stands last.
observe_new-Behind :
    (h : ℕ) (q : List ℕ)
    → length q < cache_size
    → (observe h q).0 ≡ false
    → Behind h 0 (observe h q).1
unfolding observe
observe_new-Behind h q short new = elim (Bool-cases (holds h q)) [
  | inl old ↦ absurd (clash (rw old at new))
  | inr fresh ↦ rw fresh (
      trim-Behind h 0 (q ++ h ∷ []) (omega arith) (omega (arith, length-append q (h ∷ [])))
        (record { front = q; back = []; split = refl; few = omega arith }))
]
  where
    clash : true ≡ false → ⊥
    clash e = cc

observe_held : (h : ℕ) (q : List ℕ) → Behind h 3071 q → (observe h q).0 ≡ true
unfolding observe
observe_held h q b =
    let held : holds h q ≡ true = rw b.split (holds_middle h b.front b.back) in rw held

-- From a well-formed buffer whose counter stays below its wrap: a nonce that `SeenRecently` takes in
-- as new is reported as seen when it comes back after at most 3071 other calls.
pub seen_again :
    (nonce : Bytes) (ns : List Bytes) (r : RecentBuffer)
    → IsQueue r
    → r.counter + length ns + 1 < max_int32
    → length ns ≤ 3071
    → (seen_recently nonce r).0 ≡ false
    → (seen_recently nonce (run ns (seen_recently nonce r).1)).0 ≡ true
seen_again nonce ns r q hc hn new =
    let h = checksum_ieee nonce in
    let (answer, queue, kept) = seen_recently_refines nonce r q (omega arith) in
    let short : length (hashes r.recent) < cache_size = rw (length-hashes r.recent) q.short in
    let last : Behind h 0 (hashes (seen_recently nonce r).1.recent) =
      rw queue (observe_new-Behind h (hashes r.recent) short (sym answer ∙ new)) in
    let end =
      run-After ns (seen_recently nonce r).1 h 0 kept (omega (arith, seen_recently_counter nonce r))
        (omega arith) last in
    (seen_recently_refines nonce (run ns (seen_recently nonce r).1) end.kept end.low).0
    ∙ observe_held h _ end.behind
