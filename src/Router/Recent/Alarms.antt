-- ===== src/Router/Recent/Alarms.antt =====
-- Which nonces loop detection reports.
use ratnet.Prelude.{
  ℕ, zero, suc, ◌+◌, ◌<◌, ◌≡◌, sym, ◌∙◌, true, List, [], ◌∷◌, ◌++◌, length, drop, ltb, Bytes, arith,
  Bool-cases, inl, inr, ◌⊎◌,
}
use ratnet.Router.Crc.{checksum_ieee}
use ratnet.Router.Recent.{
  RecentBuffer, new_recent_buffer, seen_recently, cache_size, cache_discount, max_int32,
}
use ratnet.Router.Recent.Queue.{holds, trim, observe, hashes, IsQueue, new_recent_buffer-IsQueue}
use ratnet.Router.Recent.Queue.Refines.{seen_recently_refines, seen_recently_counter}
use ratnet.Router.Recent.Window.{run}

-- Some nonce of the list has this checksum.
abbrev pub Among : ℕ → List Bytes → Type 0
Among h [] = ⊥
Among h (n ∷ ns) = (checksum_ieee n ≡ h) ⊎ Among h ns

holds-drop : (n h : ℕ) (q : List ℕ) → holds h (drop n q) ≡ true → holds h q ≡ true
unfolding holds
holds-drop zero h q e = e
holds-drop (suc n) h [] e = e
holds-drop (suc n) h (x ∷ q) e = ground (arith, holds-drop n h q e)

holds-append : (h x : ℕ) (q : List ℕ) → holds h (q ++ x ∷ []) ≡ true → (x ≡ h) ⊎ (holds h q ≡ true)
unfolding holds
holds-append h x [] e = ground arith
holds-append h x (y ∷ q) e = ground (arith, holds-append h x q)

holds-trim : (h : ℕ) (q : List ℕ) → holds h (trim q) ≡ true → holds h q ≡ true
unfolding trim
holds-trim h q e = elim (Bool-cases (ltb (length q) cache_size)) [
  | inl small ↦ rw small at e
  | inr large ↦ holds-drop cache_discount h q (rw large at e)
]

holds-observe :
    (h x : ℕ) (q : List ℕ) → holds h (observe x q).1 ≡ true → (x ≡ h) ⊎ (holds h q ≡ true)
unfolding observe
holds-observe h x q e = elim (Bool-cases (holds x q)) [
  | inl old ↦ inr (rw old at e)
  | inr new ↦ holds-append h x q (holds-trim h (q ++ x ∷ []) (rw new at e))
]

answer_held : (h : ℕ) (q : List ℕ) → (observe h q).0 ≡ true → holds h q ≡ true
unfolding observe
answer_held h q e = ground arith

run-Among :
    (ns : List Bytes) (r : RecentBuffer) (nonce : Bytes)
    → IsQueue r
    → r.counter + length ns < max_int32
    → (seen_recently nonce (run ns r)).0 ≡ true
    → Among (checksum_ieee nonce) ns ⊎ (holds (checksum_ieee nonce) (hashes r.recent) ≡ true)
run-Among [] r nonce q hc e =
    inr (answer_held _ _ (sym (seen_recently_refines nonce r q (omega arith)).0 ∙ e))
run-Among (n ∷ ns) r nonce q hc e =
    let (answer, queue, kept) = seen_recently_refines n r q (omega arith) in
    elim (run-Among ns (seen_recently n r).1 nonce kept (omega (arith, seen_recently_counter n r))
      e) [
        | inl a ↦ inl (inr a)
        | inr held ↦
            elim (holds-observe (checksum_ieee nonce) (checksum_ieee n) (hashes r.recent)
              (rw queue at held)) [ inl same ↦ inl (inl same) | inr before ↦ inr before ]
      ]

nothing_held : (h : ℕ) → holds h (hashes new_recent_buffer.recent) ≡ true → ⊥
unfolding new_recent_buffer holds
nothing_held h e = cc

start : {n : ℕ} → n < max_int32 → new_recent_buffer.counter + n < max_int32
unfolding new_recent_buffer
start h = omega arith

-- From a new buffer, and below the wrap of the counter: a nonce is reported as seen only if a nonce
-- with the same checksum came before.
pub seen_only_after :
    (ns : List Bytes) (nonce : Bytes)
    → length ns < max_int32
    → (seen_recently nonce (run ns new_recent_buffer)).0 ≡ true
    → Among (checksum_ieee nonce) ns
seen_only_after ns nonce hn e =
    elim (run-Among ns new_recent_buffer nonce new_recent_buffer-IsQueue (start hn) e) [
      | inl a ↦ a
      | inr held ↦ absurd (nothing_held (checksum_ieee nonce) held)
    ]
