-- ===== src/Router/Recent/Queue/Refines.antt =====
-- Each call of `SeenRecently` does to the buffer what `observe` does to the queue.
use ratnet.Prelude.{
  ℕ, zero, suc, ◌+◌, ◌-◌, ◌<◌, ◌≤◌, ◌≡◌, refl, sym, ◌∙◌, Bool, true, false, none, some, List, [],
  ◌∷◌, ◌++◌, length, length-append, length-drop, drop, ltb, ◌==◌, Bytes, Map, lookup, nat_eq, arith,
  insert_new, Option-cases, Bool-cases, inl, inr, ltb→lt, ltb→le, lt→ltb,
}
use ratnet.Router.Crc.{checksum_ieee}
use ratnet.Router.Recent.{
  RecentBuffer, values, sort, delete_entry, delete_entries, collect, next_counter, record_hash,
  seen_hash, seen_recently, cache_size, cache_discount, max_int32,
}
use ratnet.Router.Recent.Queue.{
  trim, observe, hashes, mirror, Rises, IsDistinct, IsQueue, Rises-values, delete_entries-drop,
  Rises-append, Rises-drop, IsDistinct-append, IsDistinct-drop, mirror-append, Rises-lookup_top,
  hashes-append, hashes-drop, length-hashes, holds-lookup, holds-lookup-some,
}

-- A buffer whose maps are in the order of insertion.
abbrev buffer : Map ℕ ℕ → ℕ → RecentBuffer
buffer m k = record { recent = m; reverse = mirror m; counter = k }

collect_short : (r : RecentBuffer) → length r.recent < cache_size → collect r ≡ r
unfolding collect
collect_short r h = rw (lt→ltb (length r.recent) cache_size h)

collect_full :
    (m : Map ℕ ℕ) (k : ℕ)
    → Rises 0 k m
    → IsDistinct m
    → length m ≡ cache_size
    → collect (buffer m k) ≡ buffer (drop cache_discount m) k
unfolding collect
collect_full m k r d e = rw (e, Rises-values 0 k m r) (delete_entries-drop 1024 0 k k m r d)

record_hash_lem :
    (h : ℕ) (r : RecentBuffer)
    → IsQueue r
    → lookup h r.recent ≡ none
    → r.counter < max_int32
    → record_hash h r ≡ buffer (r.recent ++ (h, r.counter) ∷ []) (r.counter + 1)
unfolding record_hash next_counter
record_hash_lem h r q e hc =
    let low : (r.counter == max_int32) ≡ false = ground arith in
    let top = Rises-lookup_top 0 r.counter r.recent q.rises in
    rw (
      q.mirrored,
      mirror-append h r.counter r.recent,
      insert_new h r.counter r.recent e,
      insert_new r.counter h (mirror r.recent) top,
      low,
    )

seen_hash-none :
    (h : ℕ) (r : RecentBuffer) → seen_hash h r none ≡ (false, collect (record_hash h r))
unfolding seen_hash
seen_hash-none h r = refl

seen_hash-some : (h c : ℕ) (r : RecentBuffer) → seen_hash h r (some c) ≡ (true, collect r)
unfolding seen_hash
seen_hash-some h c r = refl

-- What `observe` makes of a hash that is not held, by the size of the queue.
observe_new :
    (h c : ℕ) (m : Map ℕ ℕ)
    → lookup h m ≡ none
    → observe h (hashes m) ≡ (false, trim (hashes (m ++ (h, c) ∷ [])))
unfolding observe
observe_new h c m e = rw (holds-lookup h m e, hashes-append h c m)

trim_short : (m : Map ℕ ℕ) → length m < cache_size → trim (hashes m) ≡ hashes m
unfolding trim
trim_short m h = rw (length-hashes m, lt→ltb (length m) cache_size h)

trim_full : (m : Map ℕ ℕ) → length m ≡ cache_size → trim (hashes m) ≡ hashes (drop cache_discount m)
unfolding trim
trim_full m e = rw (length-hashes m, e) (sym (hashes-drop cache_discount m))

-- The state after a call: its answer, its queue and its invariant.
record Refined (before : RecentBuffer) (h : ℕ) (after : Bool × RecentBuffer) : Type 0 where
  answer : after.0 ≡ (observe h (hashes before.recent)).0
  queue : hashes after.1.recent ≡ (observe h (hashes before.recent)).1
  kept : IsQueue after.1

module _ (h : ℕ) (r : RecentBuffer) (q : IsQueue r) where
  grown-Rises : Rises 0 (r.counter + 1) (r.recent ++ (h, r.counter) ∷ [])
  grown-Rises = Rises-append 0 r.counter h r.recent q.rises

  collect-Refined :
      lookup h r.recent ≡ none
      → Refined r h (false, collect (buffer (r.recent ++ (h, r.counter) ∷ []) (r.counter + 1)))
  collect-Refined e =
      let m = r.recent ++ (h, r.counter) ∷ [] in
      let d = IsDistinct-append h r.counter r.recent e q.distinct in
      let n = length-append r.recent ((h, r.counter) ∷ []) in
      elim (Bool-cases (ltb (length m) cache_size)) [
        | inl small ↦
            let sm = ltb→lt (length m) cache_size small in
            rw (collect_short (buffer m (r.counter + 1)) sm) (record {
              answer = rw (observe_new h r.counter r.recent e);
              queue = rw (observe_new h r.counter r.recent e, trim_short m sm);
              kept = record { mirrored = refl; rises = grown-Rises; distinct = d; short = sm };
            })
        | inr large ↦
            let full : length m ≡ cache_size =
              omega (arith, ltb→le (length m) cache_size large, n, q.short) in
            rw (collect_full m (r.counter + 1) grown-Rises d full) (record {
              answer = rw (observe_new h r.counter r.recent e);
              queue = rw (observe_new h r.counter r.recent e, trim_full m full);
              kept = record {
                mirrored = refl;
                rises = Rises-drop cache_discount 0 (r.counter + 1) m grown-Rises;
                distinct = IsDistinct-drop cache_discount m d;
                short = omega (arith, length-drop cache_discount m, full);
              };
            })
      ]

  seen_hash-Refined : r.counter < max_int32 → Refined r h (seen_hash h r (lookup h r.recent))
  unfolding observe
  seen_hash-Refined hc = elim (Option-cases (lookup h r.recent)) [
    | inl e ↦ rw (e, seen_hash-none, record_hash_lem h r q e hc) (collect-Refined e)
    | inr (c, e) ↦
        rw (e, seen_hash-some, collect_short r q.short)
          (record {
            answer = rw (holds-lookup-some h c r.recent e);
            queue = rw (holds-lookup-some h c r.recent e);
            kept = q;
          })
  ]

-- On a well-formed buffer, and before the counter has wrapped, `SeenRecently` answers whether the
-- queue holds the nonce's checksum, puts a new checksum at the back, drops the oldest 1024 entries
-- when there are 4096, and keeps the buffer well formed.
pub seen_recently_refines :
    (nonce : Bytes) (r : RecentBuffer)
    → IsQueue r
    → r.counter < max_int32
    → ((seen_recently nonce r).0 ≡ (observe (checksum_ieee nonce) (hashes r.recent)).0)
      × (hashes (seen_recently nonce r).1.recent
          ≡ (observe (checksum_ieee nonce) (hashes r.recent)).1)
      × IsQueue (seen_recently nonce r).1
unfolding seen_recently
seen_recently_refines nonce r q hc =
    let done = seen_hash-Refined (checksum_ieee nonce) r q hc in
    (done.answer, done.queue, done.kept)

delete_entries_counter :
    (n : ℕ) (vs : List ℕ) (r : RecentBuffer) → (delete_entries n vs r).counter ≡ r.counter
unfolding delete_entries
delete_entries_counter zero vs r = refl
delete_entries_counter (suc n) [] r = refl
delete_entries_counter (suc n) (v ∷ vs) r =
    delete_entries_counter n vs (delete_entry v r) ∙ unfold delete_entry in refl

collect_counter : (r : RecentBuffer) → (collect r).counter ≡ r.counter
unfolding collect
collect_counter r = ground (
  arith,
  delete_entries_counter (cache_size + cache_discount - length r.recent) (sort (values r.recent)) r,
)

record_hash_counter : (h : ℕ) (r : RecentBuffer) → (record_hash h r).counter ≤ r.counter + 1
unfolding record_hash next_counter
record_hash_counter h r = ground arith

seen_hash_counter :
    (h : ℕ) (r : RecentBuffer) → (seen_hash h r (lookup h r.recent)).1.counter ≤ r.counter + 1
seen_hash_counter h r = elim (Option-cases (lookup h r.recent)) [
  | inl e ↦ rw (e, seen_hash-none, collect_counter (record_hash h r)) (record_hash_counter h r)
  | inr (c, e) ↦ rw (e, seen_hash-some, collect_counter r) (omega arith)
]

-- A call takes one number at most.
pub seen_recently_counter :
    (nonce : Bytes) (r : RecentBuffer) → (seen_recently nonce r).1.counter ≤ r.counter + 1
unfolding seen_recently
seen_recently_counter nonce r = seen_hash_counter (checksum_ieee nonce) r
