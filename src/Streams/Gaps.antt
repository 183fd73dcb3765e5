-- ===== src/Streams/Gaps.antt =====
-- A stream that has as many chunks as its header says, but not the right ones.
use ratnet.Prelude.{
  ℕ, zero, suc, ◌+◌, ◌<◌, ◌≡◌, refl, ap, ◌∙◌, true, Option, some, none, length, ◌==◌, ==_iff, Map,
  lookup, nat_eq, arith,
}
use ratnet.Go.{panicked}
use ratnet.Api.{StreamHeader, Chunk}
use ratnet.Chunking.{u32}
use ratnet.Chunking.Pieces.{u32_small}
use ratnet.Streams.{Streams, chunks_of, joined, gather, deliver, assemble_one}

joined-none : (o : Option Chunk) → joined o none ≡ none
unfolding joined
joined-none none = refl
joined-none (some c) = refl

gather_gap : (n k i : ℕ) (m : Map ℕ Chunk) → k < n → lookup (i + k) m ≡ none → gather n i m ≡ none
unfolding gather joined
gather_gap zero k i m h e = elim h [ ]
gather_gap (suc n) zero i m h e =
    let z : i + 0 ≡ i = omega arith in ap (λ o. joined o (gather n (suc i) m)) (rw z at e)
gather_gap (suc n) (suc k) i m h e =
    let z : i + suc k ≡ suc i + k = omega arith in
    ap (joined (lookup i m)) (gather_gap n k (suc i) m (omega (arith, h)) (rw z at e))
    ∙ joined-none (lookup i m)

-- Where a stream has as many chunks as its header says, fewer than 2 ^ 32, but none of some number
-- below that, what the debouncer runs at the stream panics: chunks are not checked against the
-- header when they come.
pub assemble_gap :
    {Pub : Type 0} (h : StreamHeader) (s : Streams Pub) (k : ℕ)
    → length (chunks_of h.stream_id s.chunks) ≡ h.num_chunks
    → h.num_chunks < 4294967296
    → k < h.num_chunks
    → lookup k (chunks_of h.stream_id s.chunks) ≡ none
    → assemble_one (some h) s ≡ (panicked, s)
unfolding assemble_one deliver
assemble_gap h s k count small l e =
    let m = chunks_of h.stream_id s.chunks in
    let whole : (u32 (length m) == h.num_chunks) ≡ true =
      (==_iff _ _).1 (u32_small _ (omega (arith, count, small)) ∙ count) in
    let z : 0 + k ≡ k = omega arith in
    let e' : lookup (0 + k) m ≡ none = rw z e in rw (whole, gather_gap h.num_chunks k 0 m l e') refl
