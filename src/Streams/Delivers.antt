-- ===== src/Streams/Delivers.antt =====
-- From the messages of a stream, as `SendChunked` makes them, to the message that is delivered.
use ratnet.Prelude.{
  ℕ, suc, ◌+◌, ◌/◌, ◌%◌, ◌<◌, ◌≡◌, refl, sym, ap, ◌∙◌, true, false, some, List, [], ◌∷◌, ◌++◌,
  length, ltb, lt→ltb, if◌then◌else◌, ◌==◌, ==_iff, Bytes, Map, lookup, insert, lookup_inserted,
  nat_eq, arith, All,
}
use mathlib.Core.List.{Permᴰ}
use ratnet.Go.{returned, Action, pure, continue, continue_ext, continue_assoc, ◌>>◌}
use ratnet.Api.{Msg, StreamHeader, Chunk}
use ratnet.Chunking.{u32, put_le32, le32, stream_msg, handle_chunked}
use ratnet.Chunking.Pieces.{concat, u32_small}
use ratnet.Streams.{
  Streams, or_empty, chunks_of, gather, add_chunk, add_stream, whole_msg, deliver, assemble_one,
  receiver, out_buffer_size,
}
use ratnet.Streams.Chunks.{number, as_chunk, as_chunks, insert_all, insert_all-append, collect}

le32-put_le32 :
    (n : ℕ)
    → n < 4294967296
    → le32 (n % 256) (n / 256 % 256) (n / 65536 % 256) (n / 16777216 % 256) ≡ n
unfolding le32
le32-put_le32 n h = omega arith

abbrev pub Numbered : ℕ × Bytes → Type 0
Numbered a = a.0 < 4294967296

module _ {Pub : Type 0} (msg : Msg Pub) (a b c d : ℕ) where
  abbrev stream_id : Bytes
  stream_id = a ∷ b ∷ c ∷ d ∷ []

  abbrev id_number : ℕ
  id_number = le32 a b c d

  -- The messages of numbered pieces.
  unfoldable pub chunk_msgs : List (ℕ × Bytes) → List (Msg Pub)
  chunk_msgs [] = []
  chunk_msgs (p ∷ l) = stream_msg msg false (stream_id ++ (put_le32 p.0 ++ p.1)) ∷ chunk_msgs l

  unfoldable pub header_msg : ℕ → Msg Pub
  header_msg n = stream_msg msg true (stream_id ++ put_le32 n)

  abbrev channel : Bytes
  channel = if msg.is_chan then msg.name else []

  abbrev pub header : ℕ → StreamHeader
  header n = record { stream_id = id_number; num_chunks = n; channel_name = channel }

  handle_chunk_lem :
      (p : ℕ × Bytes) (s : Streams Pub)
      → Numbered p
      → handle_chunked receiver (stream_msg msg false (stream_id ++ (put_le32 p.0 ++ p.1))) s
        ≡ add_chunk id_number p.0 p.1 s
  unfolding handle_chunked stream_msg put_le32
  handle_chunk_lem p s h = ap (λ n. add_chunk id_number n p.1 s) (le32-put_le32 p.0 h)

  handle_header_lem :
      (n : ℕ) (s : Streams Pub)
      → n < 4294967296
      → handle_chunked receiver (header_msg n) s ≡ add_stream id_number n channel s
  unfolding handle_chunked stream_msg put_le32 header_msg
  handle_header_lem n s h = ap (λ k. add_stream id_number k channel s) (le32-put_le32 n h)

unfoldable pub handle_all : {Pub : Type 0} → List (Msg Pub) → Action (Streams Pub) Unit
handle_all [] = pure tt
handle_all (m ∷ ms) = handle_chunked receiver m >> handle_all ms

handle_all-append :
    {Pub : Type 0} (ms ns : List (Msg Pub)) (s : Streams Pub)
    → handle_all (ms ++ ns) s ≡ continue (handle_all ms s) (λ _. handle_all ns)
unfolding handle_all
handle_all-append [] ns s = refl
handle_all-append (m ∷ ms) ns s =
    let first = handle_chunked receiver m s in
    continue_ext first _ _ (λ _ s'. handle_all-append ms ns s') ∙ sym (continue_assoc first _ _)

module _ {Pub : Type 0} (msg : Msg Pub) (a b c d : ℕ) where
  -- What chunks change.
  record Received (l : List (ℕ × Bytes)) (s s' : Streams Pub) : Type 0 where
    inserted :
        chunks_of (id_number msg a b c d) s'.chunks
        ≡ insert_all
            (as_chunks (id_number msg a b c d) l)
            (chunks_of (id_number msg a b c d) s.chunks)
    same_streams : s'.streams ≡ s.streams
    same_out : s'.out ≡ s.out

  chunks_of-insert :
      (id : ℕ) (m : Map ℕ Chunk) (all : Map ℕ (Map ℕ Chunk)) → chunks_of id (insert id m all) ≡ m
  unfolding chunks_of or_empty
  chunks_of-insert id m all = ap or_empty (lookup_inserted id m all)

  handle_all-Received :
      (l : List (ℕ × Bytes)) (s : Streams Pub)
      → All Numbered l
      → (s' : Streams Pub) × (handle_all (chunk_msgs msg a b c d l) s ≡ (returned tt, s'))
        × Received l s s'
  unfolding handle_all chunk_msgs add_chunk
  handle_all-Received [] s h =
      (s, refl, record { inserted = refl; same_streams = refl; same_out = refl })
  handle_all-Received (p ∷ l) s (hp, hl) =
      let id = id_number msg a b c d in
      let s₁ = (add_chunk id p.0 p.1 s).1 in
      let (s', e, r) = handle_all-Received l s₁ hl in
      let chunk = (as_chunk id p).1 in
      let one = chunks_of-insert id (insert p.0 chunk (chunks_of id s.chunks)) s.chunks in
      (
        s',
        ap (λ r. continue r (λ _. handle_all (chunk_msgs msg a b c d l)))
              (handle_chunk_lem msg a b c d p s hp)
            ∙ e,
        record {
          inserted = r.inserted ∙ ap (insert_all (as_chunks id l)) one;
          same_streams = r.same_streams;
          same_out = r.same_out;
        },
      )

number-Numbered :
    (i : ℕ) (ps : List Bytes) → i + length ps < 4294967296 → All Numbered (number i ps)
number-Numbered i [] h = tt
number-Numbered i (p ∷ ps) h = (omega (arith, h), number-Numbered (suc i) ps (omega (arith, h)))

All-perm : {l l' : List (ℕ × Bytes)} → Permᴰ l l' → All Numbered l' → All Numbered l
All-perm Permᴰ.nil h = tt
All-perm (Permᴰ.cons e q) (h, hs) = (rw e h, All-perm q hs)
All-perm (Permᴰ.swap e₁ e₂) (h₁, (h₂, hs)) = (rw e₁ h₂, (rw e₂ h₁, hs))
All-perm (Permᴰ.trans q r) h = All-perm q (All-perm r h)

All-split : (l l' : List (ℕ × Bytes)) → All Numbered (l ++ l') → All Numbered l × All Numbered l'
All-split [] l' h = (tt, h)
All-split (a ∷ l) l' (h, hs) = let (x, y) = All-split l l' hs in ((h, x), y)

-- A stream whose chunks are all there is delivered.
assemble_one_lem :
    {Pub : Type 0} (h : StreamHeader) (s : Streams Pub) (content : Bytes)
    → length (chunks_of h.stream_id s.chunks) ≡ h.num_chunks
    → gather h.num_chunks 0 (chunks_of h.stream_id s.chunks) ≡ some content
    → h.num_chunks < 4294967296
    → length s.out < out_buffer_size
    → ((assemble_one (some h) s).0 ≡ returned tt)
      × ((assemble_one (some h) s).1.out ≡ s.out ++ whole_msg h.channel_name content ∷ [])
unfolding assemble_one deliver
assemble_one_lem h s content count full small room =
    let whole : (u32 (length (chunks_of h.stream_id s.chunks)) == h.num_chunks) ≡ true =
      (==_iff _ _).1 (u32_small _ (omega (arith, count, small)) ∙ count) in
    let fits : ltb (length s.out) out_buffer_size ≡ true = lt→ltb _ _ room in
    rw (whole, full, fits) (refl, refl)

module _ {Pub : Type 0} (msg : Msg Pub) (a b c d : ℕ) where
  -- A stream of fewer than 2 ^ 32 pieces, of an identifier that has no chunks yet: whatever the order in
  -- which its chunks come and wherever among them its header comes, every message is taken, the
  -- stream is there afterwards, and where the buffer of `Out` has room, what the debouncer runs at
  -- that stream puts one message there, of the same channel, whose content is the pieces' in order.
  pub delivers :
      (ps : List Bytes) (before after : List (ℕ × Bytes)) (s : Streams Pub)
      → Permᴰ (before ++ after) (number 0 ps)
      → length ps < 4294967296
      → chunks_of (le32 a b c d) s.chunks ≡ []
      → length s.out < out_buffer_size
      → (s' : Streams Pub) × (handle_all
            (chunk_msgs msg a b c d before
              ++ header_msg msg a b c d (length ps) ∷ chunk_msgs msg a b c d after)
            s
          ≡ (returned tt, s'))
        × (lookup (le32 a b c d) s'.streams ≡ some (some (header msg a b c d (length ps))))
        × ((assemble_one (some (header msg a b c d (length ps))) s').0 ≡ returned tt)
        × ((assemble_one (some (header msg a b c d (length ps))) s').1.out
            ≡ s.out ++ whole_msg (if msg.is_chan then msg.name else []) (concat ps) ∷ [])
  unfolding handle_all add_stream
  delivers ps before after s q small fresh room =
      let id = le32 a b c d in
      let n = length ps in
      let (nb, na) =
        All-split before after (All-perm q (number-Numbered 0 ps (omega (arith, small)))) in
      let (s₁, e₁, r₁) = handle_all-Received msg a b c d before s nb in
      let s₂ = (add_stream id n (channel msg a b c d) s₁).1 in
      let (s₃, e₃, r₃) = handle_all-Received msg a b c d after s₂ na in
      let got : chunks_of id s₃.chunks ≡ insert_all (as_chunks id (before ++ after)) [] =
        r₃.inserted
        ∙ ap (insert_all (as_chunks id after))
            (r₁.inserted ∙ ap (insert_all (as_chunks id before)) fresh)
        ∙ insert_all-append id before after [] in
      let all = collect id (before ++ after) ps q in
      let out : s₃.out ≡ s.out = r₃.same_out ∙ r₁.same_out in
      let done =
        assemble_one_lem (header msg a b c d n) s₃ (concat ps) (ap length got ∙ all.counted)
          (ap (gather n 0) got ∙ all.gathered) small (rw out room) in
      let header_taken = handle_header_lem msg a b c d n s₁ small in
      let later = handle_all (chunk_msgs msg a b c d after) in
      (
        s₃,
        handle_all-append (chunk_msgs msg a b c d before) _ s
            ∙ ap
                (λ r.
                  continue r
                    (λ _. handle_all (header_msg msg a b c d n ∷ chunk_msgs msg a b c d after)))
                e₁
            ∙ ap (λ r. continue r (λ _. later)) header_taken
            ∙ e₃,
        ap (lookup id) r₃.same_streams
            ∙ lookup_inserted id (some (header msg a b c d n)) s₁.streams,
        done.0,
        rw out at done.1,
      )
