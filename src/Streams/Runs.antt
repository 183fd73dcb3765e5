-- ===== src/Streams/Runs.antt =====
-- A message of 10 bytes in pieces of 4, sent, received in another order and delivered; the theorems
-- at inputs that meet their conditions.
use ratnet.Prelude.{
  ℕ, ◌+◌, ◌≤◌, ◌≡◌, refl, true, false, some, none, List, [], ◌∷◌, ◌++◌, arith, Bytes, All, length,
  lookup, nat_eq,
}
use mathlib.Core.List.{Permᴰ}
use mathlib.Core.List.Permᴰ
use ratnet.Go.{returned, panicked, pure}
use ratnet.Api.{Msg, StreamHeader}
use ratnet.Chunking.{ChunkNode, le32, chunk_size, send_chunked}
use ratnet.Chunking.Pieces.{pieces, stream_msgs, send_all}
use ratnet.Chunking.Sizes.{AtMost, chunk_size_fits}
use ratnet.Chunking.Sent.{cut, send_chunked_pieces}
use ratnet.Streams.{Streams, chunks_of, whole_msg, add_chunk, assemble_one}
use ratnet.Streams.Chunks.{number}
use ratnet.Streams.Delivers.{chunk_msgs, header_msg, header, handle_all}
use ratnet.Streams.RoundTrip.{stream_round_trip}
use ratnet.Streams.Gaps.{assemble_gap}

abbrev news : Msg Unit
news = record {
  name = 110 ∷ [];
  content = 0 ∷ 1 ∷ 2 ∷ 3 ∷ 4 ∷ 5 ∷ 6 ∷ 7 ∷ 8 ∷ 9 ∷ [];
  is_chan = true;
  pub_key = none;
  chunked = false;
  stream_header = false;
}

abbrev first : Bytes
first = 0 ∷ 1 ∷ 2 ∷ 3 ∷ []

abbrev second : Bytes
second = 4 ∷ 5 ∷ 6 ∷ 7 ∷ []

abbrev third : Bytes
third = 8 ∷ 9 ∷ []

abbrev empty : Streams Unit
empty = record { streams = []; chunks = []; out = [] }

-- A node that keeps what it is given to send.
abbrev recorder : ChunkNode (List (Msg Unit)) Unit
recorder = record {
  send_msg = λ m s. (returned tt, s ++ m ∷ []);
  add_stream = λ _ _ _. pure tt;
  add_chunk = λ _ _ _. pure tt;
}

smallest_limit : chunk_size (70000 ∷ 1000 ∷ []) ≡ returned 868
unfolding chunk_size
smallest_limit = refl

limit_too_low : chunk_size (132 ∷ []) ≡ panicked
unfolding chunk_size
limit_too_low = refl

cut_news : cut 12 news.content ≡ first ∷ second ∷ third ∷ []
unfolding pieces
cut_news = refl

sent_count : length (send_chunked recorder (some (7 ∷ 0 ∷ 0 ∷ 0 ∷ [])) 12 news []).1 ≡ 4
unfolding send_chunked
sent_count = refl

send_chunked_pieces_example :
    send_chunked recorder (some (7 ∷ 0 ∷ 0 ∷ 0 ∷ [])) 12 news []
    ≡ send_all recorder (stream_msgs news (7 ∷ 0 ∷ 0 ∷ 0 ∷ []) (cut 12 news.content)) []
send_chunked_pieces_example =
    send_chunked_pieces recorder news (7 ∷ 0 ∷ 0 ∷ 0 ∷ []) 12 [] (omega arith) (omega arith)
      (omega arith) (omega arith)

-- The third piece comes first, then the header, then the second and the first.
abbrev before : List (ℕ × Bytes)
before = (2, third) ∷ []

abbrev after : List (ℕ × Bytes)
after = (1, second) ∷ (0, first) ∷ []

shuffled : Permᴰ (before ++ after) (number 0 (cut 12 news.content))
unfolding pieces
shuffled = Permᴰ.symm (Permᴰ.reverse (before ++ after))

nothing_there : chunks_of (le32 7 0 0 0) empty.chunks ≡ []
unfolding chunks_of
nothing_there = refl

stream_round_trip_example :
    (stream_msgs news (7 ∷ 0 ∷ 0 ∷ 0 ∷ []) (cut 12 news.content)
      ≡ header_msg news 7 0 0 0 (length (cut 12 news.content))
        ∷ chunk_msgs news 7 0 0 0 (number 0 (cut 12 news.content)))
    × ((s' : Streams Unit) × (handle_all
            (chunk_msgs news 7 0 0 0 before
              ++ header_msg news 7 0 0 0 (length (cut 12 news.content))
                ∷ chunk_msgs news 7 0 0 0 after)
            empty
          ≡ (returned tt, s'))
        × ((assemble_one (some (header news 7 0 0 0 (length (cut 12 news.content)))) s').0
            ≡ returned tt)
        × ((assemble_one (some (header news 7 0 0 0 (length (cut 12 news.content)))) s').1.out
            ≡ [] ++ whole_msg (110 ∷ []) news.content ∷ []))
stream_round_trip_example =
    stream_round_trip news 7 0 0 0 12 before after empty (omega arith) (omega arith) shuffled
      nothing_there (omega arith)

-- One chunk with number 5 of a stream of one chunk.
abbrev gap : Streams Unit
gap = (add_chunk 7 5 first empty).1

abbrev one_chunk : StreamHeader
one_chunk = record { stream_id = 7; num_chunks = 1; channel_name = [] }

gap_counted : length (chunks_of 7 gap.chunks) ≡ 1
unfolding chunks_of add_chunk
gap_counted = refl

gap_open : lookup 0 (chunks_of 7 gap.chunks) ≡ none
unfolding chunks_of add_chunk
gap_open = refl

assemble_gap_example : assemble_one (some one_chunk) gap ≡ (panicked, gap)
assemble_gap_example = assemble_gap one_chunk gap 0 gap_counted (omega arith) (omega arith) gap_open

chunk_size_fits_example : (868 + 132 ≤ 65536) × All (AtMost (868 + 132)) (70000 ∷ 1000 ∷ [])
chunk_size_fits_example = chunk_size_fits (70000 ∷ 1000 ∷ []) 868 smallest_limit
