-- ===== src/Streams/RoundTrip.antt =====
-- A message that is sent in chunks comes out as it went in.
use ratnet.Prelude.{
  ℕ, suc, ◌<◌, ◌≡◌, refl, ap, List, [], ◌∷◌, ◌++◌, length, if◌then◌else◌, Bytes, arith, some, false,
}
use mathlib.Core.List.{Permᴰ}
use ratnet.Go.{returned}
use ratnet.Api.{Msg}
use ratnet.Chunking.{le32, put_le32, stream_msg}
use ratnet.Chunking.Pieces.{piece_msgs, stream_msgs}
use ratnet.Chunking.Sent.{cut, concat-cut, length-cut-le}
use ratnet.Streams.{Streams, chunks_of, whole_msg, assemble_one, out_buffer_size}
use ratnet.Streams.Chunks.{number}
use ratnet.Streams.Delivers.{chunk_msgs, header_msg, header, handle_all, delivers}

module _ {Pub : Type 0} (msg : Msg Pub) (a b c d : ℕ) where
  piece_msgs-number :
      (i : ℕ) (ps : List Bytes)
      → piece_msgs msg (a ∷ b ∷ c ∷ d ∷ []) i ps ≡ chunk_msgs msg a b c d (number i ps)
  unfolding piece_msgs chunk_msgs
  piece_msgs-number i [] = refl
  piece_msgs-number i (p ∷ ps) =
      ap (λ l. stream_msg msg false ((a ∷ b ∷ c ∷ d ∷ []) ++ (put_le32 i ++ p)) ∷ l)
        (piece_msgs-number (suc i) ps)

  -- For a content of fewer than 2 ^ 32 bytes and a chunk size above 8: the messages of its stream are
  -- a header and its numbered pieces, and when these come at a node, the pieces in any order with the
  -- header anywhere among them, and the node has no chunks of that identifier yet and room in the
  -- buffer of `Out`, then it takes every message, and what its debouncer runs at the stream puts there
  -- one message of the same channel with the content that was cut.
  pub stream_round_trip :
      (chunk_size : ℕ) (before after : List (ℕ × Bytes)) (s : Streams Pub)
      → 8 < chunk_size
      → length msg.content < 4294967296
      → Permᴰ (before ++ after) (number 0 (cut chunk_size msg.content))
      → chunks_of (le32 a b c d) s.chunks ≡ []
      → length s.out < out_buffer_size
      → (stream_msgs msg (a ∷ b ∷ c ∷ d ∷ []) (cut chunk_size msg.content)
          ≡ header_msg msg a b c d (length (cut chunk_size msg.content))
            ∷ chunk_msgs msg a b c d (number 0 (cut chunk_size msg.content)))
        × ((s' : Streams Pub) × (handle_all
                (chunk_msgs msg a b c d before
                  ++ header_msg msg a b c d (length (cut chunk_size msg.content))
                    ∷ chunk_msgs msg a b c d after)
                s
              ≡ (returned tt, s'))
            × ((assemble_one (some (header msg a b c d (length (cut chunk_size msg.content)))) s').0
                ≡ returned tt)
            × ((assemble_one
                  (some (header msg a b c d (length (cut chunk_size msg.content))))
                  s').1.out
                ≡ s.out ++ whole_msg (if msg.is_chan then msg.name else []) msg.content ∷ []))
  unfolding stream_msgs header_msg
  stream_round_trip chunk_size before after s h small q fresh room =
      let ps = cut chunk_size msg.content in
      let few : length ps < 4294967296 =
        omega (arith, length-cut-le chunk_size msg.content h, small) in
      let (s', taken, there, ran, out) = delivers msg a b c d ps before after s q few fresh room in
      (
        ap (λ l. header_msg msg a b c d (length ps) ∷ l) (piece_msgs-number 0 ps),
        (s', taken, ran, rw (concat-cut chunk_size msg.content) at out),
      )
