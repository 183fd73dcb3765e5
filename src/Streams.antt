-- ===== src/Streams.antt =====
-- Putting chunked messages together in the node in memory: AddStream and AddChunk of
-- nodes/ram/internal.go, and the function that the debouncer of `Start` runs, nodes/ram/admin.go. A
-- mutex makes each one step; the node has been started.
pub mod Chunks
pub mod Delivers
pub mod RoundTrip
pub mod Gaps
mod Runs
use ratnet.Prelude.{
  ℕ, zero, suc, Bool, true, false, Option, some, none, List, [], ◌∷◌, ◌++◌, length, ltb, ◌==◌, not,
  if◌then◌else◌, Bytes, Map, lookup, insert, nat_eq,
}
use ratnet.Go.{Outcome, returned, panicked, Action, pure, panic, continue, ◌>>=◌, ◌>>◌}
use ratnet.Api.{Msg, StreamHeader, Chunk}
use ratnet.Chunking.{u32, ChunkNode}

-- A stream that has been delivered is nil. `out` is what is in the buffer of `Out`.
pub record Streams (Pub : Type 0) : Type 0 where
  pub streams : Map ℕ (Option StreamHeader)
  pub chunks : Map ℕ (Map ℕ Chunk)
  pub out : List (Msg Pub)

abbrev pub out_buffer_size : ℕ
out_buffer_size = 128

unfoldable pub or_empty : Option (Map ℕ Chunk) → Map ℕ Chunk
or_empty none = []
or_empty (some m) = m

-- node.chunks[streamID], where a missing map is nil, which reads as an empty one.
unfoldable pub chunks_of : ℕ → Map ℕ (Map ℕ Chunk) → Map ℕ Chunk
unfolding lookup or_empty
chunks_of stream_id all = or_empty (lookup stream_id all)

unfoldable pub joined : Option Chunk → Option Bytes → Option Bytes
joined none rest = none
joined (some c) none = none
joined (some c) (some bs) = some (c.payload ++ bs)

-- The chunks from `i` on, put together; `none` where one is missing.
unfoldable pub gather : ℕ → ℕ → Map ℕ Chunk → Option Bytes
unfolding lookup joined
gather zero i m = some []
gather (suc n) i m = joined (lookup i m) (gather n (suc i) m)

module _ {Pub : Type 0} where
  unfoldable pub add_stream : ℕ → ℕ → Bytes → Action (Streams Pub) Unit
  unfolding insert
  add_stream stream_id num_chunks channel s =
      let h : StreamHeader = record {
        stream_id = stream_id;
        num_chunks = num_chunks;
        channel_name = channel;
      } in
      (returned tt, record s { streams = insert stream_id (some h) s.streams })

  unfoldable pub add_chunk : ℕ → ℕ → Bytes → Action (Streams Pub) Unit
  unfolding insert chunks_of
  add_chunk stream_id chunk_num payload s =
      let c : Chunk = record { stream_id = stream_id; chunk_num = chunk_num; payload = payload } in
      (
        returned tt,
        record s {
          chunks = insert stream_id (insert chunk_num c (chunks_of stream_id s.chunks)) s.chunks;
        },
      )

  -- A message of the channel, or a private one where the name is empty.
  unfoldable pub whole_msg : Bytes → Bytes → Msg Pub
  whole_msg channel content = record {
    name = channel;
    content = content;
    is_chan = not (length channel == 0);
    pub_key = none;
    chunked = false;
    stream_header = false;
  }

  -- The send on `Out`, which does not block.
  unfoldable pub deliver : StreamHeader → Option Bytes → Action (Streams Pub) Unit
  unfolding insert whole_msg
  deliver h none s = (panicked, s)
  deliver h (some content) s =
      if ltb (length s.out) out_buffer_size
      then (
        returned tt,
        record {
          streams = insert h.stream_id none s.streams;
          chunks = insert h.stream_id [] s.chunks;
          out = s.out ++ whole_msg h.channel_name content ∷ [];
        },
      )
      else (returned tt, s)

  unfoldable pub assemble_one : Option StreamHeader → Action (Streams Pub) Unit
  unfolding gather deliver u32 chunks_of
  assemble_one none s = (returned tt, s)
  assemble_one (some h) s =
      let m = chunks_of h.stream_id s.chunks in
      if u32 (length m) == h.num_chunks
      then deliver h (gather h.num_chunks 0 m) s
      else (returned tt, s)

  assemble_all : Map ℕ (Option StreamHeader) → Action (Streams Pub) Unit
  unfolding assemble_one
  assemble_all [] = pure tt
  assemble_all ((k, h) ∷ rest) = assemble_one h >> assemble_all rest

  -- What the debouncer runs. Go ranges over the streams in an order of its own choice; here it is
  -- the order in which they came.
  unfoldable pub assemble : Bool → Action (Streams Pub) Unit
  unfolding assemble_all
  assemble false s = (returned tt, s)
  assemble true s = assemble_all s.streams s

  -- The node that chunks are handed to; it does not send.
  abbrev pub receiver : ChunkNode (Streams Pub) Pub
  receiver = record { send_msg = λ _. pure tt; add_stream = add_stream; add_chunk = add_chunk }
