-- ===== src/Chunking.antt =====
-- Cutting messages into chunks: api/chunking/chunking.go. A 32-bit number is a ℕ below 2 ^ 32, and
-- the code's arithmetic on it wraps around.
pub mod Pieces
pub mod Sent
pub mod Sizes
use ratnet.Prelude.{
  ℕ, zero, suc, ◌+◌, ◌-◌, ◌*◌, ◌/◌, ◌%◌, Bool, true, false, ◌&&◌, List, [], ◌∷◌, ◌++◌, take, drop,
  length, ltb, leb, ◌==◌, if◌then◌else◌, Bytes, Option, some, none, min,
}
use ratnet.Go.{
  Outcome, returned, panicked, Action, pure, fail, panic, continue, ◌>>=◌, ◌>>◌, Failure,
}
use ratnet.Api.{Msg}

-- What this code calls of a node.
pub record ChunkNode (S Pub : Type 0) : Type 0 where
  pub send_msg : Msg Pub → Action S Unit
  pub add_stream : ℕ → ℕ → Bytes → Action S Unit
  pub add_chunk : ℕ → ℕ → Bytes → Action S Unit

unfoldable pub u32 : ℕ → ℕ
u32 n = n % 4294967296

-- binary.Write of a 32-bit number, little-endian.
unfoldable pub put_le32 : ℕ → Bytes
put_le32 n = n % 256 ∷ (n / 256 % 256) ∷ (n / 65536 % 256) ∷ (n / 16777216 % 256) ∷ []

-- binary.Read of the same.
unfoldable pub le32 : ℕ → ℕ → ℕ → ℕ → ℕ
le32 a b c d = a + 256 * b + 65536 * c + 16777216 * d

smallest : List ℕ → ℕ → ℕ
unfolding u32
smallest [] chunk_size = chunk_size
smallest (limit ∷ limits) chunk_size =
    let l = u32 limit in smallest limits (if ltb l chunk_size then l else chunk_size)

-- `ChunkSize`, from the byte limits of the policies' transports. `events.Critical` panics in a
-- release build.
unfoldable pub chunk_size : List ℕ → Outcome ℕ
unfolding smallest
chunk_size limits =
    let c = smallest limits 65536 in if leb c 132 then panicked else returned (c - 132)

-- buf[lo:hi], `none` where that panics.
unfoldable pub slice : ℕ → ℕ → Bytes → Option Bytes
slice lo hi buf =
    if leb lo hi && leb hi (length buf) then some (take (hi - lo) (drop lo buf)) else none

-- One message of a stream, on the way of `msg`.
unfoldable pub stream_msg : {Pub : Type 0} → Msg Pub → Bool → Bytes → Msg Pub
stream_msg msg header content = record {
  name = msg.name;
  content = content;
  is_chan = msg.is_chan;
  pub_key = msg.pub_key;
  chunked = true;
  stream_header = header;
}

module _ {S Pub : Type 0} (node : ChunkNode S Pub) where
  unfoldable pub send_piece : Msg Pub → Bytes → ℕ → Option Bytes → Action S Unit
  unfolding stream_msg put_le32
  send_piece msg stream_id i none = panic
  send_piece msg stream_id i (some piece) =
      node.send_msg (stream_msg msg false (stream_id ++ (put_le32 i ++ piece)))

  -- The rounds left, and the index.
  unfoldable pub send_whole : Msg Pub → Bytes → ℕ → ℕ → ℕ → Action S Unit
  unfolding send_piece slice u32
  send_whole msg stream_id size zero i = pure tt
  send_whole msg stream_id size (suc n) i =
      let lo = u32 (i * size) in
      send_piece msg stream_id i (slice lo (u32 (lo + size)) msg.content)
      >> send_whole msg stream_id size n (suc i)

  unfoldable pub send_rest : Msg Pub → Bytes → ℕ → ℕ → ℕ → Action S Unit
  unfolding send_piece slice u32
  send_rest msg stream_id size whole zero = pure tt
  send_rest msg stream_id size whole (suc remainder) =
      send_piece msg stream_id whole (slice (u32 (whole * size)) (length msg.content) msg.content)

  -- `random` is what `GenerateRandomBytes` returns.
  unfoldable pub send_stream : Option Bytes → Msg Pub → ℕ → ℕ → ℕ → ℕ → Action S Unit
  unfolding send_whole send_rest
  send_stream none msg size whole remainder total = fail Failure.no_random
  send_stream (some stream_id) msg size whole remainder total =
      node.send_msg (stream_msg msg true (stream_id ++ put_le32 total))
      >> (send_whole msg stream_id size whole 0 >> send_rest msg stream_id size whole remainder)

  unfoldable pub send_chunked : Option Bytes → ℕ → Msg Pub → Action S Unit
  unfolding send_stream
  send_chunked random chunk_size' msg =
      let len = u32 (length msg.content) in
      -- chunkSize - 8
      let size = u32 (chunk_size' + 4294967288) in
      let whole = len / size in
      let remainder = len % size in
      let total = if remainder == 0 then whole else suc whole in
      if size == 0
      then panic
      else if u32 (whole + remainder) == 0
      then pure tt
      else send_stream random msg size whole remainder total

  unfoldable pub handle_content : Bool → Bytes → Bytes → Action S Unit
  unfolding le32
  handle_content false channel (a ∷ b ∷ c ∷ d ∷ e ∷ f ∷ g ∷ h ∷ rest) =
      node.add_chunk (le32 a b c d) (le32 e f g h) rest
  handle_content true channel (a ∷ b ∷ c ∷ d ∷ e ∷ f ∷ g ∷ h ∷ rest) =
      node.add_stream (le32 a b c d) (le32 e f g h) channel
  handle_content _ channel _ = panic

  -- The numbers at the front of the content, and what is behind them. A content of fewer than 8
  -- bytes panics at a slice; for a stream header the capacity of its content is taken to be its
  -- length.
  unfoldable pub handle_chunked : Msg Pub → Action S Unit
  unfolding handle_content
  handle_chunked msg =
      handle_content msg.stream_header (if msg.is_chan then msg.name else []) msg.content
