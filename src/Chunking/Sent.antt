-- ===== src/Chunking/Sent.antt =====
-- What `SendChunked` sends, and how large its messages are.
use ratnet.Prelude.{
  ℕ, zero, suc, ◌+◌, ◌-◌, ◌*◌, ◌/◌, ◌%◌, ◌<◌, ◌≤◌, ◌≡◌, refl, sym, true, false, List, [], ◌∷◌, ◌++◌,
  take, drop, length, length-take, length-drop, length-append, ◌==◌, if◌then◌else◌, Bytes, some,
  arith, All, Bool-cases, inl, inr,
}
use native.Mathlib.Nat.{suc-mul, mod-lt, mul-le-mul_left, div-mul-le_self, mod-eq-sub-div-mul}
use ratnet.Go.{continue_ext}
use ratnet.Api.{Msg}
use ratnet.Chunking.{ChunkNode, u32, put_le32, stream_msg, send_stream, send_chunked}
use ratnet.Chunking.Pieces.{
  pieces, concat, concat-pieces, piece_msgs, stream_msgs, send_all, IsCut, u32_small,
  send_whole_lem,
}

-- The pieces for a chunk size that counts the 8 bytes of the chunk header.
abbrev pub cut : ℕ → Bytes → List Bytes
cut chunk_size content = pieces (chunk_size - 8) (length content / (chunk_size - 8)) content

length-pieces :
    (size n r : ℕ) (buf : Bytes)
    → length buf ≡ n * size + r
    → length (pieces size n buf) ≡ (if r == 0 then n else suc n)
unfolding pieces
length-pieces size zero r [] e = let z : r ≡ 0 = omega (arith, e) in rw z
length-pieces size zero r (b ∷ buf) e = let z : (r == 0) ≡ false = ground (arith, e) in rw z
length-pieces size (suc n) r buf e =
    let ih =
      length-pieces size n r (drop size buf)
        (omega (arith, length-drop size buf, suc-mul n size, e)) in
    ground (arith, ih)

div_parts : (n d : ℕ) → 0 < d → n ≡ n / d * d + n % d
div_parts n d h = omega (arith, div-mul-le_self n d, mod-eq-sub-div-mul n d)

some_parts : (n d : ℕ) → 0 < n → n ≡ n / d * d + n % d → (n / d + n % d == 0) ≡ false
some_parts n d h e = elim (Bool-cases (n / d + n % d == 0)) [
  | inl z ↦
      let none_whole : n / d ≡ 0 = ground (arith, z) in
      let e' : n ≡ 0 * d + n % d = rw none_whole at e in absurd (ground (arith, z, e', h))
  | inr z ↦ z
]

module _ {S Pub : Type 0} (node : ChunkNode S Pub) (msg : Msg Pub) (stream_id : Bytes) where
  send_stream_lem :
      (size whole r : ℕ) (s : S)
      → IsCut msg size whole r
      → send_stream node (some stream_id) msg size whole r (if r == 0 then whole else suc whole) s
        ≡ send_all node (stream_msgs msg stream_id (pieces size whole msg.content)) s
  unfolding send_stream send_all stream_msgs
  send_stream_lem size whole r s c =
      let count = length-pieces size whole r msg.content c.len in
      let start : 0 * size ≡ 0 = omega arith in
      let whole_sent =
        λ (s' : S). send_whole_lem node msg stream_id size whole r whole 0 s' (omega arith) c in
      let header =
        node.send_msg
          (stream_msg msg true (stream_id ++ put_le32 (length (pieces size whole msg.content))))
          s in
      rw (sym count) (continue_ext header _ _ (λ _ s'. rw start at whole_sent s'))

  -- A content that is not empty goes out as one header, which counts the pieces, and the pieces in
  -- order, up to the first send that fails. The chunk size is above 8, and it and the length of the
  -- content are below 2 ^ 32.
  pub send_chunked_pieces :
      (chunk_size : ℕ) (s : S)
      → 8 < chunk_size
      → chunk_size < 4294967296
      → 0 < length msg.content
      → length msg.content < 4294967296
      → send_chunked node (some stream_id) chunk_size msg s
        ≡ send_all node (stream_msgs msg stream_id (cut chunk_size msg.content)) s
  unfolding send_chunked
  send_chunked_pieces chunk_size s h₁ h₂ h₃ h₄ =
      let size = chunk_size - 8 in
      let n = length msg.content in
      let parts = div_parts n size (omega (arith, h₁)) in
      let positive : 1 ≤ size = omega (arith, h₁) in
      let whole_le = mul-le-mul_left (n / size) positive in
      let e₁ : u32 (chunk_size + 4294967288) ≡ size = omega (arith, h₁, h₂) in
      let e₂ : u32 n ≡ n = u32_small n h₄ in
      let nonzero : (size == 0) ≡ false = ground (arith, h₁) in
      let e₃ : u32 (n / size + n % size) ≡ n / size + n % size =
        u32_small _ (omega (arith, parts, whole_le, h₄)) in
      let some_sent : (n / size + n % size == 0) ≡ false = some_parts n size h₃ parts in
      rw (e₁, e₂, nonzero, e₃, some_sent)
        (send_stream_lem size (n / size) (n % size) s (record { len = parts; small = h₄ }))

-- What the pieces hold together, and that no message of a stream is above the chunk size.
pub concat-cut : (chunk_size : ℕ) (content : Bytes) → concat (cut chunk_size content) ≡ content
concat-cut chunk_size content =
    concat-pieces (chunk_size - 8) (length content / (chunk_size - 8)) content

abbrev pub Within : {Pub : Type 0} → ℕ → Msg Pub → Type 0
Within chunk_size m = length m.content ≤ chunk_size

length-put_le32 : (n : ℕ) → length (put_le32 n) ≡ 4
unfolding put_le32
length-put_le32 n = refl

content_le :
    (stream_id p : Bytes) (size i : ℕ)
    → length stream_id ≡ 4
    → length p ≤ size
    → length (stream_id ++ (put_le32 i ++ p)) ≤ size + 8
content_le stream_id p size i h l = omega (
  arith,
  length-append stream_id (put_le32 i ++ p),
  length-append (put_le32 i) p,
  length-put_le32 i,
  h,
  l,
)

piece_msgs-Within :
    {Pub : Type 0} (msg : Msg Pub) (stream_id : Bytes) (size n r i : ℕ) (buf : Bytes)
    → length stream_id ≡ 4
    → length buf ≡ n * size + r
    → r < size
    → All (Within (size + 8)) (piece_msgs msg stream_id i (pieces size n buf))
unfolding piece_msgs pieces stream_msg
piece_msgs-Within msg stream_id size zero r i [] h e l = tt
piece_msgs-Within msg stream_id size zero r i (b ∷ buf) h e l =
    (content_le stream_id (b ∷ buf) size i h (omega (arith, e, l)), tt)
piece_msgs-Within msg stream_id size (suc n) r i buf h e l = (
  content_le stream_id (take size buf) size i h (omega (arith, length-take size buf)),
  piece_msgs-Within msg stream_id size n r (suc i) (drop size buf) h
      (omega (arith, length-drop size buf, suc-mul n size, e)) l,
)

-- Where a stream identifier has 4 bytes, no message of a stream is longer than the chunk size, so
-- that `SendMsg` does not cut it again.
pub stream_msgs-Within :
    {Pub : Type 0} (msg : Msg Pub) (stream_id : Bytes) (chunk_size : ℕ)
    → length stream_id ≡ 4
    → 8 < chunk_size
    → All (Within chunk_size) (stream_msgs msg stream_id (cut chunk_size msg.content))
unfolding stream_msgs stream_msg
stream_msgs-Within msg stream_id chunk_size h₁ h₂ =
    let size = chunk_size - 8 in
    let n = length msg.content in
    let parts = div_parts n size (omega (arith, h₂)) in
    let back : size + 8 ≡ chunk_size = omega (arith, h₂) in
    let small : n % size < size = mod-lt n (omega (arith, h₂)) in
    let tail =
      piece_msgs-Within msg stream_id size (n / size) (n % size) 0 msg.content h₁ parts small in
    (
      omega (
        arith,
        length-append stream_id (put_le32 (length (cut chunk_size msg.content))),
        length-put_le32 (length (cut chunk_size msg.content)),
        h₁,
        h₂,
      ),
      rw back at tail,
    )

pub length-cut-le :
    (chunk_size : ℕ) (content : Bytes)
    → 8 < chunk_size
    → length (cut chunk_size content) ≤ length content
length-cut-le chunk_size content h =
    let size = chunk_size - 8 in
    let n = length content in
    let parts = div_parts n size (omega (arith, h)) in
    let positive : 1 ≤ size = omega (arith, h) in
    let whole_le = mul-le-mul_left (n / size) positive in
    let count = length-pieces size (n / size) (n % size) content parts in
    ground (arith, count, parts, whole_le)
