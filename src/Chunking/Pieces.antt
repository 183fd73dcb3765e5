-- ===== src/Chunking/Pieces.antt =====
-- The messages that `SendChunked` sends, as a list.
use ratnet.Prelude.{
  ℕ, zero, suc, ◌+◌, ◌-◌, ◌*◌, ◌<◌, ◌≤◌, ◌≡◌, refl, sym, ap, ◌∙◌, true, false, ◌&&◌, List, [], ◌∷◌,
  ◌++◌, take, drop, length, length-drop, take-append-drop, take_all, drop_plus, leb, Bytes, some,
  arith, append-nil,
}
use native.Mathlib.Nat.{suc-mul, mul-le-mul_right}
use ratnet.Go.{Action, pure, continue, ◌>>◌, continue_assoc, continue_ext, continue-pure}
use ratnet.Api.{Msg}
use ratnet.Chunking.{ChunkNode, u32, put_le32, slice, stream_msg, send_piece, send_whole, send_rest}

-- `n` pieces of `size` bytes, and what is left when it is not empty.
unfoldable pub pieces : ℕ → ℕ → Bytes → List Bytes
pieces size zero [] = []
pieces size zero (b ∷ bs) = (b ∷ bs) ∷ []
pieces size (suc n) buf = take size buf ∷ pieces size n (drop size buf)

unfoldable pub concat : List Bytes → Bytes
concat [] = []
concat (p ∷ ps) = p ++ concat ps

pub concat-pieces : (size n : ℕ) (buf : Bytes) → concat (pieces size n buf) ≡ buf
unfolding concat pieces
concat-pieces size zero [] = refl
concat-pieces size zero (b ∷ bs) = append-nil (b ∷ bs)
concat-pieces size (suc n) buf =
    rw (concat-pieces size n (drop size buf)) (take-append-drop size buf)

module _ {Pub : Type 0} (msg : Msg Pub) (stream_id : Bytes) where
  -- The messages of pieces, numbered from `i`.
  unfoldable pub piece_msgs : ℕ → List Bytes → List (Msg Pub)
  piece_msgs i [] = []
  piece_msgs i (p ∷ ps) =
      stream_msg msg false (stream_id ++ (put_le32 i ++ p)) ∷ piece_msgs (suc i) ps

  -- A header that counts the pieces, and the pieces.
  unfoldable pub stream_msgs : List Bytes → List (Msg Pub)
  stream_msgs ps = stream_msg msg true (stream_id ++ put_le32 (length ps)) ∷ piece_msgs 0 ps

-- One after the other, up to the first that fails.
unfoldable pub send_all : {S Pub : Type 0} → ChunkNode S Pub → List (Msg Pub) → Action S Unit
send_all node [] = pure tt
send_all node (m ∷ ms) = node.send_msg m >> send_all node ms

slice_whole :
    (lo size : ℕ) (buf : Bytes)
    → lo + size ≤ length buf
    → slice lo (lo + size) buf ≡ some (take size (drop lo buf))
unfolding slice
slice_whole lo size buf h =
    let e : lo + size - lo ≡ size = omega arith in
    let b : (leb lo (lo + size) && leb (lo + size) (length buf)) ≡ true = ground arith in rw (b, e)

slice_end :
    (lo : ℕ) (buf : Bytes) → lo ≤ length buf → slice lo (length buf) buf ≡ some (drop lo buf)
unfolding slice
slice_end lo buf h =
    let b : (leb lo (length buf) && leb (length buf) (length buf)) ≡ true = ground arith in
    rw (b, take_all (length buf - lo) (drop lo buf) (omega (arith, length-drop lo buf)))

pub u32_small : (n : ℕ) → n < 4294967296 → u32 n ≡ n
unfolding u32
u32_small n h = omega arith

-- The content is `whole` pieces of `size` bytes and `remainder` bytes.
pub record IsCut {Pub : Type 0} (msg : Msg Pub) (size whole remainder : ℕ) : Type 0 where
  pub len : length msg.content ≡ whole * size + remainder
  pub small : length msg.content < 4294967296

last_fits : (i n whole size : ℕ) → i + suc n ≡ whole → i * size + size ≤ whole * size
last_fits i n whole size e =
    let next : suc i ≤ whole = omega (arith, e) in
    let m = mul-le-mul_right size next in omega (arith, m, suc-mul i size)

module _ {S Pub : Type 0} (node : ChunkNode S Pub) (msg : Msg Pub) (stream_id : Bytes) where
  send_piece_lem :
      (i : ℕ) (p : Bytes) (s : S)
      → send_piece node msg stream_id i (some p) s
        ≡ send_all node (piece_msgs msg stream_id i (p ∷ [])) s
  unfolding send_piece send_all piece_msgs
  send_piece_lem i p s =
      sym (continue-pure (node.send_msg (stream_msg msg false (stream_id ++ (put_le32 i ++ p))) s))

  send_rest_lem :
      (size whole remainder : ℕ) (d : Bytes) (s : S)
      → length d ≡ remainder
      → drop (whole * size) msg.content ≡ d
      → IsCut msg size whole remainder
      → send_rest node msg stream_id size whole remainder s
        ≡ send_all node (piece_msgs msg stream_id whole (pieces size 0 d)) s
  unfolding send_rest send_all piece_msgs pieces
  send_rest_lem size whole zero [] s e h c = refl
  send_rest_lem size whole zero (b ∷ d) s e h c = absurd (omega (arith, e))
  send_rest_lem size whole (suc r) [] s e h c = absurd (omega (arith, e))
  send_rest_lem size whole (suc r) (b ∷ d) s e h c =
      let at : u32 (whole * size) ≡ whole * size =
        u32_small (whole * size) (omega (arith, c.len, c.small)) in
      let cut : slice (whole * size) (length msg.content) msg.content ≡ some (b ∷ d) =
        slice_end (whole * size) msg.content (omega (arith, c.len)) ∙ ap some h in
      rw (at, cut) (send_piece_lem whole (b ∷ d) s)

  pub send_whole_lem :
      (size whole remainder n i : ℕ) (s : S)
      → i + n ≡ whole
      → IsCut msg size whole remainder
      → continue
          (send_whole node msg stream_id size n i s)
          (λ _. send_rest node msg stream_id size whole remainder)
        ≡ send_all node (piece_msgs msg stream_id i (pieces size n (drop (i * size) msg.content))) s
  unfolding send_whole send_all piece_msgs pieces
  send_whole_lem size whole r zero i s e c =
      let e' : i ≡ whole = omega (arith, e) in
      rw e' (
        send_rest_lem size whole r (drop (whole * size) msg.content) s
          (omega (arith, length-drop (whole * size) msg.content, c.len)) refl c)
  send_whole_lem size whole r (suc n) i s e c =
      let fits = last_fits i n whole size e in
      let lo : u32 (i * size) ≡ i * size =
        u32_small (i * size) (omega (arith, c.len, c.small, fits)) in
      let hi : u32 (i * size + size) ≡ i * size + size =
        u32_small (i * size + size) (omega (arith, c.len, c.small, fits)) in
      let cut = slice_whole (i * size) size msg.content (omega (arith, c.len, fits)) in
      let next : drop (suc i * size) msg.content ≡ drop size (drop (i * size) msg.content) =
        rw (suc-mul i size) (drop_plus (i * size) size msg.content) in
      let ih = λ (s' : S). send_whole_lem size whole r n (suc i) s' (omega (arith, e)) c in
      let piece = take size (drop (i * size) msg.content) in
      let sent = send_piece node msg stream_id i (some piece) s in
      let rest : (s' : S)
          → continue (send_whole node msg stream_id size n (suc i) s')
              (λ _. send_rest node msg stream_id size whole r)
            ≡ send_all node
                (piece_msgs msg stream_id (suc i)
                  (pieces size n (drop size (drop (i * size) msg.content))))
                s' =
        λ s'. rw next at ih s' in
      rw (lo, hi, cut) (continue_assoc sent _ _ ∙ continue_ext sent _ _ (λ _ s'. rest s'))
