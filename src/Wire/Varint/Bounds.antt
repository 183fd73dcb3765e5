-- ===== src/Wire/Varint/Bounds.antt =====
-- Sizes: a varint is 1 to 10 bytes long, and reading one takes at least a byte.
use ratnet.Prelude.{
  ℕ, zero, suc, ◌+◌, ◌*◌, ◌/◌, ◌%◌, ◌<◌, ◌≤◌, ◌≡◌, [], ◌∷◌, ◌++◌, arith, Bytes, length,
}
use ratnet.Wire.Varint.{put_loop, put_uvarint, done, read_loop, read_uvarint, slice_loop, uvarint}

put_loop_bounds :
    (k x : ℕ) → (1 ≤ length (put_loop (suc k) x)) × (length (put_loop (suc k) x) ≤ k + 1)
unfolding put_loop
put_loop_bounds zero x = ground arith
put_loop_bounds (suc k) x = ground (arith, put_loop_bounds k (x / 128))

pub put_uvarint_bounds : (x : ℕ) → (1 ≤ length (put_uvarint x)) × (length (put_uvarint x) ≤ 10)
unfolding put_uvarint
put_uvarint_bounds x = ground (arith, put_loop_bounds 9 x)

read_loop_takes :
    (k a w v : ℕ) (bs rest : Bytes) → read_loop k a w bs ≡ done v rest → length rest < length bs
unfolding read_loop
read_loop_takes zero a w v bs rest h = ground arith
read_loop_takes (suc k) a w v [] rest h = ground arith
read_loop_takes (suc k) a w v (b ∷ bs) rest h =
    ground (arith, read_loop_takes k (a + b % 128 * w) (w * 128) v bs rest)

pub read_uvarint_takes :
    (v : ℕ) (bs rest : Bytes) → read_uvarint bs ≡ done v rest → length rest < length bs
unfolding read_uvarint
read_uvarint_takes v bs rest h = read_loop_takes 10 0 1 v bs rest h

slice_loop_takes :
    (i a w v : ℕ) (bs rest : Bytes) → slice_loop i a w bs ≡ done v rest → length rest < length bs
unfolding slice_loop
slice_loop_takes i a w v [] rest h = ground arith
slice_loop_takes i a w v (b ∷ bs) rest h =
    ground (arith, slice_loop_takes (suc i) (a + b % 128 * w) (w * 128) v bs rest)

pub uvarint_takes : (v : ℕ) (bs rest : Bytes) → uvarint bs ≡ done v rest → length rest < length bs
unfolding uvarint
uvarint_takes v bs rest h = slice_loop_takes 0 0 1 v bs rest h

read_loop-append :
    (k a w v : ℕ) (bs rest more : Bytes)
    → read_loop k a w bs ≡ done v rest
    → read_loop k a w (bs ++ more) ≡ done v (rest ++ more)
unfolding read_loop
read_loop-append zero a w v bs rest more h = cc
read_loop-append (suc k) a w v [] rest more h = cc
read_loop-append (suc k) a w v (b ∷ bs) rest more h =
    ground (arith, read_loop-append k (a + b % 128 * w) (w * 128) v bs rest more)

-- Bytes behind a number do not change it.
pub read_uvarint-append :
    (v : ℕ) (bs rest more : Bytes)
    → read_uvarint bs ≡ done v rest
    → read_uvarint (bs ++ more) ≡ done v (rest ++ more)
unfolding read_uvarint
read_uvarint-append v bs rest more h = read_loop-append 10 0 1 v bs rest more h
