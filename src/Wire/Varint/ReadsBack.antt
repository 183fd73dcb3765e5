-- ===== src/Wire/Varint/ReadsBack.antt =====
-- `ReadUvarint` and `Uvarint` read back what `PutUvarint` wrote.
use ratnet.Prelude.{ℕ, zero, suc, ◌+◌, ◌*◌, ◌/◌, ◌%◌, ◌^◌, ◌<◌, ◌≡◌, ap, ◌++◌, arith, Bytes}
use ratnet.Wire.Varint.{put_loop, put_uvarint, done, read_loop, read_uvarint, slice_loop, uvarint}
use native.Mathlib.Nat.{div-add-mod}

-- The largest number that fits in `k` groups and one more bit.
abbrev room : ℕ → ℕ
room zero = 2
room (suc k) = 128 * room k

split_weight : (x w a : ℕ) → a + x % 128 * w + x / 128 * (w * 128) ≡ a + x * w
split_weight x w a = omega (arith, ap (λ (t : ℕ). t * w) (div-add-mod x 128))

read_loop-put_loop :
    (k x a w : ℕ) (rest : Bytes)
    → x < room k
    → read_loop (suc k) a w (put_loop (suc k) x ++ rest) ≡ done (a + x * w) rest
unfolding read_loop put_loop
read_loop-put_loop zero x a w rest h = ground arith
read_loop-put_loop (suc k) x a w rest h =
    ground
      (arith, split_weight x w a, read_loop-put_loop k (x / 128) (a + x % 128 * w) (w * 128) rest)

slice_loop-put_loop :
    (k i x a w : ℕ) (rest : Bytes)
    → i + k ≡ 9
    → x < room k
    → slice_loop i a w (put_loop (suc k) x ++ rest) ≡ done (a + x * w) rest
unfolding slice_loop put_loop
slice_loop-put_loop zero i x a w rest e h = ground arith
slice_loop-put_loop (suc k) i x a w rest e h = ground (
  arith,
  split_weight x w a,
  slice_loop-put_loop k (suc i) (x / 128) (a + x % 128 * w) (w * 128) rest,
)

pub read_uvarint-put_uvarint :
    (x : ℕ) (rest : Bytes) → x < 2 ^ 64 → read_uvarint (put_uvarint x ++ rest) ≡ done x rest
unfolding read_uvarint put_uvarint
read_uvarint-put_uvarint x rest h = ground (arith, read_loop-put_loop 9 x 0 1 rest)

pub uvarint-put_uvarint :
    (x : ℕ) (rest : Bytes) → x < 2 ^ 64 → uvarint (put_uvarint x ++ rest) ≡ done x rest
unfolding uvarint put_uvarint
uvarint-put_uvarint x rest h = ground (arith, slice_loop-put_loop 9 0 x 0 1 rest)
