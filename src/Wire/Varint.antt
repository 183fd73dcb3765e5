-- ===== src/Wire/Varint.antt =====
-- The variable-length integers of Go's encoding/binary, which api/remoting.go uses for every length.
-- In `PutUvarint` the first argument counts the bytes that the 10-byte buffer has left.
pub mod ReadsBack
pub mod Bounds
use ratnet.Prelude.{
  ℕ, zero, suc, ◌+◌, ◌*◌, ◌/◌, ◌%◌, ◌&&◌, ◌||◌, [], ◌∷◌, ltb, ◌==◌, if◌then◌else◌, Bytes,
}

put_loop : ℕ → ℕ → Bytes
put_loop zero x = []
put_loop (suc k) x =
    let more = put_loop k (x / 128) in if ltb x 128 then x ∷ [] else (x % 128 + 128) ∷ more

unfoldable pub put_uvarint : ℕ → Bytes
unfolding put_loop
put_uvarint x = put_loop 10 x

-- How a varint is read: its value and what follows it, or the input ends, or it has too many bits.
pub data Uvarint : Type 0 where
  done : ℕ → Bytes → Uvarint
  short overflow : Uvarint

-- `binary.ReadUvarint`: at most 10 bytes. `w` is the weight of the next group.
read_loop : ℕ → ℕ → ℕ → Bytes → Uvarint
read_loop zero x w bs = overflow
read_loop (suc k) x w [] = short
read_loop (suc k) x w (b ∷ bs) =
    let more = read_loop k (x + b % 128 * w) (w * 128) bs in
    if ltb b 128 then (if k == 0 && ltb 1 b then overflow else done (x + b * w) bs) else more

unfoldable pub read_uvarint : Bytes → Uvarint
unfolding read_loop
read_uvarint bs = read_loop 10 0 1 bs

-- `binary.Uvarint`: it looks for the last byte past the tenth too, and then reports an overflow.
slice_loop : ℕ → ℕ → ℕ → Bytes → Uvarint
slice_loop i x w [] = short
slice_loop i x w (b ∷ bs) =
    let more = slice_loop (suc i) (x + b % 128 * w) (w * 128) bs in
    if ltb b 128
    then (if ltb 9 i || (i == 9 && ltb 1 b) then overflow else done (x + b * w) bs)
    else more

unfoldable pub uvarint : Bytes → Uvarint
unfolding slice_loop
uvarint bs = slice_loop 0 0 1 bs
