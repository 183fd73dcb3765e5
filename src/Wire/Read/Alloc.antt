-- ===== src/Wire/Read/Alloc.antt =====
-- A length that cannot be allocated.
use ratnet.Prelude.{ℕ, ◌^◌, ◌<◌, ◌≡◌, ◌++◌, arith, Bytes}
use ratnet.Wire.Varint.{put_uvarint}
use ratnet.Wire.Varint.ReadsBack.{read_uvarint-put_uvarint}
use ratnet.Wire.Read.{panic, max_alloc, read_lv, lv_of, alloc_and_fill}

-- `readLV` allocates before it reads, so what follows the length does not matter.
pub read_lv_huge :
    (l : ℕ) (rest : Bytes) → max_alloc < l → l < 2 ^ 64 → read_lv (put_uvarint l ++ rest) ≡ panic
unfolding read_lv lv_of alloc_and_fill
read_lv_huge l rest h hl = rw (read_uvarint-put_uvarint l rest hl) (ground arith)
