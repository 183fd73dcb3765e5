-- ===== src/Router/Crc.antt =====
-- Go's hash/crc32 with the IEEE polynomial, bit by bit.
use Prim.Native.Nat.{bit_xor}
use ratnet.Prelude.{ℕ, zero, suc, ◌/◌, ◌%◌, ◌≡◌, refl, [], ◌∷◌, ◌==◌, if◌then◌else◌, Bytes}

crc_bit : ℕ → ℕ
crc_bit c = if c % 2 == 1 then bit_xor (c / 2) 0xedb8_8320 else c / 2

crc_bits : ℕ → ℕ → ℕ
crc_bits zero c = c
crc_bits (suc n) c = crc_bits n (crc_bit c)

crc_byte : ℕ → ℕ → ℕ
crc_byte c b = crc_bits 8 (bit_xor c b)

crc_bytes : ℕ → Bytes → ℕ
crc_bytes c [] = c
crc_bytes c (b ∷ bs) = crc_bytes (crc_byte c b) bs

unfoldable pub checksum_ieee : Bytes → ℕ
unfolding crc_bytes crc_byte crc_bits crc_bit
checksum_ieee bs = bit_xor (crc_bytes 0xffff_ffff bs) 0xffff_ffff

-- The check value of the polynomial, on the digits 1 to 9.
check_value :
    checksum_ieee (0x31 ∷ 0x32 ∷ 0x33 ∷ 0x34 ∷ 0x35 ∷ 0x36 ∷ 0x37 ∷ 0x38 ∷ 0x39 ∷ []) ≡ 0xcbf4_3926
unfolding checksum_ieee
check_value = refl
