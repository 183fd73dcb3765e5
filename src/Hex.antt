-- ===== src/Hex.antt =====
-- Hexadecimal numbers, as encoding/hex, fmt and strconv print and read them.
pub mod ReadsBack
use ratnet.Prelude.{
  ℕ, zero, suc, ◌+◌, ◌-◌, ◌*◌, ◌/◌, ◌%◌, ◌^◌, ◌&&◌, Option, none, some, [], ◌∷◌, ◌++◌, ltb, leb,
  if◌then◌else◌, Bytes,
}

-- A hexadecimal digit, in lower case.
unfoldable pub hex_digit : ℕ → ℕ
hex_digit n = if ltb n 10 then 48 + n else 87 + n

-- hex.EncodeToString
unfoldable pub hex_encode : Bytes → Bytes
unfolding hex_digit
hex_encode [] = []
hex_encode (b ∷ bs) = hex_digit (b / 16) ∷ hex_digit (b % 16) ∷ hex_encode bs

unfoldable pub hex_value : ℕ → Option ℕ
hex_value c =
    if leb 48 c && leb c 57
    then some (c - 48)
    else if leb 97 c && leb c 102
    then some (c - 87)
    else if leb 65 c && leb c 70
    then some (c - 55)
    else none

unfoldable pub hex_pair : Option ℕ → Option ℕ → Option Bytes → Option Bytes
hex_pair (some hi) (some lo) (some rest) = some ((16 * hi + lo) ∷ rest)
hex_pair _ _ _ = none

-- hex.DecodeString, `none` for an error.
unfoldable pub hex_decode : Bytes → Option Bytes
unfolding hex_pair hex_value
hex_decode [] = some []
hex_decode (a ∷ []) = none
hex_decode (a ∷ b ∷ rest) = hex_pair (hex_value a) (hex_value b) (hex_decode rest)

-- So many digits of a number, the highest first.
unfoldable pub hex_digits : ℕ → ℕ → Bytes
unfolding hex_digit
hex_digits zero n = []
hex_digits (suc k) n = hex_digits k (n / 16) ++ hex_digit (n % 16) ∷ []

unfoldable pub with_digit : Option ℕ → (ℕ → Option ℕ) → Option ℕ
with_digit none next = none
with_digit (some v) next = next v

unfoldable pub hex_number : ℕ → Bytes → Option ℕ
unfolding with_digit hex_value
hex_number acc [] = some acc
hex_number acc (c ∷ cs) = with_digit (hex_value c) λ v. hex_number (16 * acc + v) cs
