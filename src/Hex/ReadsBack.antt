-- ===== src/Hex/ReadsBack.antt =====
-- What is printed in hexadecimal is read back.
use ratnet.Prelude.{
  ℕ, zero, suc, ◌+◌, ◌*◌, ◌/◌, ◌%◌, ◌^◌, ◌<◌, ◌≡◌, refl, ap, ◌∙◌, some, [], ◌∷◌, ◌++◌, append_assoc,
  Bytes, All, arith,
}
use native.Mathlib.Nat.{mul_assoc}
use ratnet.Hex.{
  with_digit, hex_digit, hex_encode, hex_value, hex_pair, hex_decode, hex_digits, hex_number,
}

abbrev pub IsByte : ℕ → Type 0
IsByte b = b < 256

pub hex_value-hex_digit : (n : ℕ) → n < 16 → hex_value (hex_digit n) ≡ some n
unfolding hex_value hex_digit
hex_value-hex_digit n h = ground arith

pub hex_decode-hex_encode : (bs : Bytes) → All IsByte bs → hex_decode (hex_encode bs) ≡ some bs
unfolding hex_decode hex_encode hex_pair
hex_decode-hex_encode [] a = refl
hex_decode-hex_encode (b ∷ bs) (hb, a) =
    let whole : 16 * (b / 16) + b % 16 ≡ b = omega arith in
    rw (
      hex_value-hex_digit (b / 16) (omega arith),
      hex_value-hex_digit (b % 16) (omega arith),
      hex_decode-hex_encode bs a,
      whole,
    )

next_digit :
    (acc d : ℕ) (rest : Bytes)
    → d < 16
    → hex_number acc (hex_digit d ∷ rest) ≡ hex_number (16 * acc + d) rest
unfolding hex_number
next_digit acc d rest h =
    ap (λ o. with_digit o (λ v. hex_number (16 * acc + v) rest)) (hex_value-hex_digit d h)

shifted : (k n acc : ℕ) → 16 * (16 ^ k * acc + n / 16) + n % 16 ≡ 16 ^ suc k * acc + n
shifted k n acc =
    let pow : 16 ^ suc k ≡ 16 * 16 ^ k = omega arith in
    let assoc : 16 * 16 ^ k * acc ≡ 16 * (16 ^ k * acc) = mul_assoc 16 (16 ^ k) acc in
    rw pow (omega (arith, assoc))

pub hex_number-hex_digits :
    (k n acc : ℕ) (rest : Bytes)
    → n < 16 ^ k
    → hex_number acc (hex_digits k n ++ rest) ≡ hex_number (16 ^ k * acc + n) rest
unfolding hex_digits
hex_number-hex_digits zero n acc rest h =
    let e : acc ≡ 16 ^ 0 * acc + n = omega arith in ap (λ a. hex_number a rest) e
hex_number-hex_digits (suc k) n acc rest h =
    let less : n / 16 < 16 ^ k = omega arith in
    let digit = hex_digit (n % 16) in
    ap (hex_number acc) (append_assoc (hex_digits k (n / 16)) (digit ∷ []) rest)
    ∙ hex_number-hex_digits k (n / 16) acc (digit ∷ rest) less
    ∙ next_digit (16 ^ k * acc + n / 16) (n % 16) rest (omega arith)
    ∙ ap (λ a. hex_number a rest) (shifted k n acc)
