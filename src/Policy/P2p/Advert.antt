-- ===== src/Policy/P2p/Advert.antt =====
-- What a node advertises is what its peers hear.
use ratnet.Prelude.{
  ℕ, zero, suc, ◌+◌, ◌*◌, ◌/◌, ◌%◌, ◌^◌, ◌<◌, ◌≡◌, refl, true, false, some, [], ◌∷◌, ◌++◌, length,
  length-append, ltb, lt→ltb, ◌==◌, Bytes, All, arith,
}
use ratnet.Go.{returned}
use ratnet.Hex.{hex_digit, hex_encode}
use ratnet.Hex.ReadsBack.{IsByte, hex_decode-hex_encode}
use ratnet.Policy.P2p.{
  label, put_le, le_value, Heard, nothing, hear_target, with_rank, hear_rank, rn, ng, hear_question,
  hear_more, hear, local, advert,
}

hex_digit_dot : (n : ℕ) → (hex_digit n == 46) ≡ false
unfolding hex_digit
hex_digit_dot n = ground arith

pub label-hex_encode : (bs : Bytes) → label (hex_encode bs ++ local) ≡ hex_encode bs
unfolding label hex_encode
label-hex_encode [] = refl
label-hex_encode (b ∷ bs) = rw (hex_digit_dot (b / 16), hex_digit_dot (b % 16), label-hex_encode bs)

le_value-put_le : (k x : ℕ) → x < 256 ^ k → le_value k (put_le k x) ≡ some x
unfolding le_value put_le
le_value-put_le zero x h = ground arith
le_value-put_le (suc k) x h =
    let whole : x % 256 + 256 * (x / 256) ≡ x = omega arith in
    let less : x / 256 < 256 ^ k = omega arith in rw (le_value-put_le k (x / 256) less, whole)

put_le-IsByte : (k x : ℕ) → All IsByte (put_le k x)
unfolding put_le
put_le-IsByte zero x = tt
put_le-IsByte (suc k) x = (omega arith, put_le-IsByte k (x / 256))

-- A name with one of the two prefixes.
pub long_name : (a b c : ℕ) (bs : Bytes) → ltb 3 (length (a ∷ b ∷ c ∷ (bs ++ local))) ≡ true
long_name a b c bs = lt→ltb _ _ (omega (arith, length-append bs local))

hear_question-rn :
    (address : Bytes) (h : Heard)
    → All IsByte address
    → hear_question (rn ++ (hex_encode address ++ local)) h
      ≡ returned (record h { target = address })
unfolding hear_question hear_target
hear_question-rn address h a = rw (
  long_name 114 110 46 (hex_encode address),
  label-hex_encode address,
  hex_decode-hex_encode address a,
)

hear_question-ng :
    (rank : ℕ) (h : Heard)
    → rank < 2 ^ 64
    → hear_question (ng ++ (hex_encode (put_le 8 rank) ++ local)) h
      ≡ returned (record h { rank = rank })
unfolding hear_question hear_rank with_rank
hear_question-ng rank h r = rw (
  long_name 110 103 46 (hex_encode (put_le 8 rank)),
  label-hex_encode (put_le 8 rank),
  hex_decode-hex_encode (put_le 8 rank) (put_le-IsByte 8 rank),
  le_value-put_le 8 rank (omega arith),
)

-- What a node advertises is heard as its address and its rank, for an address of bytes and a rank of
-- 64 bits.
pub hear-advert :
    (address : Bytes) (rank : ℕ)
    → All IsByte address
    → rank < 2 ^ 64
    → hear (advert address rank) nothing ≡ returned (record { target = address; rank = rank })
unfolding hear hear_more advert nothing
hear-advert address rank a r = rw (
  hear_question-rn address nothing a,
  hear_question-ng rank (record nothing { target = address }) r,
)
