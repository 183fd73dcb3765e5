-- ===== src/Wire/Read.antt =====
-- Reading from a byte stream that is held in memory: the outcomes of api/remoting.go, and `readLV`.
-- A reader is the bytes that it still holds.
pub mod ReadsBack
pub mod Total
pub mod Alloc
use ratnet.Prelude.{
  ℕ, zero, suc, ◌+◌, ◌*◌, ◌^◌, List, [], ◌∷◌, ltb, ◌==◌, if◌then◌else◌, length, take, drop, Bytes,
}
use ratnet.Wire.Varint.{Uvarint, done, short, overflow, read_uvarint, uvarint}

pub data Error : Type 0 where
  eof unexpected_eof varint_overflow input_too_short len_overflow unknown_type bad_key underflow :
      Error

-- `panic` is a Go run-time panic. `out_of_fuel` is no Go value: the model's recursion was cut short.
pub data Result {ℓ} (A : Type ℓ) : Type ℓ where
  ok : A → Result A
  err : Error → Result A
  panic out_of_fuel : Result A

abbrev pub bind {ℓ κ} : {A : Type ℓ} {B : Type κ} → Result A → (A → Result B) → Result B
bind (ok a) f = f a
bind (err e) f = err e
bind panic f = panic
bind out_of_fuel f = out_of_fuel

abbrev pub Reader {ℓ} : Type ℓ → Type ℓ
Reader A = Bytes → Result (A × Bytes)

abbrev pub pure {ℓ} : {A : Type ℓ} → A → Reader A
pure a bs = ok (a, bs)

infixl 1 ◌>>=◌
abbrev pub ◌>>=◌ {ℓ κ} : {A : Type ℓ} {B : Type κ} → Reader A → (A → Reader B) → Reader B
p >>= f = λ bs. bind (p bs) λ (a, rest). f a rest

-- `make([]byte, l)` panics above this length on a 64-bit Linux machine.
abbrev pub max_alloc : ℕ
max_alloc = 2 ^ 48

-- `io.ReadFull` of `n` bytes.
unfoldable pub read_full : ℕ → Reader Bytes
read_full n [] = if n == 0 then ok ([], []) else err eof
read_full n (b ∷ bs) =
    if ltb (length (b ∷ bs)) n then err unexpected_eof else ok (take n (b ∷ bs), drop n (b ∷ bs))

unfoldable pub read_byte : Reader ℕ
read_byte [] = err eof
read_byte (b ∷ bs) = ok (b, bs)

-- A uint64 from its bytes in network order.
unfoldable pub be_value : ℕ → Bytes → ℕ
be_value acc [] = acc
be_value acc (b ∷ bs) = be_value (acc * 256 + b) bs

-- `binary.Read` of an int64 or a uint64.
unfoldable pub read_word : Reader ℕ
read_word bs = bind (read_full 8 bs) λ (w, rest). ok (be_value 0 w, rest)

alloc_and_fill : ℕ → Reader Bytes
alloc_and_fill l bs =
    if l == 0 then ok ([], bs) else if ltb max_alloc l then panic else read_full l bs

lv_of : Uvarint → Result (Bytes × Bytes)
unfolding alloc_and_fill
lv_of (done l rest) = alloc_and_fill l rest
lv_of short = err eof
lv_of overflow = err varint_overflow

-- A length, and that many bytes.
unfoldable pub read_lv : Reader Bytes
unfolding lv_of
read_lv bs = lv_of (read_uvarint bs)

-- The loops of `deserialize`: `for i := uint64(0); i < l; i++ { … append … }`.
unfoldable pub times {ℓ} : {A : Type ℓ} → Reader A → ℕ → Reader (List A)
times p zero = pure []
times p (suc n) = p >>= λ x. times p n >>= λ xs. pure (x ∷ xs)

-- A count at the front of a payload, and what is read with it.
unfoldable pub counted {ℓ} : {A : Type ℓ} → (ℕ → Reader A) → Uvarint → Result A
counted p (done l rest) = bind (p l rest) λ (a, _). ok a
counted p short = err input_too_short
counted p overflow = err len_overflow

unfoldable pub with_count {ℓ} : {A : Type ℓ} → (ℕ → Reader A) → Bytes → Result A
unfolding counted
with_count p v = counted p (uvarint v)
