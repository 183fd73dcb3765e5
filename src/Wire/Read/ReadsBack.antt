-- ===== src/Wire/Read/ReadsBack.antt =====
-- Each reader of Wire/Read.antt reads back what its writer wrote, and leaves what follows.
use ratnet.Prelude.{
  ℕ, zero, suc, ◌+◌, ◌*◌, ◌/◌, ◌%◌, ◌^◌, ◌<◌, ◌≤◌, ◌≡◌, refl, List, [], ◌∷◌, ◌++◌, arith, Bytes,
  length, length-append, take-append, drop-append, append_assoc, le→ltb, append-nil,
}
use native.Mathlib.Nat.{pow-suc}
use ratnet.Wire.Varint.ReadsBack.{read_uvarint-put_uvarint, uvarint-put_uvarint}
use ratnet.Wire.Read.{
  ok, bind, Reader, max_alloc, read_full, be_value, read_word, alloc_and_fill, read_lv, times,
  with_count,
}
use ratnet.Wire.Write.{put_be, write_lv, write_each, write_slice}

-- `p` reads `a` off the front of any input that begins with `printed`.
abbrev pub Reads {ℓ} : {A : Type ℓ} → Reader A → Bytes → A → Type ℓ
Reads p printed a = (rest : Bytes) → p (printed ++ rest) ≡ ok (a, rest)

read_full-append : (v rest : Bytes) → read_full (length v) (v ++ rest) ≡ ok (v, rest)
unfolding read_full
read_full-append [] [] = refl
read_full-append [] (b ∷ rest) = ground arith
read_full-append (b ∷ v) rest = rw (
  le→ltb (suc (length (v ++ rest))) (suc (length v)) (omega (arith, length-append v rest)),
  take-append v rest,
  drop-append v rest,
)

pub read_lv-write_lv : (v : Bytes) → length v ≤ max_alloc → Reads read_lv (write_lv v) v
unfolding read_lv write_lv alloc_and_fill
read_lv-write_lv v h rest =
    rw (append_assoc, read_uvarint-put_uvarint (length v) (v ++ rest) (omega arith))
      (alloc-append v rest h)
  where
    alloc-append :
        (v rest : Bytes)
        → length v ≤ max_alloc
        → alloc_and_fill (length v) (v ++ rest) ≡ ok (v, rest)
    alloc-append [] rest h = refl
    alloc-append (b ∷ v) rest h = ground (arith, read_full-append (b ∷ v) rest)

be_value-append : (xs : Bytes) (acc b : ℕ) → be_value acc (xs ++ b ∷ []) ≡ be_value acc xs * 256 + b
unfolding be_value
be_value-append [] acc b = refl
be_value-append (x ∷ xs) acc b = be_value-append xs (acc * 256 + x) b

be_value-put_be : (k x : ℕ) → x < 256 ^ k → be_value 0 (put_be k x) ≡ x
unfolding put_be be_value
be_value-put_be zero x h = omega arith
be_value-put_be (suc k) x h =
    rw (be_value-append (put_be k (x / 256)) 0 (x % 256))
      (omega (arith, be_value-put_be k (x / 256) (below k x h)))
  where
    below : (k x : ℕ) → x < 256 ^ suc k → x / 256 < 256 ^ k
    below k x h = omega (arith, rw pow-suc at h)

pub length-put_be : (k x : ℕ) → length (put_be k x) ≡ k
unfolding put_be
length-put_be zero x = refl
length-put_be (suc k) x =
    omega (arith, length-append (put_be k (x / 256)) (x % 256 ∷ []), length-put_be k (x / 256))

pub read_word-put_be : (x : ℕ) → x < 2 ^ 64 → Reads read_word (put_be 8 x) x
unfolding read_word
read_word-put_be x h rest =
    rw (rw (length-put_be 8 x) at (read_full-append (put_be 8 x) rest), be_value-put_be 8 x h)

module _ {ℓ} {A : Type ℓ} (p : Reader A) (f : A → Bytes) where
  -- Every element of the list is read back from its print.
  abbrev pub ReadsEach : List A → Type ℓ
  ReadsEach [] = Unit
  ReadsEach (x ∷ xs) = Reads p (f x) x × ReadsEach xs

  times-write_each : (xs : List A) → ReadsEach xs → Reads (times p (length xs)) (write_each f xs) xs
  unfolding times write_each
  times-write_each [] h rest = refl
  times-write_each (x ∷ xs) (hx, hxs) rest =
      rw (append_assoc, hx (write_each f xs ++ rest), times-write_each xs hxs rest)

  pub with_count-write_slice :
      (xs : List A)
      → length xs < 2 ^ 64
      → ReadsEach xs
      → with_count (times p) (write_slice f xs) ≡ ok xs
  unfolding with_count write_slice
  with_count-write_slice xs h hs =
      rw (uvarint-put_uvarint (length xs) (write_each f xs) h) (counted xs hs)
    where
      counted :
          (xs : List A)
          → ReadsEach xs
          → bind (times p (length xs) (write_each f xs)) (λ (a, _). ok a) ≡ ok xs
      counted xs hs = let e = times-write_each xs hs [] in rw (rw append-nil at e)
