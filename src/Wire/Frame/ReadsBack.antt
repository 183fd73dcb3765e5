-- ===== src/Wire/Frame/ReadsBack.antt =====
-- A written buffer is read back, and none of its proper prefixes is taken for a buffer.
use ratnet.Prelude.{
  ℕ, zero, suc, ◌≤◌, ◌≡◌, ◌≢◌, refl, [], ◌∷◌, ◌++◌, append_assoc, append-nil, arith, Bytes, length,
  length-append, take, drop, take-append, drop-append, le→ltb,
}
use ratnet.Wire.Varint.{Uvarint, done, short, overflow, read_uvarint}
use ratnet.Wire.Varint.ReadsBack.{read_uvarint-put_uvarint}
use ratnet.Wire.Varint.Bounds.{read_uvarint-append}
use ratnet.Wire.Read.{ok, max_alloc}
use ratnet.Wire.Frame.{write_buffer, read_buffer, buffer_of, fill_buffer}

-- A buffer that fits in memory is read back from what was written, and what follows it stays.
pub read_buffer-write_buffer :
    (b rest : Bytes) → length b ≤ max_alloc → read_buffer (write_buffer b ++ rest) ≡ ok (b, rest)
unfolding read_buffer write_buffer
read_buffer-write_buffer b rest h = rw (
  append_assoc,
  read_uvarint-put_uvarint (length b) (b ++ rest) (omega arith),
  le→ltb max_alloc (length b) h,
  le→ltb (length (b ++ rest)) (length b) (omega (arith, length-append b rest)),
  take-append b rest,
  drop-append b rest,
)

take_within : (n : ℕ) (xs ys : Bytes) → n ≤ length xs → take n (xs ++ ys) ≡ take n xs
take_within zero xs ys h = refl
take_within (suc n) [] ys h = elim h [ ]
take_within (suc n) (x ∷ xs) ys h = rw (take_within n xs ys (omega arith))

drop_within : (n : ℕ) (xs ys : Bytes) → n ≤ length xs → drop n (xs ++ ys) ≡ drop n xs ++ ys
drop_within zero xs ys h = refl
drop_within (suc n) [] ys h = elim h [ ]
drop_within (suc n) (x ∷ xs) ys h = drop_within n xs ys (omega arith)

fill_buffer-append :
    (l : ℕ) (bs more b rest : Bytes)
    → fill_buffer l bs ≡ ok (b, rest)
    → fill_buffer l (bs ++ more) ≡ ok (b, rest ++ more)
unfolding fill_buffer
fill_buffer-append l bs more b rest e =
    ground (arith, length-append bs more, take_within l bs more, drop_within l bs more)

buffer_of-append :
    (u : Uvarint) (more b rest : Bytes) (bs : Bytes)
    → read_uvarint bs ≡ u
    → buffer_of u ≡ ok (b, rest)
    → read_buffer (bs ++ more) ≡ ok (b, rest ++ more)
unfolding read_buffer
buffer_of-append (done l r) more b rest bs eu e =
    rw (read_uvarint-append l bs r more eu) (fill_buffer-append l r more b rest e)
buffer_of-append short more b rest bs eu e = cc
buffer_of-append overflow more b rest bs eu e = cc

-- Bytes that arrive later do not change a buffer that was read.
pub read_buffer-append :
    (bs more b rest : Bytes)
    → read_buffer bs ≡ ok (b, rest)
    → read_buffer (bs ++ more) ≡ ok (b, rest ++ more)
unfolding read_buffer
read_buffer-append bs more b rest e = buffer_of-append (read_uvarint bs) more b rest bs refl e

-- When a connection ends before the last byte of a buffer, `read_buffer` delivers nothing.
pub read_buffer_cut :
    (b front back got rest : Bytes) (x : ℕ)
    → length b ≤ max_alloc
    → write_buffer b ≡ front ++ x ∷ back
    → read_buffer front ≢ ok (got, rest)
read_buffer_cut b front back got rest x h e r = ground (
  arith,
  read_buffer-append front (x ∷ back) got rest r,
  read_buffer-write_buffer b [] h,
  append-nil (write_buffer b),
  length-append rest (x ∷ back),
)
