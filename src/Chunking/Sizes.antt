-- ===== src/Chunking/Sizes.antt =====
-- The chunk size that `ChunkSize` finds.
use ratnet.Prelude.{
  ℕ, ◌+◌, ◌≤◌, ◌≡◌, refl, sym, subst, ◌∙◌, List, [], ◌∷◌, ltb, leb, if◌then◌else◌, arith, All,
  Bool-cases, inl, inr, ltb→lt, ltb→le,
}
use ratnet.Go.{returned}
use ratnet.Chunking.{u32, smallest, chunk_size}

smallest-le : (limits : List ℕ) (c : ℕ) → smallest limits c ≤ c
unfolding smallest
smallest-le [] c = omega arith
smallest-le (l ∷ limits) c = elim (Bool-cases (ltb (u32 l) c)) [
  | inl e ↦ let ih = smallest-le limits (u32 l) in rw e (omega (arith, ih, ltb→lt (u32 l) c e))
  | inr e ↦ rw e (smallest-le limits c)
]

abbrev pub AtMost : ℕ → ℕ → Type 0
AtMost n limit = n ≤ u32 limit

All-AtMost : (n m : ℕ) (limits : List ℕ) → n ≤ m → All (AtMost m) limits → All (AtMost n) limits
All-AtMost n m [] h a = tt
All-AtMost n m (l ∷ limits) h (a, as') = (omega (arith, h, a), All-AtMost n m limits h as')

smallest-cons :
    (l : ℕ) (limits : List ℕ) (c : ℕ)
    → smallest (l ∷ limits) c ≡ smallest limits (if ltb (u32 l) c then u32 l else c)
unfolding smallest
smallest-cons l limits c = refl

smallest-AtMost : (limits : List ℕ) (c : ℕ) → All (AtMost (smallest limits c)) limits
smallest-AtMost [] c = tt
smallest-AtMost (l ∷ limits) c = elim (Bool-cases (ltb (u32 l) c)) [
  | inl e ↦
      let next : smallest (l ∷ limits) c ≡ smallest limits (u32 l) =
        smallest-cons l limits c ∙ rw e in
      subst (λ n. All (AtMost n) (l ∷ limits)) (sym next)
        (smallest-le limits (u32 l), smallest-AtMost limits (u32 l))
  | inr e ↦
      let next : smallest (l ∷ limits) c ≡ smallest limits c = smallest-cons l limits c ∙ rw e in
      subst (λ n. All (AtMost n) (l ∷ limits)) (sym next)
        (omega (arith, smallest-le limits c, ltb→le (u32 l) c e), smallest-AtMost limits c)
]

-- What `ChunkSize` returns, with the 132 bytes of overhead, is within the byte limit of every
-- transport, as a 32-bit number, and within 65536.
pub chunk_size_fits :
    (limits : List ℕ) (size : ℕ)
    → chunk_size limits ≡ returned size
    → (size + 132 ≤ 65536) × All (AtMost (size + 132)) limits
unfolding chunk_size
chunk_size_fits limits size e = elim (Bool-cases (leb (smallest limits 65536) 132)) [
  | inl low ↦ absurd (ground (arith, e, low))
  | inr high ↦
      let back : size + 132 ≡ smallest limits 65536 = ground (arith, e, high) in
      rw back (smallest-le limits 65536, smallest-AtMost limits 65536)
]
