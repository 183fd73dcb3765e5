-- ===== src/Streams/Chunks.antt =====
-- The chunks of a stream, whatever the order in which they came.
use ratnet.Prelude.{
  ℕ, suc, ◌<◌, ◌≡◌, refl, sym, ap, ◌∙◌, subst, some, none, List, [], ◌∷◌, ◌++◌, append_assoc,
  append-nil, length, Bytes, Map, lookup, insert, insert_new, nat_eq, arith,
}
use mathlib.Core.List.{Permᴰ}
use mathlib.Core.List.Permᴰ
use ratnet.Api.{Chunk}
use ratnet.Chunking.Pieces.{concat}
use ratnet.Streams.{joined, gather}

module _ {V : Type 0} where
  -- No key stands twice.
  abbrev pub Distinct : Map ℕ V → Type 0
  Distinct [] = Unit
  Distinct (p ∷ m) = (lookup p.0 m ≡ none) × Distinct m

  abbrev pub insert_all : List (ℕ × V) → Map ℕ V → Map ℕ V
  insert_all [] m = m
  insert_all (p ∷ l) m = insert_all l (insert p.0 p.1 m)

  lookup-append_none :
      (k : ℕ) (m l : Map ℕ V) → lookup k (m ++ l) ≡ none → (lookup k m ≡ none) × (lookup k l ≡ none)
  unfolding lookup
  lookup-append_none k [] l h = (refl, h)
  lookup-append_none k ((j, w) ∷ m) l h = ground (arith, lookup-append_none k m l)

  Distinct-middle : (m l : Map ℕ V) (p : ℕ × V) → Distinct (m ++ p ∷ l) → lookup p.0 m ≡ none
  unfolding lookup
  Distinct-middle [] l p d = refl
  Distinct-middle ((j, w) ∷ m) l p d =
      let apart = (lookup-append_none j m (p ∷ l) d.0).1 in
      ground (arith, apart, Distinct-middle m l p d.1)

  -- Inserted one by one, new keys line up.
  pub insert_all-Distinct : (l m : Map ℕ V) → Distinct (m ++ l) → insert_all l m ≡ m ++ l
  insert_all-Distinct [] m d = sym (append-nil m)
  insert_all-Distinct (p ∷ l) m d =
      let e = append_assoc m (p ∷ []) l in
      rw (insert_new p.0 p.1 m (Distinct-middle m l p d))
        (insert_all-Distinct l (m ++ p ∷ []) (rw (sym e) at d) ∙ e)

  -- A map whose keys are distinct reads the same in every order.
  lookup_swap :
      (k : ℕ) (p q : ℕ × V) (m : Map ℕ V)
      → lookup p.0 (q ∷ m) ≡ none
      → lookup k (p ∷ q ∷ m) ≡ lookup k (q ∷ p ∷ m)
  unfolding lookup
  lookup_swap k p q m h = ground arith

  Distinct-swap : (p q : ℕ × V) (m : Map ℕ V) → Distinct (p ∷ q ∷ m) → Distinct (q ∷ p ∷ m)
  unfolding lookup
  Distinct-swap p q m d = let (h, (hq, hm)) = d in (ground (arith, h, hq), (ground (arith, h), hm))

  abbrev Same : Map ℕ V → Map ℕ V → Type 0
  Same l l' = Distinct l' × ((k : ℕ) → lookup k l ≡ lookup k l')

  lookup_perm : {l l' : Map ℕ V} → Permᴰ l l' → Distinct l → Same l l'
  unfolding lookup
  lookup_perm Permᴰ.nil d = (tt, λ k. refl)
  lookup_perm (Permᴰ.cons {a} {b} e q) d =
      let (d', same) = lookup_perm q d.1 in
      rw (sym e) ((sym (same a.0) ∙ d.0, d'), λ k. rw (same k))
  lookup_perm (Permᴰ.swap {a} {b} {b' = b'} {l = l} e₁ e₂) d =
      subst (λ x. Same (a ∷ b ∷ l) (x ∷ b' ∷ l)) e₂
        (subst (λ y. Same (a ∷ b ∷ l) (b ∷ y ∷ l)) e₁
          (Distinct-swap a b l d, λ k. lookup_swap k a b l d.0))
  lookup_perm (Permᴰ.trans q r) d =
      let (d', e) = lookup_perm q d in let (d'', e') = lookup_perm r d' in (d'', λ k. e k ∙ e' k)

  length_perm : {l l' : Map ℕ V} → Permᴰ l l' → length l ≡ length l'
  length_perm Permᴰ.nil = refl
  length_perm (Permᴰ.cons e q) = ap suc (length_perm q)
  length_perm (Permᴰ.swap e₁ e₂) = refl
  length_perm (Permᴰ.trans q r) = length_perm q ∙ length_perm r

-- The pieces, with numbers from `i`.
abbrev pub number : ℕ → List Bytes → List (ℕ × Bytes)
number i [] = []
number i (p ∷ ps) = (i, p) ∷ number (suc i) ps

abbrev pub as_chunk : ℕ → ℕ × Bytes → ℕ × Chunk
as_chunk stream_id (i, p) = (i, record { stream_id = stream_id; chunk_num = i; payload = p })

abbrev pub as_chunks : ℕ → List (ℕ × Bytes) → Map ℕ Chunk
as_chunks stream_id [] = []
as_chunks stream_id (a ∷ l) = as_chunk stream_id a ∷ as_chunks stream_id l

as_chunks-perm :
    (stream_id : ℕ) {l l' : List (ℕ × Bytes)}
    → Permᴰ l l'
    → Permᴰ (as_chunks stream_id l) (as_chunks stream_id l')
as_chunks-perm n Permᴰ.nil = Permᴰ.nil
as_chunks-perm n (Permᴰ.cons e q) = Permᴰ.cons (ap (as_chunk n) e) (as_chunks-perm n q)
as_chunks-perm n (Permᴰ.swap e₁ e₂) = Permᴰ.swap (ap (as_chunk n) e₁) (ap (as_chunk n) e₂)
as_chunks-perm n (Permᴰ.trans q r) = Permᴰ.trans (as_chunks-perm n q) (as_chunks-perm n r)

pub insert_all-append :
    (n : ℕ) (l l' : List (ℕ × Bytes)) (m : Map ℕ Chunk)
    → insert_all (as_chunks n l') (insert_all (as_chunks n l) m)
      ≡ insert_all (as_chunks n (l ++ l')) m
insert_all-append n [] l' m = refl
insert_all-append n (a ∷ l) l' m = insert_all-append n l l' (insert a.0 (as_chunk n a).1 m)

length-as_chunks-number :
    (n i : ℕ) (ps : List Bytes) → length (as_chunks n (number i ps)) ≡ length ps
length-as_chunks-number n i [] = refl
length-as_chunks-number n i (p ∷ ps) = ap suc (length-as_chunks-number n (suc i) ps)

lookup_below : (n k i : ℕ) (ps : List Bytes) → k < i → lookup k (as_chunks n (number i ps)) ≡ none
unfolding lookup
lookup_below n k i [] h = refl
lookup_below n k i (p ∷ ps) h = ground (arith, lookup_below n k (suc i) ps)

number-Distinct : (n i : ℕ) (ps : List Bytes) → Distinct (as_chunks n (number i ps))
number-Distinct n i [] = tt
number-Distinct n i (p ∷ ps) =
    (lookup_below n i (suc i) ps (omega arith), number-Distinct n (suc i) ps)

-- The map has the pieces at their numbers.
Holds : ℕ → ℕ → List Bytes → Map ℕ Chunk → Type 0
Holds n i [] m = Unit
Holds n i (p ∷ ps) m = (lookup i m ≡ some (as_chunk n (i, p)).1) × Holds n (suc i) ps m

gather-suc :
    (n i : ℕ) (m : Map ℕ Chunk) (c : Chunk) (bs : Bytes)
    → lookup i m ≡ some c
    → gather n (suc i) m ≡ some bs
    → gather (suc n) i m ≡ some (c.payload ++ bs)
unfolding gather
gather-suc n i m c bs h e = ap (λ o. joined o (gather n (suc i) m)) h ∙ ap (joined (some c)) e

gather-Holds :
    (n i : ℕ) (ps : List Bytes) (m : Map ℕ Chunk)
    → Holds n i ps m
    → gather (length ps) i m ≡ some (concat ps)
unfolding gather concat Holds
gather-Holds n i [] m h = refl
gather-Holds n i (p ∷ ps) m (h, hs) =
    gather-suc (length ps) i m (as_chunk n (i, p)).1 (concat ps) h (gather-Holds n (suc i) ps m hs)

Holds-same :
    (n i : ℕ) (ps : List Bytes) (m m' : Map ℕ Chunk)
    → ((k : ℕ) → lookup k m ≡ lookup k m')
    → Holds n i ps m'
    → Holds n i ps m
unfolding Holds
Holds-same n i [] m m' e h = tt
Holds-same n i (p ∷ ps) m m' e (h, hs) = (e i ∙ h, Holds-same n (suc i) ps m m' e hs)

Holds-cons :
    (n j i : ℕ) (ps : List Bytes) (c : Chunk) (m : Map ℕ Chunk)
    → j < i
    → Holds n i ps m
    → Holds n i ps ((j, c) ∷ m)
unfolding Holds lookup
Holds-cons n j i [] c m l h = tt
Holds-cons n j i (p ∷ ps) c m l (h, hs) =
    (ground (arith, h, l), Holds-cons n j (suc i) ps c m (omega (arith, l)) hs)

number-Holds : (n i : ℕ) (ps : List Bytes) → Holds n i ps (as_chunks n (number i ps))
unfolding Holds lookup
number-Holds n i [] = tt
number-Holds n i (p ∷ ps) = (
  ground arith,
  Holds-cons n i (suc i) ps (as_chunk n (i, p)).1 (as_chunks n (number (suc i) ps)) (omega arith)
      (number-Holds n (suc i) ps),
)

-- Pieces that came in any order, inserted one by one, are counted right and gathered in order.
pub record Collected (n : ℕ) (arrivals : List (ℕ × Bytes)) (ps : List Bytes) : Type 0 where
  pub counted : length (insert_all (as_chunks n arrivals) []) ≡ length ps
  pub gathered : gather (length ps) 0 (insert_all (as_chunks n arrivals) []) ≡ some (concat ps)

pub collect :
    (n : ℕ) (arrivals : List (ℕ × Bytes)) (ps : List Bytes)
    → Permᴰ arrivals (number 0 ps)
    → Collected n arrivals ps
collect n arrivals ps q =
    let q' = as_chunks-perm n q in
    let (d, same) = lookup_perm (Permᴰ.symm q') (number-Distinct n 0 ps) in
    let line = insert_all-Distinct (as_chunks n arrivals) [] d in
    record {
      counted = ap length line ∙ length_perm q' ∙ length-as_chunks-number n 0 ps;
      gathered =
          ap (gather (length ps) 0) line
          ∙ gather-Holds n 0 ps (as_chunks n arrivals) (
              Holds-same n 0 ps (as_chunks n arrivals) (as_chunks n (number 0 ps))
                (λ k. sym (same k)) (number-Holds n 0 ps));
    }
