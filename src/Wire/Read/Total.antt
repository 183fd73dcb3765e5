-- ===== src/Wire/Read/Total.antt =====
-- Every reader ends, and takes no byte that is not there.
use ratnet.Prelude.{
  ℕ, zero, suc, ◌+◌, ◌<◌, ◌≤◌, ◌≡◌, ◌≢◌, refl, [], ◌∷◌, arith, Bytes, length, length-drop,
  length-take, Bool, true, false, if◌then◌else◌, ◌==◌, ltb,
}
use ratnet.Wire.Varint.{Uvarint, done, short, overflow, read_uvarint, uvarint}
use ratnet.Wire.Varint.Bounds.{read_uvarint_takes, uvarint_takes}
use ratnet.Wire.Read.{
  Result, Error, ok, err, panic, out_of_fuel, bind, Reader, pure, ◌>>=◌, max_alloc, read_full,
  read_byte, read_word, alloc_and_fill, lv_of, read_lv, times, counted, with_count,
}

-- The run ended within its fuel, and `P` holds of its value if it has one.
pub data Ends {ℓ κ} {A : Type ℓ} (P : A → Type κ) : Result A → Type (ℓ ⊔ κ) where
  returned : {a : A} → P a → Ends P (ok a)
  failed : {e : Error} → Ends P (err e)
  panicked : Ends P panic

module _ {ℓ κ} {A : Type ℓ} {P : A → Type κ} where
  pub Ends-ne-out_of_fuel : {r : Result A} → Ends P r → r ≢ out_of_fuel
  Ends-ne-out_of_fuel (returned h) = cc
  Ends-ne-out_of_fuel failed = cc
  Ends-ne-out_of_fuel panicked = cc

  pub Ends-bind {ℓ' κ'} :
      {B : Type ℓ'} {Q : B → Type κ'} {r : Result A} {f : A → Result B}
      → Ends P r
      → ((a : A) → P a → Ends Q (f a))
      → Ends Q (bind r f)
  Ends-bind (returned {a} h) k = k a h
  Ends-bind failed k = failed
  Ends-bind panicked k = panicked

  pub Ends-map {κ'} :
      {Q : A → Type κ'} {r : Result A} → Ends P r → ((a : A) → P a → Ends Q (ok a)) → Ends Q r
  Ends-map (returned {a} h) k = k a h
  Ends-map failed k = failed
  Ends-map panicked k = panicked

  pub Ends-if : (b : Bool) {x y : Result A} → Ends P x → Ends P y → Ends P (if b then x else y)
  Ends-if true hx hy = hx
  Ends-if false hx hy = hy

-- A reader that takes at least `k` bytes whenever it returns.
abbrev pub Takes {ℓ} : {A : Type ℓ} → ℕ → Reader A → Type ℓ
Takes k p = (bs : Bytes) → Ends (λ r. length r.1 + k ≤ length bs) (p bs)

pub read_byte-Takes : Takes 1 read_byte
unfolding read_byte
read_byte-Takes [] = failed
read_byte-Takes (b ∷ bs) = returned (omega arith)

-- What is read and what is left were in the input.
read_full_sizes :
    (n : ℕ) (bs : Bytes) → Ends (λ r. length r.0 + length r.1 ≤ length bs) (read_full n bs)
unfolding read_full
read_full_sizes n [] = Ends-if (n == 0) (returned (omega arith)) failed
read_full_sizes n (b ∷ bs) =
    Ends-if (ltb (length (b ∷ bs)) n) failed
      (returned (omega (arith, length-drop n (b ∷ bs), length-take n (b ∷ bs))))

alloc_and_fill_sizes :
    (l : ℕ) (bs : Bytes) → Ends (λ r. length r.0 + length r.1 ≤ length bs) (alloc_and_fill l bs)
unfolding alloc_and_fill
alloc_and_fill_sizes l bs =
    Ends-if (l == 0) (returned (omega arith))
      (Ends-if (ltb max_alloc l) panicked (read_full_sizes l bs))

lv_of_sizes :
    (u : Uvarint) (n : ℕ)
    → ((v : ℕ) (rest : Bytes) → u ≡ done v rest → length rest < n)
    → Ends (λ r. length r.0 + length r.1 + 1 ≤ n) (lv_of u)
unfolding lv_of
lv_of_sizes (done l rest) n h =
    Ends-map (alloc_and_fill_sizes l rest) (λ r p. returned (omega (arith, h l rest refl)))
lv_of_sizes short n h = failed
lv_of_sizes overflow n h = failed

pub read_lv_sizes : (bs : Bytes) → Ends (λ r. length r.0 + length r.1 + 1 ≤ length bs) (read_lv bs)
unfolding read_lv
read_lv_sizes bs =
    lv_of_sizes (read_uvarint bs) (length bs) (λ v rest e. read_uvarint_takes v bs rest e)

pub read_lv-Takes : Takes 1 read_lv
read_lv-Takes bs = Ends-map (read_lv_sizes bs) (λ r p. returned (omega arith))

pub read_word-Takes : Takes 0 read_word
unfolding read_word
read_word-Takes bs = Ends-bind (read_full_sizes 8 bs) (λ r h. returned (omega arith))

module _ {ℓ κ} {A : Type ℓ} {B : Type κ} where
  pub Takes-bind :
      (k : ℕ) (p : Reader A) (f : A → Reader B)
      → Takes k p
      → ((a : A) → Takes 0 (f a))
      → Takes k (p >>= f)
  Takes-bind k p f hp hf bs =
      Ends-bind (hp bs) λ (a, rest) h. Ends-map (hf a rest) (λ r h'. returned (omega arith))

pub Takes-pure {ℓ} : {A : Type ℓ} (a : A) → Takes 0 (pure a)
Takes-pure a bs = returned (omega arith)

module _ {ℓ} {A : Type ℓ} where
  pub Takes-zero : (k : ℕ) (p : Reader A) → Takes k p → Takes 0 p
  Takes-zero k p h bs = Ends-map (h bs) (λ r p. returned (omega arith))

  pub times-Takes : (p : Reader A) → Takes 0 p → (n : ℕ) → Takes 0 (times p n)
  unfolding times
  times-Takes p h zero = Takes-pure []
  times-Takes p h (suc n) =
      Takes-bind 0 p _ h
        λ x. Takes-bind 0 (times p n) _ (times-Takes p h n) λ xs. Takes-pure (x ∷ xs)

  counted-Ends :
      (p : ℕ → Reader A) (u : Uvarint) (n : ℕ)
      → ((l : ℕ) (rest : Bytes) → u ≡ done l rest → length rest < n)
      → ((l : ℕ) (rest : Bytes) → length rest < n → Ends (λ _. Unit {0}) (p l rest))
      → Ends (λ (_ : A). Unit {0}) (counted p u)
  unfolding counted
  counted-Ends p (done l rest) n t h = Ends-bind (h l rest (t l rest refl)) (λ _ _. returned tt)
  counted-Ends p short n t h = failed
  counted-Ends p overflow n t h = failed

  -- The count is read first, and is at least a byte long.
  pub with_count-Ends :
      (p : ℕ → Reader A) (v : Bytes)
      → ((l : ℕ) (rest : Bytes) → length rest < length v → Ends (λ _. Unit {0}) (p l rest))
      → Ends (λ (_ : A). Unit {0}) (with_count p v)
  unfolding with_count
  with_count-Ends p v h =
      counted-Ends p (uvarint v) (length v) (λ l rest e. uvarint_takes l v rest e) h
