-- ===== src/Policy/Poll/Counts.antt =====
-- The counts of failures.
use ratnet.Prelude.{
  ℕ, suc, ◌≤◌, ◌≡◌, refl, sym, ap, ◌∙◌, subst, Bool, true, false, ◌&&◌, Bool-cases, inl, inr, some,
  if◌then◌else◌, Bytes, bytes_eq, bytes_beq, bytes_beq_iff, Map, lookup, insert, lookup-insert,
  arith, Option-cases,
}
use ratnet.Policy.Poll.{zero_or, fail_count, noted, note}

fail_count-insert :
    (fails : Map Bytes ℕ) (u v : Bytes) (n : ℕ)
    → fail_count (insert u n fails) v ≡ (if bytes_beq u v then n else fail_count fails v)
unfolding fail_count zero_or
fail_count-insert fails u v n = rw (lookup-insert u v n fails) (choose (bytes_beq u v))
  where
    choose :
        (b : Bool)
        → zero_or (if b then some n else lookup v fails)
          ≡ (if b then n else zero_or (lookup v fails))
    choose true = refl
    choose false = refl

-- Noting a URI does not change a count.
pub fail_count-note :
    (fails : Map Bytes ℕ) (u v : Bytes) → fail_count (note u fails) v ≡ fail_count fails v
unfolding note noted fail_count zero_or
fail_count-note fails u v = elim (Option-cases (lookup u fails)) [
  | inl e ↦
      let kept : (if bytes_beq u v then 0 else fail_count fails v) ≡ fail_count fails v =
        elim (Bool-cases (bytes_beq u v)) [
          | inl same ↦
              let uv = (bytes_beq_iff u v).0 same in
              rw same (sym (ap zero_or (ap (λ x. lookup x fails) (sym uv) ∙ e)))
          | inr other ↦ rw other
        ] in
      ap (λ o. fail_count (noted o u fails) v) e ∙ fail_count-insert fails u v 0 ∙ kept
  | inr (n, e) ↦ ap (λ o. fail_count (noted o u fails) v) e
]

-- No count goes down.
abbrev pub Grows : Map Bytes ℕ → Map Bytes ℕ → Type 0
Grows before after = (v : Bytes) → fail_count before v ≤ fail_count after v

-- One more failure of `u`.
abbrev pub failed_again : Map Bytes ℕ → Bytes → Map Bytes ℕ
failed_again fails u = insert u (suc (fail_count fails u)) fails

pub fail_count-failed_again :
    (fails : Map Bytes ℕ) (u : Bytes)
    → fail_count (failed_again fails u) u ≡ suc (fail_count fails u)
fail_count-failed_again fails u =
    let self : bytes_beq u u ≡ true = (bytes_beq_iff u u).1 refl in
    fail_count-insert fails u u (suc (fail_count fails u)) ∙ rw self

pub counted_more :
    (fails : Map Bytes ℕ) (u v : Bytes) → fail_count fails v ≤ fail_count (failed_again fails u) v
counted_more fails u v = elim (Bool-cases (bytes_beq u v)) [
  | inl same ↦
      let uv = (bytes_beq_iff u v).0 same in
      subst (λ x. fail_count fails x ≤ fail_count (failed_again fails u) x) uv
        (omega (arith, fail_count-failed_again fails u))
  | inr other ↦
      let e : fail_count (failed_again fails u) v ≡ fail_count fails v =
        fail_count-insert fails u v (suc (fail_count fails u)) ∙ rw other in
      omega (arith, e)
]

pub and_true : (a b : Bool) → (a && b) ≡ true → (a ≡ true) × (b ≡ true)
and_true true b h = (refl, h)
and_true false b h = absurd (ground (arith, h))
