-- ===== src/Prelude/Keyed.antt =====
-- Maps whose values carry their own key, as the tables of a node do.
use mathlib.Core.Path.{◌≡◌, refl, sym, ap, ◌∙◌}
use mathlib.Core.Logic.{inl, inr}
use mathlib.Core.Option.{none}
use mathlib.Core.List.{[], ◌∷◌}
use native.Mathlib.Omega.{arith}
use ratnet.Prelude.Tests.{Bool-cases}
use ratnet.Prelude.Maps.{Eq, Map, lookup, insert, delete, lookup-insert, lookup-delete}

module _ {ℓ κ} {K : Type ℓ} {V : Type κ} ⦃e : Eq K⦄ (key : V → K) where
  -- Each key occurs once, and is the one that its value carries.
  abbrev pub IsKeyed : Map K V → Type (ℓ ⊔ κ)
  IsKeyed [] = Unit
  IsKeyed ((k, v) ∷ m) = (key v ≡ k) × (lookup k m ≡ none) × IsKeyed m

  pub insert-IsKeyed :
      (k : K) (v : V) (m : Map K V) → key v ≡ k → IsKeyed m → IsKeyed (insert k v m)
  unfolding insert lookup
  insert-IsKeyed k v [] h i = (h, refl, tt)
  insert-IsKeyed k v ((j, w) ∷ m) h (hj, absent, i) = elim (Bool-cases (e.beq j k)) [
    | inl same ↦
        let jk = (e.beq_iff j k).0 same in rw same (h, ap (λ x. lookup x m) (sym jk) ∙ absent, i)
    | inr other ↦
        let kept : lookup j (insert k v m) ≡ none =
          lookup-insert k j v m ∙ ground (arith, e.beq_iff j k, e.beq_iff k j) in
        rw other (hj, kept, insert-IsKeyed k v m h i)
  ]

  pub delete-IsKeyed : (k : K) (m : Map K V) → IsKeyed m → IsKeyed (delete k m)
  unfolding delete
  delete-IsKeyed k [] i = tt
  delete-IsKeyed k ((j, w) ∷ m) (hj, absent, i) = elim (Bool-cases (e.beq j k)) [
    | inl same ↦ rw same (delete-IsKeyed k m i)
    | inr other ↦
        let kept : lookup j (delete k m) ≡ none = lookup-delete k j m ∙ ground (arith, absent) in
        rw other (hj, kept, delete-IsKeyed k m i)
  ]
