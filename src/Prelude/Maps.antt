-- ===== src/Prelude/Maps.antt =====
-- A map with number keys as a function, which is `none` where the map has no entry.
use dtn7_gold.Prelude.Tests.{◌==◌, ==_iff, Bool-cases, if◌then◌else◌}
use mathlib.Core.Path.{◌≡◌, subst}
use mathlib.Core.Logic.{inl, inr}
use Prim.Native.Nat.{ℕ}
use mathlib.Core.Option.{Option, none, some, some-injective}

abbrev pub Map {ℓ} : Type ℓ → Type ℓ
Map A = ℕ → Option A

-- The map with the entry of one key replaced; `none` deletes it.
abbrev pub update {ℓ} : {A : Type ℓ} → Map A → ℕ → Option A → Map A
update m k v j = if k == j then v else m j

abbrev pub empty {ℓ} : {A : Type ℓ} → Map A
empty k = none

-- What holds of every entry.
abbrev pub Holds {ℓ κ} : {A : Type ℓ} → (ℕ → A → Type κ) → Map A → Type (ℓ ⊔ κ)
Holds {A = A} P m = (j : ℕ) (a : A) → m j ≡ some a → P j a

module _ {ℓ κ} {A : Type ℓ} (P : ℕ → A → Type κ) (m : Map A) (k : ℕ) where
  pub update-Holds-none : Holds P m → Holds P (update m k none)
  update-Holds-none h j a e = elim (Bool-cases (k == j)) [
    | inl same ↦ cc (rw same at e)
    | inr other ↦ h j a (rw other at e)
  ]

  pub update-Holds : (v : A) → P k v → Holds P m → Holds P (update m k (some v))
  update-Holds v p h j a e = elim (Bool-cases (k == j)) [
    | inl same ↦
        subst (λ i. P i a) ((==_iff k j).0 same)
          (subst (λ x. P k x) (some-injective v a (rw same at e)) p)
    | inr other ↦ h j a (rw other at e)
  ]

  pub update-Holds_gone : (v : Option A) → Holds P m → Holds P (update (update m k v) k none)
  update-Holds_gone v h j a e = elim (Bool-cases (k == j)) [
    | inl same ↦ cc (rw same at e)
    | inr other ↦ h j a (rw other at e)
  ]
