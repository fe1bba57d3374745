-- ===== src/Bpv7/Reassembly/Order.antt =====
-- Fragments with different offsets have one order, in whatever order they came.
use dtn7_gold.Prelude.{
  ◌≡◌, ◌≢◌, refl, sym, ap, ◌∙◌, List, [], ◌∷◌, arith, leb, Bool-cases, inl, inr,
}
use mathlib.Core.HLevel.{¬_prop}
use mathlib.Core.List.{Memᴰ, Pairwise, Permᴰ}
use mathlib.Core.List.Permᴰ
use dtn7_gold.Bpv7.Bundle.{Bundle}
use dtn7_gold.Bpv7.Reassembly.{offset_of, insert_fragment, sort_fragments}

insert-swap :
    (x y : Bundle) (fs : List Bundle)
    → (offset_of x ≡ offset_of y → ⊥)
    → insert_fragment x (insert_fragment y fs) ≡ insert_fragment y (insert_fragment x fs)
unfolding insert_fragment
insert-swap x y [] h = ground arith
insert-swap x y (z ∷ fs) h = elim (Bool-cases (leb (offset_of y) (offset_of z))) [
  | inl yz ↦ elim (Bool-cases (leb (offset_of x) (offset_of z))) [
    | inl xz ↦ rw (yz, xz) (ground arith)
    | inr zx ↦ rw (yz, zx) (ground arith)
  ]
  | inr zy ↦ elim (Bool-cases (leb (offset_of x) (offset_of z))) [
    | inl xz ↦ rw (zy, xz) (ground arith)
    | inr zx ↦ rw (zy, zx, zy) (ap (λ (t : List Bundle). z ∷ t) (insert-swap x y fs h))
  ]
]

abbrev pub HasOtherOffset : Bundle → Bundle → Type 0
HasOtherOffset x y = offset_of x ≢ offset_of y

pub sort_fragments-perm :
    (xs ys : List Bundle)
    → Permᴰ xs ys
    → Pairwise HasOtherOffset xs
    → sort_fragments xs ≡ sort_fragments ys
unfolding sort_fragments
sort_fragments-perm [] [] Permᴰ.nil h = refl
sort_fragments-perm (x ∷ xs) (y ∷ ys) (Permᴰ.cons e d) (Pairwise.cons r h) =
    (λ i. insert_fragment (e i) (sort_fragments-perm xs ys d h i))
sort_fragments-perm (x ∷ y ∷ xs) _ (Permᴰ.swap e e') (Pairwise.cons r h) =
    insert-swap x y (sort_fragments xs) (r y ∣ Memᴰ.head refl ∣₁)
    ∙ (λ i. insert_fragment (e' i) (insert_fragment (e i) (sort_fragments xs)))
sort_fragments-perm xs ys (Permᴰ.trans {l₂ = middle} d d') h =
    sort_fragments-perm xs middle d h
    ∙ sort_fragments-perm middle ys d'
        (Permᴰ.pairwise {R = HasOtherOffset} (λ a b. ¬_prop) (λ x y n e. n (sym e)) d h)
