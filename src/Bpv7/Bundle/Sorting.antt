-- ===== src/Bpv7/Bundle/Sorting.antt =====
-- The order of the blocks of a bundle.
use dtn7_gold.Prelude.{
  ℕ, ◌≡◌, refl, true, false, List, [], ◌∷◌, arith, All, Bool-cases, inl, inr, ◌==◌, ◌||◌,
}
use mathlib.Core.List.{Perm}
use mathlib.Core.List.Perm
use dtn7_gold.Bpv7.Blocks.{CanonicalBlock}
use dtn7_gold.Bpv7.Bundle.{less, insert, sort_blocks, contains, block_numbers}

-- No block stands behind one that it comes before.
abbrev pub IsSorted : List CanonicalBlock → Type 0
IsSorted [] = Unit {0}
IsSorted (x ∷ xs) = All (λ y. less y x ≡ false) xs × IsSorted xs

-- The numbers of the blocks differ.
abbrev pub HasDistinctNumbers : List CanonicalBlock → Type 0
HasDistinctNumbers [] = Unit {0}
HasDistinctNumbers (x ∷ xs) =
    (contains x.block_number (block_numbers xs) ≡ false) × HasDistinctNumbers xs

less_asym : (x y : CanonicalBlock) → less x y ≡ true → less y x ≡ false
unfolding less
less_asym x y h = ground arith

-- What is not before `y`, which `x` is before, is not before `x`.
not_less_before : (x y z : CanonicalBlock) → less x y ≡ true → less z y ≡ false → less z x ≡ false
unfolding less
not_less_before x y z h g = ground arith

All-not_less :
    (x y : CanonicalBlock) (zs : List CanonicalBlock)
    → less x y ≡ true
    → All (λ z. less z y ≡ false) zs
    → All (λ z. less z x ≡ false) zs
All-not_less x y [] h hs = tt
All-not_less x y (z ∷ zs) h hs = (not_less_before x y z h hs.0, All-not_less x y zs h hs.1)

All-insert :
    (P : CanonicalBlock → Type 0) (x : CanonicalBlock) (ys : List CanonicalBlock)
    → P x
    → All P ys
    → All P (insert x ys)
unfolding insert
All-insert P x [] px h = (px, tt)
All-insert P x (y ∷ ys) px h = elim (Bool-cases (less x y)) [
  | inl first ↦ rw first (px, h)
  | inr later ↦ rw later (h.0, All-insert P x ys px h.1)
]

insert-IsSorted :
    (x : CanonicalBlock) (ys : List CanonicalBlock) → IsSorted ys → IsSorted (insert x ys)
unfolding insert
insert-IsSorted x [] h = (tt, tt)
insert-IsSorted x (y ∷ ys) h = elim (Bool-cases (less x y)) [
  | inl first ↦ rw first ((less_asym x y first, All-not_less x y ys first h.0), h)
  | inr later ↦
      rw later (All-insert (λ z. less z y ≡ false) x ys later h.0, insert-IsSorted x ys h.1)
]

pub sort_blocks-IsSorted : (xs : List CanonicalBlock) → IsSorted (sort_blocks xs)
unfolding sort_blocks
sort_blocks-IsSorted [] = tt
sort_blocks-IsSorted (x ∷ xs) = insert-IsSorted x (sort_blocks xs) (sort_blocks-IsSorted xs)

insert-perm : (x : CanonicalBlock) (ys : List CanonicalBlock) → Perm (insert x ys) (x ∷ ys)
unfolding insert
insert-perm x [] = Perm.refl _
insert-perm x (y ∷ ys) = elim (Bool-cases (less x y)) [
  | inl first ↦ rw first (Perm.refl _)
  | inr later ↦ rw later (Perm.trans (Perm.cons y (insert-perm x ys)) (Perm.swap _ _ _))
]

pub sort_blocks-perm : (xs : List CanonicalBlock) → Perm (sort_blocks xs) xs
unfolding sort_blocks
sort_blocks-perm [] = Perm.refl _
sort_blocks-perm (x ∷ xs) =
    Perm.trans (insert-perm x (sort_blocks xs)) (Perm.cons x (sort_blocks-perm xs))

-- Sorting does not change which numbers there are.
contains-insert :
    (n : ℕ) (x : CanonicalBlock) (ys : List CanonicalBlock)
    → contains n (block_numbers (insert x ys))
      ≡ (n == x.block_number || contains n (block_numbers ys))
unfolding insert contains
contains-insert n x [] = refl
contains-insert n x (y ∷ ys) = elim (Bool-cases (less x y)) [
  | inl first ↦ rw first
  | inr later ↦ rw later (ground (arith, contains-insert n x ys))
]

pub contains-sort_blocks :
    (n : ℕ) (xs : List CanonicalBlock)
    → contains n (block_numbers (sort_blocks xs)) ≡ contains n (block_numbers xs)
unfolding sort_blocks contains
contains-sort_blocks n [] = refl
contains-sort_blocks n (x ∷ xs) =
    ground (arith, contains-insert n x (sort_blocks xs), contains-sort_blocks n xs)

insert-HasDistinctNumbers :
    (x : CanonicalBlock) (ys : List CanonicalBlock)
    → contains x.block_number (block_numbers ys) ≡ false
    → HasDistinctNumbers ys
    → HasDistinctNumbers (insert x ys)
unfolding insert contains
insert-HasDistinctNumbers x [] new h = (new, tt)
insert-HasDistinctNumbers x (y ∷ ys) new h = elim (Bool-cases (less x y)) [
  | inl first ↦ rw first (new, h)
  | inr later ↦ rw later (
    ground (arith, contains-insert y.block_number x ys),
    insert-HasDistinctNumbers x ys (ground arith) h.1,
  )
]

pub sort_blocks-HasDistinctNumbers :
    (xs : List CanonicalBlock) → HasDistinctNumbers xs → HasDistinctNumbers (sort_blocks xs)
unfolding sort_blocks
sort_blocks-HasDistinctNumbers [] h = tt
sort_blocks-HasDistinctNumbers (x ∷ xs) h =
    insert-HasDistinctNumbers x (sort_blocks xs) (rw (contains-sort_blocks x.block_number xs) h.0)
      (sort_blocks-HasDistinctNumbers xs h.1)
