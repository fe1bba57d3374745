-- ===== src/Bpv7/Bundle/Numbers.antt =====
-- The number that a new block of a bundle gets.
use dtn7_gold.Prelude.{
  ℕ, zero, suc, ◌+◌, ◌≤◌, ◌<◌, ◌≡◌, refl, true, false, List, [], ◌∷◌, ◌++◌, arith, length,
  length-map, Bool-cases, inl, inr, ◌==◌, leb, if◌then◌else◌, ◌||◌,
}
use mathlib.Core.List.{Perm, perm_append_singleton}
use mathlib.Core.List.Perm
use dtn7_gold.Bpv7.Blocks.{CanonicalBlock, payload_type, type_code}
use dtn7_gold.Bpv7.Bundle.{
  Bundle, contains, block_numbers, free_number, number_for, add_extension_block,
}
use dtn7_gold.Bpv7.Bundle.Sorting.{
  IsSorted, HasDistinctNumbers, sort_blocks-IsSorted, sort_blocks-perm,
  sort_blocks-HasDistinctNumbers,
}

-- How many of the numbers are `n` or more.
unfoldable count_from : ℕ → List ℕ → ℕ
count_from n [] = 0
count_from n (k ∷ ks) = let rest = count_from n ks in if leb n k then suc rest else rest

count_from-suc : (n : ℕ) (ks : List ℕ) → count_from (n + 1) ks ≤ count_from n ks
unfolding count_from
count_from-suc n [] = omega arith
count_from-suc n (k ∷ ks) = ground (arith, count_from-suc n ks)

count_from-contains :
    (n : ℕ) (ks : List ℕ) → contains n ks ≡ true → count_from (n + 1) ks < count_from n ks
unfolding count_from contains
count_from-contains n [] h = cc
count_from-contains n (k ∷ ks) h = ground (arith, count_from-suc n ks, count_from-contains n ks)

count_from-zero : (n : ℕ) (ks : List ℕ) → count_from n ks ≤ 0 → contains n ks ≡ false
unfolding count_from contains
count_from-zero n [] h = refl
count_from-zero n (k ∷ ks) h = ground (arith, count_from-zero n ks)

count_from-length : (n : ℕ) (ks : List ℕ) → count_from n ks ≤ length ks
unfolding count_from
count_from-length n [] = omega arith
count_from-length n (k ∷ ks) = ground (arith, count_from-length n ks)

-- A number is free once there are as many rounds as numbers that it could collide with.
free_number-fresh :
    (rounds n : ℕ) (ks : List ℕ)
    → count_from n ks ≤ rounds
    → contains (free_number rounds n ks) ks ≡ false
unfolding free_number
free_number-fresh zero n ks h = count_from-zero n ks h
free_number-fresh (suc rounds) n ks h = elim (Bool-cases (contains n ks)) [
  | inl taken ↦
      rw taken (free_number-fresh rounds (n + 1) ks (omega (arith, count_from-contains n ks taken)))
  | inr free ↦ rw free free
]

-- It is the first one that is free.
free_number-least :
    (rounds n k : ℕ) (ks : List ℕ) → n ≤ k → k < free_number rounds n ks → contains k ks ≡ true
unfolding free_number
free_number-least zero n k ks lo hi = absurd (omega arith)
free_number-least (suc rounds) n k ks lo hi = elim (Bool-cases (contains n ks)) [
  | inl taken ↦ elim (Bool-cases (n == k)) [
    | inl same ↦ ground arith
    | inr other ↦ free_number-least rounds (n + 1) k ks (ground arith) (rw taken at hi)
  ]
  | inr free ↦ absurd (omega (arith, rw free at hi))
]

free_number-le : (rounds n : ℕ) (ks : List ℕ) → n ≤ free_number rounds n ks
unfolding free_number
free_number-le zero n ks = omega arith
free_number-le (suc rounds) n ks = ground (arith, free_number-le rounds (n + 1) ks)

-- The lowest number of a block.
abbrev pub first_number : CanonicalBlock → ℕ
first_number block = if type_code block == payload_type then 1 else 2

-- What the number of a new block is to the numbers that a bundle has.
abbrev pub IsFirstFree : ℕ → ℕ → List ℕ → Type 0
IsFirstFree n low taken =
    (contains n taken ≡ false) × (low ≤ n) × ((k : ℕ) → low ≤ k → k < n → contains k taken ≡ true)

pub number_for-IsFirstFree :
    (block : CanonicalBlock) (blocks : List CanonicalBlock)
    → IsFirstFree (number_for block blocks) (first_number block) (block_numbers blocks)
unfolding number_for
number_for-IsFirstFree block blocks = (
  free_number-fresh (length blocks) (first_number block) (block_numbers blocks) (
      omega (
        arith,
        count_from-length (first_number block) (block_numbers blocks),
        length-map {A = CanonicalBlock} (λ cb. cb.block_number) blocks,
      )),
  free_number-le (length blocks) (first_number block) (block_numbers blocks),
  λ k lo hi. free_number-least (length blocks) (first_number block) k (block_numbers blocks) lo hi,
)

contains-append :
    (n : ℕ) (xs : List CanonicalBlock) (y : CanonicalBlock)
    → contains n (block_numbers (xs ++ y ∷ []))
      ≡ (contains n (block_numbers xs) || n == y.block_number)
unfolding contains
contains-append n [] y = ground arith
contains-append n (x ∷ xs) y = ground (arith, contains-append n xs y)

append-HasDistinctNumbers :
    (xs : List CanonicalBlock) (y : CanonicalBlock)
    → contains y.block_number (block_numbers xs) ≡ false
    → HasDistinctNumbers xs
    → HasDistinctNumbers (xs ++ y ∷ [])
unfolding contains
append-HasDistinctNumbers [] y new h = (refl, tt)
append-HasDistinctNumbers (x ∷ xs) y new h = (
  ground (arith, contains-append x.block_number xs y),
  append-HasDistinctNumbers xs y (ground arith) h.1,
)

-- A block that is added to a bundle whose blocks have different numbers gets the first number from
-- one on, from two on if it is no payload block, that no other block has; the search for it ends
-- within one round for each block. The bundle then has its old blocks and the new one, with nothing
-- but its number changed; they are in the order of `Less`, and their numbers still differ.
pub add_extension_block_lem :
    (block : CanonicalBlock) (b : Bundle)
    → HasDistinctNumbers b.canonical_blocks
    → (n : ℕ) × IsFirstFree n (first_number block) (block_numbers b.canonical_blocks)
      × Perm
          (add_extension_block block b).canonical_blocks
          (record block { block_number = n } ∷ b.canonical_blocks)
      × IsSorted (add_extension_block block b).canonical_blocks
      × HasDistinctNumbers (add_extension_block block b).canonical_blocks
      × ((add_extension_block block b).primary_block ≡ b.primary_block)
unfolding add_extension_block
add_extension_block_lem block b h =
    let n : ℕ = number_for block b.canonical_blocks in
    let numbered : CanonicalBlock = record block { block_number = n } in
    let first : IsFirstFree n (first_number block) (block_numbers b.canonical_blocks) =
      number_for-IsFirstFree block b.canonical_blocks in
    (
      n,
      first,
      Perm.trans (sort_blocks-perm (b.canonical_blocks ++ numbered ∷ []))
          (perm_append_singleton numbered b.canonical_blocks),
      sort_blocks-IsSorted (b.canonical_blocks ++ numbered ∷ []),
      sort_blocks-HasDistinctNumbers (b.canonical_blocks ++ numbered ∷ [])
          (append-HasDistinctNumbers b.canonical_blocks numbered first.0 h),
      refl,
    )
