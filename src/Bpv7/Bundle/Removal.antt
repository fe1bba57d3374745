-- ===== src/Bpv7/Bundle/Removal.antt =====
-- A block found by its number, and removed.
use dtn7_gold.Prelude.{ℕ, ◌≡◌, refl, false, List, [], ◌∷◌, arith, All, Bool-cases, inl, inr, ◌==◌}
use dtn7_gold.Bpv7.Blocks.{CanonicalBlock}
use dtn7_gold.Bpv7.Bundle.{
  err, no_such_block, Bundle, less, contains, block_numbers, find_number,
  get_extension_block_by_block_number, without_number, remove_extension_block_by_block_number,
}
use dtn7_gold.Bpv7.Bundle.Sorting.{IsSorted, HasDistinctNumbers}

find_number-absent :
    (n : ℕ) (cbs : List CanonicalBlock)
    → contains n (block_numbers cbs) ≡ false
    → find_number n cbs ≡ err no_such_block
unfolding contains
find_number-absent n [] h = refl
find_number-absent n (cb ∷ cbs) h =
    let other : (cb.block_number == n) ≡ false = ground arith in
    rw (other, find_number-absent n cbs (ground arith))

find-without :
    (n : ℕ) (cbs : List CanonicalBlock)
    → HasDistinctNumbers cbs
    → find_number n (without_number n cbs) ≡ err no_such_block
find-without n [] h = refl
find-without n (cb ∷ cbs) h = elim (Bool-cases (cb.block_number == n)) [
  | inl same ↦ rw same (find_number-absent n cbs (ground arith))
  | inr other ↦ rw (other, other, find-without n cbs h.1)
]

find-without_other :
    (n m : ℕ) (cbs : List CanonicalBlock)
    → (m == n) ≡ false
    → find_number m (without_number n cbs) ≡ find_number m cbs
find-without_other n m [] h = refl
find-without_other n m (cb ∷ cbs) h = elim (Bool-cases (cb.block_number == n)) [
  | inl same ↦ let other : (cb.block_number == m) ≡ false = ground arith in rw (same, other)
  | inr other ↦ elim (Bool-cases (cb.block_number == m)) [
    | inl found ↦ rw (other, found)
    | inr later ↦ rw (other, later, find-without_other n m cbs h)
  ]
]

All-without :
    (P : CanonicalBlock → Type 0) (n : ℕ) (cbs : List CanonicalBlock)
    → All P cbs
    → All P (without_number n cbs)
All-without P n [] h = tt
All-without P n (cb ∷ cbs) h = elim (Bool-cases (cb.block_number == n)) [
  | inl same ↦ rw same h.1
  | inr other ↦ rw other (h.0, All-without P n cbs h.1)
]

without-IsSorted :
    (n : ℕ) (cbs : List CanonicalBlock) → IsSorted cbs → IsSorted (without_number n cbs)
without-IsSorted n [] h = tt
without-IsSorted n (cb ∷ cbs) h = elim (Bool-cases (cb.block_number == n)) [
  | inl same ↦ rw same h.1
  | inr other ↦
      rw other (All-without (λ y. less y cb ≡ false) n cbs h.0, without-IsSorted n cbs h.1)
]

contains-without :
    (k n : ℕ) (cbs : List CanonicalBlock)
    → contains k (block_numbers cbs) ≡ false
    → contains k (block_numbers (without_number n cbs)) ≡ false
unfolding contains
contains-without k n [] h = refl
contains-without k n (cb ∷ cbs) h = elim (Bool-cases (cb.block_number == n)) [
  | inl same ↦ rw same (ground arith)
  | inr other ↦ rw other (ground (arith, contains-without k n cbs))
]

without-HasDistinctNumbers :
    (n : ℕ) (cbs : List CanonicalBlock)
    → HasDistinctNumbers cbs
    → HasDistinctNumbers (without_number n cbs)
without-HasDistinctNumbers n [] h = tt
without-HasDistinctNumbers n (cb ∷ cbs) h = elim (Bool-cases (cb.block_number == n)) [
  | inl same ↦ rw same h.1
  | inr other ↦
      rw other (contains-without cb.block_number n cbs h.0, without-HasDistinctNumbers n cbs h.1)
]

-- From a bundle whose blocks have different numbers and are in the order of `Less`, removing the block
-- of a number, if there is one, leaves no block of this number; every other number finds the block or
-- the error that it found before; and order and difference of the numbers stay.
pub remove_extension_block_lem :
    (n : ℕ) (b : Bundle)
    → HasDistinctNumbers b.canonical_blocks
    → IsSorted b.canonical_blocks
    → (get_extension_block_by_block_number n (remove_extension_block_by_block_number n b)
        ≡ err no_such_block)
      × ((m : ℕ)
          → (m == n) ≡ false
          → get_extension_block_by_block_number m (remove_extension_block_by_block_number n b)
            ≡ get_extension_block_by_block_number m b)
      × HasDistinctNumbers (remove_extension_block_by_block_number n b).canonical_blocks
      × IsSorted (remove_extension_block_by_block_number n b).canonical_blocks
unfolding get_extension_block_by_block_number remove_extension_block_by_block_number
remove_extension_block_lem n b distinct sorted = (
  find-without n b.canonical_blocks distinct,
  λ m h. find-without_other n m b.canonical_blocks h,
  without-HasDistinctNumbers n b.canonical_blocks distinct,
  without-IsSorted n b.canonical_blocks sorted,
)
