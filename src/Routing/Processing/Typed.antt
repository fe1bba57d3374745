-- ===== src/Routing/Processing/Typed.antt =====
-- What the core does to the blocks of a bundle keeps the types of their codes.
pub mod Assertions
use dtn7_gold.Prelude.{
  ℕ, ◌≡◌, Bool, true, not, ◌||◌, List, [], ◌∷◌, All, All-append, arith, Bool-cases, inl, inr, ◌==◌,
  ==_iff,
}
use dtn7_gold.Bpv7.Blocks.{
  ExtensionBlock, payload_block, previous_node_block, bundle_age_block, hop_count_block,
  generic_block, payload_type, previous_node_type, bundle_age_type, hop_count_type, type_code,
  block_type_code, CanonicalBlock,
}
use dtn7_gold.Bpv7.Bundle.{
  ok, less, Bundle, extension_block, extension_blocks, of_type, some_blocks, single_block,
  add_extension_block, sort_blocks, insert,
}
use dtn7_gold.Routing.Processing.{set_first, set_value}
use dtn7_gold.Bpv7.Typed.{typed, IsTyped}

-- Replacing the value of a block, and adding a block.
set_first-All :
    (code : ℕ) (v : ExtensionBlock) (cbs : List CanonicalBlock)
    → typed v ≡ true
    → All (λ cb. typed cb.value ≡ true) cbs
    → All (λ cb. typed cb.value ≡ true) (set_first code v cbs)
unfolding type_code
set_first-All code v [] hv h = tt
set_first-All code v (cb ∷ cbs) hv h = elim (Bool-cases (block_type_code cb.value == code)) [
  | inl same ↦ rw same (hv, h.1)
  | inr other ↦ rw other (h.0, set_first-All code v cbs hv h.1)
]

pub set_value-IsTyped :
    (code : ℕ) (v : ExtensionBlock) (b : Bundle)
    → typed v ≡ true
    → IsTyped b
    → IsTyped (set_value code v b)
unfolding set_value
set_value-IsTyped code v b hv h = set_first-All code v b.canonical_blocks hv h

insert-All :
    (x : CanonicalBlock) (cbs : List CanonicalBlock)
    → typed x.value ≡ true
    → All (λ cb. typed cb.value ≡ true) cbs
    → All (λ cb. typed cb.value ≡ true) (insert x cbs)
unfolding insert
insert-All x [] hx h = (hx, tt)
insert-All x (y ∷ ys) hx h = elim (Bool-cases (less x y)) [
  | inl first ↦ rw first (hx, h)
  | inr later ↦ rw later (h.0, insert-All x ys hx h.1)
]

sort_blocks-All :
    (cbs : List CanonicalBlock)
    → All (λ cb. typed cb.value ≡ true) cbs
    → All (λ cb. typed cb.value ≡ true) (sort_blocks cbs)
unfolding sort_blocks
sort_blocks-All [] h = tt
sort_blocks-All (cb ∷ cbs) h = insert-All cb (sort_blocks cbs) h.0 (sort_blocks-All cbs h.1)

pub add_extension_block-IsTyped :
    (cb : CanonicalBlock) (b : Bundle)
    → typed cb.value ≡ true
    → IsTyped b
    → IsTyped (add_extension_block cb b)
unfolding add_extension_block
add_extension_block-IsTyped cb b hv h =
    sort_blocks-All _ (All-append (λ c. typed c.value ≡ true) b.canonical_blocks _ h (hv, tt))
