-- ===== src/Bpv7/Typed.antt =====
-- A bundle whose blocks have the types of their codes: no type assertion on the value of a block fails.
use dtn7_gold.Prelude.{
  ℕ, ◌≡◌, Bool, true, not, ◌||◌, List, [], ◌∷◌, All, arith, Bool-cases, inl, inr, ◌==◌, ==_iff,
}
use dtn7_gold.Bpv7.Blocks.{
  ExtensionBlock, payload_block, previous_node_block, bundle_age_block, hop_count_block,
  generic_block, payload_type, previous_node_type, bundle_age_type, hop_count_type, type_code,
  block_type_code, CanonicalBlock,
}
use dtn7_gold.Bpv7.Bundle.{
  ok, Bundle, extension_block, extension_blocks, of_type, some_blocks, single_block,
}

-- A generic block does not have the code of a block that is known.
abbrev pub typed : ExtensionBlock → Bool
typed (generic_block bytes code) = not (
    code == payload_type
    || (code == previous_node_type || (code == bundle_age_type || code == hop_count_type)))
typed (payload_block bytes) = true
typed (previous_node_block e) = true
typed (bundle_age_block ms) = true
typed (hop_count_block h) = true

abbrev pub IsTyped : Bundle → Type 0
IsTyped b = All (λ cb. typed cb.value ≡ true) b.canonical_blocks

abbrev pub Fits : ℕ → CanonicalBlock → Type 0
Fits code cb = (typed cb.value ≡ true) × (block_type_code cb.value ≡ code)

of_type-All :
    (code : ℕ) (cbs : List CanonicalBlock)
    → All (λ cb. typed cb.value ≡ true) cbs
    → All (Fits code) (of_type code cbs)
unfolding type_code
of_type-All code [] h = tt
of_type-All code (cb ∷ cbs) h = elim (Bool-cases (block_type_code cb.value == code)) [
  | inl same ↦ rw same ((h.0, (==_iff _ code).0 same), of_type-All code cbs h.1)
  | inr other ↦ rw other (of_type-All code cbs h.1)
]

single-Fits :
    (code : ℕ) (cbs : List CanonicalBlock) (cb : CanonicalBlock)
    → All (Fits code) cbs
    → single_block (some_blocks cbs) ≡ ok cb
    → Fits code cb
single-Fits code [] cb h e = cc
single-Fits code (x ∷ []) cb h e = ground (arith, h.0)
single-Fits code (x ∷ y ∷ r) cb h e = cc

pub extension_block-Fits :
    (code : ℕ) (b : Bundle) (cb : CanonicalBlock)
    → IsTyped b
    → extension_block code b ≡ ok cb
    → Fits code cb
unfolding extension_block extension_blocks
extension_block-Fits code b cb h e =
    single-Fits code (of_type code b.canonical_blocks) cb (of_type-All code b.canonical_blocks h) e
