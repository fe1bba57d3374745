-- ===== src/Bpv7/Fragmentation/Fits.antt =====
-- The fragments of a bundle, as they are written, stay within the MTU.
use dtn7_gold.Prelude.{
  ℕ, ◌+◌, ◌-◌, ◌≤◌, ◌<◌, min, ◌≡◌, sym, subst, ap, ◌∙◌, true, some, List, [], ◌∷◌, ◌++◌, All, arith,
  length, length-append, ◌==◌, Bool-cases, inl, inr,
}
use dtn7_gold.Prelude.Int.{ℤ}
use dtn7_gold.Wire.{Result as Written, ok as written, err as unwritten, ◌⊕◌}
use dtn7_gold.Bpv7.Blocks.{PrimaryBlock, payload_type, CanonicalBlock, type_code}
use dtn7_gold.Bpv7.Bundle.{
  ok, Bundle, of_type, some_blocks, single_block, extension_block, extension_blocks,
  payload_block_of, number_for, must_new_bundle, sort_blocks,
}
use dtn7_gold.Bpv7.Reassembly.Merge.{length-piece}
use dtn7_gold.Bpv7.Cbor.{Codec}
use dtn7_gold.Bpv7.Cbor.Blocks.{marshal_primary}
use dtn7_gold.Bpv7.Cbor.Bundles.{marshal_blocks, marshal_bundle}
use dtn7_gold.Bpv7.Fragmentation.{
  fragment_block, piece_block, slice, extension_blocks_len, add_fragment_blocks, fragment_bundle,
  fragment,
}
use dtn7_gold.Bpv7.Fragmentation.Termination.{IsRound}
use dtn7_gold.Bpv7.Fragmentation.Pieces.{AreFragments, round-IsFragment}
use dtn7_gold.Bpv7.Fragmentation.Cut.{ok-inj, IsCut, fragment-IsCut}
use dtn7_gold.Bpv7.Fragmentation.Sizes.{SizeLaws, bytes_of, size_of-bytes, payload-estimated}
use dtn7_gold.Bpv7.Fragmentation.Totals.{
  total, marshal_blocks-total, add-total, number_for-most, payload_share, payload_total, share,
  add_fragment_blocks-total,
}

-- The payload block of a bundle is one of its blocks.
module _ (c : Codec) (mtu : ℕ) where
  of_type-payload :
      (cbs : List CanonicalBlock) (pb : CanonicalBlock)
      → single_block (some_blocks (of_type payload_type cbs)) ≡ ok pb
      → ((type_code pb == payload_type) ≡ true) × (payload_share c mtu pb ≤ payload_total c mtu cbs)
  of_type-payload [] pb h = absurd (ground arith)
  of_type-payload (cb ∷ cbs) pb h = elim (Bool-cases (type_code cb == payload_type)) [
    | inl payload ↦ first payload (of_type payload_type cbs) (rw payload at h)
    | inr other ↦
        let later = of_type-payload cbs pb (rw other at h) in
        (later.0, rw other (omega (arith, later.1)))
  ]
    where
      first :
          (type_code cb == payload_type) ≡ true
          → (others : List CanonicalBlock) → single_block (some_blocks (cb ∷ others)) ≡ ok pb
          → ((type_code pb == payload_type) ≡ true)
            × (payload_share c mtu pb ≤ payload_total c mtu (cb ∷ cbs))
      first payload [] q =
          subst
            (λ x.
              ((type_code x == payload_type) ≡ true)
              × (payload_share c mtu x ≤ payload_total c mtu (cb ∷ cbs)))
            (ok-inj q) (payload, rw payload (omega arith))
      first payload (x ∷ xs) q = ground arith

  payload_block-share :
      (b : Bundle) (pb : CanonicalBlock)
      → payload_block_of b ≡ ok pb
      → ((type_code pb == payload_type) ≡ true)
        × (payload_share c mtu pb ≤ payload_total c mtu b.canonical_blocks)
  unfolding payload_block_of extension_block extension_blocks
  payload_block-share b pb h = of_type-payload b.canonical_blocks pb h

-- The bytes of a bundle are those of its blocks and the two of the array around them.
marshal_bundle-size :
    (c : Codec) (b : Bundle)
    → bytes_of (marshal_bundle c b)
      ≤ 2 + bytes_of (marshal_primary c b.primary_block) + total c b.canonical_blocks
unfolding marshal_bundle
marshal_bundle-size c b =
    go (marshal_primary c b.primary_block) (marshal_blocks c b.canonical_blocks)
      (marshal_blocks-total c b.canonical_blocks)
  where
    go :
        (p r : Written (List ℕ))
        → bytes_of r ≤ total c b.canonical_blocks
        → bytes_of (written (c.indefinite_array ∷ []) ⊕ p ⊕ r ⊕ written (c.break_code ∷ []))
          ≤ 2 + bytes_of p + total c b.canonical_blocks
    go (written p) (written r) h =
        omega
          (arith, h, length-append p (r ++ c.break_code ∷ []), length-append r (c.break_code ∷ []))
    go (written p) (unwritten e) h = omega arith
    go (unwritten e) r h = omega arith

-- As many bytes as the MTU has are enough for what `MarshalCbor` writes.
abbrev pub FitsMtu : Codec → ℕ → Bundle → Type 0
FitsMtu c mtu f = bytes_of (marshal_bundle c f) ≤ mtu

module _ (c : Codec) (laws : SizeLaws c) (now : ℤ) (mtu : ℕ) (b : Bundle) (pb : CanonicalBlock)
    (bytes : List ℕ) (lens : ℕ × ℕ)
    (known : extension_blocks_len c mtu b.canonical_blocks ≡ ok lens)
    (block_found : payload_block_of b ≡ ok pb) (few : length b.canonical_blocks < 22) where
  bundle-total :
      (i : ℕ) (primary : PrimaryBlock) (piece : List ℕ)
      → length piece ≤ mtu
      → total c (fragment_bundle primary b pb i piece).canonical_blocks
        ≤ share i lens + length piece
  unfolding fragment_bundle must_new_bundle sort_blocks
  bundle-total i primary piece fits =
      let empty : Bundle = record { primary_block = primary; canonical_blocks = [] } in
      let body : Bundle = add_fragment_blocks i b.canonical_blocks empty in
      let blocks =
        add_fragment_blocks-total c mtu laws i b.canonical_blocks empty lens known
          (omega (arith, few)) in
      let number = number_for (piece_block pb piece) body.canonical_blocks in
      let small = number_for-most c (piece_block pb piece) body.canonical_blocks in
      let (payload, counted) = payload_block-share c mtu b pb block_found in
      let last =
        payload-estimated c laws pb piece number mtu payload (omega (arith, small, blocks.1, few))
          fits in
      omega (arith, blocks.0, counted, last, add-total c (piece_block pb piece) body)

  round-FitsMtu :
      (i : ℕ) (f : Bundle) (next : ℕ)
      → i < length bytes
      → IsRound c now mtu b pb bytes lens i f next
      → FitsMtu c mtu f
  round-FitsMtu i f next inside h =
      let part = round-IsFragment c now mtu b pb bytes lens i f next h in
      let primary : PrimaryBlock = fragment_block b.primary_block i (length bytes) in
      let piece : List ℕ = slice i (min next (length bytes)) bytes in
      let size : length piece ≡ min next (length bytes) - i =
        length-piece bytes i (min next (length bytes) - i) (omega (arith, h.advances)) in
      let first : bytes_of (marshal_primary c f.primary_block) ≡ h.primary_len =
        ap (λ (p : PrimaryBlock). bytes_of (marshal_primary c p)) part.primary_same
        ∙ size_of-bytes _ h.primary_len h.primary_size in
      let blocks : total c f.canonical_blocks ≤ share i lens + length piece =
        subst (λ (x : Bundle). total c x.canonical_blocks ≤ share i lens + length piece)
          (sym h.made) (bundle-total i primary piece (omega (arith, size, h.fills, h.advances))) in
      omega (arith, marshal_bundle-size c f, first, blocks, size, h.fills, h.advances)

  AreFragments-FitsMtu :
      (i : ℕ) (fs : List Bundle)
      → AreFragments c now mtu b pb bytes lens i fs
      → All (FitsMtu c mtu) fs
  AreFragments-FitsMtu i [] h = tt
  AreFragments-FitsMtu i (f ∷ fs) (next, inside, round, later) =
      (round-FitsMtu i f next inside round, AreFragments-FitsMtu next fs later)

-- A bundle of fewer than 22 blocks that `Fragment` cuts into several fragments: what `MarshalCbor` writes of
-- each fragment has at most as many bytes as the MTU, if a number below 24 is written in no more bytes than
-- any other, the heads of longer arrays and byte strings are not shorter, and a byte string is written as a
-- head of at least a byte and its bytes. A fragment that cannot be written counts as no bytes.
pub fragment-FitsMtu :
    (c : Codec)
    → SizeLaws c
    → (now : ℤ) (mtu : ℕ) (b f g : Bundle) (fs : List Bundle) → length b.canonical_blocks < 22
    → fragment c now mtu b ≡ some (ok (f ∷ g ∷ fs))
    → All (FitsMtu c mtu) (f ∷ g ∷ fs)
fragment-FitsMtu c laws now mtu b f g fs few h =
    let cut : IsCut c now mtu b (f ∷ g ∷ fs) = fragment-IsCut c now mtu b f g fs h in
    AreFragments-FitsMtu c laws now mtu b cut.block cut.payload cut.lens cut.lens_found
      cut.block_found few 0 (f ∷ g ∷ fs) cut.cut
