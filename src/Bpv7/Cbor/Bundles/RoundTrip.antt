-- ===== src/Bpv7/Cbor/Bundles/RoundTrip.antt =====
-- A bundle that is written is read back.
use dtn7_gold.Prelude.{
  ℕ, zero, suc, ◌+◌, ◌≤◌, ◌<◌, ◌≡◌, refl, ap, ◌∙◌, List, [], ◌∷◌, ◌++◌, append_assoc, arith, length,
  length-append, All, some,
}
use dtn7_gold.Prelude.Int.{ℤ}
use dtn7_gold.Wire.{cbor_break, ok, err, ◌>>=◌}
use dtn7_gold.Wire.Reads.{Reads, bind-Reads}
use dtn7_gold.Bpv7.Blocks.{PrimaryBlock, CanonicalBlock}
use dtn7_gold.Bpv7.Bundle.{Bundle, ok as collected}
use dtn7_gold.Bpv7.Validity.{check_valid}
use dtn7_gold.Bpv7.Cbor.{Codec, CodecLaws}
use dtn7_gold.Bpv7.Cbor.Blocks.{canonical_length, unmarshal_canonical, unmarshal_primary}
use dtn7_gold.Bpv7.Cbor.Blocks.Primary.{IsPrimary, primary-RoundTrip}
use dtn7_gold.Bpv7.Cbor.Blocks.Canonical.{IsCanonical, canonical-RoundTrip, wrap-Reads}
use dtn7_gold.Bpv7.Cbor.Bundles.{
  marshal_blocks, marshal_bundle, unmarshal_blocks, read_start, unmarshal_bundle,
}

module _ (c : Codec) (laws : CodecLaws c) where
  break-read : (rest : List ℕ) → unmarshal_canonical c (c.break_code ∷ rest) ≡ err cbor_break
  unfolding unmarshal_canonical ◌>>=◌
  break-read rest = rw (laws.break_array rest, ◌>>=◌)

  blocks-end :
      (rounds : ℕ) (rest : List ℕ)
      → 0 < rounds
      → unmarshal_blocks c rounds (c.break_code ∷ rest) ≡ some (ok [])
  unfolding unmarshal_blocks
  blocks-end zero rest h = absurd (omega arith)
  blocks-end (suc rounds) rest h = rw (unmarshal_blocks, break-read rest)

  -- A round of the loop that reads a block.
  blocks-round :
      (rounds : ℕ) (bs rest : List ℕ) (cb : CanonicalBlock) (cbs : List CanonicalBlock)
      → length cbs + 1 < rounds
      → unmarshal_canonical c bs ≡ ok (cb, rest)
      → ((more : ℕ) → length cbs < more → unmarshal_blocks c more rest ≡ some (ok cbs))
      → unmarshal_blocks c rounds bs ≡ some (ok (cb ∷ cbs))
  unfolding unmarshal_blocks
  blocks-round zero bs rest cb cbs small h others = absurd (omega arith)
  blocks-round (suc rounds) bs rest cb cbs small h others =
      rw (unmarshal_blocks, h, others rounds (omega arith))

  blocks-RoundTrip :
      (cbs : List CanonicalBlock)
      → All (IsCanonical c) cbs
      → (bytes : List ℕ) × (marshal_blocks c cbs ≡ ok bytes)
        × (length cbs ≤ length bytes)
        × ((rest : List ℕ) (rounds : ℕ)
            → length cbs < rounds
            → unmarshal_blocks c rounds (bytes ++ c.break_code ∷ rest) ≡ some (ok cbs))
  unfolding marshal_blocks
  blocks-RoundTrip [] h = ([], refl, omega arith, λ rest rounds. blocks-end rounds rest)
  blocks-RoundTrip (cb ∷ cbs) h =
      let (tail, e, cb_read) = canonical-RoundTrip c laws cb h.0 in
      let (others, e', some_bytes, others_read) = blocks-RoundTrip cbs h.1 in
      let start : List ℕ = c.write_array_length (canonical_length cb) in
      (
        (start ++ tail) ++ others,
        rw (e, e'),
        omega (
          arith,
          length-append (start ++ tail) others,
          length-append start tail,
          laws.some_length (canonical_length cb),
        ),
        λ rest rounds small.
            blocks-round rounds _ (others ++ c.break_code ∷ rest) cb cbs (omega arith)
              (ap (unmarshal_canonical c)
                  (append_assoc (start ++ tail) others (c.break_code ∷ rest))
                ∙ cb_read.back (others ++ c.break_code ∷ rest))
              (others_read rest),
      )

  brackets :
      (primary blocks rest : List ℕ)
      → (c.indefinite_array ∷ (primary ++ (blocks ++ c.break_code ∷ []))) ++ rest
        ≡ (c.indefinite_array ∷ primary) ++ (blocks ++ c.break_code ∷ rest)
  brackets primary blocks rest =
      ap (λ (t : List ℕ). c.indefinite_array ∷ t)
        (append_assoc primary (blocks ++ c.break_code ∷ []) rest
          ∙ ap (λ (t : List ℕ). primary ++ t) (append_assoc blocks (c.break_code ∷ []) rest))

  start-Reads :
      (pb : PrimaryBlock) (primary : List ℕ)
      → Reads (unmarshal_primary c) primary pb
      → Reads (read_start c) (c.indefinite_array ∷ primary) pb
  unfolding read_start
  start-Reads pb primary h =
      let first : Reads (c.read_expect c.indefinite_array) (c.indefinite_array ∷ []) tt = record {
        back = laws.expect c.indefinite_array;
      } in
      bind-Reads _ first (wrap-Reads h)

  bundle-read :
      (now : ℤ) (b : Bundle) (bs rest : List ℕ)
      → read_start c bs ≡ ok (b.primary_block, rest)
      → unmarshal_blocks c (suc (length rest)) rest ≡ some (ok b.canonical_blocks)
      → check_valid now b ≡ collected []
      → unmarshal_bundle c now bs ≡ some (ok b)
  unfolding unmarshal_bundle
  bundle-read now b bs rest h h' valid = rw (unmarshal_bundle, h, h', valid)

  -- A bundle of blocks that CBOR can hold, and that its check accepts, is written as an array of
  -- indefinite length, and what was written is read as the same bundle, whatever stands behind it.
  pub bundle_roundtrip :
      (now : ℤ) (b : Bundle)
      → IsPrimary b.primary_block
      → All (IsCanonical c) b.canonical_blocks
      → check_valid now b ≡ collected []
      → (bytes : List ℕ) × (marshal_bundle c b ≡ ok (c.indefinite_array ∷ bytes))
        × ((rest : List ℕ)
            → unmarshal_bundle c now ((c.indefinite_array ∷ bytes) ++ rest) ≡ some (ok b))
  unfolding marshal_bundle
  bundle_roundtrip now b primary_right blocks_right valid =
      let (primary, e, primary_read) = primary-RoundTrip c laws b.primary_block primary_right in
      let (blocks, e', size, blocks_read) = blocks-RoundTrip b.canonical_blocks blocks_right in
      (
        primary ++ (blocks ++ c.break_code ∷ []),
        rw (e, e'),
        λ rest.
            bundle-read now b _ (blocks ++ c.break_code ∷ rest)
              (ap (read_start c) (brackets primary blocks rest)
                ∙ (start-Reads b.primary_block primary primary_read).back
                    (blocks ++ c.break_code ∷ rest))
              (blocks_read rest _ (omega (arith, size, length-append blocks (c.break_code ∷ rest))))
              valid,
      )
