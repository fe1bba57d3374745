-- ===== src/Bpv7/Cbor/Bundles.antt =====
-- pkg/bpv7/bundle.go: a bundle in CBOR.
pub mod RoundTrip
pub mod Termination
use dtn7_gold.Prelude.{ℕ, zero, suc, List, [], ◌∷◌, length, Option, none, some}
use dtn7_gold.Prelude.Int.{ℤ}
use dtn7_gold.Wire.{
  Error, cbor_break, invalid_bundle, check_panic, Result, ok, err, Reader, ◌>>=◌, ◌>>◌, ◌⊕◌,
}
use dtn7_gold.Bpv7.Flags.{Invalid}
use dtn7_gold.Bpv7.Blocks.{PrimaryBlock, CanonicalBlock}
use dtn7_gold.Bpv7.Bundle.{Bundle, Result as Checked, ok as collected, err as panicked}
use dtn7_gold.Bpv7.Validity.{check_valid}
use dtn7_gold.Bpv7.Cbor.{Codec}
use dtn7_gold.Bpv7.Cbor.Blocks.{
  marshal_primary, unmarshal_primary, marshal_canonical, unmarshal_canonical, wrap,
}

unfoldable pub marshal_blocks : Codec → List CanonicalBlock → Result (List ℕ)
marshal_blocks c [] = ok []
marshal_blocks c (cb ∷ cbs) = marshal_canonical c cb ⊕ marshal_blocks c cbs

-- `Bundle.MarshalCbor`.
unfoldable pub marshal_bundle : Codec → Bundle → Result (List ℕ)
unfolding marshal_blocks
marshal_bundle c b =
    ok (c.indefinite_array ∷ [])
    ⊕ marshal_primary c b.primary_block
    ⊕ marshal_blocks c b.canonical_blocks
    ⊕ ok (c.break_code ∷ [])

-- The break code ends the loop, wherever in a block it comes.
abbrev pub at_error : Error → Result (List CanonicalBlock)
at_error cbor_break = ok []
at_error e = err e

abbrev pub and_then :
    CanonicalBlock → Option (Result (List CanonicalBlock)) → Option (Result (List CanonicalBlock))
and_then cb none = none
and_then cb (some (ok cbs)) = some (ok (cb ∷ cbs))
and_then cb (some (err e)) = some (err e)

-- The loop of `UnmarshalCbor`, with a bound on its rounds; none means that they are over.
unfoldable pub unmarshal_blocks : Codec → ℕ → List ℕ → Option (Result (List CanonicalBlock))
unmarshal_blocks c zero bs = none
unmarshal_blocks c (suc rounds) bs = elim (unmarshal_canonical c bs) [
  | ok (cb, rest) ↦ and_then cb (unmarshal_blocks c rounds rest)
  | err e ↦ some (at_error e)
]

-- What `CheckValid` says of the bundle that was read.
abbrev pub verdict : Bundle → Checked (List Invalid) → Result Bundle
verdict b (collected []) = ok b
verdict b (collected (e ∷ es)) = err invalid_bundle
verdict b (panicked e) = err check_panic

abbrev pub bundle_of : PrimaryBlock → List CanonicalBlock → Bundle
bundle_of pb cbs = record { primary_block = pb; canonical_blocks = cbs }

abbrev pub after_blocks :
    ℤ → PrimaryBlock → Option (Result (List CanonicalBlock)) → Option (Result Bundle)
after_blocks now pb none = none
after_blocks now pb (some (err e)) = some (err e)
after_blocks now pb (some (ok cbs)) =
    some (verdict (bundle_of pb cbs) (check_valid now (bundle_of pb cbs)))

unfoldable pub read_start : Codec → Reader PrimaryBlock
read_start c = c.read_expect c.indefinite_array >> wrap (unmarshal_primary c)

-- `Bundle.UnmarshalCbor`; a round of the loop takes at least a byte.
unfoldable pub unmarshal_bundle : Codec → ℤ → List ℕ → Option (Result Bundle)
unfolding read_start unmarshal_blocks
unmarshal_bundle c now bs = elim (read_start c bs) [
  | ok (pb, rest) ↦ after_blocks now pb (unmarshal_blocks c (suc (length rest)) rest)
  | err e ↦ some (err e)
]
