-- ===== src/Bpv7/Fragmentation/Inverse.antt =====
-- The fragments that `Fragment` makes are reassembled to the payload that was cut.
use dtn7_gold.Prelude.{
  ℕ, ◌+◌, ◌-◌, ◌^◌, ◌≤◌, ◌<◌, ◌≡◌, refl, sym, ap, ◌∙◌, false, bit_and, List, [], ◌∷◌, arith, length,
  some, le→leb,
}
use dtn7_gold.Prelude.Bits.{bit_and-parity}
use dtn7_gold.Prelude.Int.{ℤ}
use dtn7_gold.Bpv7.Flags.{has, is_fragment}
use dtn7_gold.Bpv7.Blocks.{PrimaryBlock, CanonicalBlock}
use dtn7_gold.Bpv7.Bundle.{ok, Bundle}
use dtn7_gold.Bpv7.Bundle.Sorting.{HasDistinctNumbers}
use dtn7_gold.Bpv7.Reassembly.{
  payload_of, offset_of, insert_fragment, sort_fragments, checked, reassemble_fragments,
  without_flag, whole_primary,
}
use dtn7_gold.Bpv7.Reassembly.Whole.{reassemble_fragments_lem}
use mathlib.Core.HLevel.{⊥_prop}
use mathlib.Core.Logic.{∥∥₁_elim}
use mathlib.Core.List.{Memᴰ, Pairwise, Permᴰ}
use dtn7_gold.Bpv7.Reassembly.Order.{HasOtherOffset, sort_fragments-perm}
use native.Mathlib.Numerals.{unary_clauses}
use dtn7_gold.Bpv7.Cbor.{Codec}
use dtn7_gold.Bpv7.Fragmentation.{with_flag, fragment_block, fragment}
use dtn7_gold.Bpv7.Fragmentation.Cut.{ok-inj, IsCut, fragment-IsCut}
use dtn7_gold.Bpv7.Fragmentation.Pieces.{
  AreFragments, Covers-AreFragments, round-IsPiece, round-IsFragment,
}

-- A bundle that is not a fragment.
pub record IsUncut (pb : PrimaryBlock) : Type 0 where
  pub unflagged : has pb.bundle_control_flags is_fragment ≡ false
  pub no_offset : pb.fragment_offset ≡ 0
  pub no_total : pb.total_data_length ≡ 0

flag-back :
    (flags : ℕ)
    → has flags is_fragment ≡ false
    → without_flag (with_flag flags is_fragment) is_fragment ≡ flags
unfolding has
flag-back flags h =
    ground (arith, bit_and-parity flags, bit_and-parity (flags + (1 - bit_and flags 1)))

whole_primary-fragment :
    (pb : PrimaryBlock) (i total : ℕ) → IsUncut pb → whole_primary (fragment_block pb i total) ≡ pb
whole_primary-fragment pb i total h = λ j. record pb {
  bundle_control_flags = flag-back pb.bundle_control_flags h.unflagged j;
  fragment_offset = sym h.no_offset j;
  total_data_length = sym h.no_total j;
}

module _ (c : Codec) (now : ℤ) (mtu : ℕ) (b : Bundle) (pb : CanonicalBlock) (bytes : List ℕ)
    (lens : ℕ × ℕ) where
  insert-first :
      (i : ℕ) (f : Bundle) (fs : List Bundle)
      → offset_of f ≤ i
      → AreFragments c now mtu b pb bytes lens i fs
      → insert_fragment f fs ≡ f ∷ fs
  unfolding insert_fragment
  insert-first i f [] h later = refl
  insert-first i f (g ∷ fs) h (next, small, round, later) =
      let (same, _, _) = round-IsPiece c now mtu b pb bytes lens i g next small round in
      rw (le→leb (offset_of f) (offset_of g) (omega (arith, same)))

  pub sorted-AreFragments :
      (i : ℕ) (fs : List Bundle)
      → AreFragments c now mtu b pb bytes lens i fs
      → sort_fragments fs ≡ fs
  unfolding sort_fragments
  sorted-AreFragments i [] h = refl
  sorted-AreFragments i (f ∷ fs) (next, small, round, later) =
      let (same, _, _) = round-IsPiece c now mtu b pb bytes lens i f next small round in
      ap (insert_fragment f) (sorted-AreFragments next fs later)
      ∙ insert-first next f fs (omega (arith, same, round.advances)) later

  -- The offsets grow.
  offset-after :
      (i : ℕ) (fs : List Bundle) (g : Bundle)
      → AreFragments c now mtu b pb bytes lens i fs
      → Memᴰ g fs
      → i ≤ offset_of g
  offset-after i [] g h m = elim m [ ]
  offset-after i (f ∷ fs) g (next, small, round, later) (Memᴰ.head e) =
      let (same, _, _) = round-IsPiece c now mtu b pb bytes lens i f next small round in
      omega (arith, same, ap offset_of e)
  offset-after i (f ∷ fs) g (next, small, round, later) (Memᴰ.tail m) =
      omega (arith, round.advances, offset-after next fs g later m)

  Pairwise-AreFragments :
      (i : ℕ) (fs : List Bundle)
      → AreFragments c now mtu b pb bytes lens i fs
      → Pairwise HasOtherOffset fs
  Pairwise-AreFragments i [] h = Pairwise.nil
  Pairwise-AreFragments i (f ∷ fs) (next, small, round, later) =
      let (at, _, _) = round-IsPiece c now mtu b pb bytes lens i f next small round in
      Pairwise.cons
        (λ g m same. ∥∥₁_elim m ⊥_prop (λ (d : Memᴰ g fs).
          omega (arith, at, same, round.advances, offset-after next fs g later d)))
        (Pairwise-AreFragments next fs later)

  pub reassembled :
      (later : ℤ) (gs : List Bundle) (f : Bundle) (fs : List Bundle)
      → sort_fragments gs ≡ sort_fragments (f ∷ fs)
      → IsUncut b.primary_block
      → length bytes < 2 ^ 63
      → AreFragments c now mtu b pb bytes lens 0 (f ∷ fs)
      → (w : Bundle) × (reassemble_fragments later gs ≡ checked later w)
        × (payload_of w ≡ ok bytes)
        × (w.primary_block ≡ b.primary_block)
        × HasDistinctNumbers w.canonical_blocks
  reassembled later gs f fs order uncut fits h =
      let (next, small, round, _) = h in
      let (_, _, total) = round-IsPiece c now mtu b pb bytes lens 0 f next small round in
      let part = round-IsFragment c now mtu b pb bytes lens 0 f next round in
      let (w, e, whole) =
        reassemble_fragments_lem later bytes gs f fs fits (order ∙ sorted-AreFragments 0 (f ∷ fs) h)
          (simp unary_clauses at (Covers-AreFragments c now mtu b pb bytes lens 0 (f ∷ fs) h))
          total in
      (
        w,
        e,
        whole.content,
        whole.primary
            ∙ ap whole_primary part.primary_same
            ∙ whole_primary-fragment b.primary_block 0 (length bytes) uncut,
        whole.distinct,
      )

-- A bundle with a payload shorter than 2 ^ 63 bytes, that is no fragment itself and that `Fragment` cuts into
-- several fragments: in whatever order they are, reassembling them gives the check of a bundle with the same
-- payload and the same primary block, whose block numbers differ.
pub fragment-reassemble :
    (c : Codec) (now : ℤ) (mtu : ℕ) (b : Bundle) (payload : List ℕ) (f g : Bundle)
    (fs gs : List Bundle) (later : ℤ)
    → payload_of b ≡ ok payload
    → length payload < 2 ^ 63
    → IsUncut b.primary_block
    → fragment c now mtu b ≡ some (ok (f ∷ g ∷ fs))
    → Permᴰ (f ∷ g ∷ fs) gs
    → (w : Bundle) × (reassemble_fragments later gs ≡ checked later w)
      × (payload_of w ≡ ok payload)
      × (w.primary_block ≡ b.primary_block)
      × HasDistinctNumbers w.canonical_blocks
fragment-reassemble c now mtu b payload f g fs gs later found fits uncut h order =
    let cut : IsCut c now mtu b (f ∷ g ∷ fs) = fragment-IsCut c now mtu b f g fs h in
    let same : cut.payload ≡ payload = ok-inj (sym cut.payload_found ∙ found) in
    let sorted : sort_fragments gs ≡ sort_fragments (f ∷ g ∷ fs) = sym (
      sort_fragments-perm (f ∷ g ∷ fs) gs order (
        Pairwise-AreFragments c now mtu b cut.block cut.payload cut.lens 0 (f ∷ g ∷ fs) cut.cut)) in
    let (w, e, content, primary, distinct) =
      reassembled c now mtu b cut.block cut.payload cut.lens later gs f (g ∷ fs) sorted uncut
        (omega (arith, ap length same)) cut.cut in
    (w, e, content ∙ ap ok same, primary, distinct)
