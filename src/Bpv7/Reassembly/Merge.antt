-- ===== src/Bpv7/Reassembly/Merge.antt =====
-- The payload of a bundle, merged from fragments that are pieces of it.
use dtn7_gold.Prelude.{
  ℕ, ◌+◌, ◌-◌, ◌%◌, ◌^◌, ◌≤◌, ◌<◌, ◌≡◌, ap, ◌∙◌, true, false, List, [], ◌∷◌, ◌++◌, arith, length,
  take, drop, length-take, length-drop, drop-drop, drop-take, take-take-drop, ltb, le→leb, lt→leb,
}
use dtn7_gold.Prelude.Int.{pos, int64, uint64, ◌+ℤ◌, ◌-ℤ◌}
use dtn7_gold.Bpv7.Flags.{has, is_fragment}
use dtn7_gold.Bpv7.Bundle.{ok, err, slice_panic, Bundle}
use dtn7_gold.Bpv7.Reassembly.{payload_of, offset_of, check_gaps, merge}

-- The bytes of a payload from `from` on, `n` of them.
abbrev pub piece_of : List ℕ → ℕ → ℕ → List ℕ
piece_of payload from n = take n (drop from payload)

-- A fragment with `n` bytes that are a piece of the payload, at its offset.
pub record IsPiece (payload : List ℕ) (n : ℕ) (b : Bundle) : Type 0 where
  pub flagged : has b.primary_block.bundle_control_flags is_fragment ≡ true
  pub inside : offset_of b + n ≤ length payload
  pub bytes : payload_of b ≡ ok (piece_of payload (offset_of b) n)

-- Fragments that reach from `last` to the end `total`: each begins where bytes are there already, and
-- ends no earlier than they do.
abbrev pub Covers : List ℕ → ℕ → ℕ → List Bundle → Type 0
Covers payload total last [] = last ≡ total
Covers payload total last (b ∷ bs) =
    (n : ℕ) × IsPiece payload n b
    × (offset_of b ≤ last)
    × (last ≤ offset_of b + n)
    × Covers payload total (offset_of b + n) bs

int64-small : (n : ℕ) → n < 2 ^ 63 → int64 n ≡ pos n
unfolding int64
int64-small n h = ground arith

sub-pos : (a b : ℕ) → b ≤ a → pos a -ℤ pos b ≡ pos (a - b)
unfolding ◌-ℤ◌
sub-pos a b h = ground arith

wrap-small : (a b : ℕ) → a + b < 2 ^ 63 → int64 (uint64 (pos a +ℤ pos b)) ≡ pos (a + b)
unfolding uint64 ◌+ℤ◌
wrap-small a b h = ground (arith, int64-small (a + b))

pub length-piece :
    (payload : List ℕ) (from n : ℕ)
    → from + n ≤ length payload
    → length (piece_of payload from n) ≡ n
length-piece payload from n h =
    omega (arith, length-take n (drop from payload), length-drop from payload)

-- What a piece adds to the bytes before `last`.
extend :
    (payload : List ℕ) (from n last : ℕ)
    → from ≤ last
    → last ≤ from + n
    → take last payload ++ drop (last - from) (piece_of payload from n) ≡ take (from + n) payload
extend payload from n last lo hi =
    ap (λ rest. take last payload ++ rest)
      (drop-take (last - from) n (from + n - last) (drop from payload) (omega arith)
        ∙ ap (take (from + n - last)) (drop-drop from (last - from) last payload (omega arith)))
    ∙ take-take-drop last (from + n - last) (from + n) payload (omega arith)

module _ (payload : List ℕ) (last n : ℕ) (b : Bundle) (bs : List Bundle)
    (fits : length payload < 2 ^ 63) (p : IsPiece payload n b) (lo : offset_of b ≤ last) where
  -- One round of the merge, and one of the check before it.
  pub merge-step :
      last ≤ offset_of b + n
      → merge (pos last) (take last payload) (b ∷ bs)
        ≡ merge (pos (offset_of b + n)) (take (offset_of b + n) payload) bs
  unfolding merge
  merge-step hi =
      let size : length (piece_of payload (offset_of b) n) ≡ n =
        length-piece payload (offset_of b) n p.inside in
      let inside : offset_of b + n ≤ length payload = p.inside in
      rw (
        p.bytes,
        int64-small (offset_of b) (omega arith),
        sub-pos last (offset_of b) lo,
        le→leb (last - offset_of b) (length (piece_of payload (offset_of b) n)) (omega arith),
        size,
        wrap-small (offset_of b) n (omega arith),
        extend payload (offset_of b) n last lo hi,
      )

  -- A piece that ends too early.
  pub merge-nested :
      (bytes : List ℕ) → offset_of b + n < last → merge (pos last) bytes (b ∷ bs) ≡ err slice_panic
  unfolding merge
  merge-nested bytes short =
      let inside : offset_of b + n ≤ length payload = p.inside in
      let small : offset_of b < 2 ^ 63 = omega arith in
      rw (
        p.bytes,
        int64-small (offset_of b) small,
        sub-pos last (offset_of b) lo,
        lt→leb (length (piece_of payload (offset_of b) n)) (last - offset_of b)
            (omega (arith, length-piece payload (offset_of b) n inside)),
      )

  pub check_gaps-step : check_gaps last (b ∷ bs) ≡ check_gaps (offset_of b + n) bs
  unfolding check_gaps
  check_gaps-step =
      let inside : offset_of b + n ≤ length payload = p.inside in
      let wrap : (offset_of b + n) % 2 ^ 64 ≡ offset_of b + n = omega arith in
      let gap : ltb last (offset_of b) ≡ false = ground arith in
      rw (p.flagged, gap, p.bytes, length-piece payload (offset_of b) n inside, wrap)

pub merge_lem :
    (payload : List ℕ) (total last : ℕ) (bs : List Bundle)
    → length payload < 2 ^ 63
    → Covers payload total last bs
    → merge (pos last) (take last payload) bs ≡ ok (take total payload)
unfolding merge
merge_lem payload total last [] fits covered = rw covered
merge_lem payload total last (b ∷ bs) fits (n, p, lo, hi, covered) =
    merge-step payload last n b bs fits p lo hi
    ∙ merge_lem payload total (offset_of b + n) bs fits covered

-- The same fragments have no gap.
pub check_gaps_lem :
    (payload : List ℕ) (total last : ℕ) (bs : List Bundle)
    → length payload < 2 ^ 63
    → Covers payload total last bs
    → check_gaps last bs ≡ ok total
unfolding check_gaps
check_gaps_lem payload total last [] fits covered = rw covered
check_gaps_lem payload total last (b ∷ bs) fits (n, p, lo, hi, covered) =
    check_gaps-step payload last n b bs fits p lo
    ∙ check_gaps_lem payload total (offset_of b + n) bs fits covered
