-- ===== src/Bpv7/Reassembly.antt =====
-- pkg/bpv7/fragmentation.go: fragments of a bundle put together. `sort.Slice` is an insertion sort,
-- which leaves fragments of the same offset as they were; what Go sorts in place is returned.
pub mod Merge
pub mod Whole
pub mod Nested
pub mod Order
use dtn7_gold.Prelude.{
  ℕ, ◌+◌, ◌-◌, ◌%◌, ◌^◌, Bool, true, false, not, bit_and, List, [], ◌∷◌, ◌++◌, length, drop, ◌==◌,
  leb, ltb, if◌then◌else◌,
}
use dtn7_gold.Prelude.Int.{ℤ, pos, negsuc, int64, uint64, ◌+ℤ◌, ◌-ℤ◌}
use dtn7_gold.Bpv7.Flags.{has, is_fragment, Invalid}
use dtn7_gold.Bpv7.Blocks.{
  PrimaryBlock, ExtensionBlock, payload_block, payload_type, CanonicalBlock, new_canonical_block,
  type_code,
}
use dtn7_gold.Bpv7.Bundle.{
  Result, ok, err, invalid, no_fragments, not_a_fragment, fragment_gap, wrong_total, slice_panic,
  type_panic, ◌>>=◌, Bundle, payload_block_of, add_extension_block,
}
use dtn7_gold.Bpv7.Validity.{check_valid}

-- `Value.(*PayloadBlock).Data()`.
unfoldable pub payload_data : CanonicalBlock → Result (List ℕ)
payload_data cb = elim cb.value [ payload_block bytes ↦ ok bytes | other ↦ err type_panic ]

unfoldable pub payload_of : Bundle → Result (List ℕ)
payload_of b = do cb ← payload_block_of b; payload_data cb

abbrev pub offset_of : Bundle → ℕ
offset_of b = b.primary_block.fragment_offset

unfoldable pub insert_fragment : Bundle → List Bundle → List Bundle
insert_fragment b [] = b ∷ []
insert_fragment b (f ∷ fs) =
    let rest = insert_fragment b fs in
    if leb (offset_of b) (offset_of f) then b ∷ f ∷ fs else f ∷ rest

unfoldable pub sort_fragments : List Bundle → List Bundle
unfolding insert_fragment
sort_fragments [] = []
sort_fragments (b ∷ bs) = insert_fragment b (sort_fragments bs)

-- The loop of `prepareReassembly` after `last` bytes; the indices are uint64.
unfoldable pub check_gaps : ℕ → List Bundle → Result ℕ
check_gaps last [] = ok last
check_gaps last (b ∷ bs) =
    if not (has b.primary_block.bundle_control_flags is_fragment)
    then err not_a_fragment
    else if ltb last (offset_of b)
    then err fragment_gap
    else do bytes ← payload_of b; check_gaps ((offset_of b + length bytes) % 2 ^ 64) bs

unfoldable pub check_total : List Bundle → Result (List Bundle)
unfolding check_gaps
check_total [] = err no_fragments
check_total (b ∷ bs) = do
  last ← check_gaps 0 (b ∷ bs)
  if b.primary_block.total_data_length == last then ok (b ∷ bs) else err wrong_total

unfoldable pub prepare_reassembly : List Bundle → Result (List Bundle)
unfolding sort_fragments check_total
prepare_reassembly bs = check_total (sort_fragments bs)

-- `bytes[low:]`.
abbrev pub slice_from : ℤ → List ℕ → Result (List ℕ)
slice_from (pos low) bytes = if leb low (length bytes) then ok (drop low bytes) else err slice_panic
slice_from (negsuc low) bytes = err slice_panic

-- The loop of `mergeFragmentPayload`; its indices are int64.
unfoldable pub merge : ℤ → List ℕ → List Bundle → Result (List ℕ)
unfolding int64 uint64 ◌+ℤ◌ ◌-ℤ◌
merge last bytes [] = ok bytes
merge last bytes (b ∷ bs) = do
  piece ← payload_of b
  new ← slice_from (last -ℤ int64 (offset_of b)) piece
  merge (int64 (uint64 (int64 (offset_of b) +ℤ pos (length piece)))) (bytes ++ new) bs

unfoldable pub merge_fragment_payload : List Bundle → Result (List ℕ)
unfolding merge
merge_fragment_payload bs = merge (pos 0) [] bs

-- Clearing the flag: `flags &^ IsFragment`.
abbrev pub without_flag : ℕ → ℕ → ℕ
without_flag flags flag = flags - bit_and flags flag

abbrev pub whole_primary : PrimaryBlock → PrimaryBlock
whole_primary pb = record pb {
  bundle_control_flags = without_flag pb.bundle_control_flags is_fragment;
  fragment_offset = 0;
  total_data_length = 0;
}

-- The extension blocks of the first fragment, but not its payload.
unfoldable pub add_extension_blocks : List CanonicalBlock → Bundle → Bundle
unfolding add_extension_block
add_extension_blocks [] b = b
add_extension_blocks (cb ∷ cbs) b =
    add_extension_blocks cbs (if type_code cb == payload_type then b else add_extension_block cb b)

unfoldable pub whole_payload : CanonicalBlock → List ℕ → CanonicalBlock
whole_payload cb bytes =
    record (new_canonical_block 1 cb.block_control_flags (payload_block bytes)) {
      crc_type = cb.crc_type;
    }

-- The bundle that is made of the first fragment and a payload.
unfoldable pub whole_bundle : Bundle → CanonicalBlock → List ℕ → Bundle
unfolding add_extension_blocks whole_payload
whole_bundle first pb bytes = add_extension_block (whole_payload pb bytes) (
    add_extension_blocks first.canonical_blocks
      (record { primary_block = whole_primary first.primary_block; canonical_blocks = [] }))

abbrev pub if_valid : Bundle → List Invalid → Result Bundle
if_valid b [] = ok b
if_valid b (e ∷ es) = err (invalid (e ∷ es))

unfoldable pub checked : ℤ → Bundle → Result Bundle
checked now b = do errors ← check_valid now b; if_valid b errors

abbrev pub reassemble_sorted : ℤ → List Bundle → Result Bundle
reassemble_sorted now [] = err no_fragments
reassemble_sorted now (first ∷ rest) = do
  bytes ← merge_fragment_payload (first ∷ rest)
  pb ← payload_block_of first
  checked now (whole_bundle first pb bytes)

-- The bundle that Go returns beside an error is left out.
unfoldable pub reassemble_fragments : ℤ → List Bundle → Result Bundle
unfolding prepare_reassembly checked
reassemble_fragments now bs = do sorted ← prepare_reassembly bs; reassemble_sorted now sorted
