-- ===== src/Bpv7/Tests.antt =====
-- Runs of pkg/bpv7 on small bundles.
use dtn7_gold.Prelude.{
  ◌%◌, ℕ, ◌≡◌, refl, arith, length, List, [], ◌∷◌, ltb, ◌+◌, Bool, true, false, false, ◌==◌,
}
use mathlib.Core.List.{Perm}
use dtn7_gold.Prelude.Int.{ℤ, pos, ◌+ℤ◌, ◌*ℤ◌}
use dtn7_gold.Bpv7.Endpoint.{EndpointId, ipn}
use dtn7_gold.Bpv7.Blocks.{
  PrimaryBlock, new_primary_block, CanonicalBlock, new_canonical_block, payload_block,
  hop_count_block, generic_block,
}
use dtn7_gold.Bpv7.Bundle.{
  ok, err, slice_panic, Bundle, block_numbers, add_extension_block, payload_block_of,
}
use dtn7_gold.Bpv7.Bundle.Sorting.{IsSorted, HasDistinctNumbers}
use dtn7_gold.Bpv7.Bundle.{
  no_such_block, get_extension_block_by_block_number, remove_extension_block_by_block_number,
}
use dtn7_gold.Bpv7.Bundle.Removal.{remove_extension_block_lem}
use dtn7_gold.Bpv7.Bundle.Numbers.{first_number, IsFirstFree, add_extension_block_lem}
use dtn7_gold.Bpv7.Hops.{new_hop_count_block, increment, hops, increment-exceeded}
use dtn7_gold.Bpv7.Validity.{check_valid}
use dtn7_gold.Bpv7.Validity.Payload.{EndsInPayload, check_valid-EndsInPayload}
use dtn7_gold.Bpv7.Reassembly.{sort_fragments, prepare_reassembly, checked, reassemble_fragments}
use dtn7_gold.Bpv7.Reassembly.Merge.{IsPiece}
use dtn7_gold.Bpv7.Reassembly.Whole.{IsWhole, reassemble_fragments_lem}
use dtn7_gold.Bpv7.Reassembly.Nested.{reassemble-nested}

abbrev node : ℕ → EndpointId
node n = ipn (record { node = n; service = 1 })

abbrev primary : ℕ → ℕ → ℕ → PrimaryBlock
primary flags offset total = record {
  version = 7;
  bundle_control_flags = flags;
  crc_type = 2;
  destination = node 1;
  source_node = node 2;
  report_to = node 2;
  creation_timestamp = record { dtn_time = 9; sequence_number = 0 };
  lifetime = 60000;
  fragment_offset = offset;
  total_data_length = total;
}

abbrev block : ℕ → CanonicalBlock
block n = record {
  block_number = n;
  block_control_flags = 0;
  crc_type = 0;
  value = generic_block [] 192;
}

abbrev payload : List ℕ → CanonicalBlock
payload bytes = record {
  block_number = 1;
  block_control_flags = 0;
  crc_type = 0;
  value = payload_block bytes;
}

abbrev bundle : Bundle
bundle = record {
  primary_block = primary 0 0 0;
  canonical_blocks = block 2 ∷ payload (7 ∷ []) ∷ [];
}

add_extension_block_lem_example :
    (n : ℕ) × IsFirstFree n (first_number (block 9)) (block_numbers bundle.canonical_blocks)
    × Perm
        (add_extension_block (block 9) bundle).canonical_blocks
        (record (block 9) { block_number = n } ∷ bundle.canonical_blocks)
    × IsSorted (add_extension_block (block 9) bundle).canonical_blocks
    × HasDistinctNumbers (add_extension_block (block 9) bundle).canonical_blocks
    × ((add_extension_block (block 9) bundle).primary_block ≡ bundle.primary_block)
unfolding dtn7_gold.Bpv7.Bundle.contains
add_extension_block_lem_example = add_extension_block_lem (block 9) bundle (refl, (refl, tt))

bundle-checked : check_valid (pos 0) bundle ≡ ok []
unfolding check_valid dtn7_gold.Bpv7.Validity.check_blocks
    dtn7_gold.Bpv7.Validity.is_lifetime_exceeded dtn7_gold.Bpv7.Validity.unix_milliseconds
    dtn7_gold.Bpv7.Validity.lifetime_duration dtn7_gold.Bpv7.Validity.context_check_valid
    dtn7_gold.Bpv7.Validity.blocks_check_valid dtn7_gold.Bpv7.Validity.report_requests
    dtn7_gold.Bpv7.Validity.numbers_check_valid dtn7_gold.Bpv7.Validity.last_type
    dtn7_gold.Bpv7.Validity.age_check_valid dtn7_gold.Bpv7.Validity.canonicals_check_valid
    dtn7_gold.Bpv7.Blocks.is_zero_time dtn7_gold.Bpv7.Blocks.primary_check_valid
    dtn7_gold.Bpv7.Blocks.block_type_code dtn7_gold.Bpv7.Blocks.extension_check_valid
    dtn7_gold.Bpv7.Blocks.type_code dtn7_gold.Bpv7.Blocks.canonical_check_valid
    dtn7_gold.Bpv7.Flags.has dtn7_gold.Bpv7.Flags.bundle_flags_check_valid
    dtn7_gold.Bpv7.Endpoint.endpoint_is_valid dtn7_gold.Bpv7.Endpoint.same_endpoint
    dtn7_gold.Bpv7.Bundle.contains dtn7_gold.Prelude.Int.int64 dtn7_gold.Prelude.Int.uint64 ◌+ℤ◌
    ◌*ℤ◌
bundle-checked = refl

check_valid-EndsInPayload_example :
    HasDistinctNumbers bundle.canonical_blocks
    × (e : EndsInPayload bundle.canonical_blocks) × (payload_block_of bundle ≡ ok e.last)
check_valid-EndsInPayload_example = check_valid-EndsInPayload (pos 0) bundle bundle-checked

abbrev fragment : ℕ → List ℕ → Bundle
fragment offset bytes = record {
  primary_block = primary 1 offset 3;
  canonical_blocks = payload bytes ∷ [];
}

abbrev whole : List ℕ
whole = 4 ∷ 5 ∷ 6 ∷ []

front-IsPiece : IsPiece whole 2 (fragment 0 (4 ∷ 5 ∷ []))
unfolding dtn7_gold.Bpv7.Flags.has dtn7_gold.Bpv7.Reassembly.payload_of payload_block_of
    dtn7_gold.Bpv7.Blocks.type_code dtn7_gold.Bpv7.Blocks.block_type_code
    dtn7_gold.Bpv7.Reassembly.payload_data
front-IsPiece = record { flagged = refl; inside = omega arith; bytes = refl }

back-IsPiece : IsPiece whole 2 (fragment 1 (5 ∷ 6 ∷ []))
unfolding dtn7_gold.Bpv7.Flags.has dtn7_gold.Bpv7.Reassembly.payload_of payload_block_of
    dtn7_gold.Bpv7.Blocks.type_code dtn7_gold.Bpv7.Blocks.block_type_code
    dtn7_gold.Bpv7.Reassembly.payload_data
back-IsPiece = record { flagged = refl; inside = omega arith; bytes = refl }

reassemble_fragments_lem_example :
    (b : Bundle) × (reassemble_fragments
        (pos 0)
        (fragment 1 (5 ∷ 6 ∷ []) ∷ fragment 0 (4 ∷ 5 ∷ []) ∷ [])
      ≡ checked (pos 0) b)
    × IsWhole (fragment 0 (4 ∷ 5 ∷ [])) whole b
unfolding sort_fragments dtn7_gold.Bpv7.Reassembly.insert_fragment
reassemble_fragments_lem_example =
    reassemble_fragments_lem (pos 0) whole (fragment 1 (5 ∷ 6 ∷ []) ∷ fragment 0 (4 ∷ 5 ∷ []) ∷ [])
      (fragment 0 (4 ∷ 5 ∷ [])) (fragment 1 (5 ∷ 6 ∷ []) ∷ []) (omega arith) refl
      (
        2,
        front-IsPiece,
        omega arith,
        omega arith,
        (2, back-IsPiece, omega arith, omega arith, refl),
      )
      refl

whole-IsPiece : IsPiece whole 3 (fragment 0 whole)
unfolding dtn7_gold.Bpv7.Flags.has dtn7_gold.Bpv7.Reassembly.payload_of payload_block_of
    dtn7_gold.Bpv7.Blocks.type_code dtn7_gold.Bpv7.Blocks.block_type_code
    dtn7_gold.Bpv7.Reassembly.payload_data
whole-IsPiece = record { flagged = refl; inside = omega arith; bytes = refl }

small-IsPiece : IsPiece whole 1 (fragment 1 (5 ∷ []))
unfolding dtn7_gold.Bpv7.Flags.has dtn7_gold.Bpv7.Reassembly.payload_of payload_block_of
    dtn7_gold.Bpv7.Blocks.type_code dtn7_gold.Bpv7.Blocks.block_type_code
    dtn7_gold.Bpv7.Reassembly.payload_data
small-IsPiece = record { flagged = refl; inside = omega arith; bytes = refl }

last-IsPiece : IsPiece whole 1 (fragment 2 (6 ∷ []))
unfolding dtn7_gold.Bpv7.Flags.has dtn7_gold.Bpv7.Reassembly.payload_of payload_block_of
    dtn7_gold.Bpv7.Blocks.type_code dtn7_gold.Bpv7.Blocks.block_type_code
    dtn7_gold.Bpv7.Reassembly.payload_data
last-IsPiece = record { flagged = refl; inside = omega arith; bytes = refl }

abbrev nested : List Bundle
nested = fragment 0 whole ∷ fragment 1 (5 ∷ []) ∷ fragment 2 (6 ∷ []) ∷ []

reassemble-nested_example :
    (prepare_reassembly nested ≡ ok nested)
    × (reassemble_fragments (pos 0) nested ≡ err slice_panic)
unfolding sort_fragments
reassemble-nested_example =
    reassemble-nested (pos 0) whole nested (fragment 0 whole) (fragment 1 (5 ∷ []))
      (fragment 2 (6 ∷ [])) 1 1 (omega arith) refl whole-IsPiece small-IsPiece refl (omega arith)
      last-IsPiece (omega arith) refl refl

remove_extension_block_lem_example :
    (get_extension_block_by_block_number 2 (remove_extension_block_by_block_number 2 bundle)
      ≡ err no_such_block)
    × ((m : ℕ)
        → (m == 2) ≡ false
        → get_extension_block_by_block_number m (remove_extension_block_by_block_number 2 bundle)
          ≡ get_extension_block_by_block_number m bundle)
    × HasDistinctNumbers (remove_extension_block_by_block_number 2 bundle).canonical_blocks
    × IsSorted (remove_extension_block_by_block_number 2 bundle).canonical_blocks
unfolding dtn7_gold.Bpv7.Bundle.contains dtn7_gold.Bpv7.Bundle.less
remove_extension_block_lem_example =
    remove_extension_block_lem 2 bundle (refl, (refl, tt)) ((refl, tt), (tt, tt))

-- The third hop is above the limit of two.
increment-exceeded_example : (increment (hops 2 (new_hop_count_block 2))).1 ≡ ltb 2 ((2 + 1) % 256)
increment-exceeded_example = increment-exceeded 2 2
