-- ===== src/Bpv7/Fragmentation/Tests.antt =====
-- Runs of `Fragment` on a small bundle.
use dtn7_gold.Prelude.{
  ℕ, zero, suc, ◌≡◌, ◌<◌, refl, arith, length, length-append, ◌≤◌, ◌++◌, List, [], ◌∷◌, ◌==◌,
  Option, some, none, All,
}
use mathlib.Core.List.{Permᴰ}
use dtn7_gold.Prelude.Int.{ℤ, pos, ◌+ℤ◌, ◌*ℤ◌}
use dtn7_gold.Bpv7.Flags.{has}
use dtn7_gold.Bpv7.Endpoint.{EndpointId, ipn}
use dtn7_gold.Bpv7.Blocks.{PrimaryBlock, CanonicalBlock, payload_block, generic_block}
use dtn7_gold.Bpv7.Bundle.{Bundle, Result, ok, err, overhead_too_large}
use dtn7_gold.Bpv7.Bundle.Sorting.{HasDistinctNumbers}
use dtn7_gold.Bpv7.Reassembly.{payload_of, checked, reassemble_fragments}
use dtn7_gold.Bpv7.Cbor.LongForm.{long_form}
use dtn7_gold.Bpv7.Fragmentation.{fragment}
use dtn7_gold.Bpv7.Fragmentation.Termination.{fragment-terminates}
use dtn7_gold.Wire.{put_uint}
use dtn7_gold.Wire.Laws.{length-put_uint}
use dtn7_gold.Bpv7.Fragmentation.Sizes.{SizeLaws}
use dtn7_gold.Bpv7.Fragmentation.Fits.{FitsMtu, fragment-FitsMtu}
use dtn7_gold.Bpv7.Fragmentation.Inverse.{IsUncut, fragment-reassemble}

abbrev node : ℕ → EndpointId
node n = ipn (record { node = n; service = 1 })

abbrev bundle : Bundle
bundle = record {
  primary_block = record {
    version = 7;
    bundle_control_flags = 0;
    crc_type = 2;
    destination = node 1;
    source_node = node 2;
    report_to = node 2;
    creation_timestamp = record { dtn_time = 9; sequence_number = 0 };
    lifetime = 60000;
    fragment_offset = 0;
    total_data_length = 0;
  };
  canonical_blocks =
      record {
        block_number = 2;
        block_control_flags = 1;
        crc_type = 0;
        value = generic_block (8 ∷ []) 192;
      }
      ∷ record {
        block_number = 1;
        block_control_flags = 0;
        crc_type = 0;
        value = payload_block (1 ∷ 2 ∷ 3 ∷ 4 ∷ 5 ∷ []);
      }
      ∷ [];
}

abbrev mtu : ℕ
mtu = 385

abbrev nth : ℕ → List Bundle → Bundle
nth n [] = bundle
nth zero (f ∷ fs) = f
nth (suc n) (f ∷ fs) = nth n fs

abbrev made : Option (Result (List Bundle)) → List Bundle
made (some (ok fs)) = fs
made other = []

abbrev part : ℕ → Bundle
part n = nth n (made (fragment long_form (pos 0) mtu bundle))

three_parts : fragment long_form (pos 0) mtu bundle ≡ some (ok (part 0 ∷ part 1 ∷ part 2 ∷ []))
unfolding fragment has dtn7_gold.Bpv7.Bundle.payload_block_of dtn7_gold.Bpv7.Blocks.type_code
    dtn7_gold.Bpv7.Blocks.block_type_code dtn7_gold.Bpv7.Reassembly.payload_data
    dtn7_gold.Bpv7.Cbor.Blocks.marshal_canonical dtn7_gold.Bpv7.Cbor.empty_crc
    dtn7_gold.Bpv7.Cbor.Blocks.marshal_primary dtn7_gold.Bpv7.Cbor.Endpoints.marshal_endpoint
    dtn7_gold.Bpv7.Endpoint.endpoint_is_valid dtn7_gold.Wire.put_uint
    dtn7_gold.Bpv7.Cbor.Endpoints.marshal_timestamp checked dtn7_gold.Bpv7.Validity.check_valid
    dtn7_gold.Bpv7.Validity.is_lifetime_exceeded dtn7_gold.Bpv7.Blocks.is_zero_time
    dtn7_gold.Bpv7.Blocks.primary_check_valid dtn7_gold.Bpv7.Blocks.canonical_check_valid
    dtn7_gold.Bpv7.Blocks.extension_check_valid dtn7_gold.Bpv7.Bundle.contains
    dtn7_gold.Bpv7.Bundle.free_number dtn7_gold.Bpv7.Bundle.less
    dtn7_gold.Bpv7.Endpoint.same_endpoint dtn7_gold.Bpv7.Flags.bundle_flags_check_valid
    dtn7_gold.Bpv7.Cbor.Blocks.extension_data dtn7_gold.Bpv7.Cbor.Blocks.primary_length
    dtn7_gold.Bpv7.Fragmentation.add_fragment_blocks dtn7_gold.Bpv7.Fragmentation.estimated
    dtn7_gold.Bpv7.Validity.age_check_valid dtn7_gold.Bpv7.Validity.blocks_check_valid
    dtn7_gold.Bpv7.Validity.canonicals_check_valid dtn7_gold.Bpv7.Validity.check_blocks
    dtn7_gold.Bpv7.Validity.context_check_valid dtn7_gold.Bpv7.Validity.last_type
    dtn7_gold.Bpv7.Validity.lifetime_duration dtn7_gold.Bpv7.Validity.numbers_check_valid
    dtn7_gold.Bpv7.Validity.report_requests dtn7_gold.Bpv7.Validity.unix_milliseconds
    dtn7_gold.Prelude.Int.int64 dtn7_gold.Prelude.Int.uint64 ◌*ℤ◌ ◌+ℤ◌
three_parts = refl

bundle_payload : payload_of bundle ≡ ok (1 ∷ 2 ∷ 3 ∷ 4 ∷ 5 ∷ [])
unfolding payload_of dtn7_gold.Bpv7.Bundle.payload_block_of dtn7_gold.Bpv7.Blocks.type_code
    dtn7_gold.Bpv7.Blocks.block_type_code dtn7_gold.Bpv7.Reassembly.payload_data
bundle_payload = refl

bundle-IsUncut : IsUncut bundle.primary_block
unfolding has
bundle-IsUncut = record { unflagged = refl; no_offset = refl; no_total = refl }

-- The parts arrive with the first two in the other order.
fragment-reassemble_example :
    (w : Bundle) × (reassemble_fragments (pos 0) (part 1 ∷ part 0 ∷ part 2 ∷ [])
      ≡ checked (pos 0) w)
    × (payload_of w ≡ ok (1 ∷ 2 ∷ 3 ∷ 4 ∷ 5 ∷ []))
    × (w.primary_block ≡ bundle.primary_block)
    × HasDistinctNumbers w.canonical_blocks
fragment-reassemble_example =
    fragment-reassemble long_form (pos 0) mtu bundle (1 ∷ 2 ∷ 3 ∷ 4 ∷ 5 ∷ []) (part 0) (part 1)
      (part 2 ∷ []) (part 1 ∷ part 0 ∷ part 2 ∷ []) (pos 0) bundle_payload (omega arith)
      bundle-IsUncut three_parts (Permᴰ.swap refl refl)

fragment-terminates_example :
    (r : Result (List Bundle)) × (fragment long_form (pos 0) mtu bundle ≡ some r)
fragment-terminates_example = fragment-terminates long_form (pos 0) mtu bundle

head-length : (major n : ℕ) → length (major ∷ put_uint 8 n) ≡ 9
head-length major n = omega (arith, length-put_uint 8 n)

long_form-SizeLaws : SizeLaws long_form
long_form-SizeLaws = record {
  uint_small = λ m n h. omega (arith, head-length 0x1B m, head-length 0x1B n);
  array_grows = λ m n h. omega (arith, head-length 0x9B m, head-length 0x9B n);
  string_len = λ bytes. omega (arith, length-append (put_uint 8 (length bytes)) bytes);
  string_grows = λ m n h. omega (arith, head-length 0x5B m, head-length 0x5B n);
  string_some = λ n. omega (arith, head-length 0x5B n);
}

fragment-FitsMtu_example : All (FitsMtu long_form mtu) (part 0 ∷ part 1 ∷ part 2 ∷ [])
fragment-FitsMtu_example =
    fragment-FitsMtu long_form long_form-SizeLaws (pos 0) mtu bundle (part 0) (part 1) (part 2 ∷ [])
      (omega arith) three_parts
