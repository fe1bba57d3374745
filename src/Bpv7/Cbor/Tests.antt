-- ===== src/Bpv7/Cbor/Tests.antt =====
-- Runs of the CBOR forms of pkg/bpv7 on a small bundle.
use dtn7_gold.Prelude.{
  ℕ, ◌≡◌, ◌<◌, refl, arith, List, [], ◌∷◌, ◌++◌, All, if◌then◌else◌, Option, some, true, false,
  ◌==◌,
}
use dtn7_gold.Prelude.Int.{ℤ, pos, ◌+ℤ◌, ◌*ℤ◌}
use dtn7_gold.Wire.{put_uint, wrong_crc, Result, ok, err}
use dtn7_gold.Bpv7.Flags.{has}
use dtn7_gold.Bpv7.Endpoint.{EndpointId, ipn, dtn, is_name_char, is_one_line}
use dtn7_gold.Bpv7.Blocks.{
  PrimaryBlock, CanonicalBlock, payload_block, hop_count_block, generic_block, previous_node_block,
}
use dtn7_gold.Bpv7.Bundle.{Bundle, ok as collected}
use dtn7_gold.Bpv7.Validity.{check_valid}
use dtn7_gold.Bpv7.Cbor.Blocks.{extension_data, marshal_primary, unmarshal_primary}
use dtn7_gold.Bpv7.Cbor.Blocks.Corruption.{primary_checksum}
use dtn7_gold.Prelude.Bytes.{equal}
use dtn7_gold.Bpv7.Cbor.Endpoints.{marshal_endpoint}
use dtn7_gold.Bpv7.Cbor.Blocks.Primary.{IsPrimary}
use dtn7_gold.Bpv7.Cbor.Blocks.Canonical.{IsCanonical}
use dtn7_gold.Bpv7.Cbor.Bundles.{marshal_bundle, unmarshal_bundle}
use dtn7_gold.Bpv7.Cbor.Bundles.RoundTrip.{bundle_roundtrip}
use dtn7_gold.Bpv7.Cbor.Bundles.Termination.{unmarshal_bundle-terminates}
use dtn7_gold.Bpv7.Cbor.LongForm.{long_form, long_form-Laws}

abbrev service_of : List ℕ → EndpointId
service_of demux = dtn (record { node_name = 0x61 ∷ 0x2D ∷ []; demux = demux; is_dtn_none = false })

abbrev pub primary : PrimaryBlock
primary = record {
  version = 7;
  bundle_control_flags = 0;
  crc_type = 2;
  destination = service_of (0x78 ∷ []);
  source_node = ipn (record { node = 2; service = 1 });
  report_to = dtn (record { node_name = []; demux = []; is_dtn_none = true });
  creation_timestamp = record { dtn_time = 9; sequence_number = 0 };
  lifetime = 60000;
  fragment_offset = 0;
  total_data_length = 0;
}

abbrev pub canonicals : List CanonicalBlock
canonicals =
    record {
      block_number = 2;
      block_control_flags = 0;
      crc_type = 1;
      value = hop_count_block (record { limit = 9; count = 1 });
    }
    ∷ record {
      block_number = 3;
      block_control_flags = 0;
      crc_type = 0;
      value = previous_node_block (service_of []);
    }
    ∷ record {
      block_number = 1;
      block_control_flags = 0;
      crc_type = 2;
      value = payload_block (1 ∷ 2 ∷ 3 ∷ []);
    }
    ∷ []

abbrev pub bundle : Bundle
bundle = record { primary_block = primary; canonical_blocks = canonicals }

pub primary-IsPrimary : IsPrimary primary
unfolding is_name_char is_one_line has
primary-IsPrimary = record {
  version_right = refl;
  flags_small = omega arith;
  crc_known = omega arith;
  destination_right = (omega arith, (refl, (refl, tt)), refl, omega arith);
  source_right = (omega arith, omega arith, omega arith, omega arith);
  report_right = (refl, refl);
  time_small = omega arith;
  number_small = omega arith;
  lifetime_small = omega arith;
  offset_small = omega arith;
  total_small = omega arith;
  offset_zero = refl;
  total_zero = refl;
}

pub canonicals-AreCanonical : All (IsCanonical long_form) canonicals
unfolding extension_data is_one_line is_name_char marshal_endpoint put_uint
    dtn7_gold.Bpv7.Endpoint.endpoint_is_valid dtn7_gold.Bpv7.Endpoint.matches_ssp
    dtn7_gold.Bpv7.Endpoint.matches_tail
canonicals-AreCanonical = (
  record {
    number_small = omega arith;
    flags_small = omega arith;
    crc_known = omega arith;
    value_right = (omega arith, omega arith);
    value_small = omega arith;
  },
  (
    record {
      number_small = omega arith;
      flags_small = omega arith;
      crc_known = omega arith;
      value_right = (omega arith, (refl, (refl, tt)), refl, omega arith);
      value_small = omega arith;
    },
    (
      record {
        number_small = omega arith;
        flags_small = omega arith;
        crc_known = omega arith;
        value_right = tt;
        value_small = omega arith;
      },
      tt,
    ),
  ),
)

abbrev pub now : ℤ
now = pos 0

pub bundle-valid : check_valid now bundle ≡ collected []
unfolding check_valid dtn7_gold.Bpv7.Validity.check_blocks
    dtn7_gold.Bpv7.Validity.is_lifetime_exceeded dtn7_gold.Bpv7.Validity.unix_milliseconds
    dtn7_gold.Bpv7.Validity.lifetime_duration dtn7_gold.Bpv7.Validity.context_check_valid
    dtn7_gold.Bpv7.Validity.blocks_check_valid dtn7_gold.Bpv7.Validity.report_requests
    dtn7_gold.Bpv7.Validity.numbers_check_valid dtn7_gold.Bpv7.Validity.last_type
    dtn7_gold.Bpv7.Validity.age_check_valid dtn7_gold.Bpv7.Validity.canonicals_check_valid
    dtn7_gold.Bpv7.Blocks.is_zero_time dtn7_gold.Bpv7.Blocks.primary_check_valid
    dtn7_gold.Bpv7.Blocks.block_type_code dtn7_gold.Bpv7.Blocks.extension_check_valid
    dtn7_gold.Bpv7.Blocks.type_code dtn7_gold.Bpv7.Blocks.canonical_check_valid
    dtn7_gold.Bpv7.Flags.has dtn7_gold.Bpv7.Flags.bundle_flags_check_valid
    dtn7_gold.Bpv7.Endpoint.endpoint_is_valid dtn7_gold.Bpv7.Endpoint.same_endpoint
    dtn7_gold.Bpv7.Bundle.contains dtn7_gold.Prelude.Int.int64 dtn7_gold.Prelude.Int.uint64 ◌+ℤ◌
    ◌*ℤ◌ dtn7_gold.Bpv7.Endpoint.matches_tail is_name_char is_one_line
    dtn7_gold.Bpv7.Blocks.is_exceeded dtn7_gold.Bpv7.Endpoint.matches_ssp
    dtn7_gold.Bpv7.Bundle.extension_block
bundle-valid = refl

primary_checksum_example :
    (body : List ℕ) × (value : List ℕ) × (marshal_primary long_form primary
      ≡ ok (body ++ long_form.write_byte_string value))
    × (unmarshal_primary long_form
          (body ++ (long_form.write_byte_string (9 ∷ 9 ∷ 9 ∷ 9 ∷ []) ++ (7 ∷ [])))
        ≡ (if equal value (9 ∷ 9 ∷ 9 ∷ 9 ∷ []) then ok (primary, 7 ∷ []) else err wrong_crc))
primary_checksum_example =
    primary_checksum long_form long_form-Laws primary primary-IsPrimary (9 ∷ 9 ∷ 9 ∷ 9 ∷ [])
      (7 ∷ []) refl (omega arith)

bundle_roundtrip_example :
    (bytes : List ℕ) × (marshal_bundle long_form bundle ≡ ok (0x9F ∷ bytes))
    × ((rest : List ℕ) → unmarshal_bundle long_form now ((0x9F ∷ bytes) ++ rest) ≡ some (ok bundle))
bundle_roundtrip_example =
    bundle_roundtrip long_form long_form-Laws now bundle primary-IsPrimary canonicals-AreCanonical
      bundle-valid

unmarshal_bundle-terminates_example :
    (r : Result Bundle) × (unmarshal_bundle long_form now (0x9F ∷ 0x9B ∷ []) ≡ some r)
unmarshal_bundle-terminates_example =
    unmarshal_bundle-terminates long_form long_form-Laws now (0x9F ∷ 0x9B ∷ [])
