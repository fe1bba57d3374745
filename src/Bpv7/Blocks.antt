-- ===== src/Bpv7/Blocks.antt =====
-- pkg/bpv7/primary_block.go, canonical_block.go, time.go, crc.go and the extension blocks of the
-- bundle protocol: the blocks of a bundle and their own checks.
use dtn7_gold.Prelude.{ℕ, Bool, not, ◌&&◌, ◌||◌, List, [], ◌++◌, ◌==◌, ltb, if◌then◌else◌}
use dtn7_gold.Bpv7.Flags.{
  has, must_not_fragmented, no_status_request, Invalid, invalid_endpoint, wrong_version,
  anonymous_source, hop_count_exceeded, payload_number, unless, bundle_flags_check_valid,
}
use dtn7_gold.Bpv7.Endpoint.{EndpointId, dtn_none, same_endpoint, endpoint_is_valid}

abbrev pub dtn_version : ℕ
dtn_version = 7

abbrev pub crc_no : ℕ
crc_no = 0

abbrev pub crc32 : ℕ
crc32 = 2

pub record CreationTimestamp : Type 0 where
  pub dtn_time : ℕ
  pub sequence_number : ℕ

unfoldable pub is_zero_time : CreationTimestamp → Bool
is_zero_time ct = ct.dtn_time == 0

-- The CRC value, which marshalling fills in, is not kept.
pub record PrimaryBlock : Type 0 where
  pub version : ℕ
  pub bundle_control_flags : ℕ
  pub crc_type : ℕ
  pub destination : EndpointId
  pub source_node : EndpointId
  pub report_to : EndpointId
  pub creation_timestamp : CreationTimestamp
  pub lifetime : ℕ
  pub fragment_offset : ℕ
  pub total_data_length : ℕ

unfoldable pub new_primary_block :
    ℕ → EndpointId → EndpointId → CreationTimestamp → ℕ → PrimaryBlock
new_primary_block flags destination source timestamp lifetime = record {
  version = dtn_version;
  bundle_control_flags = flags;
  crc_type = crc32;
  destination = destination;
  source_node = source;
  report_to = source;
  creation_timestamp = timestamp;
  lifetime = lifetime;
  fragment_offset = 0;
  total_data_length = 0;
}

-- `PrimaryBlock.SetCRCType`.
unfoldable pub set_primary_crc : ℕ → PrimaryBlock → PrimaryBlock
set_primary_crc crc pb = record pb { crc_type = if crc == crc_no then crc32 else crc }

unfoldable pub primary_check_valid : PrimaryBlock → List Invalid
primary_check_valid pb =
    unless (pb.version == dtn_version) wrong_version
    ++ (bundle_flags_check_valid pb.bundle_control_flags
        ++ (unless (endpoint_is_valid pb.destination) invalid_endpoint
            ++ (unless (endpoint_is_valid pb.source_node) invalid_endpoint
                ++ (unless (endpoint_is_valid pb.report_to) invalid_endpoint
                    ++ unless
                        (not (same_endpoint pb.source_node dtn_none)
                          || (has pb.bundle_control_flags must_not_fragmented
                              && no_status_request pb.bundle_control_flags))
                        anonymous_source))))

pub record HopCountBlock : Type 0 where
  pub limit : ℕ
  pub count : ℕ

-- A generic block is one that nothing is known about, with its type code.
pub data ExtensionBlock : Type 0 where
  payload_block : List ℕ → ExtensionBlock
  previous_node_block : EndpointId → ExtensionBlock
  bundle_age_block : ℕ → ExtensionBlock
  hop_count_block : HopCountBlock → ExtensionBlock
  generic_block : List ℕ → ℕ → ExtensionBlock

abbrev pub payload_type : ℕ
payload_type = 1

abbrev pub previous_node_type : ℕ
previous_node_type = 6

abbrev pub bundle_age_type : ℕ
bundle_age_type = 7

abbrev pub hop_count_type : ℕ
hop_count_type = 10

-- `BlockTypeCode`.
unfoldable pub block_type_code : ExtensionBlock → ℕ
block_type_code (payload_block data_bytes) = payload_type
block_type_code (previous_node_block e) = previous_node_type
block_type_code (bundle_age_block ms) = bundle_age_type
block_type_code (hop_count_block h) = hop_count_type
block_type_code (generic_block data_bytes code) = code

unfoldable pub is_exceeded : HopCountBlock → Bool
is_exceeded h = ltb h.limit h.count

unfoldable pub extension_check_valid : ExtensionBlock → List Invalid
extension_check_valid (hop_count_block h) = unless (not (is_exceeded h)) hop_count_exceeded
extension_check_valid (previous_node_block e) = unless (endpoint_is_valid e) invalid_endpoint
extension_check_valid other = []

pub record CanonicalBlock : Type 0 where
  pub block_number : ℕ
  pub block_control_flags : ℕ
  pub crc_type : ℕ
  pub value : ExtensionBlock

unfoldable pub new_canonical_block : ℕ → ℕ → ExtensionBlock → CanonicalBlock
new_canonical_block number flags value = record {
  block_number = number;
  block_control_flags = flags;
  crc_type = crc_no;
  value = value;
}

unfoldable pub type_code : CanonicalBlock → ℕ
type_code cb = block_type_code cb.value

unfoldable pub canonical_check_valid : CanonicalBlock → List Invalid
canonical_check_valid cb =
    extension_check_valid cb.value
    ++ unless (not (block_type_code cb.value == payload_type && not (cb.block_number == 1)))
        payload_number
