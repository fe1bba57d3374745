-- ===== src/Bpv7/Flags.antt =====
-- pkg/bpv7/bundle_control_flags.go and block_control_flags.go: the control flags of a bundle and
-- those of a block.
use dtn7_gold.Prelude.{ℕ, Bool, not, ◌&&◌, ◌||◌, bit_and, List, [], ◌∷◌, ◌++◌, ◌==◌, if◌then◌else◌}

abbrev pub is_fragment : ℕ
is_fragment = 0x000001

abbrev pub administrative_record_payload : ℕ
administrative_record_payload = 0x000002

abbrev pub must_not_fragmented : ℕ
must_not_fragmented = 0x000004

abbrev pub status_request_reception : ℕ
status_request_reception = 0x004000

abbrev pub status_request_forward : ℕ
status_request_forward = 0x010000

abbrev pub status_request_delivery : ℕ
status_request_delivery = 0x020000

abbrev pub status_request_deletion : ℕ
status_request_deletion = 0x040000

abbrev pub replicate_block : ℕ
replicate_block = 0x01

abbrev pub status_report_block : ℕ
status_report_block = 0x02

-- `Has` of both kinds of flags.
unfoldable pub has : ℕ → ℕ → Bool
has flags flag = not (bit_and flags flag == 0)

-- No flag asks for a status report.
abbrev pub no_status_request : ℕ → Bool
no_status_request flags =
    not (has flags status_request_reception)
    && (not (has flags status_request_forward)
        && (not (has flags status_request_delivery) && not (has flags status_request_deletion)))

-- The errors that the checks of a bundle and its blocks collect.
pub data Invalid : Type 0 where
  fragment_of_unfragmentable administrative_with_request : Invalid
  invalid_endpoint wrong_version anonymous_source : Invalid
  hop_count_exceeded payload_number : Invalid
  no_blocks block_report_request block_number_twice block_context last_not_payload : Invalid
  no_age_block lifetime_exceeded : Invalid

-- An error that is collected unless a condition holds.
abbrev pub unless : Bool → Invalid → List Invalid
unless b e = if b then [] else e ∷ []

-- `BundleControlFlags.CheckValid`; that of a block's flags never fails.
unfoldable pub bundle_flags_check_valid : ℕ → List Invalid
bundle_flags_check_valid flags =
    unless (not (has flags is_fragment && has flags must_not_fragmented)) fragment_of_unfragmentable
    ++ unless (not (has flags administrative_record_payload) || no_status_request flags)
        administrative_with_request
