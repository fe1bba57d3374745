-- ===== src/Bpv7/Validity.antt =====
-- pkg/bpv7/bundle.go: `CheckValid` of a bundle and `IsLifetimeExceeded`. The time `now` is in
-- nanoseconds since the Unix epoch.
pub mod Payload
use dtn7_gold.Prelude.{
  ℕ, Bool, true, false, not, ◌&&◌, ◌||◌, List, [], ◌∷◌, ◌++◌, ◌==◌, ltb, if◌then◌else◌,
}
use dtn7_gold.Prelude.Int.{ℤ, pos, int64, uint64, ◌+ℤ◌, ◌*ℤ◌, ltb_ℤ}
use dtn7_gold.Bpv7.Flags.{
  has, administrative_record_payload, status_report_block, Invalid, no_blocks, block_report_request,
  block_number_twice, block_context, last_not_payload, no_age_block, lifetime_exceeded, unless,
}
use dtn7_gold.Bpv7.Endpoint.{dtn_none, same_endpoint}
use dtn7_gold.Bpv7.Blocks.{
  is_zero_time, PrimaryBlock, primary_check_valid, ExtensionBlock, payload_block,
  previous_node_block, bundle_age_block, hop_count_block, generic_block, payload_type,
  previous_node_type, bundle_age_type, hop_count_type, CanonicalBlock, type_code,
  canonical_check_valid,
}
use dtn7_gold.Bpv7.Bundle.{
  Result, ok, err, type_panic, Bundle, extension_block, has_extension_block, is_ok, contains,
}

-- `DtnTime.unixMilliseconds`, in int64.
unfoldable pub unix_milliseconds : ℕ → ℤ
unfolding int64 uint64 ◌+ℤ◌
unix_milliseconds t = int64 (uint64 (int64 t +ℤ pos 946684800000))

-- `time.Duration(lifetime) * time.Millisecond`, in int64.
unfoldable pub lifetime_duration : ℕ → ℤ
unfolding int64 uint64 ◌*ℤ◌
lifetime_duration lifetime = int64 (uint64 (int64 lifetime *ℤ pos 1000000))

-- What the bundle age block says; an error stands for its absence.
abbrev pub age_exceeded : ℕ → Result CanonicalBlock → Result Bool
age_exceeded lifetime (err e) = ok true
age_exceeded lifetime (ok cb) = elim cb.value [
  | bundle_age_block age ↦ ok (ltb lifetime age)
  | payload_block _ ↦ err type_panic
  | previous_node_block _ ↦ err type_panic
  | hop_count_block _ ↦ err type_panic
  | generic_block _ _ ↦ err type_panic
]

unfoldable pub is_lifetime_exceeded : ℤ → Bundle → Result Bool
unfolding unix_milliseconds lifetime_duration ◌+ℤ◌ ◌*ℤ◌
is_lifetime_exceeded now b =
    let pb = b.primary_block in
    if is_zero_time pb.creation_timestamp
    then age_exceeded pb.lifetime (extension_block bundle_age_type b)
    else ok (
        ltb_ℤ
          (unix_milliseconds pb.creation_timestamp.dtn_time *ℤ pos 1000000
            +ℤ lifetime_duration pb.lifetime)
          now)

-- `CheckContextValid`: the block is the only one of its type. The comparison of pointers then holds,
-- as the block stands in the bundle.
unfoldable pub context_check_valid : Bundle → ExtensionBlock → List Invalid
context_check_valid b (previous_node_block e) =
    unless (is_ok (extension_block previous_node_type b)) block_context
context_check_valid b (bundle_age_block age) =
    unless (is_ok (extension_block bundle_age_type b)) block_context
context_check_valid b (hop_count_block h) =
    unless (is_ok (extension_block hop_count_type b)) block_context
context_check_valid b other = []

unfoldable pub blocks_check_valid : List CanonicalBlock → List Invalid
blocks_check_valid [] = []
blocks_check_valid (cb ∷ cbs) = canonical_check_valid cb ++ blocks_check_valid cbs

unfoldable pub report_requests : List CanonicalBlock → List Invalid
report_requests [] = []
report_requests (cb ∷ cbs) =
    unless (not (has cb.block_control_flags status_report_block)) block_report_request
    ++ report_requests cbs

-- The loop over the numbers and the contexts, with the numbers that were seen.
unfoldable pub numbers_check_valid : List ℕ → Bundle → List CanonicalBlock → List Invalid
numbers_check_valid seen b [] = []
numbers_check_valid seen b (cb ∷ cbs) =
    unless (not (contains cb.block_number seen)) block_number_twice
    ++ (context_check_valid b cb.value ++ numbers_check_valid (cb.block_number ∷ seen) b cbs)

unfoldable pub last_type : CanonicalBlock → List CanonicalBlock → ℕ
last_type cb [] = type_code cb
last_type cb (next ∷ cbs) = last_type next cbs

unfoldable pub age_check_valid : Bundle → List Invalid
age_check_valid b =
    unless
      (not (is_zero_time b.primary_block.creation_timestamp)
        || has_extension_block bundle_age_type b)
      no_age_block

-- What is checked of a bundle with the blocks `cb ∷ cbs`, before its lifetime.
unfoldable pub canonicals_check_valid : Bundle → CanonicalBlock → List CanonicalBlock → List Invalid
canonicals_check_valid b cb cbs =
    let pb = b.primary_block in
    (if has pb.bundle_control_flags administrative_record_payload
        || same_endpoint pb.source_node dtn_none
      then report_requests (cb ∷ cbs)
      else [])
    ++ (numbers_check_valid [] b (cb ∷ cbs)
        ++ (unless (last_type cb cbs == payload_type) last_not_payload ++ age_check_valid b))

abbrev pub with_lifetime : List Invalid → Result Bool → Result (List Invalid)
with_lifetime errors (ok exceeded) = ok (errors ++ unless (not exceeded) lifetime_exceeded)
with_lifetime errors (err e) = err e

-- `CheckValid`: all errors, in the order in which they are found.
unfoldable pub check_blocks : ℤ → Bundle → List CanonicalBlock → Result (List Invalid)
check_blocks now b [] = ok (primary_check_valid b.primary_block ++ (no_blocks ∷ []))
check_blocks now b (cb ∷ cbs) =
    with_lifetime
      (primary_check_valid b.primary_block
        ++ (blocks_check_valid (cb ∷ cbs) ++ canonicals_check_valid b cb cbs))
      (is_lifetime_exceeded now b)

unfoldable pub check_valid : ℤ → Bundle → Result (List Invalid)
unfolding check_blocks
check_valid now b = check_blocks now b b.canonical_blocks
