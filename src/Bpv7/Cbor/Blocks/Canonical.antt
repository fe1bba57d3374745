-- ===== src/Bpv7/Cbor/Blocks/Canonical.antt =====
-- A canonical block that is written is read back.
use dtn7_gold.Prelude.{
  ℕ, ◌≤◌, ◌<◌, ◌^◌, ◌≡◌, refl, ap, Bool, true, false, ◌||◌, List, [], ◌++◌, append_assoc, arith,
  length, ◌==◌, leb, le→leb, if◌then◌else◌,
}
use dtn7_gold.Wire.{Result, ok, err, Reader, from_buffer}
use dtn7_gold.Wire.Laws.{from_buffer-ok}
use dtn7_gold.Wire.Reads.{
  Reads, bind-Reads, last-Reads, guard-Reads, checked-Reads, tee-Reads, buffer-Reads, end-Reads,
}
use dtn7_gold.Bpv7.Blocks.{
  HopCountBlock, ExtensionBlock, payload_block, previous_node_block, bundle_age_block,
  hop_count_block, generic_block, payload_type, previous_node_type, bundle_age_type, hop_count_type,
  block_type_code, CanonicalBlock,
}
use dtn7_gold.Bpv7.Cbor.{Codec, CodecLaws}
use dtn7_gold.Bpv7.Cbor.Endpoints.RoundTrip.{
  IsEndpoint, marshal_endpoint-ok, uint-Reads, array-Reads, pair-Reads, endpoint-Reads,
}
use dtn7_gold.Bpv7.Cbor.Blocks.{
  has_crc, wrap, marshal_hop_count, unmarshal_hop_count, extension_data, is_security_type,
  block_of_type, read_block, write_block, canonical_length, canonical_body, marshal_canonical,
  canonical_fields, unmarshal_canonical,
}
use dtn7_gold.Bpv7.Cbor.Blocks.Checksums.{crc-RoundTrip}

abbrev pub bytes_of : Result (List ℕ) → List ℕ
bytes_of (ok bytes) = bytes
bytes_of (err e) = []

-- A type code with a block of its own.
abbrev pub is_registered : ℕ → Bool
is_registered code =
    code == payload_type
    || (code == previous_node_type
        || (code == bundle_age_type || (code == hop_count_type || is_security_type code)))

abbrev pub IsExtension : ExtensionBlock → Type 0
IsExtension (payload_block bytes) = Unit {0}
IsExtension (previous_node_block e) = IsEndpoint e
IsExtension (bundle_age_block ms) = ms < 2 ^ 64
IsExtension (hop_count_block h) = (h.limit < 256) × (h.count < 256)
IsExtension (generic_block bytes code) = (is_registered code ≡ false) × (code < 2 ^ 64)

-- A canonical block that CBOR can hold.
pub record IsCanonical (c : Codec) (cb : CanonicalBlock) : Type 0 where
  pub number_small : cb.block_number < 2 ^ 64
  pub flags_small : cb.block_control_flags < 2 ^ 64
  pub crc_known : cb.crc_type ≤ 2
  pub value_right : IsExtension cb.value
  pub value_small : length (bytes_of (extension_data c cb.value)) < 2 ^ 64

pub wrap-Reads {ℓ} :
    {A : Type ℓ} {m : Reader A} {xs : List ℕ} {a : A} → Reads m xs a → Reads (wrap m) xs a
unfolding wrap
wrap-Reads {m} h = record { back = λ rest. rw (h.back rest, wrap) }

code-small : (value : ExtensionBlock) → IsExtension value → block_type_code value < 2 ^ 64
unfolding block_type_code
code-small (payload_block bytes) h = omega arith
code-small (previous_node_block e) h = omega arith
code-small (bundle_age_block ms) h = omega arith
code-small (hop_count_block k) h = omega arith
code-small (generic_block bytes code) h = h.1

module _ (c : Codec) (laws : CodecLaws c) where
  hop_count-Reads :
      (h : HopCountBlock)
      → h.limit < 256
      → h.count < 256
      → Reads (unmarshal_hop_count c) (marshal_hop_count c h) h
  unfolding unmarshal_hop_count
  hop_count-Reads h hl hc = pair-Reads c laws _ (
      guard-Reads _ _ refl (
        bind-Reads _ (uint-Reads c laws h.limit (omega arith)) (
          guard-Reads _ _ (le→leb h.limit 255 (omega arith)) (
            checked-Reads (λ x. leb x 255) _ _ (le→leb h.count 255 (omega arith))
              (uint-Reads c laws h.count (omega arith))))))

  extension_data-ok :
      (value : ExtensionBlock)
      → IsExtension value
      → extension_data c value ≡ ok (bytes_of (extension_data c value))
  unfolding extension_data
  extension_data-ok (payload_block bytes) h = refl
  extension_data-ok (previous_node_block e) h = rw (marshal_endpoint-ok c e h)
  extension_data-ok (bundle_age_block ms) h = refl
  extension_data-ok (hop_count_block k) h = refl
  extension_data-ok (generic_block bytes code) h = refl

  generic-read :
      (bytes : List ℕ) (code : ℕ)
      → is_registered code ≡ false
      → block_of_type c code bytes ≡ ok (generic_block bytes code, [])
  unfolding block_of_type
  generic-read bytes code h = ground arith

  block_of_type-Reads :
      (value : ExtensionBlock)
      → IsExtension value
      → Reads
          (from_buffer
            (block_of_type c (block_type_code value))
            (bytes_of (extension_data c value)))
          []
          value
  unfolding extension_data block_type_code block_of_type
  block_of_type-Reads (payload_block bytes) h = record { back = λ rest. unfold from_buffer in refl }
  block_of_type-Reads (previous_node_block e) h =
      rw (marshal_endpoint-ok c e h) (buffer-Reads (last-Reads _ (endpoint-Reads c laws e h)))
  block_of_type-Reads (bundle_age_block ms) h = buffer-Reads (last-Reads _ (uint-Reads c laws ms h))
  block_of_type-Reads (hop_count_block k) h =
      buffer-Reads (last-Reads _ (hop_count-Reads k h.0 h.1))
  block_of_type-Reads (generic_block bytes code) h = record {
    back = λ rest. from_buffer-ok _ bytes _ rest (generic-read bytes code h.0);
  }

  value-Reads :
      (value : ExtensionBlock)
      → IsExtension value
      → length (bytes_of (extension_data c value)) < 2 ^ 64
      → (bytes : List ℕ) × (write_block c value ≡ ok bytes)
        × Reads (wrap (read_block c (block_type_code value))) bytes value
  unfolding write_block read_block
  value-Reads value h small =
      let bytes : List ℕ = bytes_of (extension_data c value) in
      let field : Reads c.read_byte_string (c.write_byte_string bytes) bytes = record {
        back = λ rest. laws.byte_string bytes rest small;
      } in
      (
        c.write_byte_string bytes,
        rw (extension_data-ok value h),
        wrap-Reads (end-Reads _ field (block_of_type-Reads value h)),
      )

  fields-Reads :
      (cb : CanonicalBlock)
      → IsCanonical c cb
      → (body : List ℕ) × (canonical_body c cb ≡ ok body) × Reads (canonical_fields c) body cb
  unfolding canonical_fields
  fields-Reads cb h =
      let (bytes, e, value) = value-Reads cb.value h.value_right h.value_small in
      let code : block_type_code cb.value < 2 ^ 64 = code-small cb.value h.value_right in
      (
        _,
        rw e,
        bind-Reads _ (uint-Reads c laws (block_type_code cb.value) code) (
            bind-Reads _ (uint-Reads c laws cb.block_number h.number_small) (
              bind-Reads _ (uint-Reads c laws cb.block_control_flags h.flags_small) (
                bind-Reads _ (uint-Reads c laws cb.crc_type (omega (arith, h.crc_known)))
                  (last-Reads _ value)))),
      )

  length-has_crc : (t : Bool) → (let n = if t then 6 else 5 in n == 6) ≡ t
  length-has_crc false = refl
  length-has_crc true = refl

  length_right : (t : Bool) → (let n = if t then 6 else 5 in n == 5 || n == 6) ≡ true
  length_right false = refl
  length_right true = refl

  length_small : (t : Bool) → (if t then 6 else 5) < 2 ^ 64
  length_small false = omega arith
  length_small true = omega arith

  pub canonical-RoundTrip :
      (cb : CanonicalBlock)
      → IsCanonical c cb
      → (bytes : List ℕ) × (marshal_canonical c cb
          ≡ ok (c.write_array_length (canonical_length cb) ++ bytes))
        × Reads (unmarshal_canonical c) (c.write_array_length (canonical_length cb) ++ bytes) cb
  unfolding marshal_canonical unmarshal_canonical
  canonical-RoundTrip cb h =
      let flag : Bool = has_crc cb.crc_type in
      let start : List ℕ = c.write_array_length (canonical_length cb) in
      let (body, e, fields) = fields-Reads cb h in
      let (tail, e', check) = crc-RoundTrip c laws flag cb.crc_type (start ++ body) h.crc_known in
      (
        body ++ tail,
        rw (e, e') (ap ok (append_assoc start body tail)),
        bind-Reads _ (array-Reads c laws (canonical_length cb) (length_small flag)) (
            guard-Reads _ _ (length_right flag)
              (bind-Reads _ (tee-Reads fields) (rw (length-has_crc flag) (last-Reads _ check)))),
      )
