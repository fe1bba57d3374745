-- ===== src/Bpv7/Cbor/Blocks/Primary.antt =====
-- A primary block that is written is read back.
use dtn7_gold.Prelude.{
  ℕ, subst, ◌≤◌, ◌<◌, ◌^◌, ◌≡◌, refl, sym, Bool, true, false, ◌||◌, List, ◌++◌, arith, ◌==◌,
  if◌then◌else◌, Bool-cases, inl, inr,
}
use dtn7_gold.Wire.{ok, Reader, ◌>>=◌, pure}
use dtn7_gold.Wire.Reads.{Reads, pure-Reads, bind-Reads, last-Reads, guard-Reads, tee-Reads}
use dtn7_gold.Bpv7.Flags.{has, is_fragment}
use dtn7_gold.Bpv7.Endpoint.{EndpointId}
use dtn7_gold.Bpv7.Blocks.{dtn_version, PrimaryBlock}
use dtn7_gold.Bpv7.Cbor.{Codec, CodecLaws}
use dtn7_gold.Bpv7.Cbor.Endpoints.{endpoint_bytes, unmarshal_endpoint}
use dtn7_gold.Bpv7.Cbor.Endpoints.RoundTrip.{
  IsEndpoint, marshal_endpoint-ok, uint-Reads, array-Reads, timestamp-Reads, endpoint-Reads,
}
use dtn7_gold.Bpv7.Cbor.Blocks.{
  has_crc, fragment_bytes, primary_length, primary_body, marshal_primary, fragment_fields,
  primary_fields, unmarshal_primary,
}
use dtn7_gold.Bpv7.Cbor.Blocks.Checksums.{crc-RoundTrip}

-- A primary block that CBOR can hold: what is written without the fragment's fields has none.
pub record IsPrimary (pb : PrimaryBlock) : Type 0 where
  pub version_right : pb.version ≡ dtn_version
  pub flags_small : pb.bundle_control_flags < 2 ^ 64
  pub crc_known : pb.crc_type ≤ 2
  pub destination_right : IsEndpoint pb.destination
  pub source_right : IsEndpoint pb.source_node
  pub report_right : IsEndpoint pb.report_to
  pub time_small : pb.creation_timestamp.dtn_time < 2 ^ 64
  pub number_small : pb.creation_timestamp.sequence_number < 2 ^ 64
  pub lifetime_small : pb.lifetime < 2 ^ 64
  pub offset_small : pb.fragment_offset < 2 ^ 64
  pub total_small : pb.total_data_length < 2 ^ 64
  pub offset_zero : (if has pb.bundle_control_flags is_fragment then 0 else pb.fragment_offset) ≡ 0
  pub total_zero : (if has pb.bundle_control_flags is_fragment then 0 else pb.total_data_length) ≡ 0

-- The length of the array says whether there is a checksum.
pub length-has_crc :
    (pb : PrimaryBlock) → (primary_length pb == 9 || primary_length pb == 11) ≡ has_crc pb.crc_type
unfolding primary_length
length-has_crc pb = elim (Bool-cases (has pb.bundle_control_flags is_fragment)) [
  | inl e ↦ rw e (elim (Bool-cases (has_crc pb.crc_type)) [ inl e' ↦ rw e' | inr e' ↦ rw e' ])
  | inr e ↦ rw e (elim (Bool-cases (has_crc pb.crc_type)) [ inl e' ↦ rw e' | inr e' ↦ rw e' ])
]

length-range : (pb : PrimaryBlock) → (8 ≤ primary_length pb) × (primary_length pb ≤ 11)
unfolding primary_length
length-range pb = ground arith

with_fragment : (t : Bool) → (let n = if t then 11 else 10 in n == 10 || n == 11) ≡ true
with_fragment false = refl
with_fragment true = refl

without_fragment : (t : Bool) → (let n = if t then 9 else 8 in n == 10 || n == 11) ≡ false
without_fragment false = refl
without_fragment true = refl

module _ (c : Codec) (laws : CodecLaws c) (pb : PrimaryBlock) (h : IsPrimary pb) where
  abbrev address_bytes : EndpointId → List ℕ
  address_bytes e = c.write_array_length 2 ++ endpoint_bytes c e

  fragment-Reads :
      Reads
        (fragment_fields c (primary_length pb))
        (fragment_bytes c pb)
        (pb.fragment_offset, pb.total_data_length)
  unfolding fragment_fields primary_length
  fragment-Reads = elim (Bool-cases (has pb.bundle_control_flags is_fragment)) [
    | inl e ↦
        rw (e, with_fragment (has_crc pb.crc_type))
          (bind-Reads _ (uint-Reads c laws pb.fragment_offset h.offset_small)
            (last-Reads _ (uint-Reads c laws pb.total_data_length h.total_small)))
    | inr e ↦
        let offset : pb.fragment_offset ≡ 0 = rw e at h.offset_zero in
        let total : pb.total_data_length ≡ 0 = rw e at h.total_zero in
        rw (e, without_fragment (has_crc pb.crc_type), offset, total) (pure-Reads (0, 0))
  ]

  abbrev last_fields : Reader (ℕ × PrimaryBlock)
  last_fields = fragment_fields c (primary_length pb) >>= λ f. pure (
    primary_length pb,
    record pb { version = dtn_version; fragment_offset = f.0; total_data_length = f.1 },
  )

  -- The last fields, and the block that is made of all.
  last_fields-Reads :
      Reads {A = ℕ × PrimaryBlock} last_fields (fragment_bytes c pb) (primary_length pb, pb)
  last_fields-Reads =
      subst
        (λ (v : ℕ).
          Reads {A = ℕ × PrimaryBlock} last_fields (fragment_bytes c pb)
            (primary_length pb, record pb { version = v }))
        (sym h.version_right) (last-Reads _ fragment-Reads)

  -- The three endpoint IDs, and then the others.
  addresses-Reads :
      (k : EndpointId → EndpointId → EndpointId → Reader (ℕ × PrimaryBlock)) (xs : List ℕ)
      (r : ℕ × PrimaryBlock)
      → Reads (k pb.destination pb.source_node pb.report_to) xs r
      → Reads
          (do d ← unmarshal_endpoint c; s ← unmarshal_endpoint c; p ← unmarshal_endpoint c; k d s p)
          (address_bytes pb.destination
            ++ (address_bytes pb.source_node ++ (address_bytes pb.report_to ++ xs)))
          r
  addresses-Reads k xs r e =
      bind-Reads _ (endpoint-Reads c laws pb.destination h.destination_right) (
        bind-Reads _ (endpoint-Reads c laws pb.source_node h.source_right)
          (bind-Reads _ (endpoint-Reads c laws pb.report_to h.report_right) e))

  pub fields-Reads :
      (body : List ℕ) × (primary_body c pb ≡ ok body)
      × Reads (primary_fields c) body (primary_length pb, pb)
  unfolding primary_fields
  fields-Reads =
      let (low, high) = length-range pb in
      (
        _,
        rw (
          marshal_endpoint-ok c pb.destination h.destination_right,
          marshal_endpoint-ok c pb.source_node h.source_right,
          marshal_endpoint-ok c pb.report_to h.report_right,
        ),
        bind-Reads _ (array-Reads c laws (primary_length pb) (omega arith)) (
            guard-Reads _ _ (ground arith) (
              bind-Reads _ (uint-Reads c laws 7 (omega arith)) (
                guard-Reads _ _ refl (
                  bind-Reads _ (uint-Reads c laws pb.bundle_control_flags h.flags_small) (
                    bind-Reads _ (uint-Reads c laws pb.crc_type (omega (arith, h.crc_known))) (
                      addresses-Reads _ _ _ (
                        bind-Reads _
                          (timestamp-Reads c laws pb.creation_timestamp h.time_small h.number_small)
                          (bind-Reads _ (uint-Reads c laws pb.lifetime h.lifetime_small)
                            (last_fields-Reads))))))))),
      )

  pub primary-RoundTrip :
      (bytes : List ℕ) × (marshal_primary c pb ≡ ok bytes) × Reads (unmarshal_primary c) bytes pb
  unfolding marshal_primary unmarshal_primary
  primary-RoundTrip =
      let (body, e, fields) = fields-Reads in
      let (tail, e', check) =
        crc-RoundTrip c laws (has_crc pb.crc_type) pb.crc_type body h.crc_known in
      (
        body ++ tail,
        rw (e, e'),
        bind-Reads _ (tee-Reads fields) (rw (length-has_crc pb) (last-Reads _ check)),
      )
