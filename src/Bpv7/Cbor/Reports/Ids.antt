-- ===== src/Bpv7/Cbor/Reports/Ids.antt =====
-- The CBOR form of bundle IDs.
use dtn7_gold.Prelude.{
  ℕ, ◌<◌, ◌^◌, ◌≡◌, refl, sym, subst, Bool, true, false, List, [], ◌++◌, if◌then◌else◌,
}
use dtn7_gold.Wire.{ok, pure}
use dtn7_gold.Wire.Reads.{Reads, pure-Reads, bind-Reads, last-Reads}
use dtn7_gold.Bpv7.Bundle.{BundleId}
use dtn7_gold.Bpv7.Cbor.{Codec, CodecLaws}
use dtn7_gold.Bpv7.Cbor.Endpoints.RoundTrip.{
  IsEndpoint, marshal_endpoint-ok, uint-Reads, timestamp-Reads, endpoint-Reads,
}
use dtn7_gold.Bpv7.Cbor.Reports.{marshal_bundle_id, id_fields, unmarshal_bundle_id}

-- An ID that CBOR can hold; what is no fragment has no offset and no total length.
abbrev pub IsFragmentId : Bool → BundleId → Type 0
IsFragmentId true bid = (bid.fragment_offset < 2 ^ 64) × (bid.total_data_length < 2 ^ 64)
IsFragmentId false bid = (bid.fragment_offset ≡ 0) × (bid.total_data_length ≡ 0)

pub record IsId (bid : BundleId) : Type 0 where
  pub source : IsEndpoint bid.source_node
  pub time : bid.timestamp.dtn_time < 2 ^ 64
  pub number : bid.timestamp.sequence_number < 2 ^ 64
  pub fragment : IsFragmentId bid.fragmented bid

module _ (c : Codec) (laws : CodecLaws c) where
  id_fields-Reads :
      (fragmented : Bool) (bid : BundleId)
      → bid.fragmented ≡ fragmented
      → IsFragmentId fragmented bid
      → Reads
          (id_fields c bid.source_node bid.timestamp fragmented)
          (if fragmented
            then c.write_uint bid.fragment_offset ++ c.write_uint bid.total_data_length
            else [])
          bid
  id_fields-Reads true bid e h =
      subst
        (λ b.
          Reads (id_fields c bid.source_node bid.timestamp true)
            (c.write_uint bid.fragment_offset ++ c.write_uint bid.total_data_length)
            (record bid { fragmented = b }))
        (sym e)
        (bind-Reads _ (uint-Reads c laws bid.fragment_offset h.0)
          (last-Reads _ (uint-Reads c laws bid.total_data_length h.1)))
  id_fields-Reads false bid e h =
      let scrubbed = record bid {
        fragmented = false;
        fragment_offset = 0;
        total_data_length = 0;
      } in
      let same : scrubbed ≡ bid = λ i. record bid {
        fragmented = sym e i;
        fragment_offset = sym h.0 i;
        total_data_length = sym h.1 i;
      } in
      subst (λ b. Reads (pure scrubbed) [] b) same (pure-Reads scrubbed)

  pub bundle_id-Reads :
      (bid : BundleId)
      → IsId bid
      → (bytes : List ℕ) × (marshal_bundle_id c bid ≡ ok bytes)
        × Reads (unmarshal_bundle_id c bid.fragmented) bytes bid
  unfolding marshal_bundle_id unmarshal_bundle_id
  bundle_id-Reads bid h = (
    _,
    rw (marshal_endpoint-ok c bid.source_node h.source),
    bind-Reads _ (endpoint-Reads c laws bid.source_node h.source) (
        bind-Reads _ (timestamp-Reads c laws bid.timestamp h.time h.number)
          (id_fields-Reads bid.fragmented bid refl h.fragment)),
  )
