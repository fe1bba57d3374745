-- ===== src/Bpv7/Cbor/Reports.antt =====
-- The CBOR form of bundle IDs (pkg/bpv7/bundle_id.go), status reports
-- (administrative_record_status_report.go) and administrative records (administrative_record.go), of which
-- status reports are the only type. Booleans come from cboring as well; `max_items` is the longest slice of
-- items that the Go runtime makes.
pub mod Ids
pub mod Records
pub mod RoundTrip
pub mod Tests
use dtn7_gold.Prelude.{
  ℕ, zero, suc, ◌+◌, Bool, true, false, ◌&&◌, ◌||◌, List, [], ◌∷◌, ◌++◌, length, ◌==◌, leb,
  if◌then◌else◌,
}
use dtn7_gold.Wire.{
  Error, wrong_length, unknown_type, make_panic, Result, ok, err, Reader, ◌>>=◌, ◌>>◌, guard, pure,
  lift, ◌⊕◌,
}
use dtn7_gold.Bpv7.Endpoint.{EndpointId}
use dtn7_gold.Bpv7.Blocks.{CreationTimestamp}
use dtn7_gold.Bpv7.Bundle.{BundleId}
use dtn7_gold.Bpv7.StatusReport.{BundleStatusItem, StatusReport}
use dtn7_gold.Bpv7.Cbor.{Codec}
use dtn7_gold.Bpv7.Cbor.Endpoints.{
  marshal_endpoint, unmarshal_endpoint, marshal_timestamp, unmarshal_timestamp,
}

abbrev pub admin_record_type_status_report : ℕ
admin_record_type_status_report = 1

-- `BundleID.Len`.
abbrev pub id_length : BundleId → ℕ
id_length bid = if bid.fragmented then 4 else 2

unfoldable pub marshal_bundle_id : Codec → BundleId → Result (List ℕ)
unfolding marshal_timestamp
marshal_bundle_id c bid =
    marshal_endpoint c bid.source_node
    ⊕ ok (
        marshal_timestamp c bid.timestamp
        ++ (if bid.fragmented
            then c.write_uint bid.fragment_offset ++ c.write_uint bid.total_data_length
            else []))

abbrev pub id_fields : Codec → EndpointId → CreationTimestamp → Bool → Reader BundleId
id_fields c source timestamp true = do
  offset ← c.read_uint
  total ← c.read_uint
  pure (record {
    source_node = source;
    timestamp = timestamp;
    fragmented = true;
    fragment_offset = offset;
    total_data_length = total;
  })
id_fields c source timestamp false = pure (record {
  source_node = source;
  timestamp = timestamp;
  fragmented = false;
  fragment_offset = 0;
  total_data_length = 0;
})

-- The flag is set beforehand.
unfoldable pub unmarshal_bundle_id : Codec → Bool → Reader BundleId
unfolding unmarshal_endpoint unmarshal_timestamp
unmarshal_bundle_id c fragmented = do
  source ← unmarshal_endpoint c
  timestamp ← unmarshal_timestamp c
  id_fields c source timestamp fragmented

module _ (c : Codec) (write_boolean : Bool → List ℕ) (read_boolean : Reader Bool)
    (max_items : ℕ) where
  abbrev pub has_time : BundleStatusItem → Bool
  has_time si = si.asserted && si.status_requested

  unfoldable pub marshal_item : BundleStatusItem → List ℕ
  marshal_item si =
      c.write_array_length (if has_time si then 2 else 1)
      ++ (write_boolean si.asserted ++ (if has_time si then c.write_uint si.time else []))

  abbrev pub item_fields : Bool → Bool → Reader BundleStatusItem
  item_fields asserted true = do
    time ← c.read_uint
    pure (record { asserted = asserted; time = time; status_requested = true })
  item_fields asserted false =
      pure (record { asserted = asserted; time = 0; status_requested = false })

  unfoldable pub unmarshal_item : Reader BundleStatusItem
  unmarshal_item = do
    n ← c.read_array_length
    guard (n == 1 || n == 2) wrong_length
    asserted ← read_boolean
    item_fields asserted (n == 2)

  abbrev pub marshal_items : List BundleStatusItem → List ℕ
  marshal_items [] = []
  marshal_items (si ∷ sis) = marshal_item si ++ marshal_items sis

  abbrev pub unmarshal_items : ℕ → Reader (List BundleStatusItem)
  unmarshal_items zero = pure []
  unmarshal_items (suc n) = do si ← unmarshal_item; sis ← unmarshal_items n; pure (si ∷ sis)

  -- `StatusReport.MarshalCbor`.
  unfoldable pub marshal_report : StatusReport → Result (List ℕ)
  unfolding marshal_item marshal_bundle_id
  marshal_report sr =
      ok (c.write_array_length (2 + id_length sr.ref_bundle))
      ⊕ ok (c.write_array_length (length sr.status_information))
      ⊕ ok (marshal_items sr.status_information)
      ⊕ ok (c.write_uint sr.report_reason)
      ⊕ marshal_bundle_id c sr.ref_bundle

  unfoldable pub unmarshal_report : Reader StatusReport
  unfolding unmarshal_item unmarshal_bundle_id
  unmarshal_report = do
    n ← c.read_array_length
    guard (n == 4 || n == 6) wrong_length
    k ← c.read_array_length
    guard (leb k max_items) make_panic
    items ← unmarshal_items k
    reason ← c.read_uint
    ref ← unmarshal_bundle_id c (n == 6)
    pure (record { status_information = items; report_reason = reason; ref_bundle = ref })

  unfoldable pub write_administrative_record : StatusReport → Result (List ℕ)
  unfolding marshal_report
  write_administrative_record sr =
      ok (c.write_array_length 2)
      ⊕ ok (c.write_uint admin_record_type_status_report)
      ⊕ marshal_report sr

  unfoldable pub read_administrative_record : Reader StatusReport
  unfolding unmarshal_report
  read_administrative_record = do
    n ← c.read_array_length
    guard (n == 2) wrong_length
    code ← c.read_uint
    guard (code == admin_record_type_status_report) unknown_type
    unmarshal_report
