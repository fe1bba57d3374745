-- ===== src/Bpv7/Cbor/Reports/RoundTrip.antt =====
-- New status reports that are written are read back.
use dtn7_gold.Prelude.{
  ℕ, zero, suc, ◌<◌, ◌≤◌, ◌^◌, ◌≡◌, refl, Bool, true, false, List, [], ◌∷◌, ◌++◌, arith,
}
use dtn7_gold.Wire.{ok, Reader}
use dtn7_gold.Bpv7.Flags.{has}
use dtn7_gold.Bpv7.Bundle.{Bundle, id}
use dtn7_gold.Bpv7.StatusReport.{
  BundleStatusItem, request_status_time, asserted_from, new_status_report, status_item,
  status_informations, new_bundle_status_item, new_time_reporting_bundle_status_item,
}
use dtn7_gold.Bpv7.Cbor.{Codec, CodecLaws}
use dtn7_gold.Bpv7.Cbor.Reports.{write_administrative_record, read_administrative_record}
use dtn7_gold.Bpv7.Cbor.Reports.Ids.{IsId}
use dtn7_gold.Bpv7.Cbor.Reports.Records.{AreItems, write_administrative_record-Reads}

-- The four items of a new report: each has its form, and the report asserts its status.
abbrev new_items : Bool → ℕ → ℕ → List BundleStatusItem
new_items with_time time status =
    let item = status_item with_time time status in item 0 ∷ item 1 ∷ item 2 ∷ item 3 ∷ []

new_items-AreItems :
    (with_time : Bool) (time status : ℕ)
    → time < 2 ^ 64
    → status < 4
    → AreItems (new_items with_time time status)
unfolding status_item new_bundle_status_item new_time_reporting_bundle_status_item
new_items-AreItems true time zero h s = ((refl, h), (refl, (refl, (refl, tt))))
new_items-AreItems true time (suc zero) h s = (refl, ((refl, h), (refl, (refl, tt))))
new_items-AreItems true time (suc (suc zero)) h s = (refl, (refl, ((refl, h), (refl, tt))))
new_items-AreItems true time (suc (suc (suc zero))) h s = (refl, (refl, (refl, ((refl, h), tt))))
new_items-AreItems true time (suc (suc (suc (suc n)))) h s = absurd (omega arith)
new_items-AreItems false time zero h s = (refl, (refl, (refl, (refl, tt))))
new_items-AreItems false time (suc zero) h s = (refl, (refl, (refl, (refl, tt))))
new_items-AreItems false time (suc (suc zero)) h s = (refl, (refl, (refl, (refl, tt))))
new_items-AreItems false time (suc (suc (suc zero))) h s = (refl, (refl, (refl, (refl, tt))))
new_items-AreItems false time (suc (suc (suc (suc n)))) h s = absurd (omega arith)

new_items-asserted :
    (with_time : Bool) (time status : ℕ)
    → status < 4
    → asserted_from 0 (new_items with_time time status) ≡ status ∷ []
unfolding status_item new_bundle_status_item new_time_reporting_bundle_status_item
new_items-asserted true time zero s = refl
new_items-asserted true time (suc zero) s = refl
new_items-asserted true time (suc (suc zero)) s = refl
new_items-asserted true time (suc (suc (suc zero))) s = refl
new_items-asserted true time (suc (suc (suc (suc n)))) s = absurd (omega arith)
new_items-asserted false time zero s = refl
new_items-asserted false time (suc zero) s = refl
new_items-asserted false time (suc (suc zero)) s = refl
new_items-asserted false time (suc (suc (suc zero))) s = refl
new_items-asserted false time (suc (suc (suc (suc n)))) s = absurd (omega arith)

-- A new report of one of the four statuses of a bundle, whose ID and whose numbers CBOR can hold, is written
-- as an administrative record. The receiver reads the same report from the bytes, whatever stands behind
-- them, and finds exactly that status in it, if cboring reads back what it writes and slices of four items
-- can be made.
pub new_status_report-RoundTrip :
    (c : Codec)
    → CodecLaws c
    → (write_boolean : Bool → List ℕ) (read_boolean : Reader Bool)
    → ((b : Bool) (rest : List ℕ) → read_boolean (write_boolean b ++ rest) ≡ ok (b, rest))
    → (max_items : ℕ) → 4 ≤ max_items
    → (b : Bundle) (status reason time : ℕ) → status < 4
    → reason < 2 ^ 64
    → time < 2 ^ 64
    → IsId (id b)
    → (bytes : List ℕ) × (write_administrative_record c write_boolean read_boolean max_items
          (new_status_report b status reason time)
        ≡ ok bytes)
      × ((rest : List ℕ)
          → read_administrative_record c write_boolean read_boolean max_items (bytes ++ rest)
            ≡ ok (new_status_report b status reason time, rest))
      × (status_informations (new_status_report b status reason time) ≡ status ∷ [])
unfolding new_status_report status_informations
new_status_report-RoundTrip c laws wb rb boolean max_items four b status reason time hs hr ht hid =
    let with_time = has b.primary_block.bundle_control_flags request_status_time in
    let (bytes, written, reads) =
      write_administrative_record-Reads c laws wb rb boolean max_items
        (new_status_report b status reason time)
        (record {
          items = new_items-AreItems with_time time status ht hs;
          few = omega arith;
          few_enough = omega arith;
          reason = hr;
          ref = hid;
        }) in
    (bytes, written, reads.back, new_items-asserted with_time time status hs)
