-- ===== src/Bpv7/Cbor/Reports/Records.antt =====
-- Status reports in administrative records that CBOR can hold are read back as they were written.
use dtn7_gold.Prelude.{
  ℕ, ◌+◌, ◌<◌, ◌≤◌, ◌^◌, ◌≡◌, refl, sym, subst, Bool, true, false, ◌||◌, List, [], ◌∷◌, ◌++◌,
  length, All, arith, ◌==◌, le→leb, if◌then◌else◌,
}
use dtn7_gold.Wire.{ok, Reader}
use dtn7_gold.Wire.Reads.{Reads, pure-Reads, bind-Reads, last-Reads, guard-Reads}
use dtn7_gold.Bpv7.StatusReport.{BundleStatusItem, StatusReport}
use dtn7_gold.Bpv7.Cbor.{Codec, CodecLaws}
use dtn7_gold.Bpv7.Cbor.Endpoints.RoundTrip.{uint-Reads, array-Reads, pair-Reads}
use dtn7_gold.Bpv7.Cbor.Reports.{
  unmarshal_bundle_id, marshal_item, unmarshal_item, marshal_items, unmarshal_items, marshal_report,
  unmarshal_report, write_administrative_record, read_administrative_record,
}
use dtn7_gold.Bpv7.Cbor.Reports.Ids.{IsId, bundle_id-Reads}

-- An item with a time asserts something, and an item without has the time zero.
abbrev pub IsItem : Bool → Bool → ℕ → Type 0
IsItem asserted true time = (asserted ≡ true) × (time < 2 ^ 64)
IsItem asserted false time = time ≡ 0

abbrev pub AreItems : List BundleStatusItem → Type 0
AreItems = All (λ si. IsItem si.asserted si.status_requested si.time)

module _ (c : Codec) (laws : CodecLaws c) where
  module _ (write_boolean : Bool → List ℕ) (read_boolean : Reader Bool)
      (boolean : (b : Bool) (rest : List ℕ) → read_boolean (write_boolean b ++ rest) ≡ ok (b, rest))
      (max_items : ℕ) where
    boolean-Reads : (b : Bool) → Reads read_boolean (write_boolean b) b
    boolean-Reads b = record { back = boolean b }

    without_time-Reads :
        (asserted : Bool) (time : ℕ)
        → time ≡ 0
        → Reads
            (unmarshal_item c write_boolean read_boolean max_items)
            (c.write_array_length 1 ++ (write_boolean asserted ++ []))
            (record { asserted = asserted; time = time; status_requested = false })
    unfolding unmarshal_item
    without_time-Reads asserted time h =
        let item : ℕ → BundleStatusItem =
          λ t. record { asserted = asserted; time = t; status_requested = false } in
        subst
          (λ t.
            Reads (unmarshal_item c write_boolean read_boolean max_items)
              (c.write_array_length 1 ++ (write_boolean asserted ++ [])) (item t))
          (sym h)
          (bind-Reads _ (array-Reads c laws 1 (omega arith))
            (guard-Reads _ _ refl (bind-Reads _ (boolean-Reads asserted) (pure-Reads (item 0)))))

    item-Reads :
        (asserted requested : Bool) (time : ℕ)
        → IsItem asserted requested time
        → Reads
            (unmarshal_item c write_boolean read_boolean max_items)
            (marshal_item c write_boolean read_boolean max_items
              (record { asserted = asserted; time = time; status_requested = requested }))
            (record { asserted = asserted; time = time; status_requested = requested })
    unfolding unmarshal_item marshal_item
    item-Reads true true time h = bind-Reads _ (array-Reads c laws 2 (omega arith)) (
        guard-Reads _ _ refl
          (bind-Reads _ (boolean-Reads true) (last-Reads _ (uint-Reads c laws time h.1))))
    item-Reads false true time h = absurd (cc)
    item-Reads true false time h = without_time-Reads true time h
    item-Reads false false time h = without_time-Reads false time h

    items-Reads :
        (sis : List BundleStatusItem)
        → AreItems sis
        → Reads
            (unmarshal_items c write_boolean read_boolean max_items (length sis))
            (marshal_items c write_boolean read_boolean max_items sis)
            sis
    items-Reads [] h = pure-Reads []
    items-Reads (si ∷ sis) h =
        bind-Reads _ (item-Reads si.asserted si.status_requested si.time h.0)
          (last-Reads _ (items-Reads sis h.1))

    -- A report that CBOR can hold.
    pub record IsReport (sr : StatusReport) : Type 0 where
      pub items : AreItems sr.status_information
      pub few : length sr.status_information ≤ max_items
      pub few_enough : length sr.status_information < 2 ^ 64
      pub reason : sr.report_reason < 2 ^ 64
      pub ref : IsId sr.ref_bundle

    abbrev report_tail : StatusReport → List ℕ → List ℕ
    report_tail sr ref =
        c.write_array_length (length sr.status_information)
        ++ (marshal_items c write_boolean read_boolean max_items sr.status_information
            ++ (c.write_uint sr.report_reason ++ ref))

    fields-Reads :
        (n : ℕ) (sr : StatusReport) (ref : List ℕ)
        → n < 2 ^ 64
        → (n == 4 || n == 6) ≡ true
        → (n == 6) ≡ sr.ref_bundle.fragmented
        → IsReport sr
        → Reads (unmarshal_bundle_id c sr.ref_bundle.fragmented) ref sr.ref_bundle
        → Reads
            (unmarshal_report c write_boolean read_boolean max_items)
            (c.write_array_length n ++ report_tail sr ref)
            sr
    unfolding unmarshal_report
    fields-Reads n sr ref small four_or_six six h hr =
        let hr' : Reads (unmarshal_bundle_id c (n == 6)) ref sr.ref_bundle =
          subst (λ b. Reads (unmarshal_bundle_id c b) ref sr.ref_bundle) (sym six) hr in
        bind-Reads _ (array-Reads c laws n small) (
          guard-Reads _ _ four_or_six (
            bind-Reads _ (array-Reads c laws (length sr.status_information) h.few_enough) (
              guard-Reads _ _ (le→leb (length sr.status_information) max_items h.few) (
                bind-Reads _ (items-Reads sr.status_information h.items) (
                  bind-Reads _ (uint-Reads c laws sr.report_reason h.reason) (last-Reads _ hr'))))))

    length-Reads :
        (fragmented : Bool) (sr : StatusReport) (ref : List ℕ)
        → sr.ref_bundle.fragmented ≡ fragmented
        → IsReport sr
        → Reads (unmarshal_bundle_id c sr.ref_bundle.fragmented) ref sr.ref_bundle
        → Reads
            (unmarshal_report c write_boolean read_boolean max_items)
            (c.write_array_length (2 + (if fragmented then 4 else 2)) ++ report_tail sr ref)
            sr
    length-Reads true sr ref e h hr = fields-Reads 6 sr ref (omega arith) refl (sym e) h hr
    length-Reads false sr ref e h hr = fields-Reads 4 sr ref (omega arith) refl (sym e) h hr

    -- A report that CBOR can hold is written as an administrative record, and read back from its bytes
    -- with whatever stands behind them, if the boolean is read back as it is written.
    pub write_administrative_record-Reads :
        (sr : StatusReport)
        → IsReport sr
        → (bytes : List ℕ) × (write_administrative_record c write_boolean read_boolean max_items sr
            ≡ ok bytes)
          × Reads (read_administrative_record c write_boolean read_boolean max_items) bytes sr
    unfolding write_administrative_record read_administrative_record marshal_report
    write_administrative_record-Reads sr h =
        let (ref, written, hr) = bundle_id-Reads c laws sr.ref_bundle h.ref in
        (
          c.write_array_length 2
              ++ (c.write_uint 1
                  ++ (c.write_array_length (2 + (if sr.ref_bundle.fragmented then 4 else 2))
                      ++ report_tail sr ref)),
          rw written,
          pair-Reads c laws _ (
              guard-Reads _ _ refl (
                bind-Reads _ (uint-Reads c laws 1 (omega arith))
                  (guard-Reads _ _ refl (length-Reads sr.ref_bundle.fragmented sr ref refl h hr)))),
        )
