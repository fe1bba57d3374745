-- ===== src/Bpv7/Cbor/Reports/Tests.antt =====
-- A status report of a small bundle.
use dtn7_gold.Prelude.{
  ℕ, ◌≡◌, refl, arith, Bool, true, false, List, [], ◌∷◌, ◌++◌, if◌then◌else◌, ◌==◌,
}
use dtn7_gold.Wire.{cbor_error, eof, ok, err, Reader}
use dtn7_gold.Bpv7.Bundle.{id}
use dtn7_gold.Bpv7.StatusReport.{new_status_report, status_informations}
use dtn7_gold.Bpv7.Cbor.LongForm.{long_form, long_form-Laws}
use dtn7_gold.Bpv7.Cbor.Tests.{bundle}
use dtn7_gold.Bpv7.Cbor.Reports.{write_administrative_record, read_administrative_record}
use dtn7_gold.Bpv7.Cbor.Reports.Ids.{IsId}
use dtn7_gold.Bpv7.Cbor.Reports.RoundTrip.{new_status_report-RoundTrip}

abbrev write_boolean : Bool → List ℕ
write_boolean b = (if b then 0xF5 else 0xF4) ∷ []

abbrev read_boolean : Reader Bool
read_boolean [] = err eof
read_boolean (b ∷ bs) =
    if b == 0xF5 then ok (true, bs) else if b == 0xF4 then ok (false, bs) else err cbor_error

boolean_back : (b : Bool) (rest : List ℕ) → read_boolean (write_boolean b ++ rest) ≡ ok (b, rest)
boolean_back true rest = refl
boolean_back false rest = refl

id-IsId : IsId (id bundle)
unfolding dtn7_gold.Bpv7.Bundle.id dtn7_gold.Bpv7.Flags.has
id-IsId = record {
  source = omega arith;
  time = omega arith;
  number = omega arith;
  fragment = (refl, refl);
}

new_status_report-RoundTrip_example :
    (bytes : List ℕ) × (write_administrative_record long_form write_boolean read_boolean 1000
        (new_status_report bundle 2 0 77)
      ≡ ok bytes)
    × ((rest : List ℕ)
        → read_administrative_record long_form write_boolean read_boolean 1000 (bytes ++ rest)
          ≡ ok (new_status_report bundle 2 0 77, rest))
    × (status_informations (new_status_report bundle 2 0 77) ≡ 2 ∷ [])
new_status_report-RoundTrip_example =
    new_status_report-RoundTrip long_form long_form-Laws write_boolean read_boolean boolean_back
      1000 (omega arith) bundle 2 0 77 (omega arith) (omega arith) (omega arith) id-IsId
