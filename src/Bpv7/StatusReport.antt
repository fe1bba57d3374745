-- ===== src/Bpv7/StatusReport.antt =====
-- pkg/bpv7/administrative_record_status_report.go: status reports and what they assert of a bundle.
use dtn7_gold.Prelude.{ℕ, suc, Bool, true, false, List, [], ◌∷◌, ◌==◌, if◌then◌else◌}
use dtn7_gold.Bpv7.Flags.{has}
use dtn7_gold.Bpv7.Bundle.{Bundle, BundleId, id}

pub record BundleStatusItem : Type 0 where
  pub asserted : Bool
  pub time : ℕ
  pub status_requested : Bool

pub record StatusReport : Type 0 where
  pub status_information : List BundleStatusItem
  pub report_reason : ℕ
  pub ref_bundle : BundleId

abbrev pub request_status_time : ℕ
request_status_time = 0x40

unfoldable pub new_bundle_status_item : Bool → BundleStatusItem
new_bundle_status_item asserted = record { asserted = asserted; time = 0; status_requested = false }

unfoldable pub new_time_reporting_bundle_status_item : ℕ → BundleStatusItem
new_time_reporting_bundle_status_item time = record {
  asserted = true;
  time = time;
  status_requested = true;
}

-- The item at a position of the array, for a status of the bundle.
unfoldable pub status_item : Bool → ℕ → ℕ → ℕ → BundleStatusItem
unfolding new_bundle_status_item new_time_reporting_bundle_status_item
status_item with_time time status sip =
    if sip == status
    then (if with_time
        then new_time_reporting_bundle_status_item time
        else new_bundle_status_item true)
    else new_bundle_status_item false

-- `NewStatusReport`.
unfoldable pub new_status_report : Bundle → ℕ → ℕ → ℕ → StatusReport
unfolding status_item has id
new_status_report b status reason time =
    let item =
      status_item (has b.primary_block.bundle_control_flags request_status_time) time status in
    record {
      status_information = item 0 ∷ item 1 ∷ item 2 ∷ item 3 ∷ [];
      report_reason = reason;
      ref_bundle = id b;
    }

abbrev pub asserted_from : ℕ → List BundleStatusItem → List ℕ
asserted_from sip [] = []
asserted_from sip (si ∷ sis) =
    let later = asserted_from (suc sip) sis in if si.asserted then sip ∷ later else later

unfoldable pub status_informations : StatusReport → List ℕ
status_informations sr = asserted_from 0 sr.status_information
