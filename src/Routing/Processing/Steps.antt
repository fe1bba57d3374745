-- ===== src/Routing/Processing/Steps.antt =====
-- The steps of pkg/routing/processing.go on the state of a node. An error of `Sync` is ignored, as in the
-- code; a type assertion that does not hold is an error of the whole step.
use dtn7_gold.Prelude.{ℕ, Bool, true, false, Option, none, some, List, [], ◌∷◌, ◌==◌, if◌then◌else◌}
use dtn7_gold.Bpv7.Flags.{
  has, administrative_record_payload, status_request_forward, status_request_deletion,
}
use dtn7_gold.Bpv7.Blocks.{CanonicalBlock}
use dtn7_gold.Bpv7.StatusReport.{StatusReport, status_informations}
use dtn7_gold.Bpv7.Bundle.{Result, ok, err, ◌>>=◌, Bundle, BundleId, payload_block_of}
use dtn7_gold.Bpv7.Reassembly.{payload_data}
use dtn7_gold.Bpv7.Validity.{is_lifetime_exceeded}
use dtn7_gold.Storage.{Disk, Got, found, not_found, broken, query_id, delete_item}
use dtn7_gold.Routing.Constraints.{dispatch_pending, forward_pending, contraindicated}
use dtn7_gold.Routing.Descriptor.{
  BundleDescriptor, add_constraint, remove_constraint, purge_constraints, sync,
}
use dtn7_gold.Routing.Algorithm.{ConvergenceSender, Algorithm}
use dtn7_gold.Routing.Processing.{
  Core, World, sender_for_destination, count_hop, uncount_hop, update_bundle_age, set_previous_node,
  no_information, lifetime_expired, hop_limit_exceeded, forwarded_bundle, delivered_bundle,
  deleted_bundle,
}

abbrev pub has_flag : ℕ → Bundle → Bool
has_flag flag b = has b.primary_block.bundle_control_flags flag

unfoldable pub is_administrative_record : Bundle → Bool
unfolding has
is_administrative_record b = has_flag administrative_record_payload b

-- The descriptor in `forward`.
unfoldable pub forwarding : BundleDescriptor → BundleDescriptor
unfolding add_constraint remove_constraint
forwarding ds = remove_constraint dispatch_pending (add_constraint forward_pending ds)

module _ {D : Disk} {A : Algorithm D} (core : Core A) where
  unfoldable pub synced : BundleDescriptor → Bundle → World D A → World D A
  unfolding sync
  synced ds b w = record w { disk = (sync D w.disk ds b).0 }

  abbrev pub reported : Bool → BundleDescriptor → Bundle → ℕ → ℕ → World D A → World D A
  reported asked ds b status reason w =
      if asked then core.send_status_report w ds b status reason else w

  unfoldable pub bundle_contraindicated : World D A → BundleDescriptor → Bundle → World D A
  unfolding synced add_constraint
  bundle_contraindicated w ds b = synced (add_constraint contraindicated ds) b w

  unfoldable pub bundle_deletion : World D A → BundleDescriptor → Bundle → ℕ → World D A
  unfolding synced purge_constraints has
  bundle_deletion w ds b reason =
      synced (purge_constraints ds) b
        (reported (has_flag status_request_deletion b) ds b deleted_bundle reason w)

  -- One sender after the other; the Boolean says whether one has succeeded.
  unfoldable pub send_all :
      BundleDescriptor → Bundle → List ConvergenceSender → World D A → World D A × Bool
  send_all ds b [] w = (w, false)
  send_all ds b (cs ∷ css) w =
      let failure = A.report_failure (w.routing, w.disk) ds b cs in
      let gone = send_all ds b css (record w { transmissions = (cs, b) ∷ w.transmissions }) in
      let failed = send_all ds b css (record w { routing = failure.0; disk = failure.1 }) in
      if core.node.send cs b then (gone.0, true) else failed

  -- Direct delivery, or the senders that the algorithm gives with its flag to delete the bundle.
  abbrev pub select_from :
      List ConvergenceSender
      → BundleDescriptor
      → World D A
      → List ConvergenceSender × Bool × World D A
  select_from [] ds w =
      let r = A.sender_for_bundle (w.routing, w.disk) ds core.node.senders in
      (r.0.0, r.0.1, record w { routing = r.1; disk = r.2 })
  select_from (cs ∷ css) ds w = (cs ∷ css, true, w)

  unfoldable pub select :
      BundleDescriptor → Bundle → World D A → List ConvergenceSender × Bool × World D A
  unfolding sender_for_destination
  select ds b w =
      select_from (sender_for_destination b.primary_block.destination core.node.senders) ds w

  abbrev pub delete_delivered : World D A → BundleId → List ℕ → World D A
  delete_delivered w bid [] = w
  delete_delivered w bid (sip ∷ sips) =
      delete_delivered
        (if sip == delivered_bundle then record w { disk = (delete_item D w.disk bid).0 } else w)
        bid sips

  abbrev pub inspect_got : World D A → List ℕ → Got → World D A
  inspect_got w sips (found bi) = delete_delivered w bi.b_id sips
  inspect_got w sips not_found = w
  inspect_got w sips broken = w

  abbrev pub inspect_sips : World D A → BundleId → List ℕ → World D A
  inspect_sips w bid [] = w
  inspect_sips w bid (sip ∷ sips) = inspect_got w (sip ∷ sips) (query_id D w.disk bid)

  -- `inspectStatusReport`; status reports are the only records.
  unfoldable pub inspect_status_report : World D A → StatusReport → World D A
  unfolding query_id delete_item status_informations
  inspect_status_report w sr = inspect_sips w sr.ref_bundle (status_informations sr)

  abbrev pub inspected : World D A → Option StatusReport → World D A × Bool
  inspected w none = (w, false)
  inspected w (some sr) = (inspect_status_report w sr, true)

  abbrev pub inspect_payload : World D A → Result CanonicalBlock → Result (World D A × Bool)
  inspect_payload w (err e) = ok (w, false)
  inspect_payload w (ok cb) = do bytes ← payload_data cb; ok (inspected w (core.read_record bytes))

  unfoldable pub check_administrative_record : World D A → Bundle → Result (World D A × Bool)
  unfolding inspect_status_report payload_block_of payload_data is_administrative_record
  check_administrative_record w b =
      if is_administrative_record b then inspect_payload w (payload_block_of b) else ok (w, false)

  -- The end of `forward`.
  abbrev pub after_sending :
      World D A → BundleDescriptor → Bundle → Bool → Bool → Result (World D A)
  after_sending w ds b delete_afterwards false = ok (bundle_contraindicated w ds b)
  after_sending w ds b delete_afterwards true =
      let w' =
        reported (has_flag status_request_forward b) ds b forwarded_bundle no_information w in
      if delete_afterwards
      then ok (synced (purge_constraints ds) b w')
      else if core.inspect_all_bundles
      then (if is_administrative_record b
          then (do r ← check_administrative_record (bundle_contraindicated w' ds b) b; ok r.0)
          else ok (bundle_contraindicated w' ds b))
      else ok (bundle_contraindicated w' ds b)

  -- `forward` from the previous node block on.
  unfoldable pub transmit_to_nodes : World D A → BundleDescriptor → Bundle → Result (World D A)
  unfolding set_previous_node select send_all uncount_hop bundle_contraindicated synced
      purge_constraints check_administrative_record is_administrative_record has
  transmit_to_nodes w ds b = do
    b1 ← set_previous_node core.node.node_id b
    let selected = select ds b1 w
    let sent = send_all ds b1 selected.0 selected.2
    b2 ← uncount_hop b1
    after_sending sent.0 ds b2 selected.1 sent.1

  abbrev pub age_step : World D A → BundleDescriptor → Bundle × Bool → Result (World D A)
  age_step w ds r =
      if r.1 then ok (bundle_deletion w ds r.0 lifetime_expired) else transmit_to_nodes w ds r.0

  abbrev pub lifetime_step : World D A → BundleDescriptor → Bundle → Bool → Result (World D A)
  lifetime_step w ds b exceeded =
      if exceeded
      then ok (bundle_deletion w ds b lifetime_expired)
      else (do r ← update_bundle_age (core.node.since ds.timestamp) b; age_step w ds r)

  abbrev pub hop_step : World D A → BundleDescriptor → Bundle × Bool → Result (World D A)
  hop_step w ds r =
      if r.1
      then ok (bundle_deletion w ds r.0 hop_limit_exceeded)
      else (do e ← is_lifetime_exceeded core.node.now r.0; lifetime_step w ds r.0 e)

  unfoldable pub forward : World D A → BundleDescriptor → Bundle → Result (World D A)
  unfolding forwarding synced count_hop bundle_deletion is_lifetime_exceeded update_bundle_age
      transmit_to_nodes
  forward w ds b = do r ← count_hop b; hop_step (synced (forwarding ds) b w) (forwarding ds) r
