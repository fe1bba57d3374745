-- ===== src/Routing/Processing/Removal.antt =====
-- When `forward` takes a bundle out of the store: it has travelled for too long, or it has reached the node
-- that it goes to.
use dtn7_gold.Prelude.{ℕ, ◌≡◌, refl, Bool, true, false, arith, ◌⊎◌, inl, inr}
use dtn7_gold.Bpv7.Flags.{status_request_deletion}
use dtn7_gold.Bpv7.Bundle.{ok, Bundle, scrub}
use dtn7_gold.Bpv7.Validity.{is_lifetime_exceeded}
use dtn7_gold.Storage.{not_found, Disk, IsWorking, HasItem, KeepsItems}
use dtn7_gold.Routing.Constraints.{are_empty, set_key, purge}
use dtn7_gold.Routing.Descriptor.{
  BundleDescriptor, add_constraint, remove_constraint, purge_constraints,
}
use dtn7_gold.Routing.Descriptor.Sync.{sync-KeepsItems, get-sync_empty}
use dtn7_gold.Routing.Algorithm.{Algorithm}
use dtn7_gold.Routing.Processing.{
  Node, Core, World, count_hop, update_bundle_age, lifetime_expired, hop_limit_exceeded,
  deleted_bundle,
}
use dtn7_gold.Routing.Processing.Steps.{
  synced, reported, has_flag, bundle_deletion, forwarding, forward,
}

-- The hops or the lifetime of the bundle are over, by one of the three checks of `forward`.
abbrev pub IsOver : Node → BundleDescriptor → Bundle → Type 0
IsOver n ds b =
    (b1 : Bundle) × ((count_hop b ≡ ok (b1, true))
      ⊎ ((count_hop b ≡ ok (b1, false))
          × ((is_lifetime_exceeded n.now b1 ≡ ok true)
              ⊎ ((is_lifetime_exceeded n.now b1 ≡ ok false)
                  × ((b2 : Bundle) × (update_bundle_age (n.since ds.timestamp) b1
                        ≡ ok (b2, true)))))))

module _ (D : Disk) (works : IsWorking D) (A : Algorithm D) (core : Core A)
    (report_keeps : (w : World D A) (ds : BundleDescriptor) (b : Bundle) (status reason : ℕ)
      → KeepsItems D w.disk (core.send_status_report w ds b status reason).disk) where
  reported-KeepsItems :
      (asked : Bool) (w : World D A) (ds : BundleDescriptor) (b : Bundle) (status reason : ℕ)
      → KeepsItems D w.disk (reported core asked ds b status reason w).disk
  reported-KeepsItems true w ds b status reason = report_keeps w ds b status reason
  reported-KeepsItems false w ds b status reason = λ k h. h

  -- Purging the constraints of a bundle that is at no local endpoint deletes it.
  purged-not_found :
      (w : World D A) (ds : BundleDescriptor) (b : Bundle)
      → HasItem D w.disk (scrub ds.id)
      → ds.constraints.local ≡ false
      → D.get (synced core (purge_constraints ds) b w).disk (scrub ds.id) ≡ not_found
  unfolding synced purge_constraints purge are_empty
  purged-not_found w ds b item away =
      get-sync_empty D works w.disk (purge_constraints ds) b item (ground arith)

  bundle_deletion-not_found :
      (w : World D A) (ds : BundleDescriptor) (b : Bundle) (reason : ℕ)
      → HasItem D w.disk (scrub ds.id)
      → ds.constraints.local ≡ false
      → D.get (bundle_deletion core w ds b reason).disk (scrub ds.id) ≡ not_found
  unfolding bundle_deletion
  bundle_deletion-not_found w ds b reason item away =
      purged-not_found
        (reported core (has_flag status_request_deletion b) ds b deleted_bundle reason w) ds b
        (reported-KeepsItems (has_flag status_request_deletion b) w ds b deleted_bundle reason
          (scrub ds.id) item)
        away

  -- A stored bundle of which the hops or the lifetime are over is deleted from the store, if it has not been
  -- delivered to a local endpoint and status reports remove no other bundle.
  pub forward-over :
      (w : World D A) (ds : BundleDescriptor) (b : Bundle)
      → HasItem D w.disk (scrub ds.id)
      → ds.constraints.local ≡ false
      → IsOver core.node ds b
      → (w' : World D A) × (forward core w ds b ≡ ok w') × (D.get w'.disk (scrub ds.id) ≡ not_found)
  unfolding forward forwarding synced add_constraint remove_constraint set_key are_empty
  forward-over w ds b item away (b1, over) =
      let ds' = forwarding ds in
      let w1 = synced core ds' b w in
      let kept : HasItem D w1.disk (scrub ds.id) =
        sync-KeepsItems D works w.disk ds' b item refl (scrub ds.id) item in
      elim over [
        | inl hop ↦
            rw hop (_, refl, bundle_deletion-not_found w1 ds' b1 hop_limit_exceeded kept away)
        | inr (hop, inl life) ↦
            rw (hop, life) (_, refl, bundle_deletion-not_found w1 ds' b1 lifetime_expired kept away)
        | inr (hop, inr (life, (b2, age))) ↦
            rw (hop, life, age)
              (_, refl, bundle_deletion-not_found w1 ds' b2 lifetime_expired kept away)
      ]
