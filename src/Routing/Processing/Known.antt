-- ===== src/Routing/Processing/Known.antt =====
-- A bundle that comes in again while the node still has it.
use dtn7_gold.Prelude.{◌≡◌, refl, ◌∙◌, ap, true, false, some}
use dtn7_gold.Prelude.Int.{ℤ}
use dtn7_gold.Bpv7.Endpoint.{EndpointId}
use dtn7_gold.Bpv7.Bundle.{ok, Bundle, BundleId, id, scrub}
use dtn7_gold.Storage.{BundleItem, found, same_key, Disk, IsWorking, query_id}
use dtn7_gold.Routing.Constraints.{Constraints, are_empty, is_pending}
use dtn7_gold.Routing.Descriptor.{
  synced_item, sync, new_bundle_descriptor, new_bundle_descriptor_from_bundle,
}
use dtn7_gold.Routing.Descriptor.Sync.{get-sync}
use dtn7_gold.Routing.Algorithm.{Algorithm}
use dtn7_gold.Routing.Processing.{Core, World}
use dtn7_gold.Routing.Processing.Steps.{synced}
use dtn7_gold.Routing.Processing.Reception.{receive, handle_received_bundle}

-- The constraints that a new descriptor has are those of the item.
descriptor-constraints :
    (D : Disk) (now : ℤ) (s : D.State) (bid : BundleId) (i : BundleItem) (cs : Constraints)
    → D.get s (scrub bid) ≡ found i
    → i.properties.constraints ≡ some cs
    → (new_bundle_descriptor D now s bid).constraints ≡ cs
unfolding new_bundle_descriptor query_id scrub
descriptor-constraints D now s bid i cs h e = rw (h, e)

module _ (D : Disk) (works : IsWorking D) (A : Algorithm D) (core : Core A) where
  -- On a working disk, a received bundle whose ID is stored with constraints is not processed again: nothing
  -- is sent or delivered, the algorithm is not told, and its item keeps the constraints.
  pub handle_received_bundle-known :
      (w : World D A) (b : Bundle) (endpoint : EndpointId) (i : BundleItem) (cs : Constraints)
      → D.get w.disk (scrub (id b)) ≡ found i
      → same_key i.b_id (scrub (id b)) ≡ true
      → i.properties.constraints ≡ some cs
      → are_empty cs ≡ false
      → (w' : World D A) × (i' : BundleItem) × (handle_received_bundle core w b endpoint ≡ ok w')
        × (w'.routing ≡ w.routing)
        × (w'.transmissions ≡ w.transmissions)
        × (w'.deliveries ≡ w.deliveries)
        × (D.get w'.disk (scrub (id b)) ≡ found i')
        × (i'.properties.constraints ≡ some cs)
        × (i'.pending ≡ is_pending cs)
  unfolding handle_received_bundle new_bundle_descriptor_from_bundle receive synced synced_item
  handle_received_bundle-known w b endpoint i cs h same e some_left =
      let ds = new_bundle_descriptor D core.node.now w.disk (id b) in
      let ds' = record ds { receiver = endpoint } in
      let cs_of : ds.constraints ≡ cs =
        descriptor-constraints D core.node.now w.disk (id b) i cs h e in
      let left : are_empty ds.constraints ≡ false = ap are_empty cs_of ∙ some_left in
      let s1 = (sync D w.disk ds b).0 in
      let first = get-sync D works w.disk ds b (i, h, same) left in
      let second = get-sync D works s1 ds' b (synced_item ds i, first, same) left in
      (
        record w { disk = (sync D s1 ds' b).0 },
        synced_item ds' (synced_item ds i),
        rw left,
        refl,
        refl,
        refl,
        second,
        ap some cs_of,
        ap is_pending cs_of,
      )
