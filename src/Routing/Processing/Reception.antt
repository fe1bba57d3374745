-- ===== src/Routing/Processing/Reception.antt =====
-- Reception, dispatching and local delivery (processing.go, agent_manager.go), and the two callers of core.go.
use dtn7_gold.Prelude.{
  Bool, true, false, not, ◌||◌, Option, none, some, List, [], ◌∷◌, ◌++◌, if◌then◌else◌,
}
use dtn7_gold.Bpv7.Endpoint.{EndpointId}
use dtn7_gold.Bpv7.Flags.{
  has, status_request_reception, status_request_delivery, status_report_block,
}
use dtn7_gold.Bpv7.Blocks.{type_code, CanonicalBlock}
use dtn7_gold.Bpv7.Bundle.{Result, ok, ◌>>=◌, Bundle}
use dtn7_gold.Storage.{Disk, BundleItem, query_pending, found_items}
use dtn7_gold.Routing.Constraints.{dispatch_pending, local_endpoint, are_empty}
use dtn7_gold.Routing.Descriptor.{
  BundleDescriptor, new_bundle_descriptor, new_bundle_descriptor_from_bundle, add_constraint,
  remove_constraint, purge_constraints, sync, load_bundle,
}
use dtn7_gold.Routing.Algorithm.{Algorithm}
use dtn7_gold.Routing.Processing.Steps.{
  has_flag, is_administrative_record, synced, reported, bundle_deletion,
  check_administrative_record, forward,
}
use dtn7_gold.Routing.Processing.{
  Core, World, has_endpoint, no_information, block_unsupported, received_bundle, delivered_bundle,
  delete_bundle, remove_block,
}

module _ {D : Disk} {A : Algorithm D} (core : Core A) where
  -- `AgentManager.Deliver` (agent_manager.go). It shares the constraints with its caller.
  abbrev pub delivered_by : World D A → BundleDescriptor → Bundle → D.State × Bool → World D A
  delivered_by w ds b (s, true) = record w { disk = s; deliveries = b ∷ w.deliveries }
  delivered_by w ds b (s, false) = record w { disk = s }

  unfoldable pub deliver : World D A → BundleDescriptor → Bundle → World D A × BundleDescriptor
  unfolding remove_constraint sync
  deliver w ds b =
      let ds' = remove_constraint local_endpoint ds in
      if core.node.agent_endpoint b.primary_block.destination
      then (delivered_by w ds' b (sync D w.disk ds' b), ds')
      else (w, ds)

  unfoldable pub deliver_locally : World D A → BundleDescriptor → Bundle → World D A
  unfolding synced deliver add_constraint purge_constraints has
  deliver_locally w ds b =
      let ds1 = add_constraint local_endpoint ds in
      let r = deliver (synced core ds1 b w) ds1 b in
      synced core (purge_constraints r.1) b (
        reported core (has_flag status_request_delivery b) r.1 b delivered_bundle no_information
          r.0)

  abbrev pub local_checked : BundleDescriptor → Bundle → World D A × Bool → World D A
  local_checked ds b (w, true) = deliver_locally w ds b
  local_checked ds b (w, false) = bundle_deletion core w ds b no_information

  unfoldable pub local_delivery : World D A → BundleDescriptor → Bundle → Result (World D A)
  unfolding deliver_locally bundle_deletion check_administrative_record is_administrative_record
  local_delivery w ds b =
      if is_administrative_record b
      then (do r ← check_administrative_record core w b; ok (local_checked ds b r))
      else ok (deliver_locally w ds b)

  abbrev pub dispatch_bundle : World D A → BundleDescriptor → Option Bundle → Result (World D A)
  dispatch_bundle w ds none = ok w
  dispatch_bundle w ds (some b) =
      if has_endpoint core.node b.primary_block.destination
      then local_delivery w ds b
      else forward core w ds b

  abbrev pub allowed_step :
      BundleDescriptor
      → (D.State → Option Bundle)
      → World D A
      → Bool × A.State × D.State
      → Result (World D A)
  allowed_step ds load w r =
      let w' = record w { routing = r.1; disk = r.2 } in
      if r.0 then dispatch_bundle w' ds (load r.2) else ok w'

  -- `dispatching`; `load` gives the bundle of the descriptor, which may have to be loaded from the disk.
  unfoldable pub dispatching :
      World D A → BundleDescriptor → (D.State → Option Bundle) → Result (World D A)
  unfolding has_endpoint local_delivery forward
  dispatching w ds load = allowed_step ds load w (A.dispatching_allowed (w.routing, w.disk) ds)

  -- The loop of `receive` over the blocks, from the last one on: the blocks that are left, and whether the
  -- bundle is deleted. `before` are the blocks before these.
  abbrev pub unknown_block :
      BundleDescriptor
      → Bundle
      → List CanonicalBlock
      → CanonicalBlock
      → World D A × List CanonicalBlock × Bool
      → World D A × List CanonicalBlock × Bool
  unknown_block ds b before cb (w, kept, deleted) =
      let b' = record b { canonical_blocks = before ++ cb ∷ kept } in
      let w' =
        reported core (has cb.block_control_flags status_report_block) ds b' received_bundle
          block_unsupported w in
      if deleted || core.node.known_type (type_code cb)
      then (w, cb ∷ kept, deleted)
      else if has cb.block_control_flags delete_bundle
      then (bundle_deletion core w' ds b' block_unsupported, cb ∷ kept, true)
      else (w', (if has cb.block_control_flags remove_block then kept else cb ∷ kept), false)

  unfoldable pub check_unknown_blocks :
      BundleDescriptor
      → Bundle
      → List CanonicalBlock
      → List CanonicalBlock
      → World D A
      → World D A × List CanonicalBlock × Bool
  unfolding type_code has bundle_deletion
  check_unknown_blocks ds b before [] w = (w, [], false)
  check_unknown_blocks ds b before (cb ∷ cbs) w =
      unknown_block ds b before cb (check_unknown_blocks ds b (before ++ cb ∷ []) cbs w)

  abbrev pub notified :
      BundleDescriptor → Bundle → World D A × List CanonicalBlock × Bool → Result (World D A)
  notified ds b (w, kept, deleted) =
      let b' = record b { canonical_blocks = kept } in
      if deleted then ok w else (do
        r ← A.notify_new_bundle (w.routing, w.disk) ds b'
        dispatching (record w { routing = r.0; disk = r.1 }) ds (λ _. some b'))

  unfoldable pub receive : World D A → BundleDescriptor → Bundle → Result (World D A)
  unfolding are_empty add_constraint synced check_unknown_blocks dispatching has
  receive w ds b =
      let ds1 = add_constraint dispatch_pending ds in
      if not (are_empty ds.constraints)
      then ok w
      else notified ds1 b (
          check_unknown_blocks ds1 b [] b.canonical_blocks (
            reported core (has_flag status_request_reception b) ds1 b received_bundle no_information
              (synced core ds1 b w)))

  -- The case `ReceivedBundle` of the core's handler.
  unfoldable pub handle_received_bundle : World D A → Bundle → EndpointId → Result (World D A)
  unfolding new_bundle_descriptor_from_bundle synced receive
  handle_received_bundle w b endpoint =
      let r = new_bundle_descriptor_from_bundle D core.node.now w.disk b in
      let ds = record r.0 { receiver = endpoint } in
      receive (synced core ds b (record w { disk = r.1 })) ds b

  abbrev pub dispatch_items : World D A → List BundleItem → Result (World D A)
  dispatch_items w [] = ok w
  dispatch_items w (bi ∷ bis) = do
    let ds = new_bundle_descriptor D core.node.now w.disk bi.b_id
    w' ← dispatching w ds (λ s. load_bundle D s ds)
    dispatch_items w' bis

  unfoldable pub check_pending_bundles : World D A → Result (World D A)
  unfolding query_pending new_bundle_descriptor load_bundle dispatching
  check_pending_bundles w = dispatch_items w (found_items D (query_pending D w.disk))
