-- ===== src/Routing/Processing/Sending.antt =====
-- Bundles of the node itself: `SendBundle`, its signatures, and `transmit` (processing.go). `sign` is
-- `NewSignatureBlock` with the key of the core, if there is one; its failure leaves the bundle unsigned.
use dtn7_gold.Prelude.{Bool, not, ◌&&◌, Option, none, some, if◌then◌else◌}
use dtn7_gold.Bpv7.Endpoint.{dtn_none, same_endpoint}
use dtn7_gold.Bpv7.Blocks.{ExtensionBlock, crc32, new_canonical_block}
use dtn7_gold.Bpv7.Bundle.{Result, ok, err, Bundle, add_extension_block}
use dtn7_gold.Storage.{Disk}
use dtn7_gold.Routing.Constraints.{dispatch_pending}
use dtn7_gold.Routing.Descriptor.{
  BundleDescriptor, new_bundle_descriptor_from_bundle, add_constraint,
}
use dtn7_gold.Routing.IdKeeper.{IdKeeper, update_id}
use dtn7_gold.Routing.Algorithm.{Algorithm}
use dtn7_gold.Routing.Processing.Steps.{is_administrative_record, synced, bundle_deletion}
use dtn7_gold.Routing.Processing.Reception.{dispatching}
use dtn7_gold.Routing.Processing.{Core, World, has_endpoint, no_information}

-- The flags of a signature's block are `ReplicateBlock` and `DeleteBundle`.
abbrev pub attached : Bundle → Option ExtensionBlock → Bundle
attached b none = b
attached b (some sb) =
    add_extension_block (record (new_canonical_block 0 5 sb) { crc_type = crc32 }) b

unfoldable pub send_bundle_attach_signature :
    Option (Bundle → Option ExtensionBlock) → Bundle → Bundle
unfolding is_administrative_record add_extension_block new_canonical_block
send_bundle_attach_signature none b = b
send_bundle_attach_signature (some sign) b =
    if is_administrative_record b then attached b (sign b) else b

module _ {D : Disk} {A : Algorithm D} (core : Core A) where
  -- A source that is neither dtn:none nor an endpoint of this node.
  unfoldable pub is_foreign : Bundle → Bool
  unfolding same_endpoint has_endpoint
  is_foreign b =
      let src = b.primary_block.source_node in
      not (same_endpoint src dtn_none) && not (has_endpoint core.node src)

  abbrev pub transmit_over : World D A → BundleDescriptor → Bundle → Result (World D A)
  transmit_over w ds b =
      let w' = synced core ds b w in
      if is_foreign b
      then ok (bundle_deletion core w' ds b no_information)
      else dispatching core w' ds (λ _. some b)

  unfoldable pub transmit :
      IdKeeper → World D A → BundleDescriptor → Bundle → IdKeeper × Result (World D A)
  unfolding update_id add_constraint synced is_foreign bundle_deletion dispatching
  transmit k w ds b =
      let (k', b', bid) = update_id k b ds.id in
      (k', transmit_over w (add_constraint dispatch_pending (record ds { id = bid })) b')

  abbrev pub after_notified :
      IdKeeper
      → World D A
      → BundleDescriptor
      → Bundle
      → Result (A.State × D.State)
      → IdKeeper × Result (World D A)
  after_notified k w ds b (ok told) = transmit k (record w { routing = told.0; disk = told.1 }) ds b
  after_notified k w ds b (err e) = (k, err e)

  unfoldable pub send_bundle :
      Option (Bundle → Option ExtensionBlock)
      → IdKeeper
      → World D A
      → Bundle
      → IdKeeper × Result (World D A)
  unfolding send_bundle_attach_signature new_bundle_descriptor_from_bundle transmit
  send_bundle sign k w b =
      let signed = send_bundle_attach_signature sign b in
      let r = new_bundle_descriptor_from_bundle D core.node.now w.disk signed in
      after_notified k w r.0 signed (A.notify_new_bundle (w.routing, r.1) r.0 signed)
