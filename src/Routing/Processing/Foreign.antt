-- ===== src/Routing/Processing/Foreign.antt =====
-- Bundles that a node is asked to send in the name of another node.
use dtn7_gold.Prelude.{◌≡◌, refl, ap, ◌∙◌, true, false, Option, none, some, Bool-cases, inl, inr}
use dtn7_gold.Bpv7.Flags.{status_request_deletion}
use dtn7_gold.Bpv7.Blocks.{ExtensionBlock}
use dtn7_gold.Bpv7.Bundle.{ok, Bundle}
use dtn7_gold.Storage.{Disk}
use dtn7_gold.Bpv7.Typed.{IsTyped}
use dtn7_gold.Routing.Algorithm.{Algorithm, NotifiesTyped}
use dtn7_gold.Routing.IdKeeper.{IdKeeper, update_id}
use dtn7_gold.Routing.Descriptor.{
  BundleDescriptor, new_bundle_descriptor_from_bundle, add_constraint,
}
use dtn7_gold.Routing.Constraints.{dispatch_pending}
use dtn7_gold.Routing.Processing.{Core, World, no_information}
use dtn7_gold.Routing.Processing.Steps.{has_flag, is_administrative_record, synced, bundle_deletion}
use dtn7_gold.Routing.Processing.Sending.{
  attached, send_bundle_attach_signature, is_foreign, transmit, after_notified, send_bundle,
}

attached-primary :
    (b : Bundle) (o : Option ExtensionBlock) → (attached b o).primary_block ≡ b.primary_block
unfolding dtn7_gold.Bpv7.Bundle.add_extension_block
attached-primary b none = refl
attached-primary b (some sb) = refl

-- A signature changes no field of the primary block.
signature-primary :
    (sign : Option (Bundle → Option ExtensionBlock)) (b : Bundle)
    → (send_bundle_attach_signature sign b).primary_block ≡ b.primary_block
unfolding send_bundle_attach_signature
signature-primary none b = refl
signature-primary (some sign) b = elim (Bool-cases (is_administrative_record b)) [
  | inl record_signed ↦ rw record_signed (attached-primary b (sign b))
  | inr unsigned ↦ rw unsigned
]

module _ {D : Disk} {A : Algorithm D} (core : Core A) where
  -- `transmit` refuses the bundle: what was sent and delivered stays as it is.
  transmit-foreign :
      (k : IdKeeper) (w : World D A) (ds : BundleDescriptor) (b : Bundle)
      → is_foreign core b ≡ true
      → has_flag status_request_deletion b ≡ false
      → (w' : World D A) × ((transmit core k w ds b).1 ≡ ok w')
        × (w'.transmissions ≡ w.transmissions)
        × (w'.deliveries ≡ w.deliveries)
  unfolding transmit is_foreign update_id bundle_deletion synced
  transmit-foreign k w ds b foreign silent =
      let n = update_id k b ds.id in
      let ds' = add_constraint dispatch_pending (record ds { id = n.2 }) in
      let w' = bundle_deletion core (synced core ds' n.1 w) ds' n.1 no_information in
      (w', rw foreign, rw silent, rw silent)

  -- With an algorithm that is told of bundles whose blocks have the types of their codes without a panic: such a
  -- bundle, its signature included, whose source is neither dtn:none nor an endpoint of the node, and which
  -- asks for no report of its deletion, is sent to no node and delivered to no agent by `send_bundle`, which
  -- ends without a panic.
  pub send_bundle-foreign :
      (sign : Option (Bundle → Option ExtensionBlock)) (k : IdKeeper) (w : World D A) (b : Bundle)
      → NotifiesTyped A
      → IsTyped (send_bundle_attach_signature sign b)
      → is_foreign core b ≡ true
      → has_flag status_request_deletion b ≡ false
      → (w' : World D A) × ((send_bundle core sign k w b).1 ≡ ok w')
        × (w'.transmissions ≡ w.transmissions)
        × (w'.deliveries ≡ w.deliveries)
  unfolding send_bundle is_foreign
  send_bundle-foreign sign k w b notifies typed foreign silent =
      let signed = send_bundle_attach_signature sign b in
      let r = new_bundle_descriptor_from_bundle D core.node.now w.disk signed in
      let (told, e) = notifies (w.routing, r.1) r.0 signed typed in
      let same = signature-primary sign b in
      let refused =
        transmit-foreign k (record w { routing = told.0; disk = told.1 }) r.0 signed
          (rw same foreign) (rw same silent) in
      (
        refused.0,
        ap (λ x. (after_notified core k w r.0 signed x).1) e ∙ refused.1,
        refused.2,
        refused.3,
      )
