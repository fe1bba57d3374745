-- ===== src/Routing/Algorithm/Notified.antt =====
-- Telling an algorithm of a bundle whose blocks have the types of their codes does not panic.
use dtn7_gold.Prelude.{◌≡◌, refl, Bool, true, false, List, [], ◌∷◌, arith}
use dtn7_gold.Bpv7.Endpoint.{EndpointId}
use dtn7_gold.Bpv7.Blocks.{
  ExtensionBlock, payload_block, previous_node_block, bundle_age_block, hop_count_block,
  generic_block, previous_node_type, block_type_code, CanonicalBlock,
}
use dtn7_gold.Bpv7.Bundle.{Bundle, Result, ok, err, extension_block}
use dtn7_gold.Bpv7.Typed.{typed, IsTyped, extension_block-Fits}
use dtn7_gold.Storage.{Disk, BundleItem, Got, found, not_found, broken, query_id}
use dtn7_gold.Routing.Descriptor.{BundleDescriptor}
use dtn7_gold.Routing.Algorithm.{ConvergenceSender, NotifiesTyped, previous_endpoint}
use dtn7_gold.Routing.Algorithm.Spray.{
  SprayAndWait, with_one_copy, previous_node, spray_and_wait, notify_new_bundle as notify_spray,
}
use dtn7_gold.Routing.Algorithm.Epidemic.{
  note_destination, note_sender, note_previous, notify_got, notify_new_bundle, epidemic_routing,
}

previous_endpoint-ok :
    (v : ExtensionBlock)
    → typed v ≡ true
    → block_type_code v ≡ previous_node_type
    → (e : EndpointId) × (previous_endpoint v ≡ ok e)
unfolding block_type_code
previous_endpoint-ok (previous_node_block e) t q = (e, refl)
previous_endpoint-ok (payload_block bytes) t q = absurd (omega arith)
previous_endpoint-ok (bundle_age_block ms) t q = absurd (omega arith)
previous_endpoint-ok (hop_count_block c) t q = absurd (omega arith)
previous_endpoint-ok (generic_block bytes code) t q = absurd (ground arith)

module _ (b : Bundle) (h : IsTyped b) where
  block-endpoint :
      (cb : CanonicalBlock)
      → extension_block previous_node_type b ≡ ok cb
      → (e : EndpointId) × (previous_endpoint cb.value ≡ ok e)
  block-endpoint cb q =
      let fits = extension_block-Fits previous_node_type b cb h q in
      previous_endpoint-ok cb.value fits.0 fits.1

  previous_node-ok :
      (r : Result CanonicalBlock)
      → extension_block previous_node_type b ≡ r
      → (es : List EndpointId) × (previous_node r ≡ ok es)
  previous_node-ok (ok cb) q = let (e, found_it) = block-endpoint cb q in (e ∷ [], rw found_it refl)
  previous_node-ok (err e) q = ([], refl)

  module _ (D : Disk) where
    note_previous-ok :
        (s : D.State) (r : Result CanonicalBlock) (bi : BundleItem)
        → extension_block previous_node_type b ≡ r
        → (t : D.State) × (note_previous D s r bi ≡ ok t)
    note_previous-ok s (ok cb) bi q =
        let (e, found_it) = block-endpoint cb q in (note_sender D s e bi, rw found_it refl)
    note_previous-ok s (err e) bi q = (s, refl)

    notify_got-ok : (s : D.State) (g : Got) → (t : D.State) × (notify_got D s b g ≡ ok t)
    notify_got-ok s (found bi) =
        let noted = note_destination D s b.primary_block.destination bi in
        note_previous-ok noted.0 (extension_block previous_node_type b) noted.1 refl
    notify_got-ok s not_found = (s, refl)
    notify_got-ok s broken = (s, refl)

  notify_spray-ok :
      (own : Bool) (sw : SprayAndWait) (ds : BundleDescriptor)
      → (t : SprayAndWait) × (notify_spray own sw ds b ≡ ok t)
  unfolding notify_spray
  notify_spray-ok true sw ds = (_, refl)
  notify_spray-ok false sw ds =
      let (es, e) = previous_node-ok (extension_block previous_node_type b) refl in
      (with_one_copy sw ds es, rw e refl)

pub epidemic_routing-NotifiesTyped :
    (D : Disk) (own : EndpointId → Bool) (peers : List ConvergenceSender)
    → NotifiesTyped (epidemic_routing D own peers)
unfolding notify_new_bundle
epidemic_routing-NotifiesTyped D own peers s ds b h =
    let (t, e) = notify_got-ok b h D s.1 (query_id D s.1 ds.id) in ((s.0, t), rw e)

pub spray_and_wait-NotifiesTyped :
    (D : Disk) (own : EndpointId → Bool) → NotifiesTyped (spray_and_wait D own)
spray_and_wait-NotifiesTyped D own s ds b h =
    let (t, e) = notify_spray-ok b h (own b.primary_block.source_node) s.0 ds in ((t, s.1), rw e)
