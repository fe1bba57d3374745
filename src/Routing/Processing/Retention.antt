-- ===== src/Routing/Processing/Retention.antt =====
-- Store and forward: what `forward` leaves in the store of a bundle that no sender takes.
use dtn7_gold.Prelude.{◌≡◌, refl, true, false, List, [], ◌∷◌, arith, Bool-cases, inl, inr, some}
use dtn7_gold.Bpv7.Bundle.{ok, Bundle, BundleId, scrub}
use dtn7_gold.Bpv7.Validity.{is_lifetime_exceeded}
use dtn7_gold.Storage.{BundleItem, found, Disk, IsWorking, HasItem, KeepsItems}
use dtn7_gold.Storage.Items.{KeepsItems-self, KeepsItems-trans}
use dtn7_gold.Routing.Constraints.{Constraints, contraindicated, are_empty, is_pending, set_key}
use dtn7_gold.Routing.Descriptor.{BundleDescriptor, synced_item, add_constraint, remove_constraint}
use dtn7_gold.Routing.Descriptor.Sync.{get-sync, sync-KeepsItems}
use dtn7_gold.Routing.Algorithm.{ConvergenceSender, Algorithm, IsTame}
use dtn7_gold.Routing.Processing.{
  Core, World, sender_for_destination, count_hop, uncount_hop, uncounted, update_bundle_age,
}
use dtn7_gold.Bpv7.Typed.{IsTyped}
use dtn7_gold.Routing.Processing.Typed.Assertions.{
  hop_block-ok, set_previous_node-ok, count_hop-IsTyped, update_bundle_age-IsTyped,
}
use dtn7_gold.Routing.Processing.Steps.{
  synced, bundle_contraindicated, send_all, select, select_from, transmit_to_nodes, forwarding,
  forward,
}

-- The bundle of the key waits for another attempt: its item is pending, and has the constraints of a bundle
-- that could not be forwarded.
abbrev pub Waits : (D : Disk) → D.State → BundleId → Type 0
Waits D s k =
    (i : BundleItem) × (cs : Constraints) × (D.get s k ≡ found i)
    × (i.pending ≡ true)
    × (i.properties.constraints ≡ some cs)
    × (cs.forward ≡ true)
    × (cs.contra ≡ true)
    × (cs.dispatch ≡ false)

pub uncount_hop-ok : (b : Bundle) → IsTyped b → (c : Bundle) × (uncount_hop b ≡ ok c)
unfolding uncount_hop
uncount_hop-ok b h = let hop = hop_block-ok b h in (uncounted hop.0 b, rw hop.1)

module _ (D : Disk) (works : IsWorking D) (A : Algorithm D) (tame : IsTame A) (core : Core A) where
  module _ (ds : BundleDescriptor) where
    pub select-KeepsItems :
        (css : List ConvergenceSender) (w : World D A)
        → HasItem D w.disk (scrub ds.id)
        → KeepsItems D w.disk (select_from core css ds w).2.disk
    select-KeepsItems [] w item = tame.senders w.routing w.disk ds core.node.senders item
    select-KeepsItems (cs ∷ css) w item = KeepsItems-self D w.disk

    pub send_all-KeepsItems :
        (b : Bundle) (css : List ConvergenceSender) (w : World D A)
        → HasItem D w.disk (scrub ds.id)
        → KeepsItems D w.disk (send_all core ds b css w).0.disk
    unfolding send_all
    send_all-KeepsItems b [] w item = KeepsItems-self D w.disk
    send_all-KeepsItems b (cs ∷ css) w item = elim (Bool-cases (core.node.send cs b)) [
      | inl gone ↦
          rw gone (
            send_all-KeepsItems b css (record w { transmissions = (cs, b) ∷ w.transmissions }) item)
      | inr failed ↦
          let f = A.report_failure (w.routing, w.disk) ds b cs in
          let kept = tame.failure w.routing w.disk ds b cs item in
          rw failed (
            KeepsItems-trans D w.disk f.1 _ kept (
              send_all-KeepsItems b css (record w { routing = f.0; disk = f.1 })
                (kept (scrub ds.id) item)))
    ]

    send_all-none :
        (b : Bundle) (css : List ConvergenceSender) (w : World D A)
        → ((cs : ConvergenceSender) → core.node.send cs b ≡ false)
        → (send_all core ds b css w).1 ≡ false
    unfolding send_all
    send_all-none b [] w fails = refl
    send_all-none b (cs ∷ css) w fails =
        let f = A.report_failure (w.routing, w.disk) ds b cs in
        rw (fails cs) (send_all-none b css (record w { routing = f.0; disk = f.1 }) fails)

    bundle_contraindicated-Waits :
        (w : World D A) (b : Bundle)
        → HasItem D w.disk (scrub ds.id)
        → ds.constraints.reassembly ≡ false
        → ds.constraints.forward ≡ true
        → ds.constraints.dispatch ≡ false
        → Waits D (bundle_contraindicated core w ds b).disk (scrub ds.id)
    unfolding bundle_contraindicated synced add_constraint set_key are_empty is_pending synced_item
    bundle_contraindicated-Waits w b item no_reassembly fwd disp =
        let ds' = add_constraint contraindicated ds in
        (
          synced_item ds' item.0,
          ds'.constraints,
          get-sync D works w.disk ds' b item (ground arith),
          ground arith,
          refl,
          fwd,
          refl,
          disp,
        )

    -- From the choice of the senders on.
    transmit_to_nodes-Waits :
        (w : World D A) (b : Bundle)
        → IsTyped b
        → ((cs : ConvergenceSender) (c : Bundle) → core.node.send cs c ≡ false)
        → HasItem D w.disk (scrub ds.id)
        → ds.constraints.reassembly ≡ false
        → ds.constraints.forward ≡ true
        → ds.constraints.dispatch ≡ false
        → (w' : World D A) × (transmit_to_nodes core w ds b ≡ ok w') × Waits D w'.disk (scrub ds.id)
    unfolding transmit_to_nodes select
    transmit_to_nodes-Waits w b typed fails item no_reassembly fwd disp =
        let (b1, set, typed1) = set_previous_node-ok b typed core.node.node_id in
        let (b2, reset) = uncount_hop-ok b1 typed1 in
        let css = sender_for_destination b1.primary_block.destination core.node.senders in
        let chosen = select_from core css ds w in
        let sent = send_all core ds b1 chosen.0 chosen.2 in
        let there : HasItem D chosen.2.disk (scrub ds.id) =
          select-KeepsItems css w item (scrub ds.id) item in
        let still : HasItem D sent.0.disk (scrub ds.id) =
          send_all-KeepsItems b1 chosen.0 chosen.2 there (scrub ds.id) there in
        let none_sent : sent.1 ≡ false = send_all-none b1 chosen.0 chosen.2 (λ cs. fails cs b1) in
        (
          bundle_contraindicated core sent.0 ds b2,
          rw (set, reset, none_sent),
          bundle_contraindicated-Waits sent.0 b2 still no_reassembly fwd disp,
        )

  -- A stored bundle whose blocks have the types of their codes, for which every send fails, of which neither the hops nor the lifetime are over and
  -- which waits for no reassembly, is forwarded without a panic, and its item waits then: it is pending,
  -- with the constraints of a pending forwarding that was contraindicated, and not for dispatching.
  pub forward-Waits :
      (w : World D A) (ds : BundleDescriptor) (b b1 b2 : Bundle)
      → HasItem D w.disk (scrub ds.id)
      → ds.constraints.reassembly ≡ false
      → ((cs : ConvergenceSender) (c : Bundle) → core.node.send cs c ≡ false)
      → count_hop b ≡ ok (b1, false)
      → is_lifetime_exceeded core.node.now b1 ≡ ok false
      → update_bundle_age (core.node.since ds.timestamp) b1 ≡ ok (b2, false)
      → IsTyped b
      → (w' : World D A) × (forward core w ds b ≡ ok w') × Waits D w'.disk (scrub ds.id)
  unfolding forward forwarding synced add_constraint remove_constraint set_key are_empty
  forward-Waits w ds b b1 b2 item no_reassembly fails hop life age typed =
      let ds' = forwarding ds in
      let w1 = synced core ds' b w in
      let kept : HasItem D w1.disk (scrub ds.id) =
        sync-KeepsItems D works w.disk ds' b item refl (scrub ds.id) item in
      rw (hop, life, age)
        (transmit_to_nodes-Waits ds' w1 b2
          (update_bundle_age-IsTyped (core.node.since ds.timestamp) b1 b2 false age
            (count_hop-IsTyped b b1 false hop typed))
          fails kept no_reassembly refl refl)
