-- ===== src/Routing/Algorithm/Tame.antt =====
-- The algorithms keep the items of a working disk.
use dtn7_gold.Prelude.{
  ◌≡◌, refl, subst, arith, ap, ◌∙◌, Bool, true, false, List, [], ◌∷◌, Bool-cases, inl, inr,
  if◌then◌else◌, Option, none, some,
}
use dtn7_gold.Bpv7.Endpoint.{EndpointId}
use dtn7_gold.Bpv7.Blocks.{
  CanonicalBlock, ExtensionBlock, payload_block, previous_node_block, bundle_age_block,
  hop_count_block, generic_block, previous_node_type,
}
use dtn7_gold.Bpv7.Bundle.{Bundle, BundleId, Result, ok, err, ◌>>=◌, extension_block, scrub}
use dtn7_gold.Storage.{
  BundleItem, found, same_key, Disk, IsWorking, KeepsItems, query_id, update_item,
}
use dtn7_gold.Storage.Items.{
  KeepsItems-self, KeepsItems-trans, get-update_item, update_item-KeepsItems,
}
use dtn7_gold.Routing.Descriptor.{BundleDescriptor}
use dtn7_gold.Routing.Algorithm.{ConvergenceSender, IsTame, is_sent, known_sent, previous_endpoint}
use dtn7_gold.Routing.Algorithm.Spray.{spray_and_wait}
use dtn7_gold.Routing.Algorithm.Epidemic.{
  epidemic_routing, with_destination, note_sender, note_previous, note_destination, note_over,
  notify_got, clas_got, allowed_for, allowed_got, is_own, clas_for_bundle, notify_new_bundle,
  dispatching_allowed, report_failure,
}

ok-inj {ℓ} : {X : Type ℓ} {x y : X} → ok x ≡ ok y → x ≡ y
ok-inj h = ground arith

bind-ok :
    {X Y : Type 0} (r : Result X) (f : X → Y) (y : Y)
    → (r >>= λ x. ok (f x)) ≡ ok y
    → (x : X) × (r ≡ ok x) × (f x ≡ y)
bind-ok (ok x) f y h = (x, refl, ok-inj h)
bind-ok (err e) f y h = ground arith

pub spray_and_wait-IsTame : (D : Disk) (own : EndpointId → Bool) → IsTame (spray_and_wait D own)
spray_and_wait-IsTame D own = record {
  notify = λ s d ds b t h q.
      let (sw, e, last) = bind-ok _ (λ x. (x, d)) t q in
      subst (λ x. KeepsItems D d x.1) last (KeepsItems-self D d);
  allowed = λ s d ds h. KeepsItems-self D d;
  senders = λ s d ds css h. KeepsItems-self D d;
  failure = λ s d ds b cs h. KeepsItems-self D d;
}

module _ (D : Disk) (works : IsWorking D) where
  abbrev Stored : D.State → BundleId → BundleItem → Type 0
  Stored d k i = (D.get d k ≡ found i) × (same_key i.b_id k ≡ true)

  -- An item that is stored is replaced by one with the same ID.
  replaced :
      (d : D.State) (k : BundleId) (i new : BundleItem)
      → Stored d k i
      → new.b_id ≡ i.b_id
      → KeepsItems D d (update_item D d new).0 × Stored (update_item D d new).0 k new
  replaced d k i new (h, same) e = (
    update_item-KeepsItems D works d k i new h same e,
    (
      get-update_item D works d k k i new h same e
          ∙ ap (λ t. if t then found new else D.get d k) same,
      ap (λ b. same_key b k) e ∙ same,
    ),
  )

  module _ (d : D.State) (k : BundleId) (i : BundleItem) (h : Stored d k i) where
    note_over-Stored :
        (e : EndpointId) (known : Option EndpointId)
        → KeepsItems D d (note_over D d e i known).0
          × Stored (note_over D d e i known).0 k (note_over D d e i known).1
    note_over-Stored e none = replaced d k i (with_destination e i) h refl
    note_over-Stored e (some x) = (KeepsItems-self D d, h)

    note_sender-KeepsItems : (e : EndpointId) → KeepsItems D d (note_sender D d e i)
    note_sender-KeepsItems e =
        elim (Bool-cases (is_sent e (known_sent i.properties.epidemic_sent))) [
          | inl known ↦ rw known (KeepsItems-self D d)
          | inr fresh ↦ rw fresh (replaced d k i _ h refl).0
        ]

    value-KeepsItems :
        (v : ExtensionBlock) (t : D.State)
        → (previous_endpoint v >>= λ e. ok (note_sender D d e i)) ≡ ok t
        → KeepsItems D d t
    value-KeepsItems (previous_node_block e) t q =
        subst (KeepsItems D d) (ok-inj q) (note_sender-KeepsItems e)
    value-KeepsItems (payload_block bytes) t q = ground arith
    value-KeepsItems (bundle_age_block ms) t q = ground arith
    value-KeepsItems (hop_count_block c) t q = ground arith
    value-KeepsItems (generic_block bytes code) t q = ground arith

    note_previous-KeepsItems :
        (r : Result CanonicalBlock) (t : D.State) → note_previous D d r i ≡ ok t → KeepsItems D d t
    note_previous-KeepsItems (ok cb) t q = value-KeepsItems cb.value t q
    note_previous-KeepsItems (err e) t q = subst (KeepsItems D d) (ok-inj q) (KeepsItems-self D d)

    clas_got-KeepsItems :
        (update_db : Bool) (css : List ConvergenceSender)
        → KeepsItems D d (clas_got D d update_db css (found i)).1
    clas_got-KeepsItems true css = (replaced d k i _ h refl).0
    clas_got-KeepsItems false css = KeepsItems-self D d

    allowed_for-KeepsItems :
        (css : List ConvergenceSender) → KeepsItems D d (allowed_for D d i css).1
    allowed_for-KeepsItems [] = (replaced d k i _ h refl).0
    allowed_for-KeepsItems (cs ∷ css) = KeepsItems-self D d

    allowed_got-KeepsItems :
        (own : EndpointId → Bool) (ds : BundleDescriptor) (css : List ConvergenceSender)
        → KeepsItems D d (allowed_got D own d ds css (found i)).1
    allowed_got-KeepsItems own ds css =
        elim (Bool-cases (is_own D own i.properties.epidemic_destination)) [
          | inl here ↦ rw here (KeepsItems-self D d)
          | inr there ↦ rw there (allowed_for-KeepsItems (clas_for_bundle D d ds false css).0)
        ]

  notify_got-KeepsItems :
      (d : D.State) (k : BundleId) (b : Bundle) (i : BundleItem) (t : D.State)
      → Stored d k i
      → notify_got D d b (found i) ≡ ok t
      → KeepsItems D d t
  notify_got-KeepsItems d k b i t h q =
      let noted =
        note_over-Stored d k i h b.primary_block.destination i.properties.epidemic_destination in
      KeepsItems-trans D d _ t noted.0 (
        note_previous-KeepsItems (note_destination D d b.primary_block.destination i).0 k
          (note_destination D d b.primary_block.destination i).1 noted.1
          (extension_block previous_node_type b) t q)

  pub epidemic_routing-IsTame :
      (own : EndpointId → Bool) (peers : List ConvergenceSender)
      → IsTame (epidemic_routing D own peers)
  unfolding notify_new_bundle dispatching_allowed clas_for_bundle report_failure query_id
  epidemic_routing-IsTame own peers = record {
    notify = λ s d ds b t (i, h, same) q.
        let (d', e, last) = bind-ok (notify_new_bundle D d ds b) (λ x. (s, x)) t q in
        subst (λ x. KeepsItems D d x.1) last
          (notify_got-KeepsItems d (scrub ds.id) b i d' (h, same) (rw h at e));
    allowed = λ s d ds (i, h, same).
        rw h (allowed_got-KeepsItems d (scrub ds.id) i (h, same) own ds peers);
    senders =
        λ s d ds css (i, h, same). rw h (clas_got-KeepsItems d (scrub ds.id) i (h, same) true css);
    failure = λ s d ds b cs (i, h, same). rw h (replaced d (scrub ds.id) i _ (h, same) refl).0;
  }
