-- ===== src/Routing/Algorithm/Spray/Run.antt =====
-- The copies of a bundle over any number of rounds and reported failures.
use dtn7_gold.Prelude.{
  ℕ, zero, suc, ◌+◌, ◌^◌, ◌≤◌, ◌<◌, ◌≡◌, refl, ◌∙◌, ap, subst, true, false, List, [], ◌∷◌, arith,
  length, length-append, length-map, Bool-cases, inl, inr, some, ==_self, ltb,
}
use dtn7_gold.Bpv7.Endpoint.{EndpointId, same_endpoint}
use dtn7_gold.Bpv7.Bundle.{ok, Bundle, BundleId}
use dtn7_gold.Routing.IdKeeper.Numbers.{same_endpoint_self, same_endpoint→eq, same_flag_self}
use dtn7_gold.Routing.Descriptor.{BundleDescriptor}
use dtn7_gold.Routing.Algorithm.{ConvergenceSender, is_sent, without_peer}
use dtn7_gold.Routing.Algorithm.Spray.{
  SprayMetaData, SprayAndWait, same_id, metadata_of, store_metadata, spray, sender_for_bundle,
  returned, report_failure, notify_new_bundle, originated,
}
use dtn7_gold.Routing.Algorithm.Spray.Copies.{spray-Sprayed, peers}

same_id_self : (k : BundleId) → same_id k k ≡ true
unfolding same_id
same_id_self k = rw (
  same_endpoint_self k.source_node,
  ==_self k.timestamp.dtn_time,
  ==_self k.timestamp.sequence_number,
  same_flag_self k.fragmented,
  ==_self k.fragment_offset,
  ==_self k.total_data_length,
)

pub metadata_of-store_metadata :
    (k : BundleId) (d : SprayMetaData) (sw : SprayAndWait)
    → metadata_of k (store_metadata k d sw).bundle_data ≡ some d
unfolding metadata_of
metadata_of-store_metadata k d sw = rw (same_id_self k)

same_endpoint_sym : (a b : EndpointId) → same_endpoint a b ≡ true → same_endpoint b a ≡ true
same_endpoint_sym a b h =
    subst (λ x. same_endpoint x a ≡ true) (same_endpoint→eq a b h) (same_endpoint_self a)

same_endpoint_sym_false : (a b : EndpointId) → same_endpoint a b ≡ false → same_endpoint b a ≡ false
same_endpoint_sym_false a b h = elim (Bool-cases (same_endpoint b a)) [
  | inl same ↦ absurd (cc (same_endpoint_sym b a same))
  | inr other ↦ other
]

-- One peer leaves the list, if it is in it.
pub length-without_peer :
    (e : EndpointId) (xs : List EndpointId)
    → is_sent e xs ≡ true
    → length (without_peer e xs) + 1 ≡ length xs
unfolding is_sent without_peer
length-without_peer e [] h = absurd (cc)
length-without_peer e (x ∷ xs) h = elim (Bool-cases (same_endpoint e x)) [
  | inl same ↦ rw (same_endpoint_sym e x same) (omega arith)
  | inr other ↦
      let later : is_sent e xs ≡ true = rw other at h in
      rw (same_endpoint_sym_false e x other) (omega (arith, length-without_peer e xs later))
]

pub without_peer-unknown :
    (e : EndpointId) (xs : List EndpointId) → is_sent e xs ≡ false → without_peer e xs ≡ xs
unfolding is_sent without_peer
without_peer-unknown e [] h = refl
without_peer-unknown e (x ∷ xs) h = elim (Bool-cases (same_endpoint e x)) [
  | inl same ↦ absurd (cc (rw same at h))
  | inr other ↦
      let later : is_sent e xs ≡ false = rw other at h in
      rw (same_endpoint_sym_false e x other, without_peer-unknown e xs later)
]

-- What the core does with a bundle: it asks for senders, and reports the failure of one that was selected.
pub data SprayStep (ds : BundleDescriptor) : SprayAndWait → SprayAndWait → Type 0 where
  select :
      (sw : SprayAndWait) (css : List ConvergenceSender)
      → SprayStep ds sw (sender_for_bundle sw ds css).1
  failure :
      (sw : SprayAndWait) (cs : ConvergenceSender) (d : SprayMetaData)
      → metadata_of ds.id sw.bundle_data ≡ some d
      → is_sent cs.peer d.sent ≡ true
      → SprayStep ds sw (report_failure sw ds cs)

pub data SprayRun (ds : BundleDescriptor) (sw : SprayAndWait) : SprayAndWait → Type 0 where
  here : SprayRun ds sw sw
  next : {t u : SprayAndWait} → SprayRun ds sw t → SprayStep ds t u → SprayRun ds sw u

-- The copies that are left and the nodes that have one make up the multiplicity.
abbrev pub IsAccounted : ℕ → BundleDescriptor → SprayAndWait → Type 0
IsAccounted l ds sw =
    (d : SprayMetaData) × (metadata_of ds.id sw.bundle_data ≡ some d)
    × (d.remaining_copies + length d.sent ≡ l)
    × (1 ≤ d.remaining_copies)

module _ (l : ℕ) (small : l < 2 ^ 64) (ds : BundleDescriptor) where
  select-IsAccounted :
      (sw : SprayAndWait) (css : List ConvergenceSender)
      → IsAccounted l ds sw
      → IsAccounted l ds (sender_for_bundle sw ds css).1
  unfolding sender_for_bundle
  select-IsAccounted sw css (d, e, sum, left) = elim (Bool-cases (ltb d.remaining_copies 2)) [
    | inl few ↦ rw (e, few) (d, e, sum, left)
    | inr enough ↦
        let r = spray-Sprayed css d in
        let d' = (spray css d).1 in
        let lengths : length d'.sent ≡ length d.sent + length (spray css d).0 =
          ap length r.noted
          ∙ length-append d.sent (peers (spray css d).0)
          ∙ ap (λ m. length d.sent + m)
              (length-map (λ (cs : ConvergenceSender). cs.peer) (spray css d).0) in
        rw (e, enough)
          (
            d',
            metadata_of-store_metadata ds.id d' sw,
            omega (arith, r.copies, lengths, sum),
            r.kept left,
          )
  ]

  failure-IsAccounted :
      (sw : SprayAndWait) (cs : ConvergenceSender) (d : SprayMetaData)
      → metadata_of ds.id sw.bundle_data ≡ some d
      → is_sent cs.peer d.sent ≡ true
      → IsAccounted l ds sw
      → IsAccounted l ds (report_failure sw ds cs)
  unfolding report_failure
  failure-IsAccounted sw cs d e sent (d', e', sum, left) =
      let same : d' ≡ d = cc in
      let sum' : d.remaining_copies + length d.sent ≡ l =
        subst (λ (x : SprayMetaData). x.remaining_copies + length x.sent ≡ l) same sum in
      let fewer = length-without_peer cs.peer d.sent sent in
      rw e (
        returned cs d,
        metadata_of-store_metadata ds.id (returned cs d) sw,
        omega (arith, fewer, sum'),
        omega (arith, fewer, sum'),
      )

  SprayStep-IsAccounted :
      {sw t : SprayAndWait} → SprayStep ds sw t → IsAccounted l ds sw → IsAccounted l ds t
  SprayStep-IsAccounted (select sw css) h = select-IsAccounted sw css h
  SprayStep-IsAccounted (failure sw cs d e sent) h = failure-IsAccounted sw cs d e sent h

  SprayRun-IsAccounted :
      {sw t : SprayAndWait} → SprayRun ds sw t → IsAccounted l ds sw → IsAccounted l ds t
  SprayRun-IsAccounted here h = h
  SprayRun-IsAccounted (next r s) h = SprayStep-IsAccounted s (SprayRun-IsAccounted r h)

-- A bundle of this node, of which the algorithm is told without a panic, with a multiplicity of at least one that is a uint64: whatever senders appear and
-- whatever selected senders fail, the copies that are left and the nodes that have one make up the
-- multiplicity, and one copy stays.
pub notify_new_bundle-IsAccounted :
    (sw t : SprayAndWait) (ds : BundleDescriptor) (b : Bundle)
    → sw.l < 2 ^ 64
    → 1 ≤ sw.l
    → SprayRun ds (originated sw ds) t
    → (notify_new_bundle true sw ds b ≡ ok (originated sw ds)) × IsAccounted sw.l ds t
unfolding notify_new_bundle
notify_new_bundle-IsAccounted sw t ds b small some_copies r =
    let d : SprayMetaData = record { sent = []; remaining_copies = sw.l } in
    (
      refl,
      SprayRun-IsAccounted sw.l small ds r
          (d, metadata_of-store_metadata ds.id d sw, omega arith, some_copies),
    )

-- The failures of one sender, one after the other.
unfoldable pub failures : ℕ → SprayAndWait → BundleDescriptor → ConvergenceSender → SprayAndWait
unfolding report_failure
failures zero sw ds cs = sw
failures (suc n) sw ds cs = failures n (report_failure sw ds cs) ds cs
