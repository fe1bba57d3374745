-- ===== src/Routing/Algorithm/Spray.antt =====
-- pkg/routing/algorithm_spray.go: spray and wait, and binary spray. The map from bundle IDs is a list of its
-- entries, of which the first of an ID counts.
pub mod Copies
pub mod Run
use dtn7_gold.Prelude.{
  ℕ, ◌+◌, ◌-◌, ◌/◌, ◌%◌, ◌^◌, Bool, true, false, ◌&&◌, Option, none, some, List, [], ◌∷◌, ◌++◌,
  ◌==◌, ltb, if◌then◌else◌,
}
use dtn7_gold.Bpv7.Endpoint.{EndpointId, same_endpoint, same_flag}
use dtn7_gold.Bpv7.Blocks.{CanonicalBlock, previous_node_type}
use dtn7_gold.Bpv7.Bundle.{Bundle, BundleId, Result, ok, err, ◌>>=◌, extension_block}
use dtn7_gold.Storage.{Disk, knows_bundle}
use dtn7_gold.Routing.Descriptor.{BundleDescriptor}
use dtn7_gold.Routing.Algorithm.{
  ConvergenceSender, Algorithm, is_sent, without_peer, previous_endpoint,
}

pub record SprayMetaData : Type 0 where
  pub sent : List EndpointId
  pub remaining_copies : ℕ

-- Go's `==` on bundle IDs.
unfoldable pub same_id : BundleId → BundleId → Bool
unfolding same_endpoint
same_id a b =
    same_endpoint a.source_node b.source_node
    && (a.timestamp.dtn_time == b.timestamp.dtn_time
        && (a.timestamp.sequence_number == b.timestamp.sequence_number
            && (same_flag a.fragmented b.fragmented
                && (a.fragment_offset == b.fragment_offset
                    && a.total_data_length == b.total_data_length))))

pub record SprayAndWait : Type 0 where
  pub l : ℕ
  pub bundle_data : List (BundleId × SprayMetaData)

unfoldable pub new_spray_and_wait : ℕ → SprayAndWait
new_spray_and_wait multiplicity = record { l = multiplicity; bundle_data = [] }

unfoldable pub metadata_of : BundleId → List (BundleId × SprayMetaData) → Option SprayMetaData
unfolding same_id
metadata_of k [] = none
metadata_of k (e ∷ m) = if same_id e.0 k then some e.1 else metadata_of k m

abbrev pub store_metadata : BundleId → SprayMetaData → SprayAndWait → SprayAndWait
store_metadata k d sw = record sw { bundle_data = (k, d) ∷ sw.bundle_data }

-- `cleanupMetaData` and `GarbageCollect`.
unfoldable pub cleanup_meta_data :
    (D : Disk) → D.State → List (BundleId × SprayMetaData) → List (BundleId × SprayMetaData)
unfolding knows_bundle
cleanup_meta_data D s [] = []
cleanup_meta_data D s (e ∷ m) =
    let rest = cleanup_meta_data D s m in if knows_bundle D s e.0 then e ∷ rest else rest

unfoldable pub garbage_collect : (D : Disk) → D.State → SprayAndWait → SprayAndWait
unfolding cleanup_meta_data
garbage_collect D s sw = record sw { bundle_data = cleanup_meta_data D s sw.bundle_data }

-- The endpoint of the previous node block; a block of another type under its code is a panic.
abbrev pub previous_node : Result CanonicalBlock → Result (List EndpointId)
previous_node (ok cb) = do e ← previous_endpoint cb.value; ok (e ∷ [])
previous_node (err e) = ok []

-- A bundle of this node has all copies, one of another node one.
abbrev pub originated : SprayAndWait → BundleDescriptor → SprayAndWait
originated sw ds = store_metadata ds.id (record { sent = []; remaining_copies = sw.l }) sw

abbrev pub with_one_copy : SprayAndWait → BundleDescriptor → List EndpointId → SprayAndWait
with_one_copy sw ds sent = store_metadata ds.id (record { sent = sent; remaining_copies = 1 }) sw

-- `NotifyNewBundle`; the Boolean says whether the source is an endpoint of this node.
unfoldable pub notify_new_bundle :
    Bool → SprayAndWait → BundleDescriptor → Bundle → Result SprayAndWait
unfolding extension_block
notify_new_bundle own sw ds b = if own then ok (originated sw ds) else (do
  sent ← previous_node (extension_block previous_node_type b)
  ok (with_one_copy sw ds sent))

-- The loop over the senders.
unfoldable pub spray :
    List ConvergenceSender → SprayMetaData → List ConvergenceSender × SprayMetaData
unfolding is_sent
spray [] d = ([], d)
spray (cs ∷ css) d =
    let skipped = spray css d in
    let taken =
      spray css
        (record { sent = d.sent ++ cs.peer ∷ []; remaining_copies = d.remaining_copies - 1 }) in
    if ltb d.remaining_copies 2
    then ([], d)
    else if is_sent cs.peer d.sent
    then skipped
    else (cs ∷ taken.0, taken.1)

abbrev pub spray_found :
    SprayAndWait
    → BundleId
    → List ConvergenceSender
    → Option SprayMetaData
    → List ConvergenceSender × SprayAndWait
spray_found sw k css none = ([], sw)
spray_found sw k css (some d) =
    if ltb d.remaining_copies 2
    then ([], sw)
    else (let selected = spray css d in (selected.0, store_metadata k selected.1 sw))

-- `SenderForBundle`; the flag to delete the bundle afterwards is always false.
unfoldable pub sender_for_bundle :
    SprayAndWait → BundleDescriptor → List ConvergenceSender → List ConvergenceSender × SprayAndWait
unfolding metadata_of spray
sender_for_bundle sw ds css = spray_found sw ds.id css (metadata_of ds.id sw.bundle_data)

-- The copies are a uint64.
abbrev pub returned : ConvergenceSender → SprayMetaData → SprayMetaData
returned cs d = record {
  sent = without_peer cs.peer d.sent;
  remaining_copies = (d.remaining_copies + 1) % 2 ^ 64;
}

abbrev pub failed_copy :
    SprayAndWait → BundleId → ConvergenceSender → Option SprayMetaData → SprayAndWait
failed_copy sw k cs none = sw
failed_copy sw k cs (some d) = store_metadata k (returned cs d) sw

-- `ReportFailure`.
unfoldable pub report_failure : SprayAndWait → BundleDescriptor → ConvergenceSender → SprayAndWait
unfolding metadata_of without_peer
report_failure sw ds cs = failed_copy sw ds.id cs (metadata_of ds.id sw.bundle_data)

-- `SprayAndWait` as an algorithm; `own` is the test `HasEndpoint` of the core.
abbrev pub spray_and_wait : (D : Disk) → (EndpointId → Bool) → Algorithm D
spray_and_wait D own = record {
  State = SprayAndWait;
  notify_new_bundle = λ s ds b. (do
    sw ← notify_new_bundle (own b.primary_block.source_node) s.0 ds b
    ok (sw, s.1));
  dispatching_allowed = λ s ds. (true, s.0, s.1);
  sender_for_bundle = λ s ds css. let r = sender_for_bundle s.0 ds css in ((r.0, false), r.1, s.1);
  report_failure = λ s ds b cs. (report_failure s.0 ds cs, s.1);
}
