-- ===== src/Routing/Algorithm/Epidemic.antt =====
-- pkg/routing/algorithm_epidemic.go: flooding. What the algorithm knows stands in the items of the store.
pub mod Once
use dtn7_gold.Prelude.{Bool, true, false, Option, none, some, List, [], ◌∷◌, ◌++◌, if◌then◌else◌}
use dtn7_gold.Bpv7.Endpoint.{EndpointId, same_endpoint}
use dtn7_gold.Bpv7.Blocks.{CanonicalBlock, previous_node_type}
use dtn7_gold.Bpv7.Bundle.{Bundle, Result, ok, err, ◌>>=◌, extension_block}
use dtn7_gold.Storage.{Disk, BundleItem, Got, found, not_found, broken, query_id, update_item}
use dtn7_gold.Routing.Descriptor.{BundleDescriptor}
use dtn7_gold.Routing.Algorithm.{
  ConvergenceSender, Algorithm, is_sent, known_sent, filter_clas, without_peer, previous_endpoint,
}

abbrev pub with_destination : EndpointId → BundleItem → BundleItem
with_destination e bi =
    let p = bi.properties in record bi { properties = record p { epidemic_destination = some e } }

abbrev pub with_sent : List EndpointId → BundleItem → BundleItem
with_sent eids bi =
    let p = bi.properties in record bi { properties = record p { epidemic_sent = some eids } }

module _ (D : Disk) where
  -- The destination is written once.
  abbrev pub note_over :
      D.State → EndpointId → BundleItem → Option EndpointId → D.State × BundleItem
  note_over s e bi none = ((update_item D s (with_destination e bi)).0, with_destination e bi)
  note_over s e bi (some known) = (s, bi)

  abbrev pub note_destination : D.State → EndpointId → BundleItem → D.State × BundleItem
  note_destination s e bi = note_over s e bi bi.properties.epidemic_destination

  abbrev pub note_sender : D.State → EndpointId → BundleItem → D.State
  note_sender s e bi =
      let eids = known_sent bi.properties.epidemic_sent in
      if is_sent e eids then s else (update_item D s (with_sent (eids ++ e ∷ []) bi)).0

  -- A block of another type under the code of previous nodes is a panic.
  abbrev pub note_previous : D.State → Result CanonicalBlock → BundleItem → Result D.State
  note_previous s (ok cb) bi = do e ← previous_endpoint cb.value; ok (note_sender s e bi)
  note_previous s (err e) bi = ok s

  abbrev pub notify_got : D.State → Bundle → Got → Result D.State
  notify_got s b (found bi) =
      let noted = note_destination s b.primary_block.destination bi in
      note_previous noted.0 (extension_block previous_node_type b) noted.1
  notify_got s b not_found = ok s
  notify_got s b broken = ok s

  -- `NotifyNewBundle`.
  unfoldable pub notify_new_bundle : D.State → BundleDescriptor → Bundle → Result D.State
  unfolding query_id update_item is_sent extension_block
  notify_new_bundle s ds b = notify_got s b (query_id D s ds.id)

  abbrev pub clas_got :
      D.State → Bool → List ConvergenceSender → Got → List ConvergenceSender × D.State
  clas_got s update_db css (found bi) =
      let r = filter_clas bi.properties.epidemic_sent css in
      (r.0, (if update_db then (update_item D s (with_sent r.1 bi)).0 else s))
  clas_got s update_db css not_found = ([], s)
  clas_got s update_db css broken = ([], s)

  -- `clasForBundle`; the flag to delete the bundle afterwards is always false.
  unfoldable pub clas_for_bundle :
      D.State → BundleDescriptor → Bool → List ConvergenceSender → List ConvergenceSender × D.State
  unfolding query_id update_item filter_clas
  clas_for_bundle s ds update_db css = clas_got s update_db css (query_id D s ds.id)

  abbrev pub is_own : (EndpointId → Bool) → Option EndpointId → Bool
  is_own own (some e) = own e
  is_own own none = false

  abbrev pub allowed_for : D.State → BundleItem → List ConvergenceSender → Bool × D.State
  allowed_for s bi [] = (false, (update_item D s (record bi { pending = true })).0)
  allowed_for s bi (cs ∷ css) = (true, s)

  abbrev pub allowed_got :
      (EndpointId → Bool)
      → D.State
      → BundleDescriptor
      → List ConvergenceSender
      → Got
      → Bool × D.State
  allowed_got own s ds css (found bi) =
      if is_own own bi.properties.epidemic_destination
      then (true, s)
      else allowed_for s bi (clas_for_bundle s ds false css).0
  allowed_got own s ds css not_found = (true, s)
  allowed_got own s ds css broken = (true, s)

  -- `DispatchingAllowed`, with the test `HasEndpoint` and the senders of the core.
  unfoldable pub dispatching_allowed :
      (EndpointId → Bool) → D.State → BundleDescriptor → List ConvergenceSender → Bool × D.State
  unfolding query_id update_item clas_for_bundle
  dispatching_allowed own s ds css = allowed_got own s ds css (query_id D s ds.id)

  abbrev pub failure_got : D.State → ConvergenceSender → Got → D.State
  failure_got s cs (found bi) =
      (update_item D s
        (with_sent (without_peer cs.peer (known_sent bi.properties.epidemic_sent)) bi)).0
  failure_got s cs not_found = s
  failure_got s cs broken = s

  -- `ReportFailure`.
  unfoldable pub report_failure : D.State → BundleDescriptor → ConvergenceSender → D.State
  unfolding query_id update_item without_peer
  report_failure s ds cs = failure_got s cs (query_id D s ds.id)

  -- `EpidemicRouting` as an algorithm.
  abbrev pub epidemic_routing : (EndpointId → Bool) → List ConvergenceSender → Algorithm D
  epidemic_routing own peers = record {
    State = Unit {0};
    notify_new_bundle = λ s ds b. (do t ← notify_new_bundle s.1 ds b; ok (s.0, t));
    dispatching_allowed = λ s ds. let r = dispatching_allowed own s.1 ds peers in (r.0, s.0, r.1);
    sender_for_bundle =
        λ s ds css. let r = clas_for_bundle s.1 ds true css in ((r.0, false), s.0, r.1);
    report_failure = λ s ds b cs. (s.0, report_failure s.1 ds cs);
  }
