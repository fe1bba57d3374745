-- ===== src/Routing/Processing.antt =====
-- pkg/routing/processing.go, and of core.go `HasEndpoint`, `senderForDestination` and `CheckPendingBundles`:
-- what a node does with a bundle. The goroutines that send a bundle run one after the other here. What a
-- send gives, the clock and the endpoints of agents and listeners are inputs.
pub mod Steps
pub mod Reception
pub mod Sending
pub mod Foreign
pub mod Typed
pub mod Retention
pub mod Removal
pub mod Known
pub mod Tests
use dtn7_gold.Prelude.{
  ℕ, ◌/◌, Bool, true, false, ◌||◌, Option, none, some, List, [], ◌∷◌, ◌==◌, leb, if◌then◌else◌,
}
use dtn7_gold.Prelude.Int.{ℤ}
use dtn7_gold.Bpv7.Endpoint.{EndpointId, same_node}
use dtn7_gold.Bpv7.Blocks.{
  HopCountBlock, ExtensionBlock, previous_node_block, bundle_age_block, hop_count_block,
  previous_node_type, bundle_age_type, hop_count_type, type_code, CanonicalBlock,
  new_canonical_block, is_exceeded,
}
use dtn7_gold.Bpv7.Hops.{increment, decrement, increment_age}
use dtn7_gold.Bpv7.StatusReport.{StatusReport}
use dtn7_gold.Bpv7.Bundle.{
  Result, ok, err, type_panic, ◌>>=◌, Bundle, extension_block, add_extension_block,
}
use dtn7_gold.Storage.{Disk}
use dtn7_gold.Routing.Descriptor.{BundleDescriptor}
use dtn7_gold.Routing.Algorithm.{ConvergenceSender, Algorithm}

-- Status report reasons (administrative_record_status_report.go) and flags of blocks
-- (block_control_flags.go).
abbrev pub no_information : ℕ
no_information = 0

abbrev pub lifetime_expired : ℕ
lifetime_expired = 1

abbrev pub hop_limit_exceeded : ℕ
hop_limit_exceeded = 9

abbrev pub block_unsupported : ℕ
block_unsupported = 11

abbrev pub received_bundle : ℕ
received_bundle = 0

abbrev pub forwarded_bundle : ℕ
forwarded_bundle = 1

abbrev pub delivered_bundle : ℕ
delivered_bundle = 2

abbrev pub deleted_bundle : ℕ
deleted_bundle = 3

abbrev pub delete_bundle : ℕ
delete_bundle = 4

abbrev pub remove_block : ℕ
remove_block = 16

-- What a step of the core reads and does not change.
pub record Node : Type 0 where
  pub node_id : EndpointId
  pub agent_endpoint : EndpointId → Bool
  pub listener_endpoint : EndpointId → Bool
  pub receivers : List EndpointId
  pub senders : List ConvergenceSender
  pub send : ConvergenceSender → Bundle → Bool
  pub now : ℤ
  -- `time.Since` of a timestamp, as a uint64 of nanoseconds.
  pub since : ℤ → ℕ
  pub known_type : ℕ → Bool

abbrev pub any_same : EndpointId → List EndpointId → Bool
any_same e [] = false
any_same e (x ∷ xs) = if same_node x e then true else any_same e xs

unfoldable pub has_endpoint : Node → EndpointId → Bool
unfolding same_node
has_endpoint n e =
    same_node n.node_id e
    || (n.agent_endpoint e || (n.listener_endpoint e || any_same e n.receivers))

unfoldable pub sender_for_destination : EndpointId → List ConvergenceSender → List ConvergenceSender
unfolding same_node
sender_for_destination e [] = []
sender_for_destination e (cs ∷ css) =
    let rest = sender_for_destination e css in if same_node cs.peer e then cs ∷ rest else rest

abbrev pub set_first : ℕ → ExtensionBlock → List CanonicalBlock → List CanonicalBlock
set_first code v [] = []
set_first code v (cb ∷ cbs) =
    let rest = set_first code v cbs in
    if type_code cb == code then record cb { value = v } ∷ cbs else cb ∷ rest

-- The value of the block of a type code, replaced.
unfoldable pub set_value : ℕ → ExtensionBlock → Bundle → Bundle
unfolding type_code
set_value code v b = record b { canonical_blocks = set_first code v b.canonical_blocks }

abbrev pub hop_of : ExtensionBlock → Result (Option HopCountBlock)
hop_of (hop_count_block h) = ok (some h)
hop_of other = err type_panic

abbrev pub hop_result : Result CanonicalBlock → Result (Option HopCountBlock)
hop_result (err e) = ok none
hop_result (ok cb) = hop_of cb.value

-- The hop count block, if there is exactly one.
unfoldable pub hop_block : Bundle → Result (Option HopCountBlock)
unfolding extension_block
hop_block b = hop_result (extension_block hop_count_type b)

abbrev pub age_of : ExtensionBlock → Result (Option ℕ)
age_of (bundle_age_block ms) = ok (some ms)
age_of other = err type_panic

abbrev pub age_result : Result CanonicalBlock → Result (Option ℕ)
age_result (err e) = ok none
age_result (ok cb) = age_of cb.value

unfoldable pub age_block : Bundle → Result (Option ℕ)
unfolding extension_block
age_block b = age_result (extension_block bundle_age_type b)

-- One more hop, and whether the limit is exceeded then.
abbrev pub counted : Option HopCountBlock → Bundle → Bundle × Bool
counted none b = (b, false)
counted (some h) b =
    let r = increment h in (set_value hop_count_type (hop_count_block r.0) b, is_exceeded r.0)

unfoldable pub count_hop : Bundle → Result (Bundle × Bool)
unfolding hop_block increment set_value is_exceeded
count_hop b = do h ← hop_block b; ok (counted h b)

abbrev pub uncounted : Option HopCountBlock → Bundle → Bundle
uncounted none b = b
uncounted (some h) b = set_value hop_count_type (hop_count_block (decrement h)) b

unfoldable pub uncount_hop : Bundle → Result Bundle
unfolding hop_block decrement set_value
uncount_hop b = do h ← hop_block b; ok (uncounted h b)

-- `UpdateBundleAge` and the check of the age: the bundle then, and whether its lifetime is over.
abbrev pub aged : ℕ → Option ℕ → Bundle → Bundle × Bool
aged elapsed none b = (b, false)
aged elapsed (some ms) b =
    let age = increment_age ms (elapsed / 1000) in
    (set_value bundle_age_type (bundle_age_block age) b, leb b.primary_block.lifetime age)

unfoldable pub update_bundle_age : ℕ → Bundle → Result (Bundle × Bool)
unfolding age_block increment_age set_value
update_bundle_age elapsed b = do ms ← age_block b; ok (aged elapsed ms b)

abbrev pub replace_previous : EndpointId → Bundle → ExtensionBlock → Result Bundle
replace_previous e b (previous_node_block old) =
    ok (set_value previous_node_type (previous_node_block e) b)
replace_previous e b other = err type_panic

abbrev pub previous_over : EndpointId → Bundle → Result CanonicalBlock → Result Bundle
previous_over e b (err none_there) =
    ok (add_extension_block (new_canonical_block 0 0 (previous_node_block e)) b)
previous_over e b (ok cb) = replace_previous e b cb.value

-- The previous node block is replaced or added.
unfoldable pub set_previous_node : EndpointId → Bundle → Result Bundle
unfolding extension_block set_value add_extension_block new_canonical_block
set_previous_node e b = previous_over e b (extension_block previous_node_type b)

-- The changing state of a node, with the bundles that were sent and that were delivered to agents, the
-- newest first.
pub record World (D : Disk) (A : Algorithm D) : Type 0 where
  pub disk : D.State
  pub routing : A.State
  pub transmissions : List (ConvergenceSender × Bundle)
  pub deliveries : List Bundle

-- What the core of a node has besides its state. `send_status_report` stands for `SendStatusReport`, and
-- `read_record` for the reader of administrative records.
pub record Core {D : Disk} (A : Algorithm D) : Type 0 where
  pub node : Node
  pub inspect_all_bundles : Bool
  pub send_status_report : World D A → BundleDescriptor → Bundle → ℕ → ℕ → World D A
  pub read_record : List ℕ → Option StatusReport
