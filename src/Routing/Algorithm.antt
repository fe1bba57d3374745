-- ===== src/Routing/Algorithm.antt =====
-- pkg/routing/algorithm.go: what the core asks of a routing algorithm, and the senders that did not get a
-- bundle yet. An algorithm may read and write the store; a law says what the core relies on.
pub mod Filter
pub mod Epidemic
pub mod Spray
pub mod Tame
pub mod Notified
pub mod Tests
use dtn7_gold.Prelude.{
  ℕ, ◌≡◌, Bool, true, false, Option, none, some, List, [], ◌∷◌, ◌++◌, if◌then◌else◌,
}
use dtn7_gold.Bpv7.Endpoint.{EndpointId, same_endpoint}
use dtn7_gold.Bpv7.Blocks.{ExtensionBlock, previous_node_block}
use dtn7_gold.Bpv7.Bundle.{Bundle, Result, ok, err, type_panic, scrub}
use dtn7_gold.Bpv7.Typed.{IsTyped}
use dtn7_gold.Storage.{Disk, HasItem, KeepsItems}
use dtn7_gold.Routing.Descriptor.{BundleDescriptor}

-- A `cla.ConvergenceSender`, with what `GetPeerEndpointID` gives.
pub record ConvergenceSender : Type 0 where
  pub number : ℕ
  pub peer : EndpointId

-- `Algorithm`. The senders are none where the slice is nil.
pub record Algorithm (D : Disk) : Type 1 where
  pub State : Type 0
  -- A type assertion that does not hold panics.
  pub notify_new_bundle : State × D.State → BundleDescriptor → Bundle → Result (State × D.State)
  pub dispatching_allowed : State × D.State → BundleDescriptor → Bool × State × D.State
  pub sender_for_bundle :
      State × D.State
      → BundleDescriptor
      → List ConvergenceSender
      → (List ConvergenceSender × Bool) × State × D.State
  pub report_failure :
      State × D.State → BundleDescriptor → Bundle → ConvergenceSender → State × D.State

-- For a bundle that is stored, every item of the store is still there.
pub record IsTame {D : Disk} (A : Algorithm D) : Type 0 where
  pub notify :
      (s : A.State) (d : D.State) (ds : BundleDescriptor) (b : Bundle) (t : A.State × D.State)
      → HasItem D d (scrub ds.id)
      → A.notify_new_bundle (s, d) ds b ≡ ok t
      → KeepsItems D d t.1
  pub allowed :
      (s : A.State) (d : D.State) (ds : BundleDescriptor)
      → HasItem D d (scrub ds.id)
      → KeepsItems D d (A.dispatching_allowed (s, d) ds).2
  pub senders :
      (s : A.State) (d : D.State) (ds : BundleDescriptor) (css : List ConvergenceSender)
      → HasItem D d (scrub ds.id)
      → KeepsItems D d (A.sender_for_bundle (s, d) ds css).2
  pub failure :
      (s : A.State) (d : D.State) (ds : BundleDescriptor) (b : Bundle) (cs : ConvergenceSender)
      → HasItem D d (scrub ds.id)
      → KeepsItems D d (A.report_failure (s, d) ds b cs).1

-- A bundle whose blocks have the types of their codes is no panic.
abbrev pub NotifiesTyped : {D : Disk} → Algorithm D → Type 0
NotifiesTyped {D} A =
    (s : A.State × D.State) (ds : BundleDescriptor) (b : Bundle)
    → IsTyped b
    → (t : A.State × D.State) × (A.notify_new_bundle s ds b ≡ ok t)

-- `Value.(*PreviousNodeBlock).Endpoint()`.
abbrev pub previous_endpoint : ExtensionBlock → Result EndpointId
previous_endpoint (previous_node_block e) = ok e
previous_endpoint other = err type_panic

-- The loop over the nodes that have the bundle.
unfoldable pub is_sent : EndpointId → List EndpointId → Bool
is_sent e [] = false
is_sent e (x ∷ xs) = if same_endpoint e x then true else is_sent e xs

abbrev pub known_sent : Option (List EndpointId) → List EndpointId
known_sent none = []
known_sent (some eids) = eids

unfoldable pub filter_loop :
    List ConvergenceSender → List EndpointId → List ConvergenceSender × List EndpointId
unfolding is_sent
filter_loop [] sent = ([], sent)
filter_loop (cs ∷ css) sent =
    let skipped = filter_loop css sent in
    let taken = filter_loop css (sent ++ cs.peer ∷ []) in
    if is_sent cs.peer sent then skipped else (cs ∷ taken.0, taken.1)

-- `filterCLAs`, of what the item has under the key of the algorithm.
unfoldable pub filter_clas :
    Option (List EndpointId) → List ConvergenceSender → List ConvergenceSender × List EndpointId
unfolding filter_loop
filter_clas property clas = filter_loop clas (known_sent property)

-- The node is taken out of the list, where it stands first.
unfoldable pub without_peer : EndpointId → List EndpointId → List EndpointId
without_peer e [] = []
without_peer e (x ∷ xs) = let rest = without_peer e xs in if same_endpoint x e then xs else x ∷ rest
