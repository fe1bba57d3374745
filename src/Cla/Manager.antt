-- ===== src/Cla/Manager.antt =====
-- pkg/cla/manager.go and manager_elem.go: the manager that starts, restarts and stops convergence
-- layers. The map of elements is a list in the order of `Range`; the keys are the addresses, as numbers.
-- What a convergence layer's `Start` gives is an input of each event.
pub mod Elements
pub mod Sound
pub mod Retries
pub mod Lost
use dtn7_gold.Prelude.{
  ℕ, zero, suc, Bool, true, false, not, ◌&&◌, List, [], ◌∷◌, ◌++◌, Option, none, some, ◌==◌,
  if◌then◌else◌,
}
use dtn7_gold.Prelude.Int.{ℤ, pos, negsuc}

-- A `Convergence`: an instance behind an interface, with the endpoint IDs that `asSender` and `asReceiver` give.
pub record Convergence : Type 0 where
  pub instance_id : ℕ
  pub address : ℕ
  pub is_permanent : Bool
  pub peer_endpoint : Option ℕ
  pub own_endpoint : Option ℕ

pub data Start : Type 0 where
  started : Start
  failed : Bool → Start

-- `convergenceElem`; `handling` says that its channels are made and its handler runs.
pub record Elem : Type 0 where
  pub conv : Convergence
  pub ttl : ℤ
  pub handling : Bool

abbrev pub new_convergence_element : Convergence → ℕ → Elem
new_convergence_element conv ttl = record { conv = conv; ttl = pos ttl; handling = false }

abbrev pub is_negative : ℤ → Bool
is_negative (pos n) = false
is_negative (negsuc n) = true

unfoldable pub is_active : Elem → Bool
is_active ce = is_negative ce.ttl

abbrev pub is_zero : ℤ → Bool
is_zero (pos zero) = true
is_zero (pos (suc n)) = false
is_zero (negsuc n) = false

-- `atomic.AddInt32(&ce.ttl, -1)`.
abbrev pub decremented : ℤ → ℤ
decremented (pos zero) = negsuc zero
decremented (pos (suc n)) = pos n
decremented (negsuc n) = negsuc (suc n)

pub record Activation : Type 0 where
  pub elem : Elem
  pub successful : Bool
  pub retry : Bool

abbrev pub after_start : Elem → Start → Activation
after_start ce started = record {
  elem = record ce { ttl = negsuc zero; handling = true };
  successful = true;
  retry = false;
}
after_start ce (failed again) = record {
  elem = record ce { ttl = if again then decremented ce.ttl else pos 0 };
  successful = false;
  retry = again;
}

-- `activate`.
unfoldable pub activate : Start → Elem → Activation
unfolding is_active
activate start ce =
    if is_active ce
    then record { elem = ce; successful = false; retry = false }
    else if is_zero ce.ttl && not ce.conv.is_permanent
    then record { elem = ce; successful = false; retry = false }
    else after_start ce start

-- `deactivate`; closing channels that were never made panics, which is none.
unfoldable pub deactivate : ℕ → Elem → Option Elem
unfolding is_active
deactivate ttl ce =
    if is_active ce
    then (if ce.handling then some (record ce { ttl = pos ttl; handling = false }) else none)
    else some ce

pub record Manager : Type 0 where
  pub queue_ttl : ℕ
  pub convs : List Elem
  pub providers : List ℕ
  pub stop_flag : Bool
  pub out : List ℕ

unfoldable pub new_manager : Manager
new_manager = record { queue_ttl = 10; convs = []; providers = []; stop_flag = false; out = [] }

abbrev pub load : ℕ → List Elem → Option Elem
load address [] = none
load address (ce ∷ ces) =
    let later = load address ces in if ce.conv.address == address then some ce else later

abbrev pub delete : ℕ → List Elem → List Elem
delete address [] = []
delete address (ce ∷ ces) =
    let later = delete address ces in if ce.conv.address == address then later else ce ∷ later

-- A new value for the address of the element.
abbrev pub store_elem : Elem → List Elem → List Elem
store_elem ce ces = delete ce.conv.address ces ++ ce ∷ []

abbrev pub same_peer : Option ℕ → Option ℕ → Bool
same_peer (some a) (some b) = a == b
same_peer other another = false

-- The sender's peer is the endpoint of an active receiver.
unfoldable pub known_peer : Option ℕ → List Elem → Bool
unfolding is_active
known_peer peer [] = false
known_peer peer (ce ∷ ces) =
    let later = known_peer peer ces in
    if is_active ce && same_peer ce.conv.own_endpoint peer then true else later

-- The element is shared with the map if it came from there, and stored there otherwise unless it must not be retried.
abbrev pub registered : Bool → Activation → List Elem → List Elem
registered from_map a ces =
    if not a.successful && not a.retry
    then (if from_map then store_elem a.elem ces else ces)
    else store_elem a.elem ces

abbrev pub register_element : Start → Bool → Elem → Manager → Manager
register_element start from_map ce m =
    if known_peer ce.conv.peer_endpoint m.convs
    then m
    else record m { convs = registered from_map (activate start ce) m.convs }

abbrev pub register_loaded : Start → Convergence → Option Elem → Manager → Manager
register_loaded start conv none m =
    register_element start false (new_convergence_element conv m.queue_ttl) m
register_loaded start conv (some ce) m =
    if is_active ce then m else register_element start true ce m

-- `registerConvergence`.
unfoldable pub register_convergence : Start → Convergence → Manager → Manager
unfolding activate known_peer
register_convergence start conv m = register_loaded start conv (load conv.address m.convs) m

abbrev pub has_provider : ℕ → List ℕ → Bool
has_provider p [] = false
has_provider p (q ∷ qs) = let later = has_provider p qs in if p == q then true else later

unfoldable pub register_provider : ℕ → Manager → Manager
register_provider p m =
    if has_provider p m.providers then m else record m { providers = m.providers ++ p ∷ [] }

abbrev pub without_provider : ℕ → List ℕ → List ℕ
without_provider p [] = []
without_provider p (q ∷ qs) = let later = without_provider p qs in if p == q then qs else q ∷ later

unfoldable pub unregister_provider : ℕ → Manager → Manager
unregister_provider p m = record m { providers = without_provider p m.providers }

abbrev pub deleted : Manager → ℕ → Option Elem → Option Manager
deleted m address none = none
deleted m address (some ce) = some (record m { convs = delete address m.convs })

abbrev pub unregister_loaded : Convergence → Option Elem → Manager → Option Manager
unregister_loaded conv none m = some m
unregister_loaded conv (some ce) m =
    if ce.conv.instance_id == conv.instance_id
    then deleted m conv.address (deactivate m.queue_ttl ce)
    else some m

-- `unregisterConvergence`; none is a panic.
unfoldable pub unregister_convergence : Convergence → Manager → Option Manager
unfolding deactivate
unregister_convergence conv m = unregister_loaded conv (load conv.address m.convs) m

pub data Convergable : Type 0 where
  convergence : Convergence → Convergable
  provider : ℕ → Convergable

abbrev pub register_any : Start → Convergable → Manager → Manager
register_any start (convergence conv) m = register_convergence start conv m
register_any start (provider p) m = register_provider p m

unfoldable pub register : Start → Convergable → Manager → Manager
unfolding register_convergence register_provider
register start c m = if m.stop_flag then m else register_any start c m

unfoldable pub unregister : Convergable → Manager → Option Manager
unfolding unregister_convergence unregister_provider
unregister (convergence conv) m = unregister_convergence conv m
unregister (provider p) m = some (unregister_provider p m)

abbrev pub map_manager : (Manager → Manager) → Option Manager → Option Manager
map_manager f none = none
map_manager f (some m) = some (f m)

-- `Restart`.
unfoldable pub restart : Start → Convergable → Manager → Option Manager
unfolding register unregister
restart start c m = map_manager (register start c) (unregister c m)

-- The ticker's round over one element, which it may delete.
abbrev pub tick_elem : (Convergence → Start) → Elem → List Elem
tick_elem starts ce =
    if is_active ce
    then ce ∷ []
    else (let a = activate (starts ce.conv) ce in
        if not a.successful && not a.retry then [] else a.elem ∷ [])

unfoldable pub tick : (Convergence → Start) → List Elem → List Elem
unfolding activate is_active
tick starts [] = []
tick starts (ce ∷ ces) = tick_elem starts ce ++ tick starts ces

-- `Range` over the elements at the stop.
unfoldable pub unregister_all : List Elem → Manager → Option Manager
unfolding unregister_convergence
unregister_all [] m = some m
unregister_all (ce ∷ ces) m = elim (unregister_convergence ce.conv m) [
  | some m' ↦ unregister_all ces m'
  | none ↦ none
]

pub data Event : Type 0 where
  registering restarting : Start → Convergable → Event
  unregistering : Convergable → Event
  -- A status of a convergence layer, by its number, and whether it is `PeerDisappeared`.
  peer_disappeared : Start → Convergable → ℕ → Event
  other_status : ℕ → Event
  ticked : (Convergence → Start) → Event
  closed : Event

abbrev pub forward : ℕ → Manager → Manager
forward status m = record m { out = m.out ++ status ∷ [] }

abbrev pub stopped : Manager → Manager
stopped m = record m { stop_flag = true }

-- The second `Close` closes a closed channel, as a status that comes after the first is sent on one. Both
-- panic, which is none.
abbrev pub if_open : Manager → Option Manager → Option Manager
if_open m next = if m.stop_flag then none else next

-- The cases of the handler, and the calls of the manager's users. There is no round of the ticker after a
-- closing.
unfoldable pub step : Event → Manager → Option Manager
unfolding register unregister restart tick unregister_all
step (registering start c) m = some (register start c m)
step (unregistering c) m = unregister c m
step (restarting start c) m = restart start c m
step (peer_disappeared start c status) m =
    if_open m (map_manager (forward status) (restart start c m))
step (other_status status) m = if_open m (some (forward status m))
step (ticked starts) m = some (record m { convs = tick starts m.convs })
step closed m = if_open m (unregister_all m.convs (stopped m))

unfoldable pub run : List Event → Manager → Option Manager
unfolding step
run [] m = some m
run (e ∷ es) m = elim (step e m) [ some m' ↦ run es m' | none ↦ none ]
