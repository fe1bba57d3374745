-- ===== src/Routing/Processing/Tests.antt =====
-- Runs of a node on a disk in memory.
use dtn7_gold.Prelude.{ℕ, ◌≡◌, refl, inl, true, false, Option, none, List, [], ◌∷◌}
use dtn7_gold.Prelude.Int.{pos}
use dtn7_gold.Bpv7.Endpoint.{EndpointId, ipn}
use dtn7_gold.Bpv7.Blocks.{payload_block, hop_count_block}
use dtn7_gold.Bpv7.StatusReport.{StatusReport}
use dtn7_gold.Bpv7.Bundle.{ok, Bundle, id, scrub}
use dtn7_gold.Bpv7.Validity.{is_lifetime_exceeded}
use dtn7_gold.Storage.{Disk, HasItem, BundleItem, no_properties, found, not_found, new_bundle_item}
use dtn7_gold.Storage.Memory.{Memory, memory_disk, memory_disk-IsWorking}
use dtn7_gold.Routing.Constraints.{Constraints, no_constraints, is_pending}
use dtn7_gold.Routing.Descriptor.{BundleDescriptor, new_bundle_descriptor, sync}
use dtn7_gold.Routing.Descriptor.Sync.{new_bundle_descriptor-sync}
use dtn7_gold.Routing.Algorithm.{Algorithm}
use dtn7_gold.Routing.Algorithm.Epidemic.{epidemic_routing}
use dtn7_gold.Routing.Algorithm.Notified.{epidemic_routing-NotifiesTyped}
use dtn7_gold.Routing.Algorithm.Tame.{epidemic_routing-IsTame}
use dtn7_gold.Routing.Processing.{Node, Core, World, count_hop, update_bundle_age}
use dtn7_gold.Routing.Processing.Steps.{forward}
use dtn7_gold.Routing.Processing.Reception.{handle_received_bundle}
use dtn7_gold.Routing.IdKeeper.{new_id_keeper}
use dtn7_gold.Bpv7.Blocks.{ExtensionBlock}
use dtn7_gold.Routing.Processing.Sending.{is_foreign, send_bundle}
use dtn7_gold.Routing.Processing.Foreign.{send_bundle-foreign}
use dtn7_gold.Routing.Processing.Known.{handle_received_bundle-known}
use dtn7_gold.Routing.Processing.Retention.{Waits, forward-Waits}
use dtn7_gold.Routing.Processing.Removal.{forward-over}

abbrev disk : Disk
disk = memory_disk (λ bid. bid.timestamp.sequence_number)

abbrev node : ℕ → EndpointId
node n = ipn (record { node = n; service = 1 })

abbrev bundle : ℕ → Bundle
bundle count = record {
  primary_block = record {
    version = 7;
    bundle_control_flags = 0;
    crc_type = 2;
    destination = node 9;
    source_node = node 2;
    report_to = node 2;
    creation_timestamp = record { dtn_time = 1000; sequence_number = 5 };
    lifetime = 60000;
    fragment_offset = 0;
    total_data_length = 0;
  };
  canonical_blocks =
      record {
        block_number = 2;
        block_control_flags = 0;
        crc_type = 0;
        value = hop_count_block (record { limit = 9; count = count });
      }
      ∷ record {
        block_number = 1;
        block_control_flags = 0;
        crc_type = 0;
        value = payload_block (7 ∷ 8 ∷ []);
      }
      ∷ [];
}

abbrev descriptor : BundleDescriptor
descriptor = record {
  id = id (bundle 3);
  receiver = node 1;
  timestamp = pos 0;
  constraints = record no_constraints { dispatch = true };
}

abbrev memory : Memory
memory = record {
  entries = (scrub (id (bundle 3)), Option.some (new_bundle_item disk (bundle 3))) ∷ [];
  files = [];
}

-- A node with one neighbour, which takes no bundle.
abbrev lonely : Node
lonely = record {
  node_id = node 1;
  agent_endpoint = λ e. false;
  listener_endpoint = λ e. false;
  receivers = [];
  senders = record { number = 0; peer = node 3 } ∷ [];
  send = λ cs b. false;
  now = pos 0;
  since = λ t. 0;
  known_type = λ code. true;
}

abbrev routing : Algorithm disk
routing = epidemic_routing disk (λ e. false) lonely.senders

abbrev world : World disk routing
world = record { disk = memory; routing = tt; transmissions = []; deliveries = [] }

abbrev no_report : World disk routing → BundleDescriptor → Bundle → ℕ → ℕ → World disk routing
no_report w ds b status reason = w

abbrev no_record : List ℕ → Option StatusReport
no_record bytes = none

abbrev lonely_core : Core routing
lonely_core = record {
  node = lonely;
  inspect_all_bundles = false;
  send_status_report = no_report;
  read_record = no_record;
}

item-stored : HasItem disk memory (scrub descriptor.id)
unfolding dtn7_gold.Bpv7.Bundle.scrub dtn7_gold.Storage.same_key
    dtn7_gold.Bpv7.Endpoint.same_endpoint dtn7_gold.Bpv7.Bundle.id dtn7_gold.Storage.new_bundle_item
item-stored = (new_bundle_item disk (bundle 3), refl, refl)

hop-counted : count_hop (bundle 3) ≡ ok (bundle 4, false)
unfolding count_hop dtn7_gold.Bpv7.Blocks.block_type_code
hop-counted = refl

hop-exceeded : count_hop (bundle 9) ≡ ok (bundle 10, true)
unfolding count_hop dtn7_gold.Bpv7.Blocks.block_type_code
hop-exceeded = refl

life-left : is_lifetime_exceeded lonely.now (bundle 4) ≡ ok false
unfolding is_lifetime_exceeded dtn7_gold.Bpv7.Blocks.is_zero_time
life-left = refl

no_age : update_bundle_age (lonely.since descriptor.timestamp) (bundle 4) ≡ ok (bundle 4, false)
unfolding update_bundle_age dtn7_gold.Bpv7.Blocks.block_type_code
no_age = refl

new_bundle_descriptor-sync_example :
    new_bundle_descriptor disk (pos 4) (sync disk memory descriptor (bundle 3)).0 descriptor.id
    ≡ descriptor
unfolding dtn7_gold.Routing.Constraints.are_empty
new_bundle_descriptor-sync_example =
    new_bundle_descriptor-sync disk (memory_disk-IsWorking _) memory descriptor (bundle 3) (pos 4)
      item-stored refl

forward-Waits_example :
    (w : World disk routing) × (forward lonely_core world descriptor (bundle 3) ≡ ok w)
    × Waits disk w.disk (scrub descriptor.id)
forward-Waits_example =
    forward-Waits disk (memory_disk-IsWorking _) routing
      (epidemic_routing-IsTame disk (memory_disk-IsWorking _) (λ e. false) lonely.senders)
      lonely_core world descriptor (bundle 3) (bundle 4) (bundle 4) item-stored refl (λ cs b. refl)
      hop-counted life-left no_age (refl, (refl, tt))

forward-over_example :
    (w : World disk routing) × (forward lonely_core world descriptor (bundle 9) ≡ ok w)
    × (disk.get w.disk (scrub descriptor.id) ≡ not_found)
forward-over_example =
    forward-over disk (memory_disk-IsWorking _) routing lonely_core (λ w ds b status reason k h. h)
      world descriptor (bundle 9) item-stored refl (bundle 10, inl hop-exceeded)

-- The item of a bundle that waits for a neighbour.
abbrev waiting : Constraints
waiting = record no_constraints { contra = true }

abbrev waiting_item : BundleItem
waiting_item = record (new_bundle_item disk (bundle 3)) {
  pending = true;
  properties = record no_properties { constraints = Option.some waiting };
}

abbrev waiting_world : World disk routing
waiting_world = record world {
  disk = record memory { entries = (scrub (id (bundle 3)), Option.some waiting_item) ∷ [] };
}

handle_received_bundle-known_example :
    (w : World disk routing) × (i : BundleItem) × (handle_received_bundle lonely_core waiting_world
        (bundle 3)
        (node 4)
      ≡ ok w)
    × (w.routing ≡ waiting_world.routing)
    × (w.transmissions ≡ waiting_world.transmissions)
    × (w.deliveries ≡ waiting_world.deliveries)
    × (disk.get w.disk (scrub (id (bundle 3))) ≡ found i)
    × (i.properties.constraints ≡ Option.some waiting)
    × (i.pending ≡ is_pending waiting)
unfolding dtn7_gold.Bpv7.Bundle.scrub dtn7_gold.Storage.same_key
    dtn7_gold.Bpv7.Endpoint.same_endpoint dtn7_gold.Bpv7.Bundle.id dtn7_gold.Storage.new_bundle_item
    dtn7_gold.Routing.Constraints.are_empty
handle_received_bundle-known_example =
    handle_received_bundle-known disk (memory_disk-IsWorking _) routing lonely_core waiting_world
      (bundle 3) (node 4) waiting_item waiting refl refl refl refl

-- Node 1 does not send a bundle of node 2.
bundle-foreign : is_foreign lonely_core (bundle 3) ≡ true
unfolding is_foreign dtn7_gold.Bpv7.Endpoint.same_endpoint dtn7_gold.Routing.Processing.has_endpoint
    dtn7_gold.Bpv7.Endpoint.same_node
bundle-foreign = refl

send_bundle-foreign_example :
    (w : World disk routing) × ((send_bundle lonely_core none new_id_keeper world (bundle 3)).1
      ≡ ok w)
    × (w.transmissions ≡ [])
    × (w.deliveries ≡ [])
unfolding dtn7_gold.Bpv7.Flags.has dtn7_gold.Routing.Processing.Sending.send_bundle_attach_signature
send_bundle-foreign_example =
    send_bundle-foreign lonely_core none new_id_keeper world (bundle 3)
      (epidemic_routing-NotifiesTyped disk (λ e. false) lonely.senders) (refl, (refl, tt))
      bundle-foreign refl
