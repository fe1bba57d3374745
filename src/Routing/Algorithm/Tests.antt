-- ===== src/Routing/Algorithm/Tests.antt =====
-- Runs of the routing algorithms.
use dtn7_gold.Prelude.{ℕ, ◌≡◌, refl, arith, true, false, some, List, [], ◌∷◌, ◌++◌, map}
use dtn7_gold.Prelude.Int.{pos}
use dtn7_gold.Bpv7.Endpoint.{EndpointId, ipn}
use dtn7_gold.Bpv7.Bundle.{ok, Bundle, BundleId, id, scrub}
use dtn7_gold.Storage.{Disk, HasItem, new_bundle_item}
use dtn7_gold.Storage.Memory.{Memory, memory_disk, memory_disk-IsWorking}
use dtn7_gold.Routing.Constraints.{no_constraints}
use dtn7_gold.Routing.Descriptor.{BundleDescriptor}
use dtn7_gold.Routing.Algorithm.{ConvergenceSender, known_sent, filter_clas}
use dtn7_gold.Routing.Algorithm.Filter.{firsts, unsent, filter_clas-unsent}
use dtn7_gold.Routing.Algorithm.Spray.{
  SprayAndWait, new_spray_and_wait, notify_new_bundle, originated, sender_for_bundle,
}
use dtn7_gold.Routing.Algorithm.Spray.Run.{SprayRun, IsAccounted, notify_new_bundle-IsAccounted}
use dtn7_gold.Routing.Algorithm.Epidemic.{clas_for_bundle}
use dtn7_gold.Routing.Algorithm.Epidemic.Once.{clas_for_bundle-again}

abbrev node : ℕ → EndpointId
node n = ipn (record { node = n; service = 1 })

abbrev sender : ℕ → ConvergenceSender
sender n = record { number = n; peer = node n }

abbrev senders : List ConvergenceSender
senders = sender 3 ∷ sender 4 ∷ sender 3 ∷ sender 5 ∷ []

abbrev bundle : Bundle
bundle = record {
  primary_block = record {
    version = 7;
    bundle_control_flags = 0;
    crc_type = 2;
    destination = node 9;
    source_node = node 1;
    report_to = node 1;
    creation_timestamp = record { dtn_time = 1000; sequence_number = 5 };
    lifetime = 60000;
    fragment_offset = 0;
    total_data_length = 0;
  };
  canonical_blocks = [];
}

abbrev descriptor : BundleDescriptor
descriptor = record {
  id = id bundle;
  receiver = node 1;
  timestamp = pos 0;
  constraints = no_constraints;
}

filter_clas-unsent_example : filter_clas (some (node 4 ∷ [])) senders ≡ (
  unsent (known_sent (some (node 4 ∷ []))) (firsts [] senders),
  known_sent (some (node 4 ∷ []))
      ++ map (λ cs. cs.peer) (unsent (known_sent (some (node 4 ∷ []))) (firsts [] senders)),
)
filter_clas-unsent_example = filter_clas-unsent (some (node 4 ∷ [])) senders

abbrev own : SprayAndWait
own = originated (new_spray_and_wait 3) descriptor

abbrev sprayed : SprayAndWait
sprayed = (sender_for_bundle own descriptor senders).1

abbrev rounds : SprayRun descriptor own sprayed
rounds =
    SprayRun.next SprayRun.here (dtn7_gold.Routing.Algorithm.Spray.Run.SprayStep.select own senders)

notify_new_bundle-IsAccounted_example :
    (notify_new_bundle true (new_spray_and_wait 3) descriptor bundle
      ≡ ok (originated (new_spray_and_wait 3) descriptor))
    × IsAccounted 3 descriptor sprayed
unfolding new_spray_and_wait
notify_new_bundle-IsAccounted_example =
    notify_new_bundle-IsAccounted (new_spray_and_wait 3) sprayed descriptor bundle (omega arith)
      (omega arith) rounds

abbrev disk : Disk
disk = memory_disk (λ bid. 0)

abbrev memory : Memory
memory = record {
  entries = (scrub (id bundle), some (new_bundle_item disk bundle)) ∷ [];
  files = [];
}

item-stored : HasItem disk memory (scrub descriptor.id)
unfolding dtn7_gold.Bpv7.Bundle.scrub dtn7_gold.Storage.same_key
    dtn7_gold.Bpv7.Endpoint.same_endpoint dtn7_gold.Bpv7.Bundle.id dtn7_gold.Storage.new_bundle_item
item-stored = (new_bundle_item disk bundle, refl, refl)

clas_for_bundle-again_example :
    (clas_for_bundle disk
      (clas_for_bundle disk memory descriptor true senders).1
      descriptor
      false
      senders).0
    ≡ []
clas_for_bundle-again_example =
    clas_for_bundle-again disk memory descriptor senders false (memory_disk-IsWorking _) item-stored
