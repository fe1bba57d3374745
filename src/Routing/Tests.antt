-- ===== src/Routing/Tests.antt =====
-- Runs of pkg/routing on small bundles.
use dtn7_gold.Prelude.{ℕ, ◌≡◌, arith, [], ◌∷◌}
use dtn7_gold.Bpv7.Endpoint.{ipn}
use dtn7_gold.Bpv7.Bundle.{Bundle, id}
use dtn7_gold.Routing.IdKeeper.{IdKeeper, new_id_tuple, new_id_keeper, update_id, clean}
use dtn7_gold.Routing.IdKeeper.Numbers.{
  numbered, number_of, AllDiffer, new_id_keeper-AllDiffer, update_id-clean,
}

abbrev bundle_at : ℕ → Bundle
bundle_at time = record {
  primary_block = record {
    version = 7;
    bundle_control_flags = 0;
    crc_type = 2;
    destination = ipn (record { node = 1; service = 1 });
    source_node = ipn (record { node = 2; service = 1 });
    report_to = ipn (record { node = 2; service = 1 });
    creation_timestamp = record { dtn_time = time; sequence_number = 5 };
    lifetime = 60000;
    fragment_offset = 0;
    total_data_length = 0;
  };
  canonical_blocks = [];
}

new_id_keeper-AllDiffer_example :
    AllDiffer (numbered new_id_keeper (bundle_at 0 ∷ bundle_at 4 ∷ bundle_at 0 ∷ []))
new_id_keeper-AllDiffer_example =
    new_id_keeper-AllDiffer (bundle_at 0 ∷ bundle_at 4 ∷ bundle_at 0 ∷ []) (omega arith)

abbrev used : IdKeeper
used = (update_id new_id_keeper (bundle_at 0) (id (bundle_at 0))).0

update_id-clean_example :
    number_of (update_id (clean 1000 used) (bundle_at 0) (id (bundle_at 0))).1 ≡ 0
unfolding new_id_tuple
update_id-clean_example =
    update_id-clean 1000 used (bundle_at 0) (id (bundle_at 0)) (omega arith) (omega arith)
