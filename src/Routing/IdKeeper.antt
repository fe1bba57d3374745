-- ===== src/Routing/IdKeeper.antt =====
-- pkg/routing/id_keeper.go: the sequence numbers of the bundles that a node sends. The Go map is a
-- list of its writes, the newest first.
pub mod Numbers
use dtn7_gold.Prelude.{
  ℕ, ◌+◌, ◌-◌, ◌%◌, ◌^◌, Bool, true, false, ◌&&◌, Option, none, some, List, [], ◌∷◌, ◌==◌, ltb,
  if◌then◌else◌,
}
use dtn7_gold.Bpv7.Endpoint.{EndpointId, same_endpoint}
use dtn7_gold.Bpv7.Blocks.{CreationTimestamp, PrimaryBlock}
use dtn7_gold.Bpv7.Bundle.{Bundle, BundleId}

pub record IdTuple : Type 0 where
  pub source : EndpointId
  pub time : ℕ

unfoldable pub new_id_tuple : Bundle → IdTuple
new_id_tuple b = record {
  source = b.primary_block.source_node;
  time = b.primary_block.creation_timestamp.dtn_time;
}

unfoldable pub same_tuple : IdTuple → IdTuple → Bool
same_tuple a b = same_endpoint a.source b.source && a.time == b.time

abbrev pub IdKeeper : Type 0
IdKeeper = List (IdTuple × ℕ)

abbrev pub new_id_keeper : IdKeeper
new_id_keeper = []

unfoldable pub lookup : IdTuple → IdKeeper → Option ℕ
unfolding same_tuple
lookup tpl [] = none
lookup tpl (entry ∷ k) =
    let rest = lookup tpl k in if same_tuple entry.0 tpl then some entry.1 else rest

-- The number after the last one; it is a uint64.
abbrev pub next_number : Option ℕ → ℕ
next_number none = 0
next_number (some state) = (state + 1) % 2 ^ 64

abbrev pub with_number : ℕ → Bundle → Bundle
with_number n b =
    let pb = b.primary_block in
    let ct = pb.creation_timestamp in
    record b {
      primary_block = record pb { creation_timestamp = record ct { sequence_number = n } };
    }

abbrev pub with_id_number : ℕ → BundleId → BundleId
with_id_number n bid =
    let ct = bid.timestamp in record bid { timestamp = record ct { sequence_number = n } }

-- `update` of the bundle and of the ID in its descriptor.
unfoldable pub update_id : IdKeeper → Bundle → BundleId → IdKeeper × Bundle × BundleId
unfolding new_id_tuple lookup
update_id k b bid =
    let tpl = new_id_tuple b in
    let n = next_number (lookup tpl k) in ((tpl, n) ∷ k, with_number n b, with_id_number n bid)

-- `Clean` at the DTN time `now`; the subtraction is a uint64's.
unfoldable pub clean : ℕ → IdKeeper → IdKeeper
clean now [] = []
clean now (entry ∷ k) =
    let rest = clean now k in
    if ltb entry.0.time ((now + 2 ^ 64 - 60) % 2 ^ 64) then rest else entry ∷ rest
