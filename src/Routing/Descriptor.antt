-- ===== src/Routing/Descriptor.antt =====
-- pkg/routing/bundle_descriptor.go: what a node knows of a bundle besides its bytes. The pointer to the
-- bundle is an argument of the operations that follow it, and the store an argument of those that use it.
pub mod Sync
use dtn7_gold.Prelude.{ℕ, Bool, true, false, not, Option, none, some, List, [], ◌∷◌, if◌then◌else◌}
use dtn7_gold.Prelude.Int.{ℤ}
use dtn7_gold.Bpv7.Endpoint.{EndpointId, dtn_none}
use dtn7_gold.Bpv7.Bundle.{Bundle, BundleId, id, scrub}
use dtn7_gold.Routing.Constraints.{
  Constraint, Constraints, no_constraints, has_key, set_key, are_empty, purge, is_pending,
}
use dtn7_gold.Storage.{
  Disk, BundleItem, BundlePart, Properties, no_properties, Got, found, not_found, broken, query_id,
  push, update_item, delete_item,
}

pub record BundleDescriptor : Type 0 where
  pub id : BundleId
  pub receiver : EndpointId
  pub timestamp : ℤ
  pub constraints : Constraints

abbrev pub or_else {ℓ} : {A : Type ℓ} → Option A → A → A
or_else none a = a
or_else (some b) a = b

abbrev pub properties_of : Got → Properties
properties_of (found bi) = bi.properties
properties_of not_found = no_properties
properties_of broken = no_properties

-- What the item of the store says, over the defaults.
abbrev pub read_item : BundleDescriptor → Got → BundleDescriptor
read_item ds g =
    let p = properties_of g in
    record ds {
      receiver = or_else p.receiver ds.receiver;
      timestamp = or_else p.timestamp ds.timestamp;
      constraints = or_else p.constraints ds.constraints;
    }

-- `HasConstraint`, `AddConstraint` and `RemoveConstraint`.
unfoldable pub has_constraint : Constraint → BundleDescriptor → Bool
unfolding has_key
has_constraint c ds = has_key c ds.constraints

unfoldable pub add_constraint : Constraint → BundleDescriptor → BundleDescriptor
unfolding set_key
add_constraint c ds = record ds { constraints = set_key c true ds.constraints }

unfoldable pub remove_constraint : Constraint → BundleDescriptor → BundleDescriptor
unfolding set_key
remove_constraint c ds = record ds { constraints = set_key c false ds.constraints }

unfoldable pub purge_constraints : BundleDescriptor → BundleDescriptor
unfolding purge
purge_constraints ds = record ds { constraints = purge ds.constraints }

-- The item that `Sync` writes.
unfoldable pub synced_item : BundleDescriptor → BundleItem → BundleItem
unfolding is_pending
synced_item ds bi =
    let p = bi.properties in
    record bi {
      pending = is_pending ds.constraints;
      properties = record p {
        receiver = some ds.receiver;
        timestamp = some ds.timestamp;
        constraints = some ds.constraints;
      };
    }

module _ (D : Disk) where
  -- `NewBundleDescriptor` at the time `now`.
  unfoldable pub new_bundle_descriptor : ℤ → D.State → BundleId → BundleDescriptor
  unfolding query_id scrub
  new_bundle_descriptor now s bid =
      read_item
        (record { id = bid; receiver = dtn_none; timestamp = now; constraints = no_constraints })
        (query_id D s (scrub bid))

  abbrev pub sync_over : D.State → BundleDescriptor → Bundle → Got → D.State × Bool
  sync_over s ds b not_found = push D s b
  sync_over s ds b broken = (s, false)
  sync_over s ds b (found bi) =
      if are_empty ds.constraints
      then delete_item D s ds.id
      else update_item D s (synced_item ds bi)

  -- `Sync` of a descriptor whose bundle is loaded.
  unfoldable pub sync : D.State → BundleDescriptor → Bundle → D.State × Bool
  unfolding query_id scrub push delete_item update_item are_empty synced_item
  sync s ds b = sync_over s ds b (query_id D s (scrub ds.id))

  -- `NewBundleDescriptorFromBundle`.
  unfoldable pub new_bundle_descriptor_from_bundle :
      ℤ → D.State → Bundle → BundleDescriptor × D.State
  unfolding new_bundle_descriptor sync id
  new_bundle_descriptor_from_bundle now s b =
      let ds = new_bundle_descriptor now s (id b) in (ds, (sync s ds b).0)

  abbrev pub load_first : D.State → List BundlePart → Option Bundle
  load_first s [] = none
  load_first s (p ∷ ps) = D.read_bundle s p.filename

  abbrev pub load_got : D.State → Got → Option Bundle
  load_got s (found bi) = load_first s bi.parts
  load_got s not_found = none
  load_got s broken = none

  -- `Bundle` of a descriptor whose bundle is not loaded. An item has a part from the beginning.
  unfoldable pub load_bundle : D.State → BundleDescriptor → Option Bundle
  unfolding query_id scrub
  load_bundle s ds = load_got s (query_id D s (scrub ds.id))
