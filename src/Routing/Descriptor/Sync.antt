-- ===== src/Routing/Descriptor/Sync.antt =====
-- What `Sync` writes, and what a new descriptor reads of it.
use dtn7_gold.Prelude.{◌≡◌, refl, ◌∙◌, true, false}
use dtn7_gold.Prelude.Int.{ℤ}
use dtn7_gold.Bpv7.Bundle.{Bundle, scrub}
use dtn7_gold.Storage.{found, not_found, Disk, IsWorking, HasItem, KeepsItems, query_id}
use dtn7_gold.Storage.Items.{get-update_item, update_item-KeepsItems, get-delete_item}
use dtn7_gold.Routing.Constraints.{are_empty}
use dtn7_gold.Routing.Descriptor.{BundleDescriptor, synced_item, sync, new_bundle_descriptor}

module _ (D : Disk) (works : IsWorking D) (s : D.State) (ds : BundleDescriptor) (b : Bundle) where
  -- A descriptor with constraints is written into its item.
  pub get-sync :
      (item : HasItem D s (scrub ds.id))
      → are_empty ds.constraints ≡ false
      → D.get (sync D s ds b).0 (scrub ds.id) ≡ found (synced_item ds item.0)
  unfolding sync query_id scrub synced_item
  get-sync (i, h, same) some_left =
      rw (h, some_left)
        (get-update_item D works s (scrub ds.id) (scrub ds.id) i (synced_item ds i) h same refl
          ∙ rw same)

  pub sync-KeepsItems :
      HasItem D s (scrub ds.id)
      → are_empty ds.constraints ≡ false
      → KeepsItems D s (sync D s ds b).0
  unfolding sync query_id scrub synced_item
  sync-KeepsItems (i, h, same) some_left =
      rw (h, some_left)
        (update_item-KeepsItems D works s (scrub ds.id) i (synced_item ds i) h same refl)

  -- One without constraints is deleted.
  pub get-sync_empty :
      HasItem D s (scrub ds.id)
      → are_empty ds.constraints ≡ true
      → D.get (sync D s ds b).0 (scrub ds.id) ≡ not_found
  unfolding sync query_id scrub
  get-sync_empty (i, h, same) none_left =
      rw (h, none_left) (get-delete_item D works s ds.id (i, h, same))

  -- A descriptor with constraints whose bundle is stored is what a new descriptor of its ID reads after
  -- `Sync`, at any time.
  pub new_bundle_descriptor-sync :
      (now : ℤ)
      → HasItem D s (scrub ds.id)
      → are_empty ds.constraints ≡ false
      → new_bundle_descriptor D now (sync D s ds b).0 ds.id ≡ ds
  unfolding new_bundle_descriptor query_id scrub synced_item
  new_bundle_descriptor-sync now item some_left = rw (get-sync item some_left)
