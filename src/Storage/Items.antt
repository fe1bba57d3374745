-- ===== src/Storage/Items.antt =====
-- How the items of a working disk change.
use dtn7_gold.Prelude.{◌≡◌, refl, ◌∙◌, ap, true, List, [], ◌∷◌, Bool-cases, inl, inr, if◌then◌else◌}
use dtn7_gold.Bpv7.Bundle.{BundleId, scrub}
use dtn7_gold.Storage.{
  BundlePart, BundleItem, found, not_found, same_key, Disk, IsWorking, HasItem, KeepsItems,
  query_id, update_item, remove_parts, delete_item,
}

pub KeepsItems-self : (D : Disk) (s : D.State) → KeepsItems D s s
KeepsItems-self D s k h = h

pub KeepsItems-trans :
    (D : Disk) (s t u : D.State) → KeepsItems D s t → KeepsItems D t u → KeepsItems D s u
KeepsItems-trans D s t u f g k h = g k (f k h)

module _ (D : Disk) (works : IsWorking D) where
  -- The item is replaced by one with the same ID.
  pub get-update_item :
      (s : D.State) (k j : BundleId) (i new : BundleItem)
      → D.get s k ≡ found i
      → same_key i.b_id k ≡ true
      → new.b_id ≡ i.b_id
      → D.get (update_item D s new).0 j ≡ (if same_key i.b_id j then found new else D.get s j)
  unfolding update_item
  get-update_item s k j i new h same e =
      let there : D.get s new.b_id ≡ found i =
        ap (D.get s) e ∙ works.get_same s i.b_id k same ∙ h in
      works.get-update s new.b_id j new i there
      ∙ ap (λ b. if same_key b j then found new else D.get s j) e

  pub update_item-KeepsItems :
      (s : D.State) (k : BundleId) (i new : BundleItem)
      → D.get s k ≡ found i
      → same_key i.b_id k ≡ true
      → new.b_id ≡ i.b_id
      → KeepsItems D s (update_item D s new).0
  update_item-KeepsItems s k i new h same e j old = elim (Bool-cases (same_key i.b_id j)) [
    | inl here ↦ (
      new,
      get-update_item s k j i new h same e ∙ ap (λ t. if t then found new else D.get s j) here,
      ap (λ b. same_key b j) e ∙ here,
    )
    | inr other ↦ (
      old.0,
      get-update_item s k j i new h same e
          ∙ ap (λ t. if t then found new else D.get s j) other
          ∙ old.1,
      old.2,
    )
  ]

  get-remove_parts :
      (s : D.State) (ps : List BundlePart) (j : BundleId)
      → D.get (remove_parts D s ps) j ≡ D.get s j
  get-remove_parts s [] j = refl
  get-remove_parts s (p ∷ ps) j =
      get-remove_parts (D.remove s p.filename).0 ps j ∙ works.get-remove s p.filename j

  -- Behind `Delete` the item is not found.
  pub get-delete_item :
      (s : D.State) (bid : BundleId)
      → HasItem D s (scrub bid)
      → D.get (delete_item D s bid).0 (scrub bid) ≡ not_found
  unfolding delete_item query_id
  get-delete_item s bid (i, h, same) =
      rw h (works.get-delete (remove_parts D s i.parts) i.b_id (scrub bid) ∙ rw same)
