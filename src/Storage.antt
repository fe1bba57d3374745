-- ===== src/Storage.antt =====
-- pkg/storage/store.go and bundle_item.go: the bundles that a node keeps. The database (badgerhold), the
-- files and the hash that names them are a record of functions; a Boolean says whether there was no error.

pub mod Items
pub mod Memory
use dtn7_gold.Prelude.{
  ℕ, ◌≡◌, Bool, true, false, not, ◌&&◌, ◌||◌, Option, none, some, List, [], ◌∷◌, ◌++◌, ◌==◌,
  if◌then◌else◌,
}
use dtn7_gold.Prelude.Int.{ℤ, pos, ◌+ℤ◌, ◌*ℤ◌, ltb_ℤ}
use dtn7_gold.Bpv7.Flags.{has, is_fragment}
use dtn7_gold.Bpv7.Endpoint.{EndpointId, same_endpoint}
use dtn7_gold.Bpv7.Bundle.{Bundle, BundleId, id, scrub}
use dtn7_gold.Bpv7.Validity.{unix_milliseconds, lifetime_duration}
use dtn7_gold.Routing.Constraints.{Constraints}

pub record BundlePart : Type 0 where
  pub filename : ℕ
  pub fragment_offset : ℕ
  pub total_data_length : ℕ

-- `Properties`: the values of the keys that the modelled code uses, with their types.
pub record Properties : Type 0 where
  pub receiver : Option EndpointId
  pub timestamp : Option ℤ
  pub constraints : Option Constraints
  pub epidemic_destination : Option EndpointId
  pub epidemic_sent : Option (List EndpointId)

abbrev pub no_properties : Properties
no_properties = record {
  receiver = none;
  timestamp = none;
  constraints = none;
  epidemic_destination = none;
  epidemic_sent = none;
}

-- The field `Id` is the scrubbed `BId`, printed.
pub record BundleItem : Type 0 where
  pub b_id : BundleId
  pub pending : Bool
  pub expires : ℤ
  pub fragmented : Bool
  pub parts : List BundlePart
  pub properties : Properties

-- What a query for a key gives.
pub data Got : Type 0 where
  found : BundleItem → Got
  not_found broken : Got

-- The keys are scrubbed IDs, printed.
unfoldable pub same_key : BundleId → BundleId → Bool
same_key a b =
    same_endpoint a.source_node b.source_node
    && (a.timestamp.dtn_time == b.timestamp.dtn_time
        && a.timestamp.sequence_number == b.timestamp.sequence_number)

pub record Disk : Type 1 where
  pub State : Type 0
  pub get : State → BundleId → Got
  pub insert : State → BundleId → BundleItem → State × Bool
  pub update : State → BundleId → BundleItem → State × Bool
  pub delete : State → BundleId → State × Bool
  pub find : State → (BundleItem → Bool) → Option (List BundleItem)
  pub part_path : BundleId → ℕ
  pub write_bundle : State → ℕ → Bundle → State × Bool
  pub read_bundle : State → ℕ → Option Bundle
  pub remove : State → ℕ → State × Bool

-- A disk without errors: an entry that is there can be replaced, one that is not can be inserted, and the
-- files are kept apart from the entries. IDs that print the same are the same key.
pub record IsWorking (D : Disk) : Type 0 where
  pub get_same : (s : D.State) (j k : BundleId) → same_key j k ≡ true → D.get s j ≡ D.get s k
  pub get-insert :
      (s : D.State) (k j : BundleId) (i : BundleItem)
      → D.get s k ≡ not_found
      → D.get (D.insert s k i).0 j ≡ (if same_key k j then found i else D.get s j)
  pub get-update :
      (s : D.State) (k j : BundleId) (i old : BundleItem)
      → D.get s k ≡ found old
      → D.get (D.update s k i).0 j ≡ (if same_key k j then found i else D.get s j)
  pub get-delete :
      (s : D.State) (k j : BundleId)
      → D.get (D.delete s k).0 j ≡ (if same_key k j then not_found else D.get s j)
  pub write_ok : (s : D.State) (n : ℕ) (b : Bundle) → (D.write_bundle s n b).1 ≡ true
  pub get-write :
      (s : D.State) (n : ℕ) (b : Bundle) (j : BundleId)
      → D.get (D.write_bundle s n b).0 j ≡ D.get s j
  pub get-remove : (s : D.State) (n : ℕ) (j : BundleId) → D.get (D.remove s n).0 j ≡ D.get s j

-- An item is stored under its own ID.
abbrev pub HasItem : (D : Disk) → D.State → BundleId → Type 0
HasItem D s k = (i : BundleItem) × (D.get s k ≡ found i) × (same_key i.b_id k ≡ true)

abbrev pub KeepsItems : (D : Disk) → D.State → D.State → Type 0
KeepsItems D s t = (k : BundleId) → HasItem D s k → HasItem D t k

-- `calcExpirationDate`.
unfoldable pub calc_expiration_date : Bundle → ℤ
unfolding unix_milliseconds lifetime_duration ◌+ℤ◌ ◌*ℤ◌
calc_expiration_date b =
    let pb = b.primary_block in
    unix_milliseconds pb.creation_timestamp.dtn_time *ℤ pos 1000000 +ℤ lifetime_duration pb.lifetime

module _ (D : Disk) where
  unfoldable pub new_bundle_part : BundleId → BundlePart
  new_bundle_part bid = record {
    filename = D.part_path bid;
    fragment_offset = bid.fragment_offset;
    total_data_length = bid.total_data_length;
  }

  unfoldable pub new_bundle_item : Bundle → BundleItem
  unfolding id scrub new_bundle_part calc_expiration_date has
  new_bundle_item b = record {
    b_id = scrub (id b);
    pending = false;
    expires = calc_expiration_date b;
    fragmented = has b.primary_block.bundle_control_flags is_fragment;
    parts = new_bundle_part (id b) ∷ [];
    properties = no_properties;
  }

  unfoldable pub query_id : D.State → BundleId → Got
  unfolding scrub
  query_id s bid = D.get s (scrub bid)

  abbrev pub is_known : Got → Bool
  is_known (found i) = true
  is_known not_found = false
  is_known broken = true

  unfoldable pub knows_bundle : D.State → BundleId → Bool
  unfolding query_id
  knows_bundle s bid = is_known (query_id s bid)

  abbrev pub known_fragment : BundlePart → List BundlePart → Bool
  known_fragment new [] = false
  known_fragment new (p ∷ ps) =
      p.fragment_offset == new.fragment_offset && p.total_data_length == new.total_data_length
      || known_fragment new ps

  -- A bundle that is written, and what is done then; an error ends it.
  abbrev pub if_stored : D.State × Bool → (D.State → D.State × Bool) → D.State × Bool
  if_stored (s, true) k = k s
  if_stored (s, false) k = (s, false)

  abbrev pub push_part : D.State → Bundle → BundleItem → BundleItem → D.State × Bool
  push_part s b item bi =
      let new = new_bundle_part (id b) in
      if not item.fragmented
      then (s, true)
      else if known_fragment new item.parts
      then (s, true)
      else if_stored (D.write_bundle s new.filename b)
          (λ t. D.update t item.b_id (record item { parts = item.parts ++ new ∷ [] }))

  abbrev pub push_new : D.State → Bundle → BundleItem → D.State × Bool
  push_new s b bi = if_stored (D.write_bundle s (D.part_path (id b)) b) (λ t. D.insert t bi.b_id bi)

  abbrev pub push_over : D.State → Bundle → BundleItem → Got → D.State × Bool
  push_over s b bi (found item) = if bi.fragmented then push_part s b item bi else (s, true)
  push_over s b bi not_found = push_new s b bi
  push_over s b bi broken = push_new s b bi

  unfoldable pub push : D.State → Bundle → D.State × Bool
  unfolding query_id new_bundle_item new_bundle_part id
  push s b = push_over s b (new_bundle_item b) (query_id s (id b))

  -- `Update`.
  unfoldable pub update_item : D.State → BundleItem → D.State × Bool
  update_item s bi = D.update s bi.b_id bi

  abbrev pub remove_parts : D.State → List BundlePart → D.State
  remove_parts s [] = s
  remove_parts s (p ∷ ps) = remove_parts (D.remove s p.filename).0 ps

  abbrev pub delete_got : D.State → Got → D.State × Bool
  delete_got s (found bi) = D.delete (remove_parts s bi.parts) bi.b_id
  delete_got s not_found = (s, true)
  delete_got s broken = (s, true)

  -- `Delete`.
  unfoldable pub delete_item : D.State → BundleId → D.State × Bool
  unfolding query_id
  delete_item s bid = delete_got s (query_id s bid)

  abbrev pub delete_all : D.State → List BundleItem → D.State
  delete_all s [] = s
  delete_all s (bi ∷ bis) = delete_all (delete_item s bi.b_id).0 bis

  abbrev pub found_items : Option (List BundleItem) → List BundleItem
  found_items none = []
  found_items (some bis) = bis

  unfoldable pub delete_expired : ℤ → D.State → D.State
  unfolding delete_item
  delete_expired now s = delete_all s (found_items (D.find s (λ bi. ltb_ℤ bi.expires now)))

  unfoldable pub query_pending : D.State → Option (List BundleItem)
  query_pending s = D.find s (λ bi. bi.pending)
