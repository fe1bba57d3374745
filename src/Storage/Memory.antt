-- ===== src/Storage/Memory.antt =====
-- A disk in memory, which works: its state is the list of the writes, the newest first.
use dtn7_gold.Prelude.{
  ℕ, ◌≡◌, refl, ap, Bool, true, false, not, ◌&&◌, ◌||◌, List, [], ◌∷◌, Option, none, some, ◌==◌,
  ==_iff, if◌then◌else◌,
}
use dtn7_gold.Bpv7.Endpoint.{same_endpoint}
use dtn7_gold.Bpv7.Bundle.{Bundle, BundleId}
use dtn7_gold.Routing.IdKeeper.Numbers.{same_endpoint→eq, and-parts}
use dtn7_gold.Storage.{BundleItem, Got, found, not_found, same_key, Disk, IsWorking}

pub record Memory : Type 0 where
  pub entries : List (BundleId × Option BundleItem)
  pub files : List (ℕ × Option Bundle)

abbrev pub got : Option BundleItem → Got
got none = not_found
got (some i) = found i

abbrev pub get_entry : List (BundleId × Option BundleItem) → BundleId → Got
get_entry [] k = not_found
get_entry (e ∷ es) k = if same_key e.0 k then got e.1 else get_entry es k

abbrev pub get_file : List (ℕ × Option Bundle) → ℕ → Option Bundle
get_file [] n = none
get_file (f ∷ fs) n = if f.0 == n then f.1 else get_file fs n

abbrev pub set_entry : Memory → BundleId → Option BundleItem → Memory × Bool
set_entry m k i = (record m { entries = (k, i) ∷ m.entries }, true)

abbrev pub set_file : Memory → ℕ → Option Bundle → Memory × Bool
set_file m n b = (record m { files = (n, b) ∷ m.files }, true)

abbrev pub is_seen : BundleId → List BundleId → Bool
is_seen k [] = false
is_seen k (j ∷ js) = same_key j k || is_seen k js

-- The newest entries that hold an item of the kind.
abbrev pub found_entry :
    Bool → (BundleItem → Bool) → Option BundleItem → List BundleItem → List BundleItem
found_entry old p none rest = rest
found_entry old p (some i) rest = if not old && p i then i ∷ rest else rest

abbrev pub find_entries :
    List BundleId → List (BundleId × Option BundleItem) → (BundleItem → Bool) → List BundleItem
find_entries seen [] p = []
find_entries seen (e ∷ es) p = found_entry (is_seen e.0 seen) p e.1 (find_entries (e.0 ∷ seen) es p)

abbrev pub memory_disk : (BundleId → ℕ) → Disk
memory_disk path = record {
  State = Memory;
  get = λ m k. get_entry m.entries k;
  insert = λ m k i. set_entry m k (some i);
  update = λ m k i. set_entry m k (some i);
  delete = λ m k. set_entry m k none;
  find = λ m p. some (find_entries [] m.entries p);
  part_path = path;
  write_bundle = λ m n b. set_file m n (some b);
  read_bundle = λ m n. get_file m.files n;
  remove = λ m n. set_file m n none;
}

abbrev pub empty_memory : Memory
empty_memory = record { entries = []; files = [] }

-- IDs of the same key are alike to every other ID.
same_key-same : (a j k : BundleId) → same_key j k ≡ true → same_key a j ≡ same_key a k
unfolding same_key
same_key-same a j k h =
    let (sources, rest) = and-parts (same_endpoint j.source_node k.source_node) _ h in
    let (times, numbers) = and-parts (j.timestamp.dtn_time == k.timestamp.dtn_time) _ rest in
    λ i.
      same_endpoint a.source_node (same_endpoint→eq j.source_node k.source_node sources i)
      && (a.timestamp.dtn_time == (==_iff j.timestamp.dtn_time k.timestamp.dtn_time).0 times i
          && a.timestamp.sequence_number
            == (==_iff j.timestamp.sequence_number k.timestamp.sequence_number).0 numbers i)

get_entry-same :
    (es : List (BundleId × Option BundleItem)) (j k : BundleId)
    → same_key j k ≡ true
    → get_entry es j ≡ get_entry es k
get_entry-same [] j k h = refl
get_entry-same (e ∷ es) j k h =
    rw (same_key-same e.0 j k h)
      (ap (λ g. if same_key e.0 k then got e.1 else g) (get_entry-same es j k h))

pub memory_disk-IsWorking : (path : BundleId → ℕ) → IsWorking (memory_disk path)
memory_disk-IsWorking path = record {
  get_same = λ m j k h. get_entry-same m.entries j k h;
  get-insert = λ m k j i h. refl;
  get-update = λ m k j i old h. refl;
  get-delete = λ m k j. refl;
  write_ok = λ m n b. refl;
  get-write = λ m n b j. refl;
  get-remove = λ m n j. refl;
}
