-- ===== src/Bpv7/Bundle.antt =====
-- pkg/bpv7/bundle.go and canonical_block_sort.go: a bundle and the operations on its blocks.
-- `sort.Sort` is an insertion sort here; blocks of the same number, which it may leave in any
-- order, stay as they were.
pub mod Sorting
pub mod Numbers
pub mod Removal
use dtn7_gold.Prelude.{
  ℕ, zero, suc, ◌+◌, Bool, true, false, not, ◌&&◌, ◌||◌, List, [], ◌∷◌, ◌++◌, map, length, ◌==◌,
  ltb, if◌then◌else◌,
}
use dtn7_gold.Prelude.Int.{ℤ, pos, int64, uint64, ◌+ℤ◌, ◌*ℤ◌, ltb_ℤ}
use dtn7_gold.Bpv7.Flags.{
  has, is_fragment, administrative_record_payload, status_report_block, Invalid, no_blocks,
  block_report_request, block_number_twice, block_context, last_not_payload, no_age_block,
  lifetime_exceeded, unless,
}
use dtn7_gold.Bpv7.Endpoint.{EndpointId, dtn_none, same_endpoint}
use dtn7_gold.Bpv7.Blocks.{
  CreationTimestamp, is_zero_time, PrimaryBlock, set_primary_crc, primary_check_valid,
  ExtensionBlock, payload_block, previous_node_block, bundle_age_block, hop_count_block,
  generic_block, payload_type, previous_node_type, bundle_age_type, hop_count_type, block_type_code,
  CanonicalBlock, type_code, canonical_check_valid,
}

pub data Error : Type 0 where
  no_such_block several_blocks : Error
  no_fragments not_a_fragment fragment_gap wrong_total : Error
  must_not_fragment overhead_too_large marshal_failed : Error
  -- A slice expression out of range, or a type assertion that does not hold, panics.
  slice_panic type_panic : Error
  invalid : List Invalid → Error

pub data Result {ℓ} (A : Type ℓ) : Type ℓ where
  ok : A → Result A
  err : Error → Result A

infixl 5 ◌>>=◌
abbrev pub ◌>>=◌ {ℓ κ} : {A : Type ℓ} {B : Type κ} → Result A → (A → Result B) → Result B
ok a >>= f = f a
err e >>= f = err e

pub record Bundle : Type 0 where
  pub primary_block : PrimaryBlock
  pub canonical_blocks : List CanonicalBlock

-- `Less`: by number, but the number of the payload block comes last.
unfoldable pub less : CanonicalBlock → CanonicalBlock → Bool
less a b =
    if a.block_number == payload_type
    then false
    else if b.block_number == payload_type
    then true
    else ltb a.block_number b.block_number

unfoldable pub insert : CanonicalBlock → List CanonicalBlock → List CanonicalBlock
unfolding less
insert x [] = x ∷ []
insert x (y ∷ ys) = let rest = insert x ys in if less x y then x ∷ y ∷ ys else y ∷ rest

unfoldable pub sort_blocks : List CanonicalBlock → List CanonicalBlock
unfolding insert
sort_blocks [] = []
sort_blocks (x ∷ xs) = insert x (sort_blocks xs)

unfoldable pub must_new_bundle : PrimaryBlock → List CanonicalBlock → Bundle
unfolding sort_blocks
must_new_bundle primary canonicals = record {
  primary_block = primary;
  canonical_blocks = sort_blocks canonicals;
}

abbrev pub of_type : ℕ → List CanonicalBlock → List CanonicalBlock
of_type code [] = []
of_type code (cb ∷ cbs) =
    let rest = of_type code cbs in if type_code cb == code then cb ∷ rest else rest

abbrev pub some_blocks : List CanonicalBlock → Result (List CanonicalBlock)
some_blocks [] = err no_such_block
some_blocks (cb ∷ cbs) = ok (cb ∷ cbs)

unfoldable pub extension_blocks : ℕ → Bundle → Result (List CanonicalBlock)
extension_blocks code b = some_blocks (of_type code b.canonical_blocks)

abbrev pub single_block : Result (List CanonicalBlock) → Result CanonicalBlock
single_block (ok (cb ∷ [])) = ok cb
single_block (ok cbs) = err several_blocks
single_block (err e) = err e

unfoldable pub extension_block : ℕ → Bundle → Result CanonicalBlock
unfolding extension_blocks
extension_block code b = single_block (extension_blocks code b)

abbrev pub is_ok {ℓ} : {A : Type ℓ} → Result A → Bool
is_ok (ok a) = true
is_ok (err e) = false

unfoldable pub has_extension_block : ℕ → Bundle → Bool
unfolding extension_blocks
has_extension_block code b = is_ok (extension_blocks code b)

-- `Bundle.PayloadBlock`.
unfoldable pub payload_block_of : Bundle → Result CanonicalBlock
unfolding extension_block
payload_block_of b = extension_block payload_type b

abbrev pub block_numbers : List CanonicalBlock → List ℕ
block_numbers = map (λ cb. cb.block_number)

unfoldable pub contains : ℕ → List ℕ → Bool
contains n [] = false
contains n (k ∷ ks) = n == k || contains n ks

-- The search for a block number, with a bound on its rounds.
unfoldable pub free_number : ℕ → ℕ → List ℕ → ℕ
unfolding contains
free_number zero n taken = n
free_number (suc rounds) n taken =
    let later = free_number rounds (n + 1) taken in if contains n taken then later else n

unfoldable pub number_for : CanonicalBlock → List CanonicalBlock → ℕ
unfolding free_number
number_for block blocks =
    free_number (length blocks) (if type_code block == payload_type then 1 else 2)
      (block_numbers blocks)

unfoldable pub add_extension_block : CanonicalBlock → Bundle → Bundle
unfolding number_for sort_blocks
add_extension_block block b =
    let numbered = record block { block_number = number_for block b.canonical_blocks } in
    record b { canonical_blocks = sort_blocks (b.canonical_blocks ++ numbered ∷ []) }

abbrev pub find_number : ℕ → List CanonicalBlock → Result CanonicalBlock
find_number n [] = err no_such_block
find_number n (cb ∷ cbs) =
    let later = find_number n cbs in if cb.block_number == n then ok cb else later

unfoldable pub get_extension_block_by_block_number : ℕ → Bundle → Result CanonicalBlock
get_extension_block_by_block_number n b = find_number n b.canonical_blocks

abbrev pub without_number : ℕ → List CanonicalBlock → List CanonicalBlock
without_number n [] = []
without_number n (cb ∷ cbs) =
    let later = without_number n cbs in if cb.block_number == n then cbs else cb ∷ later

unfoldable pub remove_extension_block_by_block_number : ℕ → Bundle → Bundle
remove_extension_block_by_block_number n b = record b {
  canonical_blocks = without_number n b.canonical_blocks;
}

unfoldable pub set_crc_type : ℕ → Bundle → Bundle
set_crc_type crc b = record {
  primary_block = set_primary_crc crc b.primary_block;
  canonical_blocks =
      map {A = CanonicalBlock} {B = CanonicalBlock} (λ cb. record cb { crc_type = crc })
        b.canonical_blocks;
}

pub record BundleId : Type 0 where
  pub source_node : EndpointId
  pub timestamp : CreationTimestamp
  pub fragmented : Bool
  pub fragment_offset : ℕ
  pub total_data_length : ℕ

unfoldable pub id : Bundle → BundleId
id b =
    let pb = b.primary_block in
    record {
      source_node = pb.source_node;
      timestamp = pb.creation_timestamp;
      fragmented = has pb.bundle_control_flags is_fragment;
      fragment_offset = pb.fragment_offset;
      total_data_length = pb.total_data_length;
    }

unfoldable pub scrub : BundleId → BundleId
scrub bid = record bid { fragmented = false; fragment_offset = 0; total_data_length = 0 }
