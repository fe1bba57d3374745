-- ===== src/Bpv7/Fragmentation.antt =====
-- pkg/bpv7/fragmentation.go: `Fragment`, which cuts a bundle into fragments that an MTU limits. The
-- MTU is not negative, and the sizes are small enough for the float64 of `math.Min` to be exact.
pub mod Termination
pub mod Pieces
pub mod Cut
pub mod Sizes
pub mod Totals
pub mod Fits
pub mod Inverse
pub mod Tests
use dtn7_gold.Prelude.{
  ℕ, zero, suc, ◌+◌, ◌-◌, min, Bool, true, false, not, ◌&&◌, bit_and, List, [], ◌∷◌, length, take,
  drop, Option, none, some, ◌==◌, leb, ltb, if◌then◌else◌,
}
use dtn7_gold.Prelude.Int.{ℤ}
use dtn7_gold.Wire.{Result as Written, ok as written, err as unwritten}
use dtn7_gold.Bpv7.Flags.{has, is_fragment, must_not_fragmented, replicate_block}
use dtn7_gold.Bpv7.Blocks.{
  crc32, PrimaryBlock, payload_block, payload_type, CanonicalBlock, type_code,
}
use dtn7_gold.Bpv7.Bundle.{
  Result, ok, err, must_not_fragment, overhead_too_large, marshal_failed, ◌>>=◌, Bundle,
  must_new_bundle, payload_block_of, add_extension_block,
}
use dtn7_gold.Bpv7.Reassembly.{payload_data, checked}
use dtn7_gold.Bpv7.Cbor.{Codec}
use dtn7_gold.Bpv7.Cbor.Blocks.{marshal_primary, marshal_canonical}

-- How many bytes were written.
abbrev pub size_of : Written (List ℕ) → Result ℕ
size_of (written bytes) = ok (length bytes)
size_of (unwritten e) = err marshal_failed

-- Setting a flag: `flags | IsFragment`.
abbrev pub with_flag : ℕ → ℕ → ℕ
with_flag flags flag = flags + (flag - bit_and flags flag)

abbrev pub fragment_block : PrimaryBlock → ℕ → ℕ → PrimaryBlock
fragment_block pb offset total = record pb {
  bundle_control_flags = with_flag pb.bundle_control_flags is_fragment;
  fragment_offset = offset;
  total_data_length = total;
}

-- `fragmentPrimaryBlock`.
unfoldable pub fragment_primary_block : Codec → PrimaryBlock → ℕ → ℕ → Result (PrimaryBlock × ℕ)
fragment_primary_block c pb offset total = do
  size ← size_of (marshal_primary c (fragment_block pb offset total))
  ok (fragment_block pb offset total, size)

-- The block whose size is estimated: one with the longer checksum, and a payload block without bytes.
unfoldable pub estimated : CanonicalBlock → CanonicalBlock
estimated cb =
    if type_code cb == payload_type
    then record cb { crc_type = crc32; value = payload_block [] }
    else record cb { crc_type = crc32 }

-- What a block of some size adds; of the payload block, the length field of its bytes is counted anew.
abbrev pub add_len : Codec → ℕ → CanonicalBlock → ℕ → ℕ × ℕ → ℕ × ℕ
add_len c mtu cb size (first, others) =
    let replicated = if has cb.block_control_flags replicate_block then size else 0 in
    let field = length (c.write_byte_string_len mtu) - 1 in
    if type_code cb == payload_type
    then (size + field + first, replicated + (size + field) + others)
    else (size + first, replicated + others)

-- `fragmentExtensionBlocksLen`: the sizes for the first fragment and for the others.
unfoldable pub extension_blocks_len : Codec → ℕ → List CanonicalBlock → Result (ℕ × ℕ)
unfolding estimated
extension_blocks_len c mtu [] = ok (0, 0)
extension_blocks_len c mtu (cb ∷ cbs) = do
  size ← size_of (marshal_canonical c (estimated cb))
  rest ← extension_blocks_len c mtu cbs
  ok (add_len c mtu cb size rest)

-- The extension blocks of the fragment at an offset: all go with the first one.
unfoldable pub add_fragment_blocks : ℕ → List CanonicalBlock → Bundle → Bundle
unfolding add_extension_block
add_fragment_blocks offset [] b = b
add_fragment_blocks offset (cb ∷ cbs) b = add_fragment_blocks offset cbs (
    if type_code cb == payload_type
    then b
    else if ltb 0 offset && not (has cb.block_control_flags replicate_block)
    then b
    else add_extension_block cb b)

abbrev pub piece_block : CanonicalBlock → List ℕ → CanonicalBlock
piece_block pb bytes = record pb { block_number = 0; value = payload_block bytes }

abbrev pub slice : ℕ → ℕ → List ℕ → List ℕ
slice low high bytes = take (high - low) (drop low bytes)

unfoldable pub fragment_bundle : PrimaryBlock → Bundle → CanonicalBlock → ℕ → List ℕ → Bundle
unfolding must_new_bundle add_fragment_blocks
fragment_bundle fragment_pb b pb offset bytes =
    add_extension_block (piece_block pb bytes)
      (add_fragment_blocks offset b.canonical_blocks (must_new_bundle fragment_pb []))

-- The fragment with the bytes from an offset to an end, checked, and the offset of the next one.
unfoldable pub checked_fragment :
    ℤ → PrimaryBlock → Bundle → CanonicalBlock → List ℕ → ℕ → ℕ → Result (Bundle × ℕ)
unfolding fragment_bundle
checked_fragment now fragment_pb b pb bytes i next =
    let fragment = fragment_bundle fragment_pb b pb i (slice i (min next (length bytes)) bytes) in
    checked now fragment >>= λ _. ok (fragment, next)

abbrev pub overhead_of : ℕ → ℕ × ℕ → ℕ → ℕ
overhead_of primary_len (first, others) i = 2 + primary_len + (if i == 0 then first else others)

-- A round of the loop at an offset.
unfoldable pub next_fragment :
    Codec → ℤ → ℕ → Bundle → CanonicalBlock → List ℕ → ℕ × ℕ → ℕ → Result (Bundle × ℕ)
unfolding fragment_primary_block checked_fragment
next_fragment c now mtu b pb bytes lens i =
    fragment_primary_block c b.primary_block i (length bytes) >>= λ primary.
    let overhead = overhead_of primary.1 lens i in
    if leb mtu overhead
    then err overhead_too_large
    else checked_fragment now primary.0 b pb bytes i (i + (mtu - overhead))

abbrev pub before : Bundle → Option (Result (List Bundle)) → Option (Result (List Bundle))
before f none = none
before f (some (ok fs)) = some (ok (f ∷ fs))
before f (some (err e)) = some (err e)

-- The loop, with a bound on its rounds; none means that they are over.
unfoldable pub fragment_loop :
    Codec → ℤ → ℕ → Bundle → CanonicalBlock → List ℕ → ℕ × ℕ → ℕ → ℕ → Option (Result (List Bundle))
unfolding next_fragment
fragment_loop c now mtu b pb bytes lens zero i = if ltb i (length bytes) then none else some (ok [])
fragment_loop c now mtu b pb bytes lens (suc rounds) i =
    if ltb i (length bytes)
    then (elim (next_fragment c now mtu b pb bytes lens i) [
      | ok (f, next) ↦ before f (fragment_loop c now mtu b pb bytes lens rounds next)
      | err e ↦ some (err e)
    ])
    else some (ok [])

-- A single fragment gives way to the bundle itself.
abbrev pub unless_single : Bundle → List Bundle → List Bundle
unless_single b (f ∷ []) = b ∷ []
unless_single b fs = fs

abbrev pub whole_if_single : Bundle → Option (Result (List Bundle)) → Option (Result (List Bundle))
whole_if_single b none = none
whole_if_single b (some (ok fs)) = some (ok (unless_single b fs))
whole_if_single b (some (err e)) = some (err e)

-- What the loop needs to know: the payload block, its bytes and the sizes of the extension blocks.
unfoldable pub prepare_fragments : Codec → ℕ → Bundle → Result (CanonicalBlock × (List ℕ × (ℕ × ℕ)))
unfolding extension_blocks_len
prepare_fragments c mtu b =
    if has b.primary_block.bundle_control_flags must_not_fragmented
    then err must_not_fragment
    else (do
      pb ← payload_block_of b
      bytes ← payload_data pb
      lens ← extension_blocks_len c mtu b.canonical_blocks
      ok (pb, (bytes, lens)))

-- `Bundle.Fragment`; a round of the loop takes at least a byte.
unfoldable pub fragment : Codec → ℤ → ℕ → Bundle → Option (Result (List Bundle))
unfolding fragment_loop prepare_fragments
fragment c now mtu b = elim (prepare_fragments c mtu b) [
  | ok (pb, (bytes, lens)) ↦
      whole_if_single b (fragment_loop c now mtu b pb bytes lens (length bytes) 0)
  | err e ↦ some (err e)
]
