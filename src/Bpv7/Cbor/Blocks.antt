-- ===== src/Bpv7/Cbor/Blocks.antt =====
-- pkg/bpv7/primary_block.go, canonical_block.go and extension_block*.go: the blocks in CBOR. The
-- extension blocks are those that `GetExtensionBlockManager` registers; reading one of the two security
-- blocks, which have no model, is an error here.
pub mod Checksums
pub mod Primary
pub mod Canonical
pub mod Corruption
use dtn7_gold.Prelude.{ℕ, Bool, not, ◌||◌, ◌&&◌, List, [], ◌∷◌, ◌++◌, ◌==◌, leb, if◌then◌else◌}
use dtn7_gold.Wire.{
  Error, cbor_break, cbor_error, wrong_length, wrong_version, out_of_range, unsupported_block,
  Result, ok, err, Reader, ◌>>=◌, ◌>>◌, guard, pure, from_buffer, tee, ◌⊕◌,
}
use dtn7_gold.Bpv7.Flags.{has, is_fragment}
use dtn7_gold.Bpv7.Blocks.{
  dtn_version, crc_no, PrimaryBlock, HopCountBlock, ExtensionBlock, payload_block,
  previous_node_block, bundle_age_block, hop_count_block, generic_block, payload_type,
  previous_node_type, bundle_age_type, hop_count_type, block_type_code, CanonicalBlock,
}
use dtn7_gold.Bpv7.Cbor.{Codec, with_crc, check_crc}
use dtn7_gold.Bpv7.Cbor.Endpoints.{
  marshal_endpoint, unmarshal_endpoint, marshal_timestamp, unmarshal_timestamp,
}

abbrev pub has_crc : ℕ → Bool
has_crc crc_type = not (crc_type == crc_no)

-- An error that is passed on inside another is not the break code any more.
abbrev pub wrapped : Error → Error
wrapped cbor_break = cbor_error
wrapped e = e

unfoldable pub wrap {ℓ} : {A : Type ℓ} → Reader A → Reader A
wrap m bs = elim (m bs) [ ok (a, rest) ↦ ok (a, rest) | err e ↦ err (wrapped e) ]

abbrev pub fragment_bytes : Codec → PrimaryBlock → List ℕ
fragment_bytes c pb =
    if has pb.bundle_control_flags is_fragment
    then c.write_uint pb.fragment_offset ++ c.write_uint pb.total_data_length
    else []

unfoldable pub primary_length : PrimaryBlock → ℕ
primary_length pb =
    if has pb.bundle_control_flags is_fragment
    then (if has_crc pb.crc_type then 11 else 10)
    else if has_crc pb.crc_type
    then 9
    else 8

abbrev pub primary_body : Codec → PrimaryBlock → Result (List ℕ)
primary_body c pb =
    ok (c.write_array_length (primary_length pb))
    ⊕ ok (c.write_uint dtn_version)
    ⊕ ok (c.write_uint pb.bundle_control_flags)
    ⊕ ok (c.write_uint pb.crc_type)
    ⊕ marshal_endpoint c pb.destination
    ⊕ marshal_endpoint c pb.source_node
    ⊕ marshal_endpoint c pb.report_to
    ⊕ ok (marshal_timestamp c pb.creation_timestamp)
    ⊕ ok (c.write_uint pb.lifetime)
    ⊕ ok (fragment_bytes c pb)

-- `PrimaryBlock.MarshalCbor`.
unfoldable pub marshal_primary : Codec → PrimaryBlock → Result (List ℕ)
unfolding with_crc
marshal_primary c pb = with_crc c (has_crc pb.crc_type) pb.crc_type (primary_body c pb)

unfoldable pub fragment_fields : Codec → ℕ → Reader (ℕ × ℕ)
fragment_fields c n =
    if n == 10 || n == 11
    then (do offset ← c.read_uint; total ← c.read_uint; pure (offset, total))
    else pure (0, 0)

-- What stands before the checksum, with the length of the array.
unfoldable pub primary_fields : Codec → Reader (ℕ × PrimaryBlock)
unfolding fragment_fields
primary_fields c = do
  n ← c.read_array_length
  guard (leb 8 n && leb n 11) wrong_length
  version ← c.read_uint
  guard (version == dtn_version) wrong_version
  flags ← c.read_uint
  crc ← c.read_uint
  destination ← unmarshal_endpoint c
  source ← unmarshal_endpoint c
  report ← unmarshal_endpoint c
  timestamp ← unmarshal_timestamp c
  lifetime ← c.read_uint
  fragment ← fragment_fields c n
  pure (
    n,
    record {
      version = dtn_version;
      bundle_control_flags = flags;
      crc_type = crc;
      destination = destination;
      source_node = source;
      report_to = report;
      creation_timestamp = timestamp;
      lifetime = lifetime;
      fragment_offset = fragment.0;
      total_data_length = fragment.1;
    },
  )

-- `PrimaryBlock.UnmarshalCbor`.
unfoldable pub unmarshal_primary : Codec → Reader PrimaryBlock
unfolding primary_fields check_crc
unmarshal_primary c = do
  fields ← tee (primary_fields c)
  check_crc c (fields.0.0 == 9 || fields.0.0 == 11) fields.0.1.crc_type fields.1
  pure fields.0.1

-- `HopCountBlock.MarshalCbor`.
abbrev pub marshal_hop_count : Codec → HopCountBlock → List ℕ
marshal_hop_count c h = c.write_array_length 2 ++ (c.write_uint h.limit ++ c.write_uint h.count)

unfoldable pub unmarshal_hop_count : Codec → Reader HopCountBlock
unmarshal_hop_count c = do
  n ← c.read_array_length
  guard (n == 2) wrong_length
  limit ← c.read_uint
  guard (leb limit 255) out_of_range
  count ← c.read_uint
  guard (leb count 255) out_of_range
  pure (record { limit = limit; count = count })

-- `MarshalBinary` or `MarshalCbor` of the block.
unfoldable pub extension_data : Codec → ExtensionBlock → Result (List ℕ)
extension_data c (payload_block bytes) = ok bytes
extension_data c (previous_node_block e) = marshal_endpoint c e
extension_data c (bundle_age_block ms) = ok (c.write_uint ms)
extension_data c (hop_count_block h) = ok (marshal_hop_count c h)
extension_data c (generic_block bytes code) = ok bytes

abbrev pub data_field : Codec → Result (List ℕ) → Result (List ℕ)
data_field c (ok bytes) = ok (c.write_byte_string bytes)
data_field c (err e) = err e

-- `ExtensionBlockManager.WriteBlock`.
unfoldable pub write_block : Codec → ExtensionBlock → Result (List ℕ)
unfolding extension_data
write_block c block = data_field c (extension_data c block)

-- A type code of `BIBIOPHMACSHA2` or `BCBIOPAESGCM`.
abbrev pub is_security_type : ℕ → Bool
is_security_type code = code == 3 || code == 4

-- `UnmarshalBinary` or `UnmarshalCbor` of a block that `createBlock` makes for the type code.
unfoldable pub block_of_type : Codec → ℕ → Reader ExtensionBlock
unfolding unmarshal_hop_count
block_of_type c code =
    if code == payload_type
    then (λ bytes. ok (payload_block bytes, []))
    else if code == previous_node_type
    then (do e ← unmarshal_endpoint c; pure (previous_node_block e))
    else if code == bundle_age_type
    then (do ms ← c.read_uint; pure (bundle_age_block ms))
    else if code == hop_count_type
    then (do h ← unmarshal_hop_count c; pure (hop_count_block h))
    else if is_security_type code
    then (λ bytes. err unsupported_block)
    else λ bytes. ok (generic_block bytes code, [])

-- `ExtensionBlockManager.ReadBlock`; bytes behind the block's own are ignored.
unfoldable pub read_block : Codec → ℕ → Reader ExtensionBlock
unfolding block_of_type
read_block c code = do bytes ← c.read_byte_string; from_buffer (block_of_type c code) bytes

abbrev pub canonical_length : CanonicalBlock → ℕ
canonical_length cb = if has_crc cb.crc_type then 6 else 5

abbrev pub canonical_body : Codec → CanonicalBlock → Result (List ℕ)
canonical_body c cb =
    ok (c.write_uint (block_type_code cb.value))
    ⊕ ok (c.write_uint cb.block_number)
    ⊕ ok (c.write_uint cb.block_control_flags)
    ⊕ ok (c.write_uint cb.crc_type)
    ⊕ write_block c cb.value

-- `CanonicalBlock.MarshalCbor`.
unfoldable pub marshal_canonical : Codec → CanonicalBlock → Result (List ℕ)
unfolding with_crc write_block
marshal_canonical c cb =
    with_crc c (has_crc cb.crc_type) cb.crc_type
      (ok (c.write_array_length (canonical_length cb)) ⊕ canonical_body c cb)

unfoldable pub canonical_fields : Codec → Reader CanonicalBlock
unfolding read_block
canonical_fields c = do
  code ← c.read_uint
  number ← c.read_uint
  flags ← c.read_uint
  crc ← c.read_uint
  value ← wrap (read_block c code)
  pure
      (record { block_number = number; block_control_flags = flags; crc_type = crc; value = value })

-- `CanonicalBlock.UnmarshalCbor`: the buffer of the checksum starts with the array's start again.
unfoldable pub unmarshal_canonical : Codec → Reader CanonicalBlock
unfolding canonical_fields check_crc
unmarshal_canonical c = do
  n ← c.read_array_length
  guard (n == 5 || n == 6) wrong_length
  fields ← tee (canonical_fields c)
  check_crc c (n == 6) fields.0.crc_type (c.write_array_length n ++ fields.1)
  pure fields.0
