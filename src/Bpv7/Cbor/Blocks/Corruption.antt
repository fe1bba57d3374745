-- ===== src/Bpv7/Cbor/Blocks/Corruption.antt =====
-- A primary block with another checksum than its own is refused.
use dtn7_gold.Prelude.{ℕ, ◌<◌, ◌^◌, ◌≡◌, ◌∙◌, Bool, true, false, List, ◌++◌, length, if◌then◌else◌}
use dtn7_gold.Prelude.Bytes.{equal}
use dtn7_gold.Wire.{wrong_crc, ok, err, Reader, ◌>>=◌, ◌>>◌, guard, pure, tee}
use dtn7_gold.Wire.Laws.{bind_step, lift_bind}
use dtn7_gold.Wire.Reads.{tee-Reads}
use dtn7_gold.Bpv7.Blocks.{PrimaryBlock}
use dtn7_gold.Bpv7.Cbor.{Codec, CodecLaws, calculate_crc, check_crc, with_crc}
use dtn7_gold.Bpv7.Cbor.Blocks.{
  has_crc, primary_length, primary_fields, marshal_primary, unmarshal_primary,
}
use dtn7_gold.Bpv7.Cbor.Blocks.Checksums.{crc-value}
use dtn7_gold.Bpv7.Cbor.Blocks.Primary.{IsPrimary, fields-Reads, length-has_crc}

module _ (c : Codec) (laws : CodecLaws c) where
  check_crc-equal :
      (t : ℕ) (body value other rest : List ℕ)
      → calculate_crc c body t ≡ ok value
      → length other < 2 ^ 64
      → check_crc c true t body (c.write_byte_string other ++ rest)
        ≡ (if equal value other then ok (tt, rest) else err wrong_crc)
  unfolding check_crc guard
  check_crc-equal t body value other rest e small =
      lift_bind _ value _ _ e
      ∙ bind_step c.read_byte_string _ _ other rest (laws.byte_string other rest small)

  and_pure :
      (pb : PrimaryBlock) (m : Reader (Unit {0})) (bs rest : List ℕ) (t : Bool)
      → m bs ≡ (if t then ok (tt, rest) else err wrong_crc)
      → (m >> pure pb) bs ≡ (if t then ok (pb, rest) else err wrong_crc)
  unfolding ◌>>=◌ pure
  and_pure pb m bs rest true h = rw (◌>>=◌, h)
  and_pure pb m bs rest false h = rw (◌>>=◌, h)

  -- A primary block that CBOR can hold and that has a checksum is written with it at the end. With any byte
  -- string there instead, the block is read back if that is the checksum, and else the error is that of a
  -- wrong checksum.
  pub primary_checksum :
      (pb : PrimaryBlock)
      → IsPrimary pb
      → (other rest : List ℕ) → has_crc pb.crc_type ≡ true
      → length other < 2 ^ 64
      → (body : List ℕ) × (value : List ℕ) × (marshal_primary c pb
          ≡ ok (body ++ c.write_byte_string value))
        × (unmarshal_primary c (body ++ (c.write_byte_string other ++ rest))
            ≡ (if equal value other then ok (pb, rest) else err wrong_crc))
  unfolding marshal_primary unmarshal_primary with_crc
  primary_checksum pb h other rest has small =
      let (body, e, fields) = fields-Reads c laws pb h in
      let (value, e', _) = crc-value c pb.crc_type body h.crc_known in
      (
        body,
        value,
        rw (has, e, e'),
        bind_step (tee (primary_fields c)) _ _ ((primary_length pb, pb), body) _
              ((tee-Reads fields).back (c.write_byte_string other ++ rest))
            ∙ rw (length-has_crc pb, has)
                (and_pure pb _ _ rest (equal value other)
                  (check_crc-equal pb.crc_type body value other rest e' small)),
      )
