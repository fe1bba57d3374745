-- ===== src/Bpv7/Cbor.antt =====
-- The CBOR form of pkg/bpv7: what it takes from github.com/dtn7/cboring, github.com/howeyc/crc16 and
-- hash/crc32 is a record of functions, and what it relies on is a record of their laws.
pub mod Endpoints
pub mod Blocks
pub mod Bundles
pub mod LongForm
pub mod Reports
pub mod Tests
use dtn7_gold.Prelude.{
  ℕ, ◌+◌, ◌≤◌, ◌<◌, ◌^◌, ◌≡◌, Bool, true, false, List, [], ◌∷◌, ◌++◌, length, ◌==◌, if◌then◌else◌,
}
use dtn7_gold.Wire.{
  Error, cbor_break, unknown_crc, wrong_crc, Result, ok, err, Reader, ◌>>=◌, guard, pure, put_uint,
  lift, ◌⊕◌,
}
use dtn7_gold.Prelude.Bytes.{equal}
use dtn7_gold.Bpv7.Blocks.{crc_no, crc32}

-- The major types that `cboring.ReadMajors` tells apart here.
pub data Major : Type 0 where
  unsigned_int text_string other_major : Major

pub record Codec : Type 0 where
  pub indefinite_array : ℕ
  pub break_code : ℕ
  pub write_uint : ℕ → List ℕ
  pub write_array_length : ℕ → List ℕ
  pub write_byte_string : List ℕ → List ℕ
  pub write_byte_string_len : ℕ → List ℕ
  pub write_text_string : List ℕ → List ℕ
  pub read_uint : Reader ℕ
  pub read_array_length : Reader ℕ
  pub read_byte_string : Reader (List ℕ)
  pub read_majors : Reader (Major × ℕ)
  pub read_raw_bytes : ℕ → Reader (List ℕ)
  pub read_expect : ℕ → Reader (Unit {0})
  pub crc16_checksum : List ℕ → ℕ
  pub crc32_checksum : List ℕ → ℕ

-- What was written is read back; the break code ends an array of indefinite length, and a length has
-- at least one byte. A reader gives no bytes back, and that of an array's length takes some.
pub record CodecLaws (c : Codec) : Type 0 where
  pub uint :
      (n : ℕ) (rest : List ℕ) → n < 2 ^ 64 → c.read_uint (c.write_uint n ++ rest) ≡ ok (n, rest)
  pub array_length :
      (n : ℕ) (rest : List ℕ)
      → n < 2 ^ 64
      → c.read_array_length (c.write_array_length n ++ rest) ≡ ok (n, rest)
  pub byte_string :
      (bytes rest : List ℕ)
      → length bytes < 2 ^ 64
      → c.read_byte_string (c.write_byte_string bytes ++ rest) ≡ ok (bytes, rest)
  pub majors_uint :
      (n : ℕ) (rest : List ℕ)
      → n < 2 ^ 64
      → c.read_majors (c.write_uint n ++ rest) ≡ ok ((unsigned_int, n), rest)
  pub majors_text :
      (text rest : List ℕ)
      → length text < 2 ^ 64
      → c.read_majors (c.write_text_string text ++ rest)
        ≡ ok ((text_string, length text), text ++ rest)
  pub raw_bytes :
      (bytes rest : List ℕ) → c.read_raw_bytes (length bytes) (bytes ++ rest) ≡ ok (bytes, rest)
  pub expect : (b : ℕ) (rest : List ℕ) → c.read_expect b (b ∷ rest) ≡ ok (tt, rest)
  pub break_array : (rest : List ℕ) → c.read_array_length (c.break_code ∷ rest) ≡ err cbor_break
  pub some_length : (n : ℕ) → 0 < length (c.write_array_length n)
  pub uint_shrinks :
      (bs : List ℕ) (n : ℕ) (rest : List ℕ)
      → c.read_uint bs ≡ ok (n, rest)
      → length rest ≤ length bs
  pub byte_string_shrinks :
      (bs bytes rest : List ℕ) → c.read_byte_string bs ≡ ok (bytes, rest) → length rest ≤ length bs
  pub array_length_consumes :
      (bs : List ℕ) (n : ℕ) (rest : List ℕ)
      → c.read_array_length bs ≡ ok (n, rest)
      → length rest < length bs

abbrev pub crc16 : ℕ
crc16 = 1

-- `emptyCRC`.
unfoldable pub empty_crc : ℕ → Result (List ℕ)
empty_crc crc_type =
    if crc_type == crc_no
    then ok []
    else if crc_type == crc16
    then ok (0 ∷ 0 ∷ [])
    else if crc_type == crc32
    then ok (0 ∷ 0 ∷ 0 ∷ 0 ∷ [])
    else err unknown_crc

-- The checksum of the bytes, as bytes of the width of the empty value.
abbrev pub checksum : Codec → ℕ → List ℕ → List ℕ
checksum c crc_type bytes =
    if crc_type == crc_no
    then []
    else if crc_type == crc16
    then put_uint 2 (c.crc16_checksum bytes)
    else put_uint 4 (c.crc32_checksum bytes)

-- `calculateCRCBuff`: the checksum goes over the buffer and an empty value.
unfoldable pub calculate_crc : Codec → List ℕ → ℕ → Result (List ℕ)
calculate_crc c buffer crc_type = elim (empty_crc crc_type) [
  | ok none_yet ↦ ok (checksum c crc_type (buffer ++ c.write_byte_string none_yet))
  | err e ↦ err e
]

-- The end of a block: its checksum, if it has one, over what was written before.
abbrev pub crc_field : Codec → Result (List ℕ) → Result (List ℕ)
crc_field c (ok value) = ok (c.write_byte_string value)
crc_field c (err e) = err e

unfoldable pub with_crc : Codec → Bool → ℕ → Result (List ℕ) → Result (List ℕ)
unfolding calculate_crc
with_crc c has crc_type (err e) = err e
with_crc c has crc_type (ok body) =
    if has then ok body ⊕ crc_field c (calculate_crc c body crc_type) else ok body

-- And its check against what was read before.
unfoldable pub check_crc : Codec → Bool → ℕ → List ℕ → Reader (Unit {0})
unfolding calculate_crc
check_crc c has crc_type buffer =
    if has
    then (do
      calculated ← lift (calculate_crc c buffer crc_type)
      value ← c.read_byte_string
      guard (equal calculated value) wrong_crc)
    else pure tt
