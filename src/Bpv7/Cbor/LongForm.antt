-- ===== src/Bpv7/Cbor/LongForm.antt =====
-- A codec for tests: the CBOR heads of nine bytes, and a sum of the bytes in place of a checksum.
use dtn7_gold.Prelude.{
  ℕ, ◌+◌, ◌<◌, ◌^◌, ◌≡◌, refl, ◌∙◌, ==_self, ap, List, [], ◌∷◌, ◌++◌, append_assoc, arith, length,
  ◌==◌, if◌then◌else◌,
}
use dtn7_gold.Wire.{
  eof, cbor_break, cbor_error, ok, err, Reader, ◌>>=◌, pure, read_full, put_uint, read_uint,
}
use dtn7_gold.Wire.Laws.{
  bind_step, read_full-append, read_full-IsReader, read_uint-put, read_uint-IsReader,
}
use dtn7_gold.Wire.Shrinks.{Shrinks, bind-Shrinks}
use native.Mathlib.Nat.{mod-eq_of_lt}
use mathlib.Core.List.{foldl}
use dtn7_gold.Bpv7.Cbor.{Codec, CodecLaws, Major, unsigned_int, text_string}

abbrev head : ℕ → ℕ → List ℕ
head major n = major ∷ put_uint 8 n

abbrev head_value : ℕ → Reader ℕ
head_value major [] = err eof
head_value major (b ∷ bs) = if b == major then read_uint 8 bs else err cbor_error

abbrev array_value : Reader ℕ
array_value [] = err eof
array_value (b ∷ bs) = if b == 0xFF then err cbor_break else head_value 0x9B (b ∷ bs)

abbrev string_value : Reader (List ℕ)
string_value = head_value 0x5B >>= read_full

abbrev majors_value : Reader (Major × ℕ)
majors_value [] = err eof
majors_value (b ∷ bs) =
    if b == 0x7B
    then (read_uint 8 >>= λ n. pure (text_string, n)) bs
    else (head_value 0x1B >>= λ n. pure (unsigned_int, n)) (b ∷ bs)

abbrev expect_value : ℕ → Reader (Unit {0})
expect_value e [] = err eof
expect_value e (b ∷ bs) = if b == e then ok (tt, bs) else err cbor_error

abbrev pub long_form : Codec
long_form = record {
  indefinite_array = 0x9F;
  break_code = 0xFF;
  write_uint = head 0x1B;
  write_array_length = head 0x9B;
  write_byte_string = λ bytes. head 0x5B (length bytes) ++ bytes;
  write_byte_string_len = head 0x5B;
  write_text_string = λ bytes. head 0x7B (length bytes) ++ bytes;
  read_uint = head_value 0x1B;
  read_array_length = array_value;
  read_byte_string = string_value;
  read_majors = majors_value;
  read_raw_bytes = read_full;
  read_expect = expect_value;
  crc16_checksum = foldl (λ a b. a + b) 0;
  crc32_checksum = foldl (λ a b. a + b) 0;
}

number-read :
    (n : ℕ) (rest : List ℕ) → n < 2 ^ 64 → read_uint 8 (put_uint 8 n ++ rest) ≡ ok (n, rest)
number-read n rest h = read_uint-put 8 n rest ∙ ap (λ (k : ℕ). ok (k, rest)) (mod-eq_of_lt h)

head-read :
    (major n : ℕ) (rest : List ℕ)
    → n < 2 ^ 64
    → head_value major (head major n ++ rest) ≡ ok (n, rest)
head-read major n rest h = rw (==_self major) (number-read n rest h)

head_value-consumes :
    (major : ℕ) (bs : List ℕ) (n : ℕ) (rest : List ℕ)
    → head_value major bs ≡ ok (n, rest)
    → length rest < length bs
head_value-consumes major [] n rest h = ground arith
head_value-consumes major (b ∷ bs) n rest h =
    ground (arith, (read_uint-IsReader 8).shrinks bs n rest)

array_value-consumes :
    (bs : List ℕ) (n : ℕ) (rest : List ℕ) → array_value bs ≡ ok (n, rest) → length rest < length bs
array_value-consumes [] n rest h = ground arith
array_value-consumes (b ∷ bs) n rest h = ground (arith, (read_uint-IsReader 8).shrinks bs n rest)

head-Shrinks : Shrinks (head_value 0x5B)
head-Shrinks = record {
  shrinks = λ bs n rest h. omega (arith, head_value-consumes 0x5B bs n rest h);
}

full-Shrinks : (n : ℕ) → Shrinks (read_full n)
full-Shrinks n = record { shrinks = (read_full-IsReader n).shrinks }

pub long_form-Laws : CodecLaws long_form
long_form-Laws = record {
  uint = head-read 0x1B;
  array_length = number-read;
  byte_string = λ bytes rest h.
      ap string_value (append_assoc (head 0x5B (length bytes)) bytes rest)
      ∙ bind_step (head_value 0x5B) read_full _ (length bytes) (bytes ++ rest)
          (number-read (length bytes) (bytes ++ rest) h)
      ∙ read_full-append bytes rest;
  majors_uint = λ n rest h.
      bind_step (head_value 0x1B) _ _ n rest (number-read n rest h) ∙ (unfold pure in refl);
  majors_text = λ text rest h.
      ap majors_value (append_assoc (head 0x7B (length text)) text rest)
      ∙ bind_step (read_uint 8) _ _ (length text) (text ++ rest)
          (number-read (length text) (text ++ rest) h)
      ∙ (unfold pure in refl);
  raw_bytes = read_full-append;
  expect = λ b rest. rw (==_self b) refl;
  break_array = λ rest. refl;
  some_length = λ n. omega arith;
  uint_shrinks = λ bs n rest h. omega (arith, head_value-consumes 0x1B bs n rest h);
  byte_string_shrinks = (bind-Shrinks read_full head-Shrinks (λ n. full-Shrinks n)).shrinks;
  array_length_consumes = array_value-consumes;
}
