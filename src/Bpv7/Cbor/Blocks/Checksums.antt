-- ===== src/Bpv7/Cbor/Blocks/Checksums.antt =====
-- pkg/bpv7/crc.go: a checksum that is written is found right when it is read.
use dtn7_gold.Prelude.{
  ℕ, zero, suc, ◌≤◌, ◌<◌, ◌^◌, ◌≡◌, refl, sym, ap, ◌∙◌, Bool, true, false, List, [], ◌++◌,
  append-nil, arith, length,
}
use dtn7_gold.Prelude.Bytes.{equal_self}
use dtn7_gold.Wire.{ok, guard}
use dtn7_gold.Wire.Laws.{length-put_uint, bind_step}
use dtn7_gold.Wire.Reads.{Reads, pure-Reads, lift-Reads}
use dtn7_gold.Bpv7.Cbor.{Codec, CodecLaws, empty_crc, calculate_crc, with_crc, check_crc}

pub crc-value :
    (c : Codec) (t : ℕ) (body : List ℕ)
    → t ≤ 2
    → (value : List ℕ) × (calculate_crc c body t ≡ ok value) × (length value < 2 ^ 64)
unfolding calculate_crc empty_crc
crc-value c zero body h = ([], refl, omega arith)
crc-value c (suc zero) body h = (_, refl, rw (length-put_uint 2 _) (omega arith))
crc-value c (suc (suc zero)) body h = (_, refl, rw (length-put_uint 4 _) (omega arith))
crc-value c (suc (suc (suc t))) body h = absurd (omega arith)

module _ (c : Codec) (laws : CodecLaws c) where
  -- What `with_crc` adds behind the body, and what `check_crc` takes.
  pub crc-RoundTrip :
      (flag : Bool) (t : ℕ) (body : List ℕ)
      → t ≤ 2
      → (tail : List ℕ) × (with_crc c flag t (ok body) ≡ ok (body ++ tail))
        × Reads (check_crc c flag t body) tail tt
  unfolding with_crc check_crc
  crc-RoundTrip false t body h = ([], ap ok (sym (append-nil body)), pure-Reads tt)
  crc-RoundTrip true t body h =
      let (value, e, size) = crc-value c t body h in
      (
        c.write_byte_string value,
        rw e,
        lift-Reads _ e (record {
          back = λ rest.
              bind_step c.read_byte_string _ _ value rest (laws.byte_string value rest size)
              ∙ (unfold guard in rw (equal_self value));
        }),
      )
