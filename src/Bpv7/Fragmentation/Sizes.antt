-- ===== src/Bpv7/Fragmentation/Sizes.antt =====
-- The bytes of a block in a fragment, against those of the block that `fragmentExtensionBlocksLen` estimates.
use dtn7_gold.Prelude.{
  ℕ, zero, suc, ◌+◌, ◌-◌, ◌≤◌, ◌<◌, ◌≡◌, refl, ap, ◌∙◌, Bool, true, false, List, [], ◌++◌, arith,
  length, length-append, ◌==◌, inl, inr, ◌⊎◌, if◌then◌else◌,
}
use dtn7_gold.Wire.{Result as Written, ok as written, err as unwritten, put_uint}
use dtn7_gold.Wire.Laws.{length-put_uint}
use dtn7_gold.Bpv7.Blocks.{
  crc32, payload_block, payload_type, block_type_code, CanonicalBlock, type_code,
}
use dtn7_gold.Bpv7.Bundle.{ok}
use dtn7_gold.Bpv7.Cbor.{Codec, empty_crc, calculate_crc, with_crc}
use dtn7_gold.Bpv7.Cbor.Blocks.{has_crc, write_block, marshal_canonical}
use dtn7_gold.Bpv7.Fragmentation.{size_of, estimated, piece_block}

-- How CBOR's heads grow: a number below 24 has a shortest head, and longer arrays and strings have no shorter
-- ones. A byte string is its head and its bytes.
pub record SizeLaws (c : Codec) : Type 0 where
  pub uint_small : (m n : ℕ) → m < 24 → length (c.write_uint m) ≤ length (c.write_uint n)
  pub array_grows :
      (m n : ℕ) → m ≤ n → length (c.write_array_length m) ≤ length (c.write_array_length n)
  pub string_len :
      (bytes : List ℕ)
      → length (c.write_byte_string bytes)
        ≡ length (c.write_byte_string_len (length bytes)) + length bytes
  pub string_grows :
      (m n : ℕ) → m ≤ n → length (c.write_byte_string_len m) ≤ length (c.write_byte_string_len n)
  pub string_some : (n : ℕ) → 1 ≤ length (c.write_byte_string_len n)

-- The number of bytes that are written; what cannot be written has none.
abbrev pub bytes_of : Written (List ℕ) → ℕ
bytes_of (written bytes) = length bytes
bytes_of (unwritten e) = 0

pub size_of-bytes : (r : Written (List ℕ)) (s : ℕ) → size_of r ≡ ok s → bytes_of r ≡ s
size_of-bytes (written bytes) s h = ground arith
size_of-bytes (unwritten e) s h = ground arith

abbrev pub block_size : Codec → CanonicalBlock → ℕ
block_size c cb = bytes_of (marshal_canonical c cb)

module _ (c : Codec) (laws : SizeLaws c) where
  -- The field of the longest checksum.
  abbrev longest_crc : ℕ
  longest_crc = length (c.write_byte_string_len 4) + 4

  crc16-size : (v : ℕ) → length (c.write_byte_string (put_uint 2 v)) ≤ longest_crc
  crc16-size v =
      let two : length (put_uint 2 v) ≡ 2 = length-put_uint 2 v in
      let size = laws.string_len (put_uint 2 v) in
      let grows = laws.string_grows (length (put_uint 2 v)) 4 (omega (arith, two)) in
      omega (arith, two, size, grows)

  crc32-size : (v : ℕ) → length (c.write_byte_string (put_uint 4 v)) ≡ longest_crc
  crc32-size v =
      laws.string_len (put_uint 4 v)
      ∙ ap (λ n. length (c.write_byte_string_len n) + n) (length-put_uint 4 v)

  -- A block whose checksum is of an unknown type is not written.
  with_crc-size :
      (t : ℕ) (body : List ℕ)
      → (bytes_of (with_crc c (has_crc t) t (written body)) ≡ 0)
        ⊎ ((t < 24)
            × (bytes_of (with_crc c (has_crc t) t (written body)) ≤ length body + longest_crc))
  unfolding with_crc calculate_crc empty_crc
  with_crc-size zero body = inr (omega arith, omega arith)
  with_crc-size (suc zero) body =
      inr (omega arith, omega (arith, length-append body _, crc16-size _))
  with_crc-size (suc (suc zero)) body =
      inr (omega arith, omega (arith, length-append body _, crc32-size _))
  with_crc-size (suc (suc (suc n))) body =
      let other : (k : ℕ) → k ≤ 2 → (suc (suc (suc n)) == k) ≡ false = λ k h. ground arith in
      inl (
        rw
          (
            other 0 (omega arith),
            calculate_crc,
            empty_crc,
            other 1 (omega arith),
            other 2 (omega arith),
          )
          refl)

  abbrev head_size : ℕ → ℕ → ℕ → ℕ
  head_size code number flags =
      length (c.write_array_length 6)
      + length (c.write_uint code)
      + length (c.write_uint number)
      + length (c.write_uint flags)
      + length (c.write_uint crc32)

  body-length :
      (a b e f g d : List ℕ)
      → length (a ++ (b ++ (e ++ (f ++ (g ++ d)))))
        ≡ length a + length b + length e + length f + length g + length d
  body-length a b e f g d = omega (
    arith,
    length-append a (b ++ (e ++ (f ++ (g ++ d)))),
    length-append b (e ++ (f ++ (g ++ d))),
    length-append e (f ++ (g ++ d)),
    length-append f (g ++ d),
    length-append g d,
  )

  -- A block with any checksum is at most as long as with the longest one, for which the size is exact.
  block-size_most :
      (cb : CanonicalBlock) (d : List ℕ)
      → write_block c cb.value ≡ written d
      → block_size c cb
        ≤ head_size (block_type_code cb.value) cb.block_number cb.block_control_flags
          + length d
          + longest_crc
  unfolding marshal_canonical
  block-size_most cb d h =
      let array = c.write_array_length (if has_crc cb.crc_type then 6 else 5) in
      let code = c.write_uint (block_type_code cb.value) in
      let number = c.write_uint cb.block_number in
      let flags = c.write_uint cb.block_control_flags in
      let crc = c.write_uint cb.crc_type in
      let body : List ℕ = array ++ (code ++ (number ++ (flags ++ (crc ++ d)))) in
      let sum = body-length array code number flags crc d in
      let short : length array ≤ length (c.write_array_length 6) =
        array-most (has_crc cb.crc_type) in
      rw h (elim (with_crc-size cb.crc_type body) [
        | inl unwritten_block ↦ omega (arith, unwritten_block)
        | inr (small, most) ↦
            omega (arith, most, sum, short, laws.uint_small cb.crc_type crc32 small)
      ])
    where
      array-most :
          (t : Bool)
          → length (c.write_array_length (if t then 6 else 5)) ≤ length (c.write_array_length 6)
      array-most true = omega arith
      array-most false = laws.array_grows 5 6 (omega arith)

  block-size_crc32 :
      (cb : CanonicalBlock) (d : List ℕ)
      → write_block c cb.value ≡ written d
      → block_size c (record cb { crc_type = crc32 })
        ≡ head_size (block_type_code cb.value) cb.block_number cb.block_control_flags
          + length d
          + longest_crc
  unfolding marshal_canonical with_crc calculate_crc empty_crc
  block-size_crc32 cb d h =
      let array = c.write_array_length 6 in
      let code = c.write_uint (block_type_code cb.value) in
      let number = c.write_uint cb.block_number in
      let flags = c.write_uint cb.block_control_flags in
      let crc = c.write_uint crc32 in
      let body : List ℕ = array ++ (code ++ (number ++ (flags ++ (crc ++ d)))) in
      let sum = body-length array code number flags crc d in
      rw h (omega (arith, length-append body _, crc32-size _, sum))

  -- A block of a fragment under a small number is at most as long as is estimated for it.
  pub block-estimated :
      (cb : CanonicalBlock) (n : ℕ)
      → (type_code cb == payload_type) ≡ false
      → n < 24
      → block_size c (record cb { block_number = n }) ≤ block_size c (estimated cb)
  unfolding estimated marshal_canonical
  block-estimated cb n other small = go (write_block c cb.value) refl
    where
      go :
          (r : Written (List ℕ))
          → write_block c cb.value ≡ r
          → block_size c (record cb { block_number = n }) ≤ block_size c (estimated cb)
      go (written d) e =
          let numbered = block-size_most (record cb { block_number = n }) d e in
          let exact = block-size_crc32 cb d e in
          rw other (omega (arith, numbered, exact, laws.uint_small n cb.block_number small))
      go (unwritten x) e = rw e (omega arith)

  -- And the payload block, with the field for the length of the bytes.
  pub payload-estimated :
      (pb : CanonicalBlock) (bytes : List ℕ) (n mtu : ℕ)
      → (type_code pb == payload_type) ≡ true
      → n < 24
      → length bytes ≤ mtu
      → block_size c (record (piece_block pb bytes) { block_number = n })
        ≤ block_size c (estimated pb) + (length (c.write_byte_string_len mtu) - 1) + length bytes
  unfolding estimated write_block dtn7_gold.Bpv7.Cbor.Blocks.extension_data block_type_code
  payload-estimated pb bytes n mtu payload small fits =
      let numbered =
        block-size_most (record (piece_block pb bytes) { block_number = n })
          (c.write_byte_string bytes) refl in
      let exact =
        block-size_crc32 (record pb { value = payload_block [] }) (c.write_byte_string []) refl in
      rw payload (
        omega (
          arith,
          numbered,
          exact,
          laws.uint_small n pb.block_number small,
          laws.string_len bytes,
          laws.string_len [],
          laws.string_some 0,
          laws.string_some mtu,
          laws.string_grows (length bytes) mtu fits,
        ))
