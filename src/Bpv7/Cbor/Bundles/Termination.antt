-- ===== src/Bpv7/Cbor/Bundles/Termination.antt =====
-- The loop of `Bundle.UnmarshalCbor` comes to an end on every input.
use dtn7_gold.Prelude.{
  ℕ, zero, suc, ◌≤◌, ◌<◌, ◌≡◌, refl, arith, List, ◌∷◌, length, Bool, true, false, Option, some,
}
use dtn7_gold.Prelude.Int.{ℤ}
use dtn7_gold.Wire.{Result, ok, err, Reader}
use dtn7_gold.Wire.Shrinks.{
  Shrinks, bind-Shrinks, pure-Shrinks, guard-Shrinks, lift-Shrinks, from_buffer-Shrinks,
  tee-Shrinks, bind-consumes,
}
use dtn7_gold.Bpv7.Blocks.{PrimaryBlock, CanonicalBlock}
use dtn7_gold.Bpv7.Bundle.{Bundle}
use dtn7_gold.Bpv7.Validity.{check_valid}
use dtn7_gold.Bpv7.Cbor.{Codec, CodecLaws, check_crc}
use dtn7_gold.Bpv7.Cbor.Blocks.{
  wrap, block_of_type, read_block, canonical_fields, unmarshal_canonical,
}
use dtn7_gold.Bpv7.Cbor.Bundles.{
  at_error, and_then, verdict, bundle_of, after_blocks, unmarshal_blocks, read_start,
  unmarshal_bundle,
}

wrap-Shrinks {ℓ} : {A : Type ℓ} {m : Reader A} → Shrinks m → Shrinks (wrap m)
unfolding wrap
wrap-Shrinks {A} {m} hm = record { shrinks = λ bs a rest h. go bs a rest (m bs) refl h }
  where
    go :
        (bs : List ℕ) (a : A) (rest : List ℕ) (r : Result (A × List ℕ))
        → m bs ≡ r
        → wrap m bs ≡ ok (a, rest)
        → length rest ≤ length bs
    go bs a rest (ok (x, left)) e h = ground (arith, hm.shrinks bs x left e, rw (wrap, e) at h)
    go bs a rest (err x) e h = ground (arith, rw (wrap, e) at h)

-- The loop goes on with an end of its own.
and_then-some :
    (cb : CanonicalBlock) (o : Option (Result (List CanonicalBlock)))
    (r : Result (List CanonicalBlock))
    → o ≡ some r
    → (r' : Result (List CanonicalBlock)) × (and_then cb o ≡ some r')
and_then-some cb o (ok cbs) h = (ok (cb ∷ cbs), rw h)
and_then-some cb o (err e) h = (err e, rw h)

after_blocks-some :
    (now : ℤ) (pb : PrimaryBlock) (o : Option (Result (List CanonicalBlock)))
    (r : Result (List CanonicalBlock))
    → o ≡ some r
    → (r' : Result Bundle) × (after_blocks now pb o ≡ some r')
after_blocks-some now pb o (ok cbs) h =
    (verdict (bundle_of pb cbs) (check_valid now (bundle_of pb cbs)), rw h)
after_blocks-some now pb o (err e) h = (err e, rw h)

module _ (c : Codec) (laws : CodecLaws c) where
  uint-Shrinks : Shrinks c.read_uint
  uint-Shrinks = record { shrinks = laws.uint_shrinks }

  byte_string-Shrinks : Shrinks c.read_byte_string
  byte_string-Shrinks = record { shrinks = laws.byte_string_shrinks }

  check_crc-Shrinks : (flag : Bool) (t : ℕ) (buffer : List ℕ) → Shrinks (check_crc c flag t buffer)
  unfolding check_crc
  check_crc-Shrinks false t buffer = pure-Shrinks tt
  check_crc-Shrinks true t buffer =
      bind-Shrinks _ (lift-Shrinks _)
        (λ calculated. bind-Shrinks _ byte_string-Shrinks (λ value. guard-Shrinks _ _))

  fields-Shrinks : Shrinks (canonical_fields c)
  unfolding canonical_fields read_block
  fields-Shrinks = bind-Shrinks _ uint-Shrinks (λ code. bind-Shrinks _ uint-Shrinks (λ number.
      bind-Shrinks _ uint-Shrinks (λ flags. bind-Shrinks _ uint-Shrinks (λ crc.
        bind-Shrinks _
          (wrap-Shrinks (
            bind-Shrinks _ byte_string-Shrinks
              (λ bytes. from_buffer-Shrinks (block_of_type c code) bytes)))
          (λ value. pure-Shrinks _)))))

  canonical_consumes :
      (bs : List ℕ) (cb : CanonicalBlock) (rest : List ℕ)
      → unmarshal_canonical c bs ≡ ok (cb, rest)
      → length rest < length bs
  unfolding unmarshal_canonical
  canonical_consumes bs cb rest h =
      bind-consumes c.read_array_length _ bs cb rest (laws.array_length_consumes bs)
        (λ n. bind-Shrinks _ (guard-Shrinks _ _) (λ _.
          bind-Shrinks _ (tee-Shrinks fields-Shrinks)
            (λ fields. bind-Shrinks _ (check_crc-Shrinks _ _ _) (λ _. pure-Shrinks _))))
        h

  -- What the loop makes of a block that was read, and of an error.
  round_ends :
      (rounds : ℕ) (bs : List ℕ) (r : Result (CanonicalBlock × List ℕ))
      → unmarshal_canonical c bs ≡ r
      → ((rest : List ℕ)
          → length rest < length bs
          → (cbs : Result (List CanonicalBlock)) × (unmarshal_blocks c rounds rest ≡ some cbs))
      → (cbs : Result (List CanonicalBlock)) × (unmarshal_blocks c (suc rounds) bs ≡ some cbs)
  unfolding unmarshal_blocks
  round_ends rounds bs (err e) h later = (at_error e, rw (unmarshal_blocks, h))
  round_ends rounds bs (ok (cb, rest)) h later =
      let (r, e) = later rest (canonical_consumes bs cb rest h) in
      let (r', e') = and_then-some cb (unmarshal_blocks c rounds rest) r e in
      (r', rw (unmarshal_blocks, h, e'))

  blocks_end :
      (rounds : ℕ) (bs : List ℕ)
      → length bs < rounds
      → (r : Result (List CanonicalBlock)) × (unmarshal_blocks c rounds bs ≡ some r)
  blocks_end zero bs h = absurd (omega arith)
  blocks_end (suc rounds) bs h =
      round_ends rounds bs (unmarshal_canonical c bs) refl
        (λ rest small. blocks_end rounds rest (omega arith))

  -- On every input, the rounds that `unmarshal_bundle` gives its loop are enough: there is a bundle or an
  -- error.
  pub unmarshal_bundle-terminates :
      (now : ℤ) (bs : List ℕ) → (r : Result Bundle) × (unmarshal_bundle c now bs ≡ some r)
  unfolding unmarshal_bundle
  unmarshal_bundle-terminates now bs = go (read_start c bs) refl
    where
      go :
          (s : Result (PrimaryBlock × List ℕ))
          → read_start c bs ≡ s
          → (r : Result Bundle) × (unmarshal_bundle c now bs ≡ some r)
      go (err e) h = (err e, rw (unmarshal_bundle, h))
      go (ok (pb, rest)) h =
          let (cbs, e) = blocks_end (suc (length rest)) rest (omega arith) in
          let (r, e') =
            after_blocks-some now pb (unmarshal_blocks c (suc (length rest)) rest) cbs e in
          (r, rw (unmarshal_bundle, h, e'))
