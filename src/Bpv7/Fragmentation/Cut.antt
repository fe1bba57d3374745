-- ===== src/Bpv7/Fragmentation/Cut.antt =====
-- What a successful call of `Fragment` went through.
use dtn7_gold.Prelude.{
  ℕ, ◌≡◌, refl, ap, Bool, true, false, List, [], ◌∷◌, arith, length, Option, none, some,
  if◌then◌else◌,
}
use dtn7_gold.Prelude.Int.{ℤ}
use dtn7_gold.Bpv7.Flags.{has, must_not_fragmented}
use dtn7_gold.Bpv7.Blocks.{CanonicalBlock}
use dtn7_gold.Bpv7.Bundle.{Result, ok, err, ◌>>=◌, must_not_fragment, payload_block_of, Bundle}
use dtn7_gold.Bpv7.Reassembly.{payload_of, payload_data}
use dtn7_gold.Bpv7.Cbor.{Codec}
use dtn7_gold.Bpv7.Fragmentation.{
  extension_blocks_len, prepare_fragments, fragment, whole_if_single,
}
use dtn7_gold.Bpv7.Fragmentation.Pieces.{AreFragments, loop-AreFragments}

pub ok-inj {ℓ} : {A : Type ℓ} {x y : A} → ok x ≡ ok y → x ≡ y
ok-inj h = ground arith

-- The loop that a successful call went through.
pub record IsCut (c : Codec) (now : ℤ) (mtu : ℕ) (b : Bundle) (fs : List Bundle) : Type 0 where
  pub block : CanonicalBlock
  pub payload : List ℕ
  pub lens : ℕ × ℕ
  pub lens_found : extension_blocks_len c mtu b.canonical_blocks ≡ ok lens
  pub block_found : payload_block_of b ≡ ok block
  pub payload_found : payload_of b ≡ ok payload
  pub cut : AreFragments c now mtu b block payload lens 0 fs

prepare-payload :
    (c : Codec) (mtu : ℕ) (b : Bundle) (pb : CanonicalBlock) (bytes : List ℕ) (lens : ℕ × ℕ)
    → prepare_fragments c mtu b ≡ ok (pb, (bytes, lens))
    → (payload_of b ≡ ok bytes)
      × (extension_blocks_len c mtu b.canonical_blocks ≡ ok lens)
      × (payload_block_of b ≡ ok pb)
unfolding prepare_fragments payload_of
prepare-payload c mtu b pb bytes lens h =
    go (has b.primary_block.bundle_control_flags must_not_fragmented) (payload_block_of b) h
  where
    inner :
        (p : CanonicalBlock) (d : Result (List ℕ)) (l : Result (ℕ × ℕ))
        → ◌>>=◌ {B = CanonicalBlock × (List ℕ × (ℕ × ℕ))} d (λ x. l >>= λ y. ok (p, (x, y)))
          ≡ ok (pb, (bytes, lens))
        → (d ≡ ok bytes) × (l ≡ ok lens) × (p ≡ pb)
    inner p (err e) l e' = ground arith
    inner p (ok x) (err e) e' = ground arith
    inner p (ok x) (ok y) e' = (ground arith, ap ok (ground arith), ground arith)

    go :
        (t : Bool) (r : Result CanonicalBlock)
        → (if t
            then err must_not_fragment
            else ◌>>=◌ {B = CanonicalBlock × (List ℕ × (ℕ × ℕ))} r (λ p. payload_data p >>= λ x.
                extension_blocks_len c mtu b.canonical_blocks >>= λ y. ok (p, (x, y))))
          ≡ ok (pb, (bytes, lens))
        → (◌>>=◌ {B = List ℕ} r payload_data ≡ ok bytes)
          × (extension_blocks_len c mtu b.canonical_blocks ≡ ok lens)
          × (r ≡ ok pb)
    go true r e = ground arith
    go false (err x) e = ground arith
    go false (ok p) e =
        let (content, len, same) =
          inner p (payload_data p) (extension_blocks_len c mtu b.canonical_blocks) e in
        (content, len, ap ok same)

pub fragment-IsCut :
    (c : Codec) (now : ℤ) (mtu : ℕ) (b f g : Bundle) (fs : List Bundle)
    → fragment c now mtu b ≡ some (ok (f ∷ g ∷ fs))
    → IsCut c now mtu b (f ∷ g ∷ fs)
unfolding fragment
fragment-IsCut c now mtu b f g fs h = go (prepare_fragments c mtu b) refl
  where
    several :
        (o : Option (Result (List Bundle)))
        → whole_if_single b o ≡ some (ok (f ∷ g ∷ fs))
        → o ≡ some (ok (f ∷ g ∷ fs))
    several none e = cc
    several (some (err e)) e' = ground arith
    several (some (ok [])) e' = ground arith
    several (some (ok (x ∷ []))) e' = ground arith
    several (some (ok (x ∷ y ∷ xs))) e' = e'

    go :
        (p : Result (CanonicalBlock × (List ℕ × (ℕ × ℕ))))
        → prepare_fragments c mtu b ≡ p
        → IsCut c now mtu b (f ∷ g ∷ fs)
    go (err e) h' = absurd (ground (arith, rw (fragment, h') at h))
    go (ok (pb, (bytes, lens))) h' = record {
      block = pb;
      payload = bytes;
      lens = lens;
      lens_found = (prepare-payload c mtu b pb bytes lens h').1;
      block_found = (prepare-payload c mtu b pb bytes lens h').2;
      payload_found = (prepare-payload c mtu b pb bytes lens h').0;
      cut =
          loop-AreFragments c now mtu b pb bytes lens (length bytes) 0 (f ∷ g ∷ fs)
            (several _ (rw (fragment, h') at h));
    }
