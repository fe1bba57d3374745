-- ===== src/Bpv7/Fragmentation/Totals.antt =====
-- The bytes of all blocks of a fragment.
use dtn7_gold.Prelude.{
  ℕ, zero, suc, ◌+◌, ◌-◌, ◌≤◌, ◌<◌, ◌≡◌, refl, sym, subst, ap, ◌∙◌, Bool, true, false, not, ◌&&◌,
  List, [], ◌∷◌, ◌++◌, arith, length, length-append, ltb, ◌==◌, Bool-cases, inl, inr, if◌then◌else◌,
}
use dtn7_gold.Wire.{Result as Written, ok as written, err as unwritten}
use dtn7_gold.Bpv7.Flags.{has, replicate_block}
use dtn7_gold.Bpv7.Blocks.{payload_type, CanonicalBlock, type_code}
use dtn7_gold.Bpv7.Bundle.{
  Result, ok, err, ◌>>=◌, Bundle, less, insert, sort_blocks, number_for, free_number, contains,
  block_numbers, add_extension_block,
}
use dtn7_gold.Bpv7.Cbor.{Codec}
use dtn7_gold.Bpv7.Fragmentation.Cut.{ok-inj}
use dtn7_gold.Bpv7.Cbor.Blocks.{marshal_canonical}
use dtn7_gold.Bpv7.Cbor.Bundles.{marshal_blocks}
use dtn7_gold.Bpv7.Fragmentation.{
  size_of, estimated, add_len, extension_blocks_len, add_fragment_blocks,
}
use dtn7_gold.Bpv7.Fragmentation.Sizes.{SizeLaws, bytes_of, block_size, block-estimated}

abbrev pub total : Codec → List CanonicalBlock → ℕ
total c [] = 0
total c (cb ∷ cbs) = block_size c cb + total c cbs

module _ (c : Codec) where
  pub marshal_blocks-total :
      (cbs : List CanonicalBlock) → bytes_of (marshal_blocks c cbs) ≤ total c cbs
  unfolding marshal_blocks
  marshal_blocks-total [] = omega arith
  marshal_blocks-total (cb ∷ cbs) =
      go (marshal_canonical c cb) (marshal_blocks c cbs) (marshal_blocks-total cbs)
    where
      go :
          (x y : Written (List ℕ))
          → bytes_of y ≤ total c cbs
          → bytes_of (dtn7_gold.Wire.◌⊕◌ x y) ≤ bytes_of x + total c cbs
      go (written a) (written b) h = omega (arith, length-append a b, h)
      go (written a) (unwritten e) h = omega arith
      go (unwritten e) y h = omega arith

  total-append : (xs ys : List CanonicalBlock) → total c (xs ++ ys) ≡ total c xs + total c ys
  total-append [] ys = omega arith
  total-append (x ∷ xs) ys = omega (arith, total-append xs ys)

  total-insert :
      (x : CanonicalBlock) (ys : List CanonicalBlock)
      → total c (insert x ys) ≡ block_size c x + total c ys
  unfolding insert
  total-insert x [] = refl
  total-insert x (y ∷ ys) = elim (Bool-cases (less x y)) [
    | inl first ↦ rw first refl
    | inr later ↦ rw later (omega (arith, total-insert x ys))
  ]

  total-sort : (xs : List CanonicalBlock) → total c (sort_blocks xs) ≡ total c xs
  unfolding sort_blocks
  total-sort [] = refl
  total-sort (x ∷ xs) = total-insert x (sort_blocks xs) ∙ omega (arith, total-sort xs)

  length-insert :
      (x : CanonicalBlock) (ys : List CanonicalBlock) → length (insert x ys) ≡ suc (length ys)
  unfolding insert
  length-insert x [] = refl
  length-insert x (y ∷ ys) = elim (Bool-cases (less x y)) [
    | inl first ↦ rw first refl
    | inr later ↦ rw later (omega (arith, length-insert x ys))
  ]

  length-sort : (xs : List CanonicalBlock) → length (sort_blocks xs) ≡ length xs
  unfolding sort_blocks
  length-sort [] = refl
  length-sort (x ∷ xs) = length-insert x (sort_blocks xs) ∙ omega (arith, length-sort xs)

  pub add-total :
      (cb : CanonicalBlock) (b : Bundle)
      → total c (add_extension_block cb b).canonical_blocks
        ≡ total c b.canonical_blocks
          + block_size c (record cb { block_number = number_for cb b.canonical_blocks })
  unfolding add_extension_block
  add-total cb b =
      let numbered = record cb { block_number = number_for cb b.canonical_blocks } in
      total-sort (b.canonical_blocks ++ numbered ∷ [])
      ∙ total-append b.canonical_blocks (numbered ∷ [])
      ∙ omega arith

  pub length-add :
      (cb : CanonicalBlock) (b : Bundle)
      → length (add_extension_block cb b).canonical_blocks ≡ suc (length b.canonical_blocks)
  unfolding add_extension_block
  length-add cb b =
      let numbered = record cb { block_number = number_for cb b.canonical_blocks } in
      length-sort (b.canonical_blocks ++ numbered ∷ [])
      ∙ length-append b.canonical_blocks (numbered ∷ [])
      ∙ omega arith

  free_number-most : (rounds n : ℕ) (taken : List ℕ) → free_number rounds n taken ≤ n + rounds
  unfolding free_number
  free_number-most zero n taken = omega arith
  free_number-most (suc rounds) n taken = elim (Bool-cases (contains n taken)) [
    | inl known ↦ rw known (omega (arith, free_number-most rounds (n + 1) taken))
    | inr free ↦ rw free (omega arith)
  ]

  -- The number of a block is at most two above the number of blocks before it.
  pub number_for-most :
      (cb : CanonicalBlock) (cbs : List CanonicalBlock) → number_for cb cbs ≤ 2 + length cbs
  unfolding number_for
  number_for-most cb cbs = go (type_code cb == payload_type)
    where
      go :
          (t : Bool)
          → free_number (length cbs) (if t then 1 else 2) (block_numbers cbs) ≤ 2 + length cbs
      go true = omega (arith, free_number-most (length cbs) 1 (block_numbers cbs))
      go false = omega (arith, free_number-most (length cbs) 2 (block_numbers cbs))

-- What the estimate has for the payload blocks, of which there is one.
abbrev pub payload_share : Codec → ℕ → CanonicalBlock → ℕ
payload_share c mtu cb = block_size c (estimated cb) + (length (c.write_byte_string_len mtu) - 1)

abbrev pub payload_total : Codec → ℕ → List CanonicalBlock → ℕ
payload_total c mtu [] = 0
payload_total c mtu (cb ∷ cbs) =
    (if type_code cb == payload_type then payload_share c mtu cb else 0) + payload_total c mtu cbs

abbrev pub share : ℕ → ℕ × ℕ → ℕ
share i lens = if i == 0 then lens.0 else lens.1

module _ (c : Codec) (mtu : ℕ) where
  -- What a block adds to the estimate.
  share-payload :
      (i size : ℕ) (cb : CanonicalBlock) (rest : ℕ × ℕ)
      → (type_code cb == payload_type) ≡ true
      → share i rest + (size + (length (c.write_byte_string_len mtu) - 1))
        ≤ share i (add_len c mtu cb size rest)
  share-payload i size cb rest payload = elim (Bool-cases (i == 0)) [
    | inl first ↦ rw (payload, first) (omega arith)
    | inr later ↦ rw (payload, later) (omega arith)
  ]

  share-any :
      (i size : ℕ) (cb : CanonicalBlock) (rest : ℕ × ℕ)
      → (type_code cb == payload_type) ≡ false
      → share i rest ≤ share i (add_len c mtu cb size rest)
  share-any i size cb rest other = elim (Bool-cases (i == 0)) [
    | inl first ↦ rw (other, first) (omega arith)
    | inr later ↦ rw (other, later) (omega arith)
  ]

  share-kept :
      (i size : ℕ) (cb : CanonicalBlock) (rest : ℕ × ℕ)
      → (type_code cb == payload_type) ≡ false
      → (ltb 0 i && not (has cb.block_control_flags replicate_block)) ≡ false
      → share i rest + size ≤ share i (add_len c mtu cb size rest)
  share-kept i size cb rest other kept = elim (Bool-cases (i == 0)) [
    | inl first ↦ rw (other, first) (omega arith)
    | inr later ↦
        let replicated : has cb.block_control_flags replicate_block ≡ true = ground arith in
        rw (other, later, replicated) (omega arith)
  ]

  len-cons :
      (cb : CanonicalBlock) (cbs : List CanonicalBlock) (lens : ℕ × ℕ)
      → extension_blocks_len c mtu (cb ∷ cbs) ≡ ok lens
      → (rest : ℕ × ℕ) × (extension_blocks_len c mtu cbs ≡ ok rest)
        × (lens ≡ add_len c mtu cb (block_size c (estimated cb)) rest)
  unfolding extension_blocks_len
  len-cons cb cbs lens h =
      go (marshal_canonical c (estimated cb)) (extension_blocks_len c mtu cbs) h
    where
      go :
          (m : Written (List ℕ)) (r : Result (ℕ × ℕ))
          → (◌>>=◌ {B = ℕ × ℕ}
              (size_of m)
              (λ size. ◌>>=◌ {B = ℕ × ℕ} r (λ rest. ok (add_len c mtu cb size rest))))
            ≡ ok lens
          → (rest : ℕ × ℕ) × (r ≡ ok rest) × (lens ≡ add_len c mtu cb (bytes_of m) rest)
      go (written bytes) (ok rest) q = (rest, refl, sym (ok-inj q))
      go (written bytes) (err e) q = ground arith
      go (unwritten e) r q = ground arith

  blocks-kept :
      (i : ℕ) (cb : CanonicalBlock) (cbs : List CanonicalBlock) (b : Bundle)
      → (type_code cb == payload_type) ≡ false
      → (ltb 0 i && not (has cb.block_control_flags replicate_block)) ≡ false
      → add_fragment_blocks i (cb ∷ cbs) b ≡ add_fragment_blocks i cbs (add_extension_block cb b)
  unfolding add_fragment_blocks
  blocks-kept i cb cbs b other kept =
      let skips = ltb 0 i && not (has cb.block_control_flags replicate_block) in
      let added = add_extension_block cb b in
      ap (λ t. add_fragment_blocks i cbs (if t then b else if skips then b else added)) other
      ∙ ap (λ t. add_fragment_blocks i cbs (if t then b else added)) kept

  -- The blocks before the payload fit into their share of the estimate.
  pub add_fragment_blocks-total :
      (laws : SizeLaws c) (i : ℕ) (cbs : List CanonicalBlock) (b : Bundle) (lens : ℕ × ℕ)
      → extension_blocks_len c mtu cbs ≡ ok lens
      → length b.canonical_blocks + length cbs < 22
      → (total c (add_fragment_blocks i cbs b).canonical_blocks + payload_total c mtu cbs
          ≤ total c b.canonical_blocks + share i lens)
        × (length (add_fragment_blocks i cbs b).canonical_blocks
            ≤ length b.canonical_blocks + length cbs)
  unfolding add_fragment_blocks
  add_fragment_blocks-total laws i [] b lens h few = (omega arith, omega arith)
  add_fragment_blocks-total laws i (cb ∷ cbs) b lens h few =
      let (rest, known, e) = len-cons cb cbs lens h in
      let est = block_size c (estimated cb) in
      let whole : share i lens ≡ share i (add_len c mtu cb est rest) = ap (share i) e in
      elim (Bool-cases (type_code cb == payload_type)) [
        | inl payload ↦
            let later = add_fragment_blocks-total laws i cbs b rest known (omega (arith, few)) in
            let grows = share-payload i est cb rest payload in
            rw (add_fragment_blocks, payload)
              (omega (arith, later.0, whole, grows), omega (arith, later.1))
        | inr other ↦
            elim (Bool-cases (ltb 0 i && not (has cb.block_control_flags replicate_block))) [
              | inl skipped ↦
                  let later =
                    add_fragment_blocks-total laws i cbs b rest known (omega (arith, few)) in
                  let grows = share-any i est cb rest other in
                  rw (add_fragment_blocks, other, skipped)
                    (omega (arith, later.0, whole, grows), omega (arith, later.1))
              | inr kept ↦
                  let b' = add_extension_block cb b in
                  let longer = length-add c cb b in
                  let more = add-total c cb b in
                  let small = number_for-most c cb b.canonical_blocks in
                  let most =
                    block-estimated c laws cb (number_for cb b.canonical_blocks) other
                      (omega (arith, small, few)) in
                  let later =
                    add_fragment_blocks-total laws i cbs b' rest known
                      (omega (arith, few, longer)) in
                  let grows = share-kept i est cb rest other kept in
                  let none_more : payload_total c mtu (cb ∷ cbs) ≡ payload_total c mtu cbs =
                    rw other (omega arith) in
                  subst
                    (λ (x : Bundle).
                      (total c x.canonical_blocks + payload_total c mtu (cb ∷ cbs)
                        ≤ total c b.canonical_blocks + share i lens)
                      × (length x.canonical_blocks ≤ length b.canonical_blocks + length (cb ∷ cbs)))
                    (sym (blocks-kept i cb cbs b other kept))
                    (
                      omega (arith, later.0, whole, grows, more, most, none_more),
                      omega (arith, later.1, longer),
                    )
            ]
      ]
