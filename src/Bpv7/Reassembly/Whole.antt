-- ===== src/Bpv7/Reassembly/Whole.antt =====
-- The bundle that is made of fragments.
use dtn7_gold.Prelude.{
  ℕ, ◌^◌, ◌<◌, ◌≡◌, refl, ap, sym, ◌∙◌, subst, true, false, List, [], ◌∷◌, ◌++◌, arith, length,
  take_all, Bool-cases, inl, inr, ◌==◌, ==_iff, if◌then◌else◌,
}
use dtn7_gold.Prelude.Int.{ℤ}
use dtn7_gold.Bpv7.Blocks.{
  payload_type, block_type_code, CanonicalBlock, type_code, new_canonical_block,
}
use dtn7_gold.Bpv7.Bundle.{
  Result, ok, err, ◌>>=◌, Bundle, less, insert, sort_blocks, of_type, extension_block,
  extension_blocks, payload_block_of, number_for, add_extension_block,
}
use dtn7_gold.Bpv7.Bundle.Sorting.{HasDistinctNumbers}
use dtn7_gold.Bpv7.Bundle.Numbers.{add_extension_block_lem}
use dtn7_gold.Bpv7.Reassembly.{
  payload_data, payload_of, sort_fragments, check_total, prepare_reassembly, merge_fragment_payload,
  whole_primary, add_extension_blocks, whole_payload, whole_bundle, checked, reassemble_fragments,
}
use dtn7_gold.Bpv7.Reassembly.Merge.{Covers, merge_lem, check_gaps_lem}

-- No block carries the payload.
abbrev pub HasNoPayload : List CanonicalBlock → Type 0
HasNoPayload cbs = of_type payload_type cbs ≡ []

of_type-insert-other :
    (x : CanonicalBlock) (ys : List CanonicalBlock)
    → (type_code x == payload_type) ≡ false
    → of_type payload_type (insert x ys) ≡ of_type payload_type ys
unfolding insert
of_type-insert-other x [] h = rw h
of_type-insert-other x (y ∷ ys) h = elim (Bool-cases (less x y)) [
  | inl first ↦ rw (first, h)
  | inr later ↦ rw (later, of_type-insert-other x ys h)
]

HasNoPayload-cons :
    (x : CanonicalBlock) (xs : List CanonicalBlock)
    → HasNoPayload (x ∷ xs)
    → ((type_code x == payload_type) ≡ false) × HasNoPayload xs
HasNoPayload-cons x xs h = elim (Bool-cases (type_code x == payload_type)) [
  | inl is_payload ↦ cc (rw is_payload at h)
  | inr other ↦ (other, rw other at h)
]

-- Sorting blocks and one more behind them.
of_type-sort_blocks :
    (xs : List CanonicalBlock) (y : CanonicalBlock)
    → HasNoPayload xs
    → of_type payload_type (sort_blocks (xs ++ y ∷ [])) ≡ of_type payload_type (y ∷ [])
unfolding sort_blocks insert
of_type-sort_blocks [] y h = refl
of_type-sort_blocks (x ∷ xs) y h =
    let (other, rest) = HasNoPayload-cons x xs h in
    of_type-insert-other x (sort_blocks (xs ++ y ∷ [])) other ∙ of_type-sort_blocks xs y rest

pub add-HasNoPayload :
    (cb : CanonicalBlock) (b : Bundle)
    → (type_code cb == payload_type) ≡ false
    → HasNoPayload b.canonical_blocks
    → HasNoPayload (add_extension_block cb b).canonical_blocks
unfolding add_extension_block type_code
add-HasNoPayload cb b other h = of_type-sort_blocks b.canonical_blocks _ h ∙ rw other

pub add-payload :
    (cb : CanonicalBlock) (b : Bundle)
    → (type_code cb == payload_type) ≡ true
    → HasNoPayload b.canonical_blocks
    → of_type payload_type (add_extension_block cb b).canonical_blocks
      ≡ record cb { block_number = number_for cb b.canonical_blocks } ∷ []
unfolding add_extension_block type_code
add-payload cb b is_payload h = of_type-sort_blocks b.canonical_blocks _ h ∙ rw is_payload

-- What holds of the bundle before its payload comes.
pub record IsBody (b b' : Bundle) : Type 0 where
  pub no_payload : HasNoPayload b'.canonical_blocks
  pub distinct : HasDistinctNumbers b'.canonical_blocks
  pub primary : b'.primary_block ≡ b.primary_block

pub adds-IsBody :
    (cbs : List CanonicalBlock) (b b' : Bundle)
    → IsBody b b'
    → IsBody b (add_extension_blocks cbs b')
unfolding add_extension_blocks
adds-IsBody [] b b' h = h
adds-IsBody (cb ∷ cbs) b b' h = elim (Bool-cases (type_code cb == payload_type)) [
  | inl is_payload ↦
      subst (λ t. IsBody b (add_extension_blocks cbs (if t then b' else add_extension_block cb b')))
        (sym is_payload) (adds-IsBody cbs b b' h)
  | inr other ↦
      let (_, _, _, _, distinct, primary) = add_extension_block_lem cb b' h.distinct in
      subst (λ t. IsBody b (add_extension_blocks cbs (if t then b' else add_extension_block cb b')))
        (sym other)
        (adds-IsBody cbs b (add_extension_block cb b') (record {
          no_payload = add-HasNoPayload cb b' other h.no_payload;
          distinct = distinct;
          primary = primary ∙ h.primary;
        }))
]

-- A bundle with this primary block and this payload, whose blocks have different numbers.
pub record IsWhole (first : Bundle) (payload : List ℕ) (b : Bundle) : Type 0 where
  pub content : payload_of b ≡ ok payload
  pub primary : b.primary_block ≡ whole_primary first.primary_block
  pub distinct : HasDistinctNumbers b.canonical_blocks

whole_bundle-IsWhole :
    (first : Bundle) (cb : CanonicalBlock) (payload : List ℕ)
    → IsWhole first payload (whole_bundle first cb payload)
unfolding whole_bundle payload_of payload_block_of extension_block extension_blocks payload_data
    whole_payload new_canonical_block type_code block_type_code
whole_bundle-IsWhole first cb payload =
    let empty : Bundle = record {
      primary_block = whole_primary first.primary_block;
      canonical_blocks = [];
    } in
    let body : Bundle = add_extension_blocks first.canonical_blocks empty in
    let h : IsBody empty body =
      adds-IsBody first.canonical_blocks empty empty
        (record { no_payload = refl; distinct = tt; primary = refl }) in
    let (_, _, _, _, distinct, primary) =
      add_extension_block_lem (whole_payload cb payload) body h.distinct in
    record {
      content = rw (add-payload (whole_payload cb payload) body refl h.no_payload) refl;
      primary = primary ∙ h.primary;
      distinct = distinct;
    }

-- A bundle with a payload has a payload block.
payload_of-payload_block_of :
    (b : Bundle) (bytes : List ℕ)
    → payload_of b ≡ ok bytes
    → (cb : CanonicalBlock) × (payload_block_of b ≡ ok cb)
unfolding payload_of
payload_of-payload_block_of b bytes h = go (payload_block_of b) refl h
  where
    go :
        (r : Result CanonicalBlock)
        → payload_block_of b ≡ r
        → (r >>= payload_data) ≡ ok bytes
        → (cb : CanonicalBlock) × (payload_block_of b ≡ ok cb)
    go (ok cb) e h' = (cb, e)
    go (err e) _ h' = cc

prepared :
    (payload : List ℕ) (bs : List Bundle) (first : Bundle) (rest : List Bundle)
    → length payload < 2 ^ 63
    → sort_fragments bs ≡ first ∷ rest
    → Covers payload (length payload) 0 (first ∷ rest)
    → first.primary_block.total_data_length ≡ length payload
    → prepare_reassembly bs ≡ ok (first ∷ rest)
unfolding prepare_reassembly check_total
prepared payload bs first rest fits sorted covered total =
    let test : (first.primary_block.total_data_length == length payload) ≡ true =
      (==_iff _ _).1 total in
    rw (sorted, check_gaps_lem payload (length payload) 0 (first ∷ rest) fits covered, test)

-- Fragments in whatever order that are pieces of one payload, which is shorter than 2 ^ 63 bytes: if
-- they cover it without a gap when sorted by their offsets, none of them ending before an earlier
-- one does, and the first one says the right total length, then reassembling them gives the check of
-- a bundle with exactly this payload, the primary block of the first fragment without its fragment
-- fields, and block numbers that differ. Overlaps and repeated pieces do not matter.
pub reassemble_fragments_lem :
    (now : ℤ) (payload : List ℕ) (bs : List Bundle) (first : Bundle) (rest : List Bundle)
    → length payload < 2 ^ 63
    → sort_fragments bs ≡ first ∷ rest
    → Covers payload (length payload) 0 (first ∷ rest)
    → first.primary_block.total_data_length ≡ length payload
    → (b : Bundle) × (reassemble_fragments now bs ≡ checked now b) × IsWhole first payload b
unfolding reassemble_fragments merge_fragment_payload
reassemble_fragments_lem now payload bs first rest fits sorted covered total =
    let (cb, found) = payload_of-payload_block_of first _ covered.1.bytes in
    let merged : merge_fragment_payload (first ∷ rest) ≡ ok payload =
      merge_lem payload (length payload) 0 (first ∷ rest) fits covered
      ∙ ap ok (take_all (length payload) payload (omega arith)) in
    (
      whole_bundle first cb payload,
      rw (prepared payload bs first rest fits sorted covered total, merged, found),
      whole_bundle-IsWhole first cb payload,
    )
