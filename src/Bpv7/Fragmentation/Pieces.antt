-- ===== src/Bpv7/Fragmentation/Pieces.antt =====
-- The fragments that `Fragment` makes are pieces of the payload, one behind the other.
use dtn7_gold.Prelude.{
  ℕ, zero, suc, ◌+◌, ◌-◌, ◌≤◌, ◌<◌, min, bit_and, ◌≡◌, refl, sym, ap, ◌∙◌, subst, Bool, true, false,
  not, ◌&&◌, List, [], ◌∷◌, arith, length, Option, none, some, ltb, ◌==◌, if◌then◌else◌, Bool-cases,
  inl, inr,
}
use dtn7_gold.Prelude.Bits.{bit_and-parity}
use dtn7_gold.Prelude.Int.{ℤ}
use dtn7_gold.Bpv7.Flags.{has, is_fragment, replicate_block}
use dtn7_gold.Bpv7.Blocks.{payload_type, PrimaryBlock, CanonicalBlock, type_code, block_type_code}
use dtn7_gold.Bpv7.Bundle.{
  Result, ok, err, Bundle, add_extension_block, payload_block_of, extension_block, extension_blocks,
  must_new_bundle, sort_blocks,
}
use dtn7_gold.Bpv7.Bundle.Sorting.{HasDistinctNumbers}
use dtn7_gold.Bpv7.Bundle.Numbers.{add_extension_block_lem}
use dtn7_gold.Bpv7.Reassembly.{payload_of, payload_data, offset_of}
use dtn7_gold.Bpv7.Reassembly.Merge.{IsPiece, Covers, piece_of}
use dtn7_gold.Bpv7.Reassembly.Whole.{IsBody, add-HasNoPayload, add-payload}
use dtn7_gold.Bpv7.Cbor.{Codec}
use dtn7_gold.Bpv7.Fragmentation.{
  with_flag, fragment_block, piece_block, slice, add_fragment_blocks, fragment_bundle,
  next_fragment, before, fragment_loop,
}
use dtn7_gold.Bpv7.Fragmentation.Termination.{
  IsRound, next_fragment-IsRound, loop-end, loop-none, loop-err, loop-ok,
}

with_flag-has : (flags : ℕ) → has (with_flag flags is_fragment) is_fragment ≡ true
unfolding has
with_flag-has flags =
    ground (arith, bit_and-parity flags, bit_and-parity (flags + (1 - bit_and flags 1)))

either-IsBody :
    (t : Bool) (b x y : Bundle) → IsBody b x → IsBody b y → IsBody b (if t then x else y)
either-IsBody true b x y hx hy = hx
either-IsBody false b x y hx hy = hy

-- The blocks before the payload.
blocks-IsBody :
    (offset : ℕ) (cbs : List CanonicalBlock) (b b' : Bundle)
    → IsBody b b'
    → IsBody b (add_fragment_blocks offset cbs b')
unfolding add_fragment_blocks
blocks-IsBody offset [] b b' h = h
blocks-IsBody offset (cb ∷ cbs) b b' h =
    blocks-IsBody offset cbs b _ (chosen (type_code cb == payload_type) refl)
  where
    added : (type_code cb == payload_type) ≡ false → IsBody b (add_extension_block cb b')
    added other =
        let (_, _, _, _, distinct, primary) = add_extension_block_lem cb b' h.distinct in
        record {
          no_payload = add-HasNoPayload cb b' other h.no_payload;
          distinct = distinct;
          primary = primary ∙ h.primary;
        }

    chosen :
        (t : Bool)
        → (type_code cb == payload_type) ≡ t
        → IsBody b (
            if t
            then b'
            else if ltb 0 offset && not (has cb.block_control_flags replicate_block)
            then b'
            else add_extension_block cb b')
    chosen true e = h
    chosen false e = either-IsBody _ b b' (add_extension_block cb b') h (added e)

-- The payload and the primary block of a fragment.
pub record IsFragment (primary : PrimaryBlock) (bytes : List ℕ) (f : Bundle) : Type 0 where
  pub content : payload_of f ≡ ok bytes
  pub primary_same : f.primary_block ≡ primary
  pub distinct : HasDistinctNumbers f.canonical_blocks

fragment_bundle-IsFragment :
    (primary : PrimaryBlock) (b : Bundle) (pb : CanonicalBlock) (offset : ℕ) (bytes : List ℕ)
    → IsFragment primary bytes (fragment_bundle primary b pb offset bytes)
unfolding fragment_bundle payload_of payload_block_of extension_block extension_blocks payload_data
    must_new_bundle type_code block_type_code sort_blocks
fragment_bundle-IsFragment primary b pb offset bytes =
    let empty : Bundle = record { primary_block = primary; canonical_blocks = [] } in
    let body : Bundle = add_fragment_blocks offset b.canonical_blocks empty in
    let h : IsBody empty body =
      blocks-IsBody offset b.canonical_blocks empty empty
        (record { no_payload = refl; distinct = tt; primary = refl }) in
    let (_, _, _, _, distinct, same) =
      add_extension_block_lem (piece_block pb bytes) body h.distinct in
    record {
      content = rw (add-payload (piece_block pb bytes) body refl h.no_payload) refl;
      primary_same = same ∙ h.primary;
      distinct = distinct;
    }

module _ (c : Codec) (now : ℤ) (mtu : ℕ) (b : Bundle) (pb : CanonicalBlock) (bytes : List ℕ)
    (lens : ℕ × ℕ) where
  pub round-IsFragment :
      (i : ℕ) (f : Bundle) (next : ℕ)
      → IsRound c now mtu b pb bytes lens i f next
      → IsFragment
          (fragment_block b.primary_block i (length bytes))
          (slice i (min next (length bytes)) bytes)
          f
  round-IsFragment i f next h =
      let primary : PrimaryBlock = fragment_block b.primary_block i (length bytes) in
      let piece : List ℕ = slice i (min next (length bytes)) bytes in
      subst (IsFragment primary piece) (sym h.made)
        (fragment_bundle-IsFragment primary b pb i piece)

  -- The fragment of a round covers what is between its offset and the next.
  pub round-IsPiece :
      (i : ℕ) (f : Bundle) (next : ℕ)
      → i < length bytes
      → IsRound c now mtu b pb bytes lens i f next
      → (offset_of f ≡ i)
        × IsPiece bytes (min next (length bytes) - i) f
        × (f.primary_block.total_data_length ≡ length bytes)
  round-IsPiece i f next small h =
      let n : ℕ = min next (length bytes) - i in
      let part = round-IsFragment i f next h in
      let same : offset_of f ≡ i = ap (λ (p : PrimaryBlock). p.fragment_offset) part.primary_same in
      (
        same,
        record {
          flagged =
              ap (λ (p : PrimaryBlock). has p.bundle_control_flags is_fragment) part.primary_same
              ∙ with_flag-has b.primary_block.bundle_control_flags;
          inside = omega (arith, same, h.advances);
          bytes = subst (λ (o : ℕ). payload_of f ≡ ok (piece_of bytes o n)) (sym same) part.content;
        },
        ap (λ (p : PrimaryBlock). p.total_data_length) part.primary_same,
      )

  abbrev pub AreFragments : ℕ → List Bundle → Type 0
  AreFragments i [] = length bytes ≤ i
  AreFragments i (f ∷ fs) =
      (next : ℕ) × (i < length bytes)
      × IsRound c now mtu b pb bytes lens i f next
      × AreFragments next fs

  before-ok :
      (f : Bundle) (o : Option (Result (List Bundle))) (fs : List Bundle)
      → before f o ≡ some (ok fs)
      → (later : List Bundle) × (o ≡ some (ok later)) × (fs ≡ f ∷ later)
  before-ok f none fs h = cc
  before-ok f (some (err e)) fs h = ground arith
  before-ok f (some (ok later)) fs h = (later, refl, ground arith)

  ended :
      (rounds i : ℕ) (fs : List Bundle)
      → ltb i (length bytes) ≡ false
      → fragment_loop c now mtu b pb bytes lens rounds i ≡ some (ok fs)
      → AreFragments i fs
  ended rounds i fs over h =
      let same : some (ok []) ≡ some (ok fs) =
        sym (loop-end c now mtu b pb bytes lens rounds i over) ∙ h in
      let none_left : [] ≡ fs = ground arith in subst (AreFragments i) none_left (ground arith)

  pub loop-AreFragments :
      (rounds i : ℕ) (fs : List Bundle)
      → fragment_loop c now mtu b pb bytes lens rounds i ≡ some (ok fs)
      → AreFragments i fs
  loop-AreFragments zero i fs h = elim (Bool-cases (ltb i (length bytes))) [
    | inl goes_on ↦ cc (sym (loop-none c now mtu b pb bytes lens i goes_on) ∙ h)
    | inr over ↦ ended zero i fs over h
  ]
  loop-AreFragments (suc rounds) i fs h = elim (Bool-cases (ltb i (length bytes))) [
    | inl goes_on ↦
        go goes_on (λ next later h'. loop-AreFragments rounds next later h')
          (next_fragment c now mtu b pb bytes lens i) refl
    | inr over ↦ ended (suc rounds) i fs over h
  ]
    where
      go :
          ltb i (length bytes) ≡ true
          → ((next : ℕ) (later : List Bundle)
              → fragment_loop c now mtu b pb bytes lens rounds next ≡ some (ok later)
              → AreFragments next later)
          → (r : Result (Bundle × ℕ)) → next_fragment c now mtu b pb bytes lens i ≡ r
          → AreFragments i fs
      go goes_on rest (err e) h' =
          absurd
            (ground (arith, sym (loop-err c now mtu b pb bytes lens rounds i e goes_on h') ∙ h))
      go goes_on rest (ok (f, next)) h' =
          let (later, e, same) =
            before-ok f _ fs
              (sym (loop-ok c now mtu b pb bytes lens rounds i f next goes_on h') ∙ h) in
          subst (AreFragments i) (sym same) (
            next,
            ground arith,
            next_fragment-IsRound c now mtu b pb bytes lens i f next h',
            rest next later e,
          )

  pub Covers-AreFragments :
      (i : ℕ) (fs : List Bundle)
      → AreFragments i fs
      → Covers bytes (length bytes) (min i (length bytes)) fs
  Covers-AreFragments i [] h = omega arith
  Covers-AreFragments i (f ∷ fs) (next, small, round, later) =
      let (same, piece, _) = round-IsPiece i f next small round in
      (
        min next (length bytes) - i,
        piece,
        omega (arith, same),
        omega (arith, same, round.advances),
        subst (λ (k : ℕ). Covers bytes (length bytes) k fs) (omega (arith, same, round.advances))
            (Covers-AreFragments next fs later),
      )
