-- ===== src/Bpv7/Validity/Payload.antt =====
-- What the checks of a bundle give about its payload block.
use dtn7_gold.Prelude.{
  ℕ, ◌≡◌, refl, Bool, true, false, not, List, [], ◌∷◌, ◌++◌, arith, All, Bool-cases, inl, inr, ◌==◌,
  ==_self, ==_iff, subst, sym, ◌∙◌,
}
use dtn7_gold.Prelude.Int.{ℤ}
use dtn7_gold.Bpv7.Flags.{Invalid, lifetime_exceeded, unless}
use dtn7_gold.Bpv7.Blocks.{
  CanonicalBlock, primary_check_valid, payload_type, type_code, extension_check_valid,
  canonical_check_valid,
}
use dtn7_gold.Bpv7.Bundle.{
  Result, ok, err, Bundle, of_type, some_blocks, single_block, payload_block_of, extension_block,
  extension_blocks, contains, block_numbers,
}
use dtn7_gold.Bpv7.Bundle.Sorting.{HasDistinctNumbers}
use dtn7_gold.Bpv7.Validity.{
  is_lifetime_exceeded, context_check_valid, blocks_check_valid, numbers_check_valid, last_type,
  age_check_valid, canonicals_check_valid, with_lifetime, check_blocks, check_valid,
}

no-errors : {A : Type 0} (xs ys : List A) → xs ++ ys ≡ [] → (xs ≡ []) × (ys ≡ [])
no-errors [] ys h = (refl, h)
no-errors (x ∷ xs) ys h = cc

unless-true : (b : Bool) (e : Invalid) → unless b e ≡ [] → b ≡ true
unless-true true e h = refl
unless-true false e h = cc

-- A payload block has the number 1.
abbrev HasPayloadNumber : CanonicalBlock → Type 0
HasPayloadNumber cb = (type_code cb == payload_type) ≡ true → (cb.block_number == 1) ≡ true

canonical-HasPayloadNumber :
    (cb : CanonicalBlock) → canonical_check_valid cb ≡ [] → HasPayloadNumber cb
unfolding canonical_check_valid type_code
canonical-HasPayloadNumber cb h is_payload =
    let e = unless-true _ _ (no-errors (extension_check_valid cb.value) _ h).1 in ground arith

blocks-HasPayloadNumber :
    (cbs : List CanonicalBlock) → blocks_check_valid cbs ≡ [] → All HasPayloadNumber cbs
unfolding blocks_check_valid
blocks-HasPayloadNumber [] h = tt
blocks-HasPayloadNumber (cb ∷ cbs) h =
    let (first, rest) = no-errors (canonical_check_valid cb) (blocks_check_valid cbs) h in
    (canonical-HasPayloadNumber cb first, blocks-HasPayloadNumber cbs rest)

numbers-HasDistinctNumbers :
    (seen : List ℕ) (b : Bundle) (cbs : List CanonicalBlock)
    → numbers_check_valid seen b cbs ≡ []
    → HasDistinctNumbers cbs
      × ((k : ℕ) → contains k seen ≡ true → contains k (block_numbers cbs) ≡ false)
unfolding numbers_check_valid contains
numbers-HasDistinctNumbers seen b [] h = (tt, λ k e. refl)
numbers-HasDistinctNumbers seen b (cb ∷ cbs) h =
    let (new, rest) = no-errors _ _ h in
    let (context, later) = no-errors (context_check_valid b cb.value) _ rest in
    let fresh = unless-true _ _ new in
    let (distinct, apart) = numbers-HasDistinctNumbers (cb.block_number ∷ seen) b cbs later in
    (
      (apart cb.block_number (rw (==_self cb.block_number)), distinct),
      λ k e. ground (arith, apart k),
    )

-- The blocks are some that carry no payload, and then the payload block.
pub record EndsInPayload (cbs : List CanonicalBlock) : Type 0 where
  pub before : List CanonicalBlock
  pub last : CanonicalBlock
  pub split : cbs ≡ before ++ last ∷ []
  pub last_type : type_code last ≡ payload_type
  pub last_number : last.block_number ≡ 1
  pub others : All (λ cb. (type_code cb == payload_type) ≡ false) before
  pub only : of_type payload_type cbs ≡ last ∷ []

-- Its number is among those of the blocks.
contains-last :
    (before : List CanonicalBlock) (last : CanonicalBlock)
    → contains last.block_number (block_numbers (before ++ last ∷ [])) ≡ true
unfolding contains
contains-last [] last = rw (==_self last.block_number)
contains-last (cb ∷ before) last = ground (arith, contains-last before last)

blocks-EndsInPayload :
    (cb : CanonicalBlock) (cbs : List CanonicalBlock)
    → All HasPayloadNumber (cb ∷ cbs)
    → HasDistinctNumbers (cb ∷ cbs)
    → (last_type cb cbs == payload_type) ≡ true
    → EndsInPayload (cb ∷ cbs)
unfolding last_type
blocks-EndsInPayload cb [] number distinct h = record {
  before = [];
  last = cb;
  split = refl;
  last_type = ground arith;
  last_number = ground (arith, number.0 h);
  others = tt;
  only = rw h;
}
blocks-EndsInPayload cb (next ∷ cbs) number distinct h =
    let ih : EndsInPayload (next ∷ cbs) = blocks-EndsInPayload next cbs number.1 distinct.1 h in
    let taken : contains ih.last.block_number (block_numbers (next ∷ cbs)) ≡ true =
      subst (λ l. contains ih.last.block_number (block_numbers l) ≡ true) (sym ih.split)
        (contains-last ih.before ih.last) in
    let other : (type_code cb == payload_type) ≡ false =
      elim (Bool-cases (type_code cb == payload_type)) [
        | inl is_payload ↦
            let same : cb.block_number ≡ ih.last.block_number =
              (==_iff _ _).0 (number.0 is_payload) ∙ sym ih.last_number in
            cc (distinct.0, rw (sym same) at taken)
        | inr no_payload ↦ no_payload
      ] in
    record {
      before = cb ∷ ih.before;
      last = ih.last;
      split = rw ih.split;
      last_type = ih.last_type;
      last_number = ih.last_number;
      others = (other, ih.others);
      only = rw (other, ih.only);
    }

ok-injective : {A : Type 0} (a b : A) → ok a ≡ ok b → a ≡ b
ok-injective a b h = cc

with_lifetime-ok :
    (errors : List Invalid) (r : Result Bool) → with_lifetime errors r ≡ ok [] → errors ≡ []
with_lifetime-ok errors (ok exceeded) h =
    (no-errors errors (unless (not exceeded) lifetime_exceeded) (ok-injective _ _ h)).0
with_lifetime-ok errors (err e) h = cc

canonicals-fields :
    (b : Bundle) (cb : CanonicalBlock) (cbs : List CanonicalBlock)
    → canonicals_check_valid b cb cbs ≡ []
    → HasDistinctNumbers (cb ∷ cbs) × ((last_type cb cbs == payload_type) ≡ true)
unfolding canonicals_check_valid
canonicals-fields b cb cbs h =
    let (_, rest) = no-errors _ _ h in
    let (numbers, rest') = no-errors (numbers_check_valid [] b (cb ∷ cbs)) _ rest in
    let (last, _) = no-errors _ (age_check_valid b) rest' in
    ((numbers-HasDistinctNumbers [] b (cb ∷ cbs) numbers).0, unless-true _ _ last)

-- A bundle that `CheckValid` finds no error in, at whatever time, has blocks of different numbers;
-- exactly one of them, the last, is a payload block; it has the number one, and `PayloadBlock`
-- returns it.
pub check_valid-EndsInPayload :
    (now : ℤ) (b : Bundle)
    → check_valid now b ≡ ok []
    → HasDistinctNumbers b.canonical_blocks
      × (e : EndsInPayload b.canonical_blocks) × (payload_block_of b ≡ ok e.last)
unfolding check_valid check_blocks payload_block_of extension_block extension_blocks
check_valid-EndsInPayload now b h = go b.canonical_blocks h
  where
    go :
        (cbs : List CanonicalBlock)
        → check_blocks now b cbs ≡ ok []
        → HasDistinctNumbers cbs
          × (e : EndsInPayload cbs) × (single_block (some_blocks (of_type payload_type cbs))
              ≡ ok e.last)
    go [] e = cc (no-errors (primary_check_valid b.primary_block) _ (ok-injective _ _ e)).1
    go (cb ∷ cbs) e =
        let (_, rest) =
          no-errors (primary_check_valid b.primary_block) _
            (with_lifetime-ok _ (is_lifetime_exceeded now b) e) in
        let (blocks, canonicals) = no-errors (blocks_check_valid (cb ∷ cbs)) _ rest in
        let (distinct, last_is_payload) = canonicals-fields b cb cbs canonicals in
        let ends : EndsInPayload (cb ∷ cbs) =
          blocks-EndsInPayload cb cbs (blocks-HasPayloadNumber (cb ∷ cbs) blocks) distinct
            last_is_payload in
        (distinct, ends, rw ends.only)
