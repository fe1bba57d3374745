-- ===== src/Bbc/Fragment/Header.antt =====
-- The header byte of a fragment: what `NewFragment` writes is what the getters read.
use dtn7_gold.Prelude.{
  ℕ, ◌+◌, ◌*◌, ◌/◌, ◌%◌, ◌<◌, ◌≡◌, refl, ◌∙◌, Bool, true, false, List, some, arith, ◌==◌, ==_iff,
  if◌then◌else◌,
}
use dtn7_gold.Prelude.Bits.{passes, passes-below, bit_and-one, bit_and-two, bit_and-four}
use dtn7_gold.Bbc.Fragment.{
  Fragment, make_identifier, new_fragment, parse_fragment, sequence_number_of, sequence_number,
  start_bit, end_bit, fail_bit, to_bytes,
}

-- The header byte in arithmetic.
abbrev pub flag_value : Bool → ℕ → ℕ
flag_value b n = if b then n else 0

abbrev identifier_value : ℕ → Bool → Bool → Bool → ℕ
identifier_value seq start end fail =
    seq % 32 * 8 + flag_value start 4 + flag_value end 2 + flag_value fail 1

identifier_table :
    (start end fail : Bool)
    → passes (λ s. make_identifier s start end fail == identifier_value s start end fail) 256 ≡ true
unfolding passes make_identifier
identifier_table true true true = refl
identifier_table true true false = refl
identifier_table true false true = refl
identifier_table true false false = refl
identifier_table false true true = refl
identifier_table false true false = refl
identifier_table false false true = refl
identifier_table false false false = refl

identifier_lem :
    (s : ℕ) (start end fail : Bool)
    → s < 256
    → make_identifier s start end fail ≡ identifier_value s start end fail
identifier_lem s start end fail h =
    (==_iff _ _).0 (passes-below _ 256 s (identifier_table start end fail) h)

sequence_table : passes (λ i. sequence_number_of i == i / 8 % 32) 256 ≡ true
unfolding passes sequence_number_of
sequence_table = refl

sequence_lem : (i : ℕ) → i < 256 → sequence_number_of i ≡ i / 8 % 32
sequence_lem i h = (==_iff _ _).0 (passes-below _ 256 i sequence_table h)

pub sequence_number-lt : (f : Fragment) → f.identifier < 256 → sequence_number f < 32
unfolding sequence_number
sequence_number-lt f h = omega (arith, sequence_lem f.identifier h)

module _ (tid seq : ℕ) (start end fail : Bool) (payload : List ℕ) (byte : seq < 256) where
  abbrev pub fragment : Fragment
  fragment = new_fragment tid seq start end fail payload

  pub sequence_number-new : sequence_number fragment ≡ seq % 32
  unfolding sequence_number new_fragment
  sequence_number-new = ground (
    arith,
    identifier_lem seq start end fail byte,
    sequence_lem (make_identifier seq start end fail),
  )

  pub start_bit-new : start_bit fragment ≡ start
  unfolding start_bit new_fragment
  start_bit-new = ground (
    arith,
    identifier_lem seq start end fail byte,
    bit_and-four (make_identifier seq start end fail),
  )

  pub end_bit-new : end_bit fragment ≡ end
  unfolding end_bit new_fragment
  end_bit-new = ground (
    arith,
    identifier_lem seq start end fail byte,
    bit_and-two (make_identifier seq start end fail),
  )

  pub fail_bit-new : fail_bit fragment ≡ fail
  unfolding fail_bit new_fragment
  fail_bit-new = ground (
    arith,
    identifier_lem seq start end fail byte,
    bit_and-one (make_identifier seq start end fail),
  )

  pub transmission_id-new : fragment.transmission_id ≡ tid
  unfolding new_fragment
  transmission_id-new = refl

  pub payload-new : fragment.payload ≡ payload
  unfolding new_fragment
  payload-new = refl

  pub parse-to_bytes : parse_fragment (to_bytes fragment) ≡ some fragment
  unfolding parse_fragment to_bytes
  parse-to_bytes = refl

-- A fragment that is made of a sequence number below 32, flags and a payload goes through its bytes
-- unchanged, and its getters give back exactly what it was made of: the flags and the number do not
-- disturb each other in their common byte.
pub fragment_roundtrip :
    (tid seq : ℕ) (start end fail : Bool) (payload : List ℕ)
    → seq < 32
    → (f : Fragment) × (parse_fragment (to_bytes (new_fragment tid seq start end fail payload))
        ≡ some f)
      × (f.transmission_id ≡ tid)
      × (sequence_number f ≡ seq)
      × (start_bit f ≡ start)
      × (end_bit f ≡ end)
      × (fail_bit f ≡ fail)
      × (f.payload ≡ payload)
fragment_roundtrip tid seq start end fail payload h =
    let byte : seq < 256 = omega arith in
    (
      new_fragment tid seq start end fail payload,
      parse-to_bytes tid seq start end fail payload byte,
      transmission_id-new tid seq start end fail payload byte,
      sequence_number-new tid seq start end fail payload byte ∙ omega arith,
      start_bit-new tid seq start end fail payload byte,
      end_bit-new tid seq start end fail payload byte,
      fail_bit-new tid seq start end fail payload byte,
      payload-new tid seq start end fail payload byte,
    )
