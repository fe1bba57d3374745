-- ===== src/Tcpcl/Messages/RoundTrip/Fields.antt =====
-- The fields of a message, read one after another, and the reason codes that are octets.
use dtn7_gold.Prelude.{
  ℕ, suc, ◌%◌, ◌^◌, ◌≤◌, ◌<◌, ◌≡◌, refl, ◌∙◌, true, false, List, [], ◌∷◌, ◌++◌, arith, length, leb,
  lt→ltb, le→leb, ◌==◌, Bool-cases, inl, inr, leb→le, leb-false→lt,
}
use dtn7_gold.Wire.{ok, Reader, ◌>>=◌, pure, guard, read_full, put_uint, read_uint}
use native.Mathlib.Nat.{mod-eq_of_lt}
use dtn7_gold.Wire.Laws.{guard_bind, bind_step, read_uint-put, read_full-append}
use dtn7_gold.Tcpcl.Messages.Types.{
  rejection_is_valid, termination_is_valid, refusal_is_valid, refusal_name,
}
use dtn7_gold.Tcpcl.Messages.Codec.{read_header, skip_items, make_bytes, read_payload}

-- A field is read cut to its width, and the reader goes on behind it.
pub uint_bind {ℓ} :
    {B : Type ℓ} (w v : ℕ) (f : ℕ → Reader B) (rest : List ℕ)
    → (read_uint w >>= f) (put_uint w v ++ rest) ≡ f (v % 256 ^ w) rest
uint_bind w v f rest = bind_step (read_uint w) f _ (v % 256 ^ w) rest (read_uint-put w v rest)

pub header-read :
    (code : ℕ) (rest : List ℕ)
    → code < 256
    → read_header code (put_uint 1 code ++ rest) ≡ ok (tt, rest)
unfolding read_header
header-read code rest h = uint_bind 1 code _ rest ∙ (unfold guard in ground (arith, mod-eq_of_lt h))

pub header_bind {ℓ} :
    {B : Type ℓ} (code : ℕ) (k : Unit {0} → Reader B) (rest : List ℕ)
    → code < 256
    → (read_header code >>= k) (put_uint 1 code ++ rest) ≡ k tt rest
header_bind code k rest h = bind_step (read_header code) k _ tt rest (header-read code rest h)

pub full_bind {ℓ} :
    {B : Type ℓ} (n : ℕ) (xs : List ℕ) (f : List ℕ → Reader B) (rest : List ℕ)
    → length xs ≡ n
    → (read_full n >>= f) (xs ++ rest) ≡ f xs rest
full_bind n xs f rest h = bind_step (read_full n) f _ xs rest (rw h at (read_full-append xs rest))

-- The reasons that are valid are octets.
pub rejection-lt : (c : ℕ) → rejection_is_valid c ≡ true → c < 256
unfolding rejection_is_valid
rejection-lt c h = ground arith

pub termination-lt : (c : ℕ) → termination_is_valid c ≡ true → c < 256
unfolding termination_is_valid
termination-lt c h = ground arith

refusal_name-invalid : (c : ℕ) → 6 < c → refusal_name c ≡ "INVALID"
unfolding refusal_name
refusal_name-invalid c h =
    let c0 : (c == 0) ≡ false = ground arith in
    let c1 : (c == 1) ≡ false = ground arith in
    let c2 : (c == 2) ≡ false = ground arith in
    let c3 : (c == 3) ≡ false = ground arith in
    let c4 : (c == 4) ≡ false = ground arith in
    let c5 : (c == 5) ≡ false = ground arith in
    let c6 : (c == 6) ≡ false = ground arith in rw (c0, c1, c2, c3, c4, c5, c6)

refusal-le : (c : ℕ) → refusal_is_valid c ≡ true → c ≤ 6
unfolding refusal_is_valid
refusal-le c h = elim (Bool-cases (leb c 6)) [
  | inl le ↦ leb→le c 6 le
  | inr gt ↦ cc (rw (refusal_name-invalid c (leb-false→lt c 6 gt)) at h)
]

pub refusal-lt : (c : ℕ) → refusal_is_valid c ≡ true → c < 256
refusal-lt c h = omega (arith, refusal-le c h)

pub skip_bind {ℓ} :
    {B : Type ℓ} (f : Unit {0} → Reader B) (bs : List ℕ) → (skip_items 0 >>= f) bs ≡ f tt bs
unfolding skip_items pure
skip_bind f bs = bind_step (skip_items 0) f bs tt bs refl

pub payload_bind :
    {B : Type 0} (max_alloc : ℕ) (xs : List ℕ) (f : List ℕ → Reader B) (rest : List ℕ)
    → length xs ≤ max_alloc
    → (read_payload max_alloc (length xs) >>= f) (xs ++ rest) ≡ f xs rest
unfolding read_payload make_bytes pure
payload_bind max_alloc [] f rest h = bind_step (read_payload max_alloc 0) f rest [] rest refl
payload_bind max_alloc (x ∷ xs) f rest h =
    bind_step (read_payload max_alloc (suc (length xs))) f _ (x ∷ xs) rest (
      rw
        (lt→ltb 0 (suc (length xs)) (omega arith), guard_bind _ _ _ (x ∷ xs ++ rest) (le→leb _ _ h))
        (read_full-append (x ∷ xs) rest))
