-- ===== src/Wire.antt =====
-- What pkg/cla/tcpclv4/internal/msgs and pkg/bpv7 take from Go's io and encoding/binary: a reader is
-- the list of bytes that are still to come, and its end is the end of the stream.
pub mod Laws
pub mod Reads
pub mod Shrinks
use dtn7_gold.Prelude.{
  ℕ, zero, suc, ◌+◌, ◌-◌, ◌*◌, ◌/◌, ◌%◌, Bool, List, [], ◌∷◌, ◌++◌, length, take, drop, leb,
  if◌then◌else◌,
}
use mathlib.Core.List.{foldl}

pub data Error : Type 0 where
  -- io.EOF, io.ErrUnexpectedEOF
  eof unexpected_eof : Error
  wrong_header wrong_magic invalid_reason unknown_type : Error
  -- cboring.FlagBreakCode, and any other error of a CBOR reader.
  cbor_break cbor_error : Error
  wrong_length wrong_version wrong_endpoint unknown_scheme out_of_range : Error
  unknown_crc wrong_crc unsupported_block invalid_bundle check_panic : Error
  -- No error of the program: the rounds given to a loop are over.
  rounds_over : Error
  -- `make` of a slice larger than the runtime allows panics.
  make_panic : Error

pub data Result {ℓ} (A : Type ℓ) : Type ℓ where
  ok : A → Result A
  err : Error → Result A

abbrev pub Reader {ℓ} : Type ℓ → Type ℓ
Reader A = List ℕ → Result (A × List ℕ)

infixl 5 ◌>>=◌ ◌>>◌
unfoldable pub ◌>>=◌ {ℓ κ} : {A : Type ℓ} {B : Type κ} → Reader A → (A → Reader B) → Reader B
◌>>=◌ m f bs = elim (m bs) [ ok (a, rest) ↦ f a rest | err e ↦ err e ]

abbrev pub ◌>>◌ {ℓ} : {B : Type ℓ} → Reader (Unit {0}) → Reader B → Reader B
m >> k = m >>= λ _. k

unfoldable pub pure {ℓ} : {A : Type ℓ} → A → Reader A
pure a bs = ok (a, bs)

unfoldable pub guard : Bool → Error → Reader (Unit {0})
guard b e bs = if b then ok (tt, bs) else err e

-- The error of `io.ReadFull` on a stream that is too short.
abbrev pub short_read : List ℕ → Error
short_read [] = eof
short_read (b ∷ bs) = unexpected_eof

-- `io.ReadFull` into a buffer of `n` bytes.
unfoldable pub read_full : ℕ → Reader (List ℕ)
read_full n bs = if leb n (length bs) then ok (take n bs, drop n bs) else err (short_read bs)

-- `binary.Write` of an unsigned integer of `w` bytes, big endian.
unfoldable pub put_uint : ℕ → ℕ → List ℕ
put_uint zero v = []
put_uint (suc w) v = put_uint w (v / 256) ++ v % 256 ∷ []

unfoldable pub uint_value : List ℕ → ℕ
uint_value = foldl (λ acc b. acc * 256 + b) 0

-- `binary.Read` of such an integer.
unfoldable pub read_uint : ℕ → Reader ℕ
read_uint w = do field ← read_full w; pure (uint_value field)

-- `binary.Read` of a struct of `n` bytes: they are read at once, and then taken apart.
unfoldable pub from_buffer {ℓ} : {A : Type ℓ} → Reader A → List ℕ → Reader A
from_buffer fields buffer bs = elim (fields buffer) [ ok (a, _) ↦ ok (a, bs) | err e ↦ err e ]

unfoldable pub read_struct {ℓ} : {A : Type ℓ} → ℕ → Reader A → Reader A
read_struct n fields = do buffer ← read_full n; from_buffer fields buffer

-- A result as a reader that takes nothing.
unfoldable pub lift {ℓ} : {A : Type ℓ} → Result A → Reader A
lift (ok a) bs = ok (a, bs)
lift (err e) bs = err e

-- `io.TeeReader`: what was read comes with the result.
unfoldable pub tee {ℓ} : {A : Type ℓ} → Reader A → Reader (A × List ℕ)
tee m bs = elim (m bs) [
  | ok (a, rest) ↦ ok ((a, take (length bs - length rest) bs), rest)
  | err e ↦ err e
]

-- Writers that may fail, one after another.
infixr 60 ◌⊕◌
abbrev pub ◌⊕◌ : Result (List ℕ) → Result (List ℕ) → Result (List ℕ)
ok xs ⊕ ok ys = ok (xs ++ ys)
ok xs ⊕ err e = err e
err e ⊕ r = err e
