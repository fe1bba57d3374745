-- ===== src/Prelude/Bits.antt =====
-- Facts about the bytes, each by trying all of them.
use Prim.Native.Nat.{ℕ, zero, suc, ◌*◌, ◌/◌, ◌%◌, ◌<◌, min, bit_and, digits, bit_and-bitwise}
use dtn7_gold.Prelude.Tests.{◌==◌, ==_iff, if◌then◌else◌}
use mathlib.Core.Path.{◌≡◌, refl}
use mathlib.Core.Bool.{Bool, true, false}
use native.Mathlib.Omega.{arith}

-- A test that every number before the bound passes.
unfoldable pub passes : (ℕ → Bool) → ℕ → Bool
passes test zero = true
passes test (suc bound) = if test bound then passes test bound else false

pub passes-below :
    (test : ℕ → Bool) (bound n : ℕ) → passes test bound ≡ true → n < bound → test n ≡ true
unfolding passes
passes-below test zero n all below = absurd (omega arith)
passes-below test (suc bound) n all below = ground (arith, passes-below test bound n)

-- The lowest three bits of a byte.
one_table : passes (λ a. bit_and a 1 == a % 2) 256 ≡ true
unfolding passes
one_table = refl

pub bit_and-one : (a : ℕ) → a < 256 → bit_and a 1 ≡ a % 2
bit_and-one a h = (==_iff _ _).0 (passes-below _ 256 a one_table h)

two_table : passes (λ a. bit_and a 2 == a / 2 % 2 * 2) 256 ≡ true
unfolding passes
two_table = refl

pub bit_and-two : (a : ℕ) → a < 256 → bit_and a 2 ≡ a / 2 % 2 * 2
bit_and-two a h = (==_iff _ _).0 (passes-below _ 256 a two_table h)

four_table : passes (λ a. bit_and a 4 == a / 4 % 2 * 4) 256 ≡ true
unfolding passes
four_table = refl

pub bit_and-four : (a : ℕ) → a < 256 → bit_and a 4 ≡ a / 4 % 2 * 4
bit_and-four a h = (==_iff _ _).0 (passes-below _ 256 a four_table h)

-- The lowest bit of any number.
digits-zero : (n a : ℕ) → digits (λ b. zero) min n a 0 ≡ 0
digits-zero zero a = refl
digits-zero (suc n) zero = refl
digits-zero (suc n) (suc a) = omega (arith, digits-zero n (suc a / 2))

pub bit_and-parity : (a : ℕ) → bit_and a 1 ≡ a % 2
bit_and-parity zero = refl
bit_and-parity (suc a) = omega (arith, bit_and-bitwise (suc a) 1, digits-zero a (suc a / 2))
