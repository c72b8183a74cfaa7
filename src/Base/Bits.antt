-- ===== src/Base/Bits.antt =====
-- The third bit of a word, under `bit_and` and `bit_or`.
use Prim.Native.Nat.{
  ℕ, zero, suc, ◌+◌, ◌*◌, ◌/◌, ◌%◌, ◌≤◌, min, max, bit_and, bit_or, digits, bit_and-bitwise,
  bit_or-bitwise,
}
use mathlib.Core.Path.{◌≡◌, refl, ap}
use native.Mathlib.Omega.{arith}

-- The digits of an operation do not depend on the fuel once there is enough of it.
module _ (z : ℕ → ℕ) (f : ℕ → ℕ → ℕ) where
  enough : (n m a b : ℕ) → a ≤ n → a ≤ m → digits z f n a b ≡ digits z f m a b
  enough zero zero a b p q = refl
  enough zero (suc m) zero b p q = refl
  enough zero (suc m) (suc a) b p q = absurd (omega arith)
  enough (suc n) zero zero b p q = refl
  enough (suc n) zero (suc a) b p q = absurd (omega arith)
  enough (suc n) (suc m) zero b p q = refl
  enough (suc n) (suc m) (suc a) b p q =
      omega (arith, enough n m (suc a / 2) (b / 2) (omega arith) (omega arith))

and_step : (a b : ℕ) → bit_and (suc a) b ≡ bit_and (suc a / 2) (b / 2) * 2 + min (suc a % 2) (b % 2)
and_step a b = omega (
  arith,
  bit_and-bitwise (suc a) b,
  bit_and-bitwise (suc a / 2) (b / 2),
  enough (λ b. zero) min a (suc a / 2) (suc a / 2) (b / 2) (omega arith) (omega arith),
)

or_step : (a b : ℕ) → bit_or (suc a) b ≡ bit_or (suc a / 2) (b / 2) * 2 + max (suc a % 2) (b % 2)
or_step a b = omega (
  arith,
  bit_or-bitwise (suc a) b,
  bit_or-bitwise (suc a / 2) (b / 2),
  enough (λ b. b) max a (suc a / 2) (suc a / 2) (b / 2) (omega arith) (omega arith),
)

and-zero_fuel : (n a : ℕ) → a ≤ n → bit_and a 0 ≡ 0
and-zero_fuel n zero h = refl
and-zero_fuel zero (suc a) h = absurd (omega arith)
and-zero_fuel (suc n) (suc a) h =
    omega (arith, and_step a 0, and-zero_fuel n (suc a / 2) (omega arith))

and-zero : (a : ℕ) → bit_and a 0 ≡ 0
and-zero a = and-zero_fuel a a (omega arith)

and_half : (a b : ℕ) → bit_and a (b * 2) ≡ bit_and (a / 2) b * 2
and_half zero b = omega (arith, bit_and-bitwise 0 (b * 2), bit_and-bitwise 0 b)
and_half (suc a) b = omega (arith, and_step a (b * 2), ap_half (b * 2 / 2) b (omega arith))
  where
    ap_half : (c d : ℕ) → c ≡ d → bit_and (suc a / 2) c ≡ bit_and (suc a / 2) d
    ap_half c d e = ap (bit_and (suc a / 2)) e

or_half : (a b : ℕ) → bit_or a (b * 2) / 2 ≡ bit_or (a / 2) b
or_half zero b = omega (arith, bit_or-bitwise 0 (b * 2), bit_or-bitwise 0 b)
or_half (suc a) b = omega (arith, or_step a (b * 2), ap_half (b * 2 / 2) b (omega arith))
  where
    ap_half : (c d : ℕ) → c ≡ d → bit_or (suc a / 2) c ≡ bit_or (suc a / 2) d
    ap_half c d e = ap (bit_or (suc a / 2)) e

-- The lowest bit, under both.
or-one : (a : ℕ) → bit_or a 1 % 2 ≡ 1
or-one zero = refl
or-one (suc a) = omega (arith, or_step a 1)

and-one : (a : ℕ) → bit_and a 1 ≡ a % 2
and-one zero = refl
and-one (suc a) = omega (arith, and_step a 1, and-zero (suc a / 2))

-- The third bit is set by the `or`.
pub and-or-four : (a : ℕ) → bit_and (bit_or a 4) 4 ≡ 4
and-or-four a = omega (
  arith,
  and_half (bit_or a 4) 2,
  and_half (bit_or a 4 / 2) 1,
  ap (λ n. bit_and (n / 2) 1) (or_half a 2),
  ap (λ n. bit_and n 1) (or_half (a / 2) 1),
  and-one (bit_or (a / 2 / 2) 1),
  or-one (a / 2 / 2),
)
