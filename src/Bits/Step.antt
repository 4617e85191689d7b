-- ===== src/Bits/Step.antt =====
-- The lowest binary digit of the native `bit_and` and `bit_or`, with the fuel of their definition
-- taken away.
use Prim.Native.Nat.{digits, bit_and-bitwise, bit_or-bitwise}
use vxdebug.Base.{
  ℕ, zero, suc, ◌+◌, ◌*◌, ◌/◌, ◌%◌, ◌≤◌, min, max, bit_and, bit_or, ◌≡◌, refl, arith,
}

module _ (rest : ℕ → ℕ) (digit : ℕ → ℕ → ℕ) where
  -- Any two amounts of fuel that cover the first operand give the same digits.
  same_fuel : (k j a b : ℕ) → a ≤ k → a ≤ j → digits rest digit k a b ≡ digits rest digit j a b
  same_fuel zero zero a b hk hj = refl
  same_fuel zero (suc j) zero b hk hj = refl
  same_fuel zero (suc j) (suc a) b hk hj = absurd (omega arith)
  same_fuel (suc k) zero zero b hk hj = refl
  same_fuel (suc k) zero (suc a) b hk hj = absurd (omega arith)
  same_fuel (suc k) (suc j) zero b hk hj = refl
  same_fuel (suc k) (suc j) (suc a) b hk hj =
      omega (arith, same_fuel k j (suc a / 2) (b / 2) (omega arith) (omega arith))

pub bit_and_digit : (a b : ℕ) → bit_and a b ≡ 2 * bit_and (a / 2) (b / 2) + min (a % 2) (b % 2)
bit_and_digit zero b = omega (arith, bit_and-bitwise 0 b, bit_and-bitwise 0 (b / 2))
bit_and_digit (suc a) b = omega (
  arith,
  bit_and-bitwise (suc a) b,
  bit_and-bitwise (suc a / 2) (b / 2),
  same_fuel (λ y. 0) min a (suc a / 2) (suc a / 2) (b / 2) (omega arith) (omega arith),
)

pub bit_or_digit : (a b : ℕ) → bit_or a b ≡ 2 * bit_or (a / 2) (b / 2) + max (a % 2) (b % 2)
bit_or_digit zero b = omega (arith, bit_or-bitwise 0 b, bit_or-bitwise 0 (b / 2))
bit_or_digit (suc a) b = omega (
  arith,
  bit_or-bitwise (suc a) b,
  bit_or-bitwise (suc a / 2) (b / 2),
  same_fuel (λ y. y) max a (suc a / 2) (suc a / 2) (b / 2) (omega arith) (omega arith),
)
