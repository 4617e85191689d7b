-- ===== src/Bits/Single.antt =====
-- Setting one bit of a number.
use vxdebug.Bits.Step.{bit_or_digit}
use vxdebug.Bits.{bit_or-zero}
use native.Mathlib.Nat.{pow-suc, pow-le-pow_right, div-div-eq-div-mul}
use vxdebug.Base.{
  ◌<◌, ap₂, ℕ, zero, suc, ◌/◌, ◌%◌, ◌^◌, bit_or, ◌≡◌, ap, sym, ◌∙◌, arith, ◌==◌, ◌||◌,
}

-- One digit further.
div-pow : (v j : ℕ) → v / 2 ^ suc j ≡ v / 2 / 2 ^ j
div-pow v j =
    ap (λ (t : ℕ). v / t) (omega (arith, pow-suc 2 j)) ∙ sym (div-div-eq-div-mul v 2 (2 ^ j))

half-one : (m : ℕ) → bit_or m 1 / 2 ≡ m / 2
half-one m = omega (arith, bit_or_digit m 1, bit_or-zero (m / 2))

half : (k : ℕ) → 2 ^ suc k / 2 ≡ 2 ^ k
half k = omega (arith, pow-suc 2 k)

half-pow : (m k : ℕ) → bit_or m (2 ^ suc k) / 2 ≡ bit_or (m / 2) (2 ^ k)
half-pow m k = halved (2 ^ suc k) (omega (arith, pow-suc 2 k)) ∙ ap (bit_or (m / 2)) (half k)
  where
    halved : (n : ℕ) → n % 2 ≡ 0 → bit_or m n / 2 ≡ bit_or (m / 2) (n / 2)
    halved n e = omega (arith, bit_or_digit m n)

-- Bit `j` of a number in which bit `k` is set.
pub bit_or-bit :
    (m k j : ℕ) → (bit_or m (2 ^ k) / 2 ^ j % 2 == 1) ≡ ((m / 2 ^ j % 2 == 1) || (k == j))
bit_or-bit m zero zero = ground (arith, bit_or_digit m 1)
bit_or-bit m (suc k) zero = ground (arith, bit_or_digit m (2 ^ suc k), pow-suc 2 k)
bit_or-bit m zero (suc j) = rw (div-pow (bit_or m 1) j, div-pow m j, half-one m) (ground arith)
bit_or-bit m (suc k) (suc j) =
    rw (div-pow (bit_or m (2 ^ suc k)) j, div-pow m j, half-pow m k)
      (bit_or-bit (m / 2) k j ∙ ground arith)

pub bit_or-lt : (w a b : ℕ) → a < 2 ^ w → b < 2 ^ w → bit_or a b < 2 ^ w
bit_or-lt zero a b h l =
    omega
      (arith, ap₂ bit_or {x = a} {y = 0} {u = b} {v = 0} (omega arith) (omega arith), bit_or-zero 0)
bit_or-lt (suc w) a b h l = omega (
  arith,
  bit_or_digit a b,
  pow-suc 2 w,
  bit_or-lt w (a / 2) (b / 2) (omega (arith, pow-suc 2 w)) (omega (arith, pow-suc 2 w)),
)

pub pow-word : (k : ℕ) → k < 32 → 2 ^ k < 2 ^ 32
pow-word k h = omega (arith, pow-le-pow_right {n = 2} (omega arith) {i = k} {j = 31} (omega arith))
