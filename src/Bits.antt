-- ===== src/Bits.antt =====
-- `&` and `|` of machine words as arithmetic: both act on the high and the low part of a number
-- one by one, wherever it is cut.
mod Step
pub mod Single
use Step.{bit_and_digit, bit_or_digit}
use native.Mathlib.Nat.{pow-suc, one-le-pow, zero-add, suc-add}
use vxdebug.Base.{
  ℕ, zero, suc, ◌+◌, ◌-◌, ◌*◌, ◌/◌, ◌%◌, ◌^◌, ◌<◌, ◌≤◌, bit_and, bit_or, ◌≡◌, refl, ap, arith, ◌∙◌,
}

-- How a product with a power reads one digit further.
double : (q k : ℕ) → q * 2 ^ suc k ≡ 2 * (q * 2 ^ k)
double q k = omega (arith, ap (λ (t : ℕ). q * t) (pow-suc 2 k))

bit_and-zero_zero : bit_and 0 0 ≡ 0
bit_and-zero_zero = refl

pub bit_and-cut :
    (k p q r s : ℕ)
    → r < 2 ^ k
    → s < 2 ^ k
    → bit_and (p * 2 ^ k + r) (q * 2 ^ k + s) ≡ bit_and p q * 2 ^ k + bit_and r s
bit_and-cut zero p q zero zero hr hs = ground arith
bit_and-cut zero p q (suc r) s hr hs = absurd (omega arith)
bit_and-cut zero p q r (suc s) hr hs = absurd (omega arith)
bit_and-cut (suc k) p q r s hr hs = ground (
  arith,
  double p k,
  double q k,
  double (bit_and p q) k,
  pow-suc 2 k,
  bit_and_digit (p * 2 ^ suc k + r) (q * 2 ^ suc k + s),
  bit_and_digit r s,
  bit_and-cut k p q (r / 2) (s / 2) (omega (arith, pow-suc 2 k)) (omega (arith, pow-suc 2 k)),
)

pub bit_or-cut :
    (k p q r s : ℕ)
    → r < 2 ^ k
    → s < 2 ^ k
    → bit_or (p * 2 ^ k + r) (q * 2 ^ k + s) ≡ bit_or p q * 2 ^ k + bit_or r s
bit_or-cut zero p q zero zero hr hs = ground arith
bit_or-cut zero p q (suc r) s hr hs = absurd (omega arith)
bit_or-cut zero p q r (suc s) hr hs = absurd (omega arith)
bit_or-cut (suc k) p q r s hr hs = ground (
  arith,
  double p k,
  double q k,
  double (bit_or p q) k,
  pow-suc 2 k,
  bit_or_digit (p * 2 ^ suc k + r) (q * 2 ^ suc k + s),
  bit_or_digit r s,
  bit_or-cut k p q (r / 2) (s / 2) (omega (arith, pow-suc 2 k)) (omega (arith, pow-suc 2 k)),
)

bit_and-zero_below : (k a : ℕ) → a ≤ k → bit_and a 0 ≡ 0
bit_and-zero_below k zero h = refl
bit_and-zero_below zero (suc a) h = absurd (omega arith)
bit_and-zero_below (suc k) (suc a) h =
    omega (arith, bit_and_digit (suc a) 0, bit_and-zero_below k (suc a / 2) (omega arith))

pub bit_and-zero : (a : ℕ) → bit_and a 0 ≡ 0
bit_and-zero a = bit_and-zero_below a a (omega arith)

bit_or-zero_below : (k a : ℕ) → a ≤ k → bit_or a 0 ≡ a
bit_or-zero_below k zero h = refl
bit_or-zero_below zero (suc a) h = absurd (omega arith)
bit_or-zero_below (suc k) (suc a) h =
    omega (arith, bit_or_digit (suc a) 0, bit_or-zero_below k (suc a / 2) (omega arith))

pub bit_or-zero : (a : ℕ) → bit_or a 0 ≡ a
bit_or-zero a = bit_or-zero_below a a (omega arith)

zero-bit_or_below : (k a : ℕ) → a ≤ k → bit_or 0 a ≡ a
zero-bit_or_below k zero h = refl
zero-bit_or_below zero (suc a) h = absurd (omega arith)
zero-bit_or_below (suc k) (suc a) h =
    omega (arith, bit_or_digit 0 (suc a), zero-bit_or_below k (suc a / 2) (omega arith))

pub zero-bit_or : (a : ℕ) → bit_or 0 a ≡ a
zero-bit_or a = zero-bit_or_below a a (omega arith)

-- A mask of ones keeps a number that fits it.
pub bit_and_ones : (k r : ℕ) → r < 2 ^ k → bit_and r (2 ^ k - 1) ≡ r
bit_and_ones zero zero h = refl
bit_and_ones zero (suc r) h = absurd (omega arith)
bit_and_ones (suc k) r h = ground (
  arith,
  pow-suc 2 k,
  one-le-pow k 2,
  bit_and_digit r (2 ^ suc k - 1),
  bit_and_ones k (r / 2) (omega (arith, pow-suc 2 k)),
)

-- A power of two splits like the sum of its exponents.
pub pow-add : (a b : ℕ) → 2 ^ (a + b) ≡ 2 ^ a * 2 ^ b
pow-add zero b = rw zero-add (omega arith)
pow-add (suc a) b = rw (suc-add, pow-suc, pow-suc, pow-add a b) (grind arith)

-- A number cut into three parts, the middle one `w` digits wide and `l` digits up.
module _ (w l a b c : ℕ) (hb : b < 2 ^ w) (hc : c < 2 ^ l) where
  -- `&` with a mask over the middle part keeps that part.
  pub bit_and_window : bit_and ((a * 2 ^ w + b) * 2 ^ l + c) ((2 ^ w - 1) * 2 ^ l) ≡ b * 2 ^ l
  bit_and_window = ground (
    arith,
    one-le-pow w 2,
    bit_and-cut l (a * 2 ^ w + b) (2 ^ w - 1) c 0,
    bit_and-cut w a 0 b (2 ^ w - 1),
    bit_and-zero a,
    bit_and-zero c,
    bit_and_ones w b,
  )

  -- `&` with the other bits of a word, `t` digits of them above, keeps the two outer parts.
  pub bit_and_around :
      (t : ℕ)
      → a < 2 ^ t
      → bit_and ((a * 2 ^ w + b) * 2 ^ l + c) ((2 ^ t - 1) * 2 ^ w * 2 ^ l + (2 ^ l - 1))
        ≡ a * 2 ^ w * 2 ^ l + c
  bit_and_around t ha = ground (
    arith,
    one-le-pow w 2,
    one-le-pow l 2,
    bit_and-cut l (a * 2 ^ w + b) ((2 ^ t - 1) * 2 ^ w) c (2 ^ l - 1),
    bit_and-cut w a (2 ^ t - 1) b 0,
    bit_and-zero b,
    bit_and_ones t a,
    bit_and_ones l c,
  )

  -- `|` puts a middle part between the outer ones.
  pub bit_or_window : bit_or (a * 2 ^ w * 2 ^ l + c) (b * 2 ^ l) ≡ (a * 2 ^ w + b) * 2 ^ l + c
  bit_or_window = ground (
    arith,
    one-le-pow w 2,
    bit_or-cut l (a * 2 ^ w) b c 0,
    bit_or-cut w a 0 0 b,
    bit_or-zero a,
    bit_or-zero c,
    zero-bit_or b,
  )
