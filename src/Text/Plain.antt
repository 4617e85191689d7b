-- ===== src/Text/Plain.antt =====
-- `strtoul` of a number printed with no more digits than it needs.
use vxdebug.Base.{ℕ, suc, ◌^◌, ◌<◌, ◌≤◌, true, [], ◌∷◌, length, ◌≡◌, arith, ap, ◌∙◌, sym}
use vxdebug.Text.{Str}
use vxdebug.Text.Number.{
  digit_char, read_digits, strtoul, hex_u32, hex, starts_digit, skip_spaces, skip_prefix,
}
use vxdebug.Text.Digits.{AreDigits, AreDigits-digits, read-hex, starts_digit-hex, length-digits}
use vxdebug.Text.Hex.{strtoul_digits}

strtoul-one : (x : ℕ) → x < 16 → strtoul 16 (digit_char x ∷ []) ≡ x
unfolding strtoul skip_spaces skip_prefix read_digits
strtoul-one x h = ground arith

read-one : (x : ℕ) → x < 16 → read_digits 16 0 (digit_char x ∷ []) ≡ x
unfolding read_digits
read-one x h = ground arith

strtoul-AreDigits :
    (s : Str)
    → starts_digit 16 s ≡ true
    → AreDigits s
    → read_digits 16 0 s < 2 ^ 64
    → strtoul 16 s ≡ read_digits 16 0 s
unfolding AreDigits starts_digit
strtoul-AreDigits [] st k lt = cc
strtoul-AreDigits (c ∷ []) st ((x, (hx, ex)), _) lt =
    ap (λ (z : ℕ). strtoul 16 (z ∷ [])) ex
    ∙ strtoul-one x hx
    ∙ sym (ap (λ (z : ℕ). read_digits 16 0 (z ∷ [])) ex ∙ read-one x hx)
strtoul-AreDigits (c ∷ d ∷ u) st ((x, (hx, ex)), ((y, (hy, ey)), _)) lt =
    ground (arith, strtoul_digits c d u x y hx hy ex ey)

-- A 32-bit number in hexadecimal digits is read as that number.
pub hex_u32-hex : (n : ℕ) → n < 2 ^ 32 → hex_u32 (hex n) ≡ n
unfolding hex_u32 hex
hex_u32-hex n lt =
    omega (
      arith,
      read-hex n,
      strtoul-AreDigits (hex n) (starts_digit-hex n) (AreDigits-digits (suc n) n),
    )

-- It takes at most 8 digits.
pub length-hex : (n : ℕ) → n < 2 ^ 32 → length (hex n) ≤ 8
unfolding hex
length-hex n h = length-digits (suc n) 7 n h
