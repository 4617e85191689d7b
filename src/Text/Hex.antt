-- ===== src/Text/Hex.antt =====
-- `strtoul` and `strtol` of numbers printed in base 16.
use vxdebug.Base.{
  ℕ, ◌%◌, ◌^◌, ◌<◌, ◌≤◌, false, [], ◌∷◌, ◌++◌, length, ◌==◌, ◌≡◌, refl, arith, lt→ltb, ◌||◌,
}
use vxdebug.Text.{Str}
use vxdebug.Text.Number.{
  digit_char, clamp64, is_space, hex_padded, read_digits, skip_spaces, skip_prefix, strtoul,
  hex_u32, hex_u8,
}
use vxdebug.Text.Digits.{Stops, read-hex_padded, AreDigits, AreDigits-hex_padded, wide-hex_padded}

-- No sign, no blank and no prefix stands at the beginning.
not_space : (c x : ℕ) → x < 16 → c ≡ digit_char x → is_space c ≡ false
not_space c x h e = ground arith

not_mark : (c x : ℕ) → x < 16 → c ≡ digit_char x → (c == b'x' || c == b'X') ≡ false
not_mark c x h e = ground arith

not_minus : (c x : ℕ) → x < 16 → c ≡ digit_char x → (c == b'-') ≡ false
not_minus c x h e = ground arith

not_plus : (c x : ℕ) → x < 16 → c ≡ digit_char x → (c == b'+') ≡ false
not_plus c x h e = ground arith

skip-spaces_digit : (c : ℕ) (u : Str) → is_space c ≡ false → skip_spaces (c ∷ u) ≡ c ∷ u
unfolding skip_spaces
skip-spaces_digit c u e = rw e refl

skip-prefix_digit :
    (c d : ℕ) (u : Str) → (d == b'x' || d == b'X') ≡ false → skip_prefix 16 (c ∷ d ∷ u) ≡ c ∷ d ∷ u
unfolding skip_prefix
skip-prefix_digit c d u e = rw e (ground arith)

-- Text that begins with two digits is read from the first one on.
module _ (c d : ℕ) (u : Str) (x y : ℕ) (hx : x < 16) (hy : y < 16) where
  pub strtoul_digits :
      c ≡ digit_char x
      → d ≡ digit_char y
      → strtoul 16 (c ∷ d ∷ u) ≡ clamp64 (read_digits 16 0 (c ∷ d ∷ u))
  unfolding strtoul
  strtoul_digits ex ey =
      rw
        (
          skip-spaces_digit c (d ∷ u) (not_space c x hx ex),
          not_minus c x hx ex,
          not_plus c x hx ex,
          skip-prefix_digit c d u (not_mark d y hy ey),
        )
        refl

  hex_u8_digits :
      c ≡ digit_char x
      → d ≡ digit_char y
      → read_digits 16 0 (c ∷ d ∷ u) < 2 ^ 63
      → hex_u8 (c ∷ d ∷ u) ≡ read_digits 16 0 (c ∷ d ∷ u) % 256
  unfolding hex_u8
  hex_u8_digits ex ey h =
      rw
        (
          skip-spaces_digit c (d ∷ u) (not_space c x hx ex),
          not_minus c x hx ex,
          not_plus c x hx ex,
          skip-prefix_digit c d u (not_mark d y hy ey),
          lt→ltb (read_digits 16 0 (c ∷ d ∷ u)) (2 ^ 63) h,
        )
        refl

strtoul-append :
    (s rest : Str)
    → 2 ≤ length s
    → AreDigits s
    → strtoul 16 (s ++ rest) ≡ clamp64 (read_digits 16 0 (s ++ rest))
unfolding AreDigits
strtoul-append [] rest h k = absurd (omega arith)
strtoul-append (c ∷ []) rest h k = absurd (omega arith)
strtoul-append (c ∷ d ∷ u) rest h ((x, (hx, ex)), ((y, (hy, ey)), _)) =
    strtoul_digits c d (u ++ rest) x y hx hy ex ey

hex_u8-append :
    (s rest : Str)
    → 2 ≤ length s
    → AreDigits s
    → read_digits 16 0 (s ++ rest) < 2 ^ 63
    → hex_u8 (s ++ rest) ≡ read_digits 16 0 (s ++ rest) % 256
unfolding AreDigits
hex_u8-append [] rest h k = absurd (omega arith)
hex_u8-append (c ∷ []) rest h k = absurd (omega arith)
hex_u8-append (c ∷ d ∷ u) rest h ((x, (hx, ex)), ((y, (hy, ey)), _)) =
    hex_u8_digits c d (u ++ rest) x y hx hy ex ey

-- `%0wx` reads back as the number, whatever follows that is no digit.
module _ (w n : ℕ) (rest : Str) (wide : 2 ≤ w) (h : Stops rest) where
  pub strtoul-hex_padded : n < 2 ^ 64 → strtoul 16 (hex_padded w n ++ rest) ≡ n
  strtoul-hex_padded k = ground (
    arith,
    strtoul-append (hex_padded w n) rest,
    AreDigits-hex_padded w n,
    wide-hex_padded w n,
    read-hex_padded w n rest h,
  )

  pub hex_u32-hex_padded : n < 2 ^ 32 → hex_u32 (hex_padded w n ++ rest) ≡ n
  unfolding hex_u32
  hex_u32-hex_padded k = omega (arith, strtoul-hex_padded (omega arith))

  pub hex_u8-hex_padded : n < 256 → hex_u8 (hex_padded w n ++ rest) ≡ n
  hex_u8-hex_padded k = ground (
    arith,
    hex_u8-append (hex_padded w n) rest,
    AreDigits-hex_padded w n,
    wide-hex_padded w n,
    read-hex_padded w n rest h,
  )
