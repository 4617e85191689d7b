-- ===== src/Util/Swap.antt =====
-- The byte order of `swap_endianess32`.
use vxdebug.Base.{ℕ, ◌+◌, ◌*◌, ◌/◌, ◌%◌, ◌^◌, ◌<◌, bit_and, bit_or, ◌≡◌, ap, ap₂, ◌∙◌, arith, sym}
use vxdebug.Bits.{bit_and_ones, bit_and_window, bit_or_window}
use vxdebug.Util.{swap_endianess32}

-- A word by its bytes, the lowest first.
abbrev pub of_bytes : ℕ → ℕ → ℕ → ℕ → ℕ
of_bytes a b c d = a + b * 2 ^ 8 + c * 2 ^ 16 + d * 2 ^ 24

module _ (a b c d : ℕ) (ha : a < 256) (hb : b < 256) (hc : c < 256) (hd : d < 256) where
  low : bit_and (of_bytes a b c d / 2 ^ 24) 0x0000_00ff ≡ d
  low = ap₂ bit_and (omega arith) (omega arith) ∙ bit_and_ones 8 d (omega arith)

  second : bit_and (of_bytes a b c d / 2 ^ 8) 0x0000_ff00 ≡ c * 2 ^ 8
  second =
      ap₂ bit_and (omega arith) (omega arith) ∙ bit_and_window 8 8 d c b (omega arith) (omega arith)

  third : bit_and (of_bytes a b c d * 2 ^ 8 % 2 ^ 32) 0x00ff_0000 ≡ b * 2 ^ 16
  third =
      ap₂ bit_and (omega arith) (omega arith)
      ∙ bit_and_window 8 16 c b (a * 2 ^ 8) (omega arith) (omega arith)

  high : bit_and (of_bytes a b c d * 2 ^ 24 % 2 ^ 32) 0xff00_0000 ≡ a * 2 ^ 24
  high =
      ap₂ bit_and (omega arith) (omega arith)
      ∙ bit_and_window 8 24 0 a 0 (omega arith) (omega arith)

  -- One more byte above those joined already.
  join_below : (l x y : ℕ) → x < 2 ^ l → y < 2 ^ 8 → bit_or x (y * 2 ^ l) ≡ y * 2 ^ l + x
  join_below l x y hx hy =
      ap (λ z. bit_or z (y * 2 ^ l)) (omega arith) ∙ bit_or_window 8 l 0 y x hy hx ∙ omega arith

  pub swap-of_bytes : swap_endianess32 (of_bytes a b c d) ≡ of_bytes d c b a
  unfolding swap_endianess32
  swap-of_bytes =
      rw
        (
          low,
          second,
          third,
          high,
          join_below 8 d c (omega arith) (omega arith),
          join_below 16 (c * 2 ^ 8 + d) b (omega arith) (omega arith),
          join_below 24 (b * 2 ^ 16 + (c * 2 ^ 8 + d)) a (omega arith) (omega arith),
        )
        (omega arith)

pub bytes_of :
    (v : ℕ)
    → v < 2 ^ 32
    → v ≡ of_bytes (v % 256) (v / 2 ^ 8 % 256) (v / 2 ^ 16 % 256) (v / 2 ^ 24 % 256)
bytes_of v h = omega arith

-- For a 32-bit word, swapping reverses its bytes.
pub swap_endianess32_lem :
    (v : ℕ)
    → v < 2 ^ 32
    → swap_endianess32 v
      ≡ of_bytes (v / 2 ^ 24 % 256) (v / 2 ^ 16 % 256) (v / 2 ^ 8 % 256) (v % 256)
swap_endianess32_lem v h =
    ap swap_endianess32 (bytes_of v h)
    ∙ swap-of_bytes (v % 256) (v / 2 ^ 8 % 256) (v / 2 ^ 16 % 256) (v / 2 ^ 24 % 256) (omega arith)
        (omega arith) (omega arith) (omega arith)

pub swap-lt : (v : ℕ) → v < 2 ^ 32 → swap_endianess32 v < 2 ^ 32
swap-lt v h = omega (arith, swap_endianess32_lem v h)

-- Swapping the bytes of a 32-bit word twice gives the word.
pub swap-swap : (v : ℕ) → v < 2 ^ 32 → swap_endianess32 (swap_endianess32 v) ≡ v
swap-swap v h =
    ap swap_endianess32 (swap_endianess32_lem v h)
    ∙ swap-of_bytes (v / 2 ^ 24 % 256) (v / 2 ^ 16 % 256) (v / 2 ^ 8 % 256) (v % 256) (omega arith)
        (omega arith) (omega arith) (omega arith)
    ∙ sym (bytes_of v h)
