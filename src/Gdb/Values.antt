-- ===== src/Gdb/Values.antt =====
-- The registers and bytes that the stub prints are read back as they were.
use mathlib.Core.List.{append-nil}
use vxdebug.Base.{
  ℕ, suc, ◌+◌, ◌*◌, ◌/◌, ap₂, append_assoc, ◌%◌, ◌^◌, ◌<◌, List, [], ◌∷◌, ◌++◌, ◌≡◌, refl, ap, ◌∙◌,
  arith, sym,
}
use vxdebug.Base.Lists.{AreByteValues}
use vxdebug.Text.{Str}
use vxdebug.Text.Number.{hex_padded, hex_u32, strtoul}
use vxdebug.Text.Digits.{Stops-nil, hex_two}
use vxdebug.Text.Hex.{strtoul-hex_padded, hex_u32-hex_padded}
use vxdebug.Util.{swap_endianess32}
use vxdebug.Util.Swap.{of_bytes, swap_endianess32_lem, swap-lt, swap-swap}
use vxdebug.Text.Pairs.{hex_padded-pair}
use vxdebug.Gdb.Access.{hex_bytes, bytes_hex, hex_value, value_hex}

hex_u32-eight : (v : ℕ) → v < 2 ^ 32 → hex_u32 (hex_padded 8 v) ≡ v
hex_u32-eight v h =
    ap hex_u32 (sym (append-nil (hex_padded 8 v)))
    ∙ hex_u32-hex_padded 8 v [] (omega arith) Stops-nil h

pair_off :
    (w n x k : ℕ)
    → n / 256 ≡ k
    → n % 256 ≡ x
    → hex_padded (suc (suc (suc w))) n ≡ hex_padded (suc w) k ++ hex_padded 2 x
pair_off w n x k e f =
    hex_padded-pair w n ∙ ap₂ (λ (i j : ℕ). hex_padded (suc w) i ++ hex_padded 2 j) e f

hex_eight :
    (a b c d : ℕ)
    → a < 256
    → b < 256
    → c < 256
    → d < 256
    → hex_padded 8 (of_bytes a b c d) ≡ hex_bytes (d ∷ c ∷ b ∷ a ∷ [])
unfolding hex_bytes
hex_eight a b c d ha hb hc hd =
    pair_off 5 (of_bytes a b c d) a (b + c * 2 ^ 8 + d * 2 ^ 16) (omega arith) (omega arith)
    ∙ ap (λ s. s ++ hex_padded 2 a)
        (pair_off 3 (b + c * 2 ^ 8 + d * 2 ^ 16) b (c + d * 2 ^ 8) (omega arith) (omega arith)
          ∙ ap (λ s. s ++ hex_padded 2 b)
              (pair_off 1 (c + d * 2 ^ 8) c d (omega arith) (omega arith)))
    ∙ append_assoc (hex_padded 2 d ++ hex_padded 2 c) (hex_padded 2 b) (hex_padded 2 a)
    ∙ append_assoc (hex_padded 2 d) (hex_padded 2 c) (hex_padded 2 b ++ hex_padded 2 a)
    ∙ ap (λ s. hex_padded 2 d ++ (hex_padded 2 c ++ (hex_padded 2 b ++ s)))
        (sym (append-nil (hex_padded 2 a)))

-- The text of a register value below 2 ^ 32 is that of its four bytes, two digits for each, the
-- lowest byte first, and it is read back as that value.
pub value-hex_value :
    (v : ℕ)
    → v < 2 ^ 32
    → (hex_value v
        ≡ hex_bytes (v % 256 ∷ v / 2 ^ 8 % 256 ∷ v / 2 ^ 16 % 256 ∷ v / 2 ^ 24 % 256 ∷ []))
      × (value_hex (hex_value v) ≡ v)
value-hex_value v h = (
  ap (hex_padded 8) (swap_endianess32_lem v h)
      ∙ hex_eight (v / 2 ^ 24 % 256) (v / 2 ^ 16 % 256) (v / 2 ^ 8 % 256) (v % 256) (omega arith)
          (omega arith) (omega arith) (omega arith),
  ap swap_endianess32 (hex_u32-eight (swap_endianess32 v) (swap-lt v h)) ∙ swap-swap v h,
)

strtoul-two : (x : ℕ) → x < 256 → strtoul 16 (hex_padded 2 x) ≡ x
strtoul-two x h =
    ap (strtoul 16) (sym (append-nil (hex_padded 2 x)))
    ∙ strtoul-hex_padded 2 x [] (omega arith) Stops-nil (omega arith)

bytes-cons : (x : ℕ) (s : Str) → x < 256 → bytes_hex (hex_padded 2 x ++ s) ≡ x ∷ bytes_hex s
unfolding bytes_hex
bytes-cons x s h = rw (hex_two x h) (
    ap (λ y. y ∷ bytes_hex s)
      (ap (λ t. strtoul 16 t % 256) (sym (hex_two x h))
        ∙ ap (λ y. y % 256) (strtoul-two x h)
        ∙ omega arith))

-- The text of a memory reply, for a list of numbers below 256, is read back as those numbers.
pub bytes-hex_bytes : (bs : List ℕ) → AreByteValues bs → bytes_hex (hex_bytes bs) ≡ bs
unfolding hex_bytes bytes_hex AreByteValues
bytes-hex_bytes [] h = refl
bytes-hex_bytes (x ∷ xs) (h, hs) =
    bytes-cons x (hex_bytes xs) h ∙ ap (λ ys. x ∷ ys) (bytes-hex_bytes xs hs)
