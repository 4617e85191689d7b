-- ===== src/Text/Number.antt =====
-- Numbers as text: the `%d`, `%x` and `%0Nx` of `strfmt`, and `strtoul`.
use vxdebug.Base.{
  ℕ, zero, suc, ◌+◌, ◌-◌, ◌*◌, ◌/◌, ◌%◌, ◌^◌, Bool, true, false, ◌&&◌, ◌||◌, [], ◌∷◌, ◌++◌, ltb,
  leb, if◌then◌else◌, Option, none, some, length, replicate, ◌==◌,
}
use vxdebug.Text.{Str}

abbrev pub digit_char : ℕ → ℕ
digit_char d = if ltb d 10 then d + b'0' else d + (b'a' - 10)

-- The digits of `n` in base `b`, at most `k` of them, most significant first.
unfoldable pub digits : ℕ → ℕ → ℕ → Str
digits b zero n = []
digits b (suc k) n = elim (ltb n b) [
  | true ↦ digit_char n ∷ []
  | false ↦ digits b k (n / b) ++ digit_char (n % b) ∷ []
]

-- `%d` of a number that is not negative; every number has fewer than `suc n` digits.
unfoldable pub dec : ℕ → Str
unfolding digits
dec n = digits 10 (suc n) n

-- `%x`.
unfoldable pub hex : ℕ → Str
unfolding digits
hex n = digits 16 (suc n) n

-- `%0Nx`.
unfoldable pub hex_padded : ℕ → ℕ → Str
unfolding hex
hex_padded width n = replicate (width - length (hex n)) b'0' ++ hex n

abbrev pub is_space : ℕ → Bool
is_space c = c == 32 || (leb 9 c && leb c 13)

-- The value of a digit in some base up to 36.
abbrev pub digit_value : ℕ → Option ℕ
digit_value c =
    if leb b'0' c && leb c b'9'
    then some (c - b'0')
    else if leb b'a' c && leb c b'z'
    then some (c - b'a' + 10)
    else if leb b'A' c && leb c b'Z'
    then some (c - b'A' + 10)
    else none

abbrev pub digit_in : ℕ → ℕ → Option ℕ
digit_in b c = elim (digit_value c) [ none ↦ none | some d ↦ if ltb d b then some d else none ]

-- The longest run of digits, after `acc`; stops at the first other character.
unfoldable pub read_digits : ℕ → ℕ → Str → ℕ
read_digits b acc [] = acc
read_digits b acc (c ∷ s) = elim (digit_in b c) [
  | none ↦ acc
  | some d ↦ read_digits b (acc * b + d) s
]

unfoldable pub skip_spaces : Str → Str
skip_spaces [] = []
skip_spaces (c ∷ s) = if is_space c then skip_spaces s else c ∷ s

unfoldable pub starts_digit : ℕ → Str → Bool
starts_digit b [] = false
starts_digit b (c ∷ s) = elim (digit_in b c) [ none ↦ false | some _ ↦ true ]

-- The optional `0x` of base 16, which counts only before a digit.
unfoldable pub skip_prefix : ℕ → Str → Str
unfolding starts_digit
skip_prefix b [] = []
skip_prefix b (c ∷ []) = c ∷ []
skip_prefix b (c ∷ d ∷ s) =
    if (b == 16 && c == b'0') && (((d == b'x') || (d == b'X')) && starts_digit b s)
    then s
    else c ∷ d ∷ s

-- Saturation at `ULONG_MAX`.
abbrev pub clamp64 : ℕ → ℕ
clamp64 n = if ltb n (2 ^ 64) then n else 2 ^ 64 - 1

-- `strtoul`, with its optional sign; a negated value wraps in 64 bits unless it was out of range.
unfoldable pub strtoul : ℕ → Str → ℕ
unfolding read_digits skip_spaces skip_prefix
strtoul b s = signed (skip_spaces s)
  where
    magnitude : Str → ℕ
    magnitude u = clamp64 (read_digits b 0 (skip_prefix b u))

    negated : ℕ → ℕ
    negated n = (2 ^ 64 - n) % 2 ^ 64

    signed : Str → ℕ
    signed [] = 0
    signed (c ∷ u) =
        if c == b'-'
        then (if ltb (read_digits b 0 (skip_prefix b u)) (2 ^ 64)
            then negated (magnitude u)
            else 2 ^ 64 - 1)
        else if c == b'+'
        then magnitude u
        else magnitude (c ∷ u)

-- `static_cast<uint32_t>(strtoul(s, nullptr, 16))`
unfoldable pub hex_u32 : Str → ℕ
unfolding strtoul
hex_u32 s = strtoul 16 s % 2 ^ 32

-- `static_cast<uint8_t>(strtol(s, nullptr, 16))`; `strtol` saturates at `LONG_MAX` and `LONG_MIN`.
unfoldable pub hex_u8 : Str → ℕ
unfolding read_digits skip_spaces skip_prefix
hex_u8 s = signed (skip_spaces s)
  where
    value : Str → ℕ
    value u = read_digits 16 0 (skip_prefix 16 u)

    positive : ℕ → ℕ
    positive n = if ltb n (2 ^ 63) then n % 256 else 255

    negative : ℕ → ℕ
    negative n = if leb n (2 ^ 63) then (256 - n % 256) % 256 else 0

    signed : Str → ℕ
    signed [] = 0
    signed (c ∷ u) =
        if c == b'-'
        then negative (value u)
        else if c == b'+'
        then positive (value u)
        else positive (value (c ∷ u))
