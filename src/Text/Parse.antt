-- ===== src/Text/Parse.antt =====
-- `std::stoul` and `std::stoi`, which throw (`none`) where no digit is found or the number is out of
-- range.
use vxdebug.Base.{
  ℕ, zero, suc, ◌-◌, ◌%◌, ◌^◌, [], ◌∷◌, ◌==◌, ltb, if◌then◌else◌, Option, none, some,
}
use vxdebug.Base.Int.{ℤ, pos, negsuc}
use vxdebug.Text.{Str}
use vxdebug.Text.Number.{read_digits, skip_spaces, skip_prefix, starts_digit}

-- The number at the start of the text.
unfoldable pub read_number : ℕ → Str → Option ℕ
unfolding starts_digit read_digits
read_number b s = if starts_digit b s then some (read_digits b 0 s) else none

-- `int` has 32 bits.
unfoldable pub stoi : Str → Option ℤ
unfolding skip_spaces read_number
stoi s = signed (skip_spaces s)
  where
    negative : ℕ → Option ℤ
    negative zero = some (pos 0)
    negative (suc n) = if ltb n (2 ^ 31) then some (negsuc n) else none

    positive : ℕ → Option ℤ
    positive n = if ltb n (2 ^ 31) then some (pos n) else none

    signed : Str → Option ℤ
    signed [] = none
    signed (c ∷ u) =
        if c == b'-'
        then elim (read_number 10 u) [ none ↦ none | some n ↦ negative n ]
        else if c == b'+'
        then elim (read_number 10 u) [ none ↦ none | some n ↦ positive n ]
        else elim (read_number 10 (c ∷ u)) [ none ↦ none | some n ↦ positive n ]

-- `unsigned long` has 64 bits; a sign negates in them. The prefix is that of base 16 alone.
unfoldable pub stoul : ℕ → Str → Option ℕ
unfolding skip_spaces skip_prefix read_number
stoul b s = signed (skip_spaces s)
  where
    in_range : ℕ → Option ℕ
    in_range n = if ltb n (2 ^ 64) then some n else none

    negative : ℕ → Option ℕ
    negative n = if ltb n (2 ^ 64) then some ((2 ^ 64 - n) % 2 ^ 64) else none

    signed : Str → Option ℕ
    signed [] = none
    signed (c ∷ u) =
        if c == b'-'
        then elim (read_number b (skip_prefix b u)) [ none ↦ none | some n ↦ negative n ]
        else if c == b'+'
        then elim (read_number b (skip_prefix b u)) [ none ↦ none | some n ↦ in_range n ]
        else elim (read_number b (skip_prefix b (c ∷ u))) [ none ↦ none | some n ↦ in_range n ]
