-- ===== src/Util.antt =====
-- Text helpers of src/util.cpp and src/util.h. `npos` is `none`.
use vxdebug.Base.{
  ℕ, zero, suc, ◌+◌, ◌-◌, ◌*◌, ◌/◌, ◌%◌, ◌^◌, bit_and, bit_or, Bool, true, false, ◌||◌, List, [],
  ◌∷◌, ◌++◌, ◌==◌, ltb, if◌then◌else◌, Option, none, some, length, drop,
}
use vxdebug.Text.{Str, str_eq}
pub mod Swap
pub mod Split
pub mod Parse
pub mod Dump
pub mod Pad
pub mod Reading

-- The text before and after the first `c`, as `find` and `substr` cut it.
unfoldable pub split_at : ℕ → Str → Option (Str × Str)
split_at c [] = none
split_at c (x ∷ s) =
    if x == c
    then some ([], s)
    else elim (split_at c s) [ none ↦ none | some (u, v) ↦ some (x ∷ u, v) ]

-- `substr(n)`, which throws when `n` lies behind the end.
abbrev pub substr_from : ℕ → Str → Option Str
substr_from n s = if ltb (length s) n then none else some (drop n s)

-- `s.rfind(prefix, 0) == 0`
unfoldable pub starts_with : Str → Str → Bool
starts_with [] s = true
starts_with (p ∷ ps) [] = false
starts_with (p ∷ ps) (c ∷ s) = if p == c then starts_with ps s else false

-- A token begins with each delimiter.
abbrev cons_head : ℕ → List Str → List Str
cons_head c [] = (c ∷ []) ∷ []
cons_head c (t ∷ ts) = (c ∷ t) ∷ ts

unfoldable pub tokenize : ℕ → Str → List Str
tokenize delim [] = [] ∷ []
tokenize delim (c ∷ s) =
    let rest = tokenize delim s in if c == delim then [] ∷ rest else cons_head c rest

-- The loop that puts `c` after each text but the last, as in `vecjoin`.
unfoldable pub join : ℕ → List Str → Str
join c [] = []
join c (t ∷ []) = t
join c (t ∷ u ∷ ts) = t ++ c ∷ join c (u ∷ ts)

-- Space, tab, newline and carriage return.
abbrev pub is_blank : ℕ → Bool
is_blank c = c == 32 || c == 9 || c == 10 || c == 13

unfoldable pub lstrip : Str → Str
lstrip [] = []
lstrip (c ∷ s) = if is_blank c then lstrip s else c ∷ s

-- Drops the blanks that only blanks follow.
unfoldable pub rstrip : Str → Str
rstrip [] = []
rstrip (c ∷ s) = elim (rstrip s) [ [] ↦ if is_blank c then [] else c ∷ [] | d ∷ t ↦ c ∷ d ∷ t ]

unfoldable pub strip : Str → Str
unfolding lstrip rstrip
strip s = rstrip (lstrip s)

unfoldable pub preprocess_commandline : Str → Str
unfolding strip split_at
preprocess_commandline input = elim (split_at b'#' input) [
  | none ↦ strip input
  | some (line, comment) ↦ strip line
]

-- The shifts stay within 32 bits.
unfoldable pub swap_endianess32 : ℕ → ℕ
swap_endianess32 val =
    bit_or
      (bit_or (bit_or (bit_and (val / 2 ^ 24) 0x0000_00ff) (bit_and (val / 2 ^ 8) 0x0000_ff00))
        (bit_and (val * 2 ^ 8 % 2 ^ 32) 0x00ff_0000))
      (bit_and (val * 2 ^ 24 % 2 ^ 32) 0xff00_0000)
