-- ===== src/Util/Reading.antt =====
-- What `parse_uint` and `basename` of src/util.cpp make of texts of a known form.
use vxdebug.Base.{ℕ, lt→ltb, ◌^◌, ◌<◌, ◌≡◌, refl, ap, arith, true, false, [], ◌∷◌, ◌++◌, some}
use vxdebug.Text.{Str, codes}
use vxdebug.Text.Number.{hex, read_digits, starts_digit, skip_spaces, skip_prefix}
use vxdebug.Text.Digits.{starts_digit-hex, read-hex}
use vxdebug.Text.Parse.{read_number, stoul}
use vxdebug.Util.Parse.{has_prefix, parse_uint, has_separator, is_separator, basename}

read_number-digits :
    (s : Str) (n : ℕ)
    → starts_digit 16 s ≡ true
    → read_digits 16 0 s ≡ n
    → read_number 16 s ≡ some n
unfolding read_number
read_number-digits s n h r = rw (h, r) refl

-- The digits behind `0x`, at least one.
parse_prefixed :
    (c : ℕ) (s : Str) (n : ℕ)
    → starts_digit 16 (c ∷ s) ≡ true
    → n < 2 ^ 32
    → read_number 16 (c ∷ s) ≡ some n
    → parse_uint (b'0' ∷ b'x' ∷ c ∷ s) ≡ some n
unfolding parse_uint has_prefix stoul skip_spaces skip_prefix
parse_prefixed c s n h small r =
    rw (h, r, lt→ltb n (2 ^ 64) (omega arith)) (ap (λ k. some k) (omega arith))

parse_digits :
    (s : Str) (n : ℕ)
    → starts_digit 16 s ≡ true
    → n < 2 ^ 32
    → read_digits 16 0 s ≡ n
    → parse_uint (b'0' ∷ b'x' ∷ s) ≡ some n
unfolding starts_digit
parse_digits [] n h small r = cc
parse_digits (c ∷ s) n h small r = parse_prefixed c s n h small (read_number-digits (c ∷ s) n h r)

-- A 32-bit number in hexadecimal digits behind `0x` is parsed as that number.
pub parse_uint-hex : (n : ℕ) → n < 2 ^ 32 → parse_uint (codes "0x" ++ hex n) ≡ some n
parse_uint-hex n small = parse_digits (hex n) n (starts_digit-hex n) small (read-hex n)

basename-plain : (name : Str) → has_separator name ≡ false → basename name ≡ name
unfolding basename has_separator
basename-plain [] h = refl
basename-plain (c ∷ s) h = ground arith

has_separator-append :
    (dir name : Str) (c : ℕ) → is_separator c ≡ true → has_separator (dir ++ c ∷ name) ≡ true
unfolding has_separator
has_separator-append [] name c h = ground arith
has_separator-append (d ∷ dir) name c h = ground (arith, has_separator-append dir name c h)

-- The base name of a path is what stands behind its last separator, of either kind; a path without
-- one is its own base name.
pub basename_lem :
    (dir name : Str) (c : ℕ)
    → is_separator c ≡ true
    → has_separator name ≡ false
    → (basename (dir ++ c ∷ name) ≡ name) × (basename name ≡ name)
unfolding basename
basename_lem [] name c sep plain = (rw (plain, sep) refl, basename-plain name plain)
basename_lem (d ∷ dir) name c sep plain = (
  rw (has_separator-append dir name c sep) ((basename_lem dir name c sep plain).0),
  basename-plain name plain,
)
