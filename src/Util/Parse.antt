-- ===== src/Util/Parse.antt =====
-- Reading command arguments (src/util.cpp): numbers, addresses and paths.
use vxdebug.Base.{
  ℕ, zero, suc, ◌%◌, ◌^◌, Bool, true, false, ◌&&◌, ◌||◌, [], ◌∷◌, ◌==◌, ltb, if◌then◌else◌, Option,
  none, some,
}
use vxdebug.Base.Int.{ℤ, pos, negsuc}
use vxdebug.Text.{Str, codes, str_eq}
use vxdebug.Text.Parse.{stoi, stoul}
use vxdebug.Util.{split_at}

-- `str.size() > 2`, with a `0` and one of the two letters in front.
unfoldable pub has_prefix : ℕ → ℕ → Str → Bool
has_prefix lower upper [] = false
has_prefix lower upper (c ∷ []) = false
has_prefix lower upper (c ∷ d ∷ []) = false
has_prefix lower upper (c ∷ d ∷ e ∷ s) = c == b'0' && (d == lower || d == upper)

-- `static_cast<uint32_t>`
abbrev pub as_u32 : Option ℕ → Option ℕ
as_u32 none = none
as_u32 (some n) = some (n % 2 ^ 32)

-- `none` where it throws, as on the empty text.
unfoldable pub parse_uint : Str → Option ℕ
unfolding has_prefix stoul
parse_uint [] = none
parse_uint (c ∷ s) =
    if has_prefix b'x' b'X' (c ∷ s)
    then as_u32 (stoul 16 (c ∷ s))
    else if has_prefix b'b' b'B' (c ∷ s)
    then as_u32 (stoul 2 (c ∷ s))
    else as_u32 (stoul 10 (c ∷ s))

-- How `parse_tcp_hostportstr` ends: with an address and a port (0 for none), or with one of the
-- exceptions it throws, or with one of `std::stoi`, which is no `std::runtime_error`.
pub data HostPort : Type 0 where
  host_port : Str → ℕ → HostPort
  malformed : HostPort
  not_a_number : HostPort

abbrev pub host_of : Str → Str
host_of host = if str_eq host (codes "localhost") then codes "127.0.0.1" else host

unfoldable pub checked_port : Str → Option ℤ → HostPort
checked_port ip none = not_a_number
checked_port ip (some (negsuc n)) = malformed
checked_port ip (some (pos zero)) = malformed
checked_port ip (some (pos (suc n))) = if ltb 65535 (suc n) then malformed else host_port ip (suc n)

unfoldable pub parse_tcp_hostportstr : Str → HostPort
unfolding split_at checked_port stoi str_eq
parse_tcp_hostportstr str = elim (split_at b':' str) [
  | none ↦ malformed
  | some (host, []) ↦ host_port (host_of host) 0
  | some (host, c ∷ s) ↦ checked_port (host_of host) (stoi (c ∷ s))
]

abbrev pub is_separator : ℕ → Bool
is_separator c = c == b'/' || c == b'\\'

unfoldable pub has_separator : Str → Bool
has_separator [] = false
has_separator (c ∷ s) = if is_separator c then true else has_separator s

-- Behind the last separator.
unfoldable pub basename : Str → Str
unfolding has_separator
basename [] = []
basename (c ∷ s) =
    let rest = basename s in if has_separator s then rest else if is_separator c then s else c ∷ s
