-- ===== src/Util/Dump.antt =====
-- `hexdump` and `hex2str` of src/util.cpp.
use vxdebug.Base.{
  ℕ, zero, suc, ◌+◌, ◌-◌, ◌*◌, ◌^◌, bit_and, Bool, true, false, ◌&&◌, ◌||◌, List, [], ◌∷◌, ◌++◌,
  map, ◌==◌, ltb, leb, if◌then◌else◌, Option, none, some, length, replicate, get_elem?,
}
use vxdebug.Text.{Str, codes}
use vxdebug.Text.Number.{hex, hex_padded}

abbrev pub upper : ℕ → ℕ
upper c = if leb b'a' c && leb c b'z' then c - 32 else c

-- `%0NX`.
abbrev pub hex_upper : ℕ → ℕ → Str
hex_upper width n = map upper (hex_padded width n)

unfoldable pub hex2str : ℕ → ℕ → ℕ → Bool → Str
unfolding hex
hex2str value num_prefix prefix_char uppercase =
    let text = if uppercase then map upper (hex value) else hex value in
    replicate (num_prefix - length text) prefix_char ++ text

-- The bytes of a word from the highest one down, with their digits or two underscores.
unfoldable pub dump_bytes : List ℕ → ℕ → ℕ → ℕ → Str
unfolding hex_padded
dump_bytes bytes base_addr word_addr zero = []
dump_bytes bytes base_addr word_addr (suc b) =
    elim (if leb base_addr (word_addr + b)
      then get_elem? bytes (word_addr + b - base_addr)
      else none) [
        | none ↦ codes "__" ++ dump_bytes bytes base_addr word_addr b
        | some x ↦ hex_upper 2 x ++ dump_bytes bytes base_addr word_addr b
      ]

-- `words` words from `word_addr` on. A word out of range has underscores alone, as its bytes have.
unfoldable pub dump_words : List ℕ → ℕ → ℕ → ℕ → ℕ → Str
unfolding dump_bytes
dump_words bytes base_addr bytes_per_word word_addr zero = []
dump_words bytes base_addr bytes_per_word word_addr (suc words) =
    dump_bytes bytes base_addr word_addr bytes_per_word
    ++ b' ' ∷ dump_words bytes base_addr bytes_per_word (word_addr + bytes_per_word) words

abbrev pub shown : Option ℕ → ℕ
shown none = b' '
shown (some ch) = if leb 32 ch && leb ch 126 then ch else b'.'

unfoldable pub dump_ascii : List ℕ → ℕ → ℕ → ℕ → Str
dump_ascii bytes base_addr addr zero = []
dump_ascii bytes base_addr addr (suc n) =
    shown (if leb base_addr addr then get_elem? bytes (addr - base_addr) else none)
    ∷ dump_ascii bytes base_addr (addr + 1) n

-- The lines from `line_start` on, in at most so many rounds.
unfoldable pub dump_lines : ℕ → List ℕ → ℕ → ℕ → ℕ → Bool → ℕ → Str
unfolding dump_words dump_ascii hex_padded
dump_lines zero bytes base_addr bytes_per_word words_per_col ascii line_start = []
dump_lines (suc rounds) bytes base_addr bytes_per_word words_per_col ascii line_start =
    elim (ltb line_start (base_addr + length bytes)) [
      | false ↦ []
      | true ↦
          hex_upper 8 line_start
          ++ codes ": "
          ++ dump_words bytes base_addr bytes_per_word line_start words_per_col
          ++ (if ascii
              then codes "| "
                ++ dump_ascii bytes base_addr line_start (bytes_per_word * words_per_col)
              else [])
          ++ 10
            ∷ dump_lines rounds bytes base_addr bytes_per_word words_per_col ascii
                (line_start + bytes_per_word * words_per_col)
    ]

-- Every line advances, so a round for each address from the first line's start on is enough.
unfoldable pub hexdump : List ℕ → ℕ → ℕ → ℕ → Bool → Str
unfolding dump_lines
hexdump bytes base_addr bytes_per_word words_per_col ascii =
    if bytes_per_word == 0 || words_per_col == 0
    then []
    else (let start = bit_and base_addr (2 ^ 64 - bytes_per_word) in
        dump_lines (base_addr + length bytes - start) bytes base_addr bytes_per_word words_per_col
          ascii start)
