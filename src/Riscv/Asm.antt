-- ===== src/Riscv/Asm.antt =====
-- `rv_asm` of src/riscv.cpp and its cache. The toolchain, with the files between its steps, is a
-- parameter: from the lines to the bytes of the binary, `none` where a step fails.
use vxdebug.Base.{
  ℕ, ◌+◌, ◌*◌, ◌^◌, Bool, true, false, List, [], ◌∷◌, Option, none, some, if◌then◌else◌,
}
use vxdebug.Text.{Str, str_eq}

-- How `rv_asm` ends: with the words, with an exception, or beyond the end of
-- `to_assemble_indices`, which the binary's surplus words index.
pub data Assembled : Type 0 where
  words : List ℕ → Assembled
  refused beyond : Assembled

-- `__rvasm_cache`, whose first entry for a line counts.
abbrev pub Cache : Type 0
Cache = List (Str × ℕ)

unfoldable pub cached : Str → Cache → Option ℕ
unfolding str_eq
cached line [] = none
cached line ((l, w) ∷ more) = if str_eq l line then some w else cached line more

-- The lines that are not in the cache.
unfoldable pub to_assemble : Cache → List Str → List Str
unfolding cached
to_assemble cache [] = []
to_assemble cache (line ∷ more) =
    let rest = to_assemble cache more in
    elim (cached line cache) [ none ↦ line ∷ rest | some w ↦ rest ]

-- `bytes[0] | bytes[1] << 8 | …`, the parts being disjoint.
abbrev pub little_endian : ℕ → ℕ → ℕ → ℕ → ℕ
little_endian a b c d = a + b * 2 ^ 8 + c * 2 ^ 16 + d * 2 ^ 24

-- The words of the binary, and whether bytes are left.
unfoldable pub read_binary : List ℕ → List ℕ × Bool
read_binary (a ∷ b ∷ c ∷ d ∷ more) =
    let rest = read_binary more in (little_endian a b c d ∷ rest.0, rest.1)
read_binary [] = ([], false)
read_binary (a ∷ []) = ([], true)
read_binary (a ∷ b ∷ []) = ([], true)
read_binary (a ∷ b ∷ c ∷ []) = ([], true)

-- The cache after the loop that stores the words, as far as there are lines.
unfoldable pub store_words : List Str → List ℕ → Cache → Cache
store_words [] ws cache = cache
store_words (line ∷ more) [] cache = cache
store_words (line ∷ more) (w ∷ ws) cache = store_words more ws ((line, w) ∷ cache)

-- The words of all lines: those cached, and the new ones in their order.
unfoldable pub fill : Cache → List Str → List ℕ → List ℕ
unfolding cached
fill cache [] ws = []
fill cache (line ∷ more) ws = elim (cached line cache) [
  | some w ↦ w ∷ fill cache more ws
  | none ↦ elim ws [ [] ↦ 0 ∷ fill cache more [] | w ∷ rest ↦ w ∷ fill cache more rest ]
]

-- How many words there are for the lines.
pub data Count : Type 0 where
  fewer as_many too_many : Count

unfoldable pub count_words : List Str → List ℕ → Count
count_words [] [] = as_many
count_words [] (w ∷ ws) = too_many
count_words (line ∷ more) [] = fewer
count_words (line ∷ more) (w ∷ ws) = count_words more ws

abbrev pub assembled : Count → Bool → List ℕ → Assembled
assembled too_many left result = beyond
assembled fewer left result = refused
assembled as_many true result = refused
assembled as_many false result = words result

unfoldable pub assemble_lines :
    (List Str → Option (List ℕ)) → List Str → List Str → Cache → Assembled × Cache
unfolding read_binary store_words fill count_words
assemble_lines toolchain lines [] cache = (words (fill cache lines []), cache)
assemble_lines toolchain lines (l ∷ missing) cache = elim (toolchain (l ∷ missing)) [
  | none ↦ (refused, cache)
  | some bytes ↦ (
    assembled (count_words (l ∷ missing) (read_binary bytes).0) (read_binary bytes).1
        (fill cache lines (read_binary bytes).0),
    store_words (l ∷ missing) (read_binary bytes).0 cache,
  )
]

unfoldable pub rv_asm : (List Str → Option (List ℕ)) → List Str → Cache → Assembled × Cache
unfolding assemble_lines to_assemble
rv_asm toolchain asm_lines cache =
    assemble_lines toolchain asm_lines (to_assemble cache asm_lines) cache
