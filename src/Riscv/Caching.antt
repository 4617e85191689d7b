-- ===== src/Riscv/Caching.antt =====
-- The cache of `rv_asm` (src/riscv.cpp) changes no result.
use vxdebug.Base.{
  ℕ, ◌/◌, ◌%◌, ◌^◌, ◌<◌, ◌≡◌, refl, sym, ap, ap₂, ◌∙◌, arith, Bool, true, false, List, [], ◌∷◌,
  ◌++◌, map, Option, some, some_inj, inl, inr, Option-cases, Bool-cases, if_true, if_false,
}
use vxdebug.Text.{Str, str_eq, eq_of_str_eq}
use vxdebug.Riscv.Asm.{
  words, Cache, cached, to_assemble, little_endian, read_binary, store_words, fill, count_words,
  as_many, assemble_lines, rv_asm,
}

abbrev pub word_bytes : ℕ → List ℕ
word_bytes w = w % 256 ∷ w / 256 % 256 ∷ w / 65536 % 256 ∷ w / 16777216 % 256 ∷ []

unfoldable pub binary : List ℕ → List ℕ
binary [] = []
binary (w ∷ ws) = word_bytes w ++ binary ws

-- Lines that are each one instruction of 32 bits.
unfoldable pub AllValid : (Str → Bool) → List Str → Type 0
AllValid valid [] = Unit {0}
AllValid valid (line ∷ more) = (valid line ≡ true) × AllValid valid more

-- The toolchain makes, of valid lines, their words one after the other.
pub record Assembles (toolchain : List Str → Option (List ℕ)) : Type 0 where
  pub valid : Str → Bool
  pub word : Str → ℕ
  pub in_range : (line : Str) → word line < 2 ^ 32
  pub each_line :
      (lines : List Str) → AllValid valid lines → toolchain lines ≡ some (binary (map word lines))

-- Every entry of the cache is the word of its line.
abbrev pub Agrees : (Str → ℕ) → Cache → Type 0
Agrees word cache = (line : Str) (w : ℕ) → cached line cache ≡ some w → w ≡ word line

little_endian-word_bytes :
    (w : ℕ)
    → w < 2 ^ 32
    → little_endian (w % 256) (w / 256 % 256) (w / 65536 % 256) (w / 16777216 % 256) ≡ w
little_endian-word_bytes w h = omega arith

read_binary-binary :
    (word : Str → ℕ) (lines : List Str)
    → ((line : Str) → word line < 2 ^ 32)
    → read_binary (binary (map word lines)) ≡ (map word lines, false)
unfolding read_binary binary
read_binary-binary word [] h = refl
read_binary-binary word (line ∷ more) h =
    ap₂ (λ (w : ℕ) (r : List ℕ × Bool). (w ∷ r.0, r.1))
      (little_endian-word_bytes (word line) (h line)) (read_binary-binary word more h)

count_words-map : (word : Str → ℕ) (lines : List Str) → count_words lines (map word lines) ≡ as_many
unfolding count_words
count_words-map word [] = refl
count_words-map word (line ∷ more) = count_words-map word more

Agrees-cons :
    (word : Str → ℕ) (cache : Cache) (line : Str)
    → Agrees word cache
    → Agrees word ((line, word line) ∷ cache)
unfolding cached
Agrees-cons word cache line h l w e = elim (Bool-cases (str_eq line l)) [
  | inl same ↦ sym (some_inj (sym (if_true _ _ same) ∙ e)) ∙ ap word (eq_of_str_eq line l same)
  | inr other ↦ h l w (sym (if_false _ _ other) ∙ e)
]

Agrees-store_words :
    (word : Str → ℕ) (lines : List Str) (cache : Cache)
    → Agrees word cache
    → Agrees word (store_words lines (map word lines) cache)
unfolding store_words
Agrees-store_words word [] cache h = h
Agrees-store_words word (line ∷ more) cache h =
    Agrees-store_words word more ((line, word line) ∷ cache) (Agrees-cons word cache line h)

fill-words :
    (word : Str → ℕ) (cache : Cache) (lines : List Str)
    → Agrees word cache
    → fill cache lines (map word (to_assemble cache lines)) ≡ map word lines
unfolding fill to_assemble
fill-words word cache [] h = refl
fill-words word cache (line ∷ more) h = elim (Option-cases (cached line cache)) [
  | inl e ↦ rw (to_assemble, e, fill, e) (ap (λ l. word line ∷ l) (fill-words word cache more h))
  | inr (w, e) ↦
      rw (to_assemble, e, fill, e)
        (ap₂ (λ (x : ℕ) (l : List ℕ). x ∷ l) (h line w e) (fill-words word cache more h))
]

AllValid-to_assemble :
    (valid : Str → Bool) (cache : Cache) (lines : List Str)
    → AllValid valid lines
    → AllValid valid (to_assemble cache lines)
unfolding AllValid to_assemble
AllValid-to_assemble valid cache [] h = tt
AllValid-to_assemble valid cache (line ∷ more) (v, h) = elim (Option-cases (cached line cache)) [
  | inl e ↦ rw (to_assemble, e) (v, AllValid-to_assemble valid cache more h)
  | inr (w, e) ↦ rw (to_assemble, e) (AllValid-to_assemble valid cache more h)
]

module _ {toolchain : List Str → Option (List ℕ)} (law : Assembles toolchain) where
  assemble_lines_lem :
      (lines missing : List Str) (cache : Cache)
      → AllValid law.valid missing
      → Agrees law.word cache
      → fill cache lines (map law.word missing) ≡ map law.word lines
      → (after : Cache) × (assemble_lines toolchain lines missing cache
          ≡ (words (map law.word lines), after))
        × Agrees law.word after
  unfolding assemble_lines
  assemble_lines_lem lines [] cache v h e = (cache, ap (λ l. (words l, cache)) e, h)
  assemble_lines_lem lines (l ∷ missing) cache v h e = (
    store_words (l ∷ missing) (map law.word (l ∷ missing)) cache,
    rw
        (
          assemble_lines,
          law.each_line (l ∷ missing) v,
          read_binary-binary law.word (l ∷ missing) law.in_range,
          count_words-map law.word (l ∷ missing),
          e,
        )
        refl,
    Agrees-store_words law.word (l ∷ missing) cache h,
  )

  -- Whatever words the cache holds, if they are those of their lines, `rv_asm` returns the words of
  -- all its lines, each one valid instruction for the toolchain; the cache then again holds only
  -- words of their lines.
  pub rv_asm_lem :
      (lines : List Str) (cache : Cache)
      → AllValid law.valid lines
      → Agrees law.word cache
      → (after : Cache) × (rv_asm toolchain lines cache ≡ (words (map law.word lines), after))
        × Agrees law.word after
  unfolding rv_asm
  rv_asm_lem lines cache v h =
      assemble_lines_lem lines (to_assemble cache lines) cache
        (AllValid-to_assemble law.valid cache lines v) h (fill-words law.word cache lines h)
