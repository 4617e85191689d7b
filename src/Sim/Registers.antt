-- ===== src/Sim/Registers.antt =====
-- A debug server of the tests: plain registers behind the documented formats. It stands for no code of
-- the repository.
use vxdebug.Base.{
  ℕ, ◌^◌, ◌%◌, ◌<◌, inr, ◌≡◌, refl, sym, ap, ◌∙◌, arith, List, [], ◌∷◌, ◌++◌, map, Option, none,
  some, ◌==◌, if◌then◌else◌, update,
}
use vxdebug.Text.{Str, codes}
use vxdebug.Text.Number.{hex_padded, hex_u32}
use vxdebug.Util.{split_at, tokenize, join}
use vxdebug.Util.Split.{split_at-append, Avoids-hex_padded}
use vxdebug.Wire.Peer.{Server, AllWords, read_each, hex_u32-text}
use vxdebug.Wire.Batch.{tokens-texts, numbers-texts}

abbrev pub read_word : ℕ → (ℕ → ℕ) → ℕ × (ℕ → ℕ)
read_word a m = (m a % 2 ^ 32, m)

abbrev pub write_pair : (ℕ → ℕ) → Option (Str × Str) → Str × (ℕ → ℕ)
write_pair m none = (codes "-", m)
write_pair m (some (a, v)) = (codes "+", update m (hex_u32 a) (hex_u32 v))

abbrev pub words : (ℕ → ℕ) → List ℕ → List ℕ
words m l = map (λ a. m a % 2 ^ 32) l

-- The response to a command, and the registers after it.
unfoldable pub serve : (ℕ → ℕ) → Str → Str × (ℕ → ℕ)
serve m [] = (codes "-", m)
serve m (c ∷ s) =
    if c == b'r'
    then (b'+' ∷ hex_padded 8 (m (hex_u32 s) % 2 ^ 32), m)
    else if c == b'w'
    then write_pair m (split_at b':' s)
    else if c == b'R'
    then (b'+' ∷ join b',' (map (hex_padded 8) (words m (map hex_u32 (tokenize b',' s)))), m)
    else (codes "-", m)

pub read_each-words : (m : ℕ → ℕ) (l : List ℕ) → read_each read_word l m ≡ (words m l, m)
unfolding read_each
read_each-words m [] = refl
read_each-words m (a ∷ l) =
    ap (λ (r : List ℕ × (ℕ → ℕ)). (m a % 2 ^ 32 ∷ r.0, r.1)) (read_each-words m l)

pub served_read :
    (m : ℕ → ℕ) (a : ℕ)
    → a < 2 ^ 32
    → serve m (b'r' ∷ hex_padded 4 a) ≡ (b'+' ∷ hex_padded 8 (m a % 2 ^ 32), m)
unfolding serve
served_read m a lt = rw (hex_u32-text 4 a (omega arith) lt) refl

pub served_write :
    (m : ℕ → ℕ) (a v : ℕ)
    → a < 2 ^ 32
    → v < 2 ^ 32
    → serve m (b'w' ∷ (hex_padded 4 a ++ b':' ∷ hex_padded 8 v)) ≡ (codes "+", update m a v)
unfolding serve
served_write m a v lt vlt =
    rw
      (
        split_at-append b':' (hex_padded 4 a) (hex_padded 8 v)
            (Avoids-hex_padded b':' 4 a (inr (omega arith))),
        hex_u32-text 4 a (omega arith) lt,
        hex_u32-text 8 v (omega arith) vlt,
      )
      refl

pub served_batch :
    (m : ℕ → ℕ) (a : ℕ) (l : List ℕ)
    → AllWords (a ∷ l)
    → serve m (b'R' ∷ join b',' (map (hex_padded 4) (a ∷ l)))
      ≡ (b'+' ∷ join b',' (map (hex_padded 8) (words m (a ∷ l))), m)
unfolding serve
served_batch m a l h =
    ap (λ (k : List ℕ). (b'+' ∷ join b',' (map (hex_padded 8) (words m k)), m))
      (ap (map hex_u32) (tokens-texts 4 a l) ∙ numbers-texts 4 (a ∷ l) (omega arith) h)

unfoldable pub registers_server : Server (ℕ → ℕ)
registers_server = record {
  reading = read_word;
  writing = λ a v m. update m a v;
  answer = serve;
  is_word = λ a m. omega arith;
  answers_read = served_read;
  answers_write = served_write;
  answers_batch = λ m a l h.
      served_batch m a l h
      ∙ ap (λ (r : List ℕ × (ℕ → ℕ)). (b'+' ∷ join b',' (map (hex_padded 8) r.0), r.1))
          (sym (read_each-words m (a ∷ l)));
}
