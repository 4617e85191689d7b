-- ===== src/Hart/Bytes.antt =====
-- The target's memory as bytes: words and the addresses of words (src/backend.cpp, the rounding in
-- `read_mem` and `write_mem`).
use vxdebug.Base.{
  ℕ, zero, suc, ◌+◌, ◌-◌, ◌*◌, ◌/◌, ◌%◌, ◌^◌, ◌<◌, bit_and, ◌≡◌, refl, ap, ap₂, arith, ◌∙◌, List,
  [], ◌∷◌, ◌++◌, take, drop,
}
use vxdebug.Bits.{bit_and-cut, bit_and-zero, bit_and_ones}
use vxdebug.Backend.Memory.{word_bytes, word_base}
use vxdebug.Hart.{load_word}

-- The bytes of a memory from an address on; addresses wrap at 2 ^ 32.
unfoldable pub mem_bytes : (ℕ → ℕ) → ℕ → ℕ → List ℕ
mem_bytes m a zero = []
mem_bytes m a (suc n) = m a ∷ mem_bytes m ((a + 1) % 2 ^ 32) n

abbrev pub AreBytes : (ℕ → ℕ) → Type 0
AreBytes m = (k : ℕ) → m k < 256

pub word_base_lem : (a : ℕ) → a < 2 ^ 32 → word_base a ≡ a / 4 * 4
word_base_lem a lt =
    ap (λ (x : ℕ). bit_and x 0xffff_fffc) split
    ∙ bit_and-cut 2 (a / 4) (2 ^ 30 - 1) (a % 4) 0 (omega arith) (omega arith)
    ∙ ap₂ (λ (x y : ℕ). x * 4 + y) (bit_and_ones 30 (a / 4) (omega arith)) (bit_and-zero (a % 4))
    ∙ omega arith
  where
    split : a ≡ a / 4 * 2 ^ 2 + a % 4
    split = omega arith

-- The bytes of a loaded word are those in memory.
pub word_bytes-load :
    (m : ℕ → ℕ) (x : ℕ)
    → AreBytes m
    → word_bytes (load_word m x)
      ≡ m x ∷ m ((x + 1) % 2 ^ 32) ∷ m ((x + 2) % 2 ^ 32) ∷ m ((x + 3) % 2 ^ 32) ∷ []
word_bytes-load m x by =
    let b0 = by x in
    let b1 = by ((x + 1) % 2 ^ 32) in
    let b2 = by ((x + 2) % 2 ^ 32) in let b3 = by ((x + 3) % 2 ^ 32) in bytes4 _ _ _ _ b0 b1 b2 b3
  where
    bytes4 :
        (p q r s : ℕ)
        → p < 256
        → q < 256
        → r < 256
        → s < 256
        → word_bytes (p + q * 256 + r * 65536 + s * 16777216) ≡ p ∷ q ∷ r ∷ s ∷ []
    bytes4 p q r s hp hq hr hs = ground arith

pub mem_bytes_four :
    (m : ℕ → ℕ) (x n : ℕ)
    → mem_bytes m x (4 * suc n)
      ≡ (m x ∷ m ((x + 1) % 2 ^ 32) ∷ m ((x + 2) % 2 ^ 32) ∷ m ((x + 3) % 2 ^ 32) ∷ [])
        ++ mem_bytes m ((x + 4) % 2 ^ 32) (4 * n)
unfolding mem_bytes
mem_bytes_four m x n = rw (count, add_twice x 1, add_twice x 2, add_twice x 3) refl
  where
    count : 4 * suc n ≡ suc (suc (suc (suc (4 * n))))
    count = omega arith

    add_twice : (x k : ℕ) → ((x + k) % 2 ^ 32 + 1) % 2 ^ 32 ≡ (x + (k + 1)) % 2 ^ 32
    add_twice x k = omega arith

pub drop-mem_bytes :
    (m : ℕ → ℕ) (k x n : ℕ)
    → x < 2 ^ 32
    → drop k (mem_bytes m x (k + n)) ≡ mem_bytes m ((x + k) % 2 ^ 32) n
unfolding mem_bytes
drop-mem_bytes m zero x n lt = ap₂ (λ (i j : ℕ). mem_bytes m i j) (omega arith) (omega arith)
drop-mem_bytes m (suc k) x n lt = rw (suc_plus k n) (
    drop-mem_bytes m k ((x + 1) % 2 ^ 32) n (omega arith)
    ∙ ap (λ (i : ℕ). mem_bytes m i n) (omega arith))
  where
    suc_plus : (k n : ℕ) → suc k + n ≡ suc (k + n)
    suc_plus k n = omega arith

pub take-mem_bytes : (m : ℕ → ℕ) (n x k : ℕ) → take n (mem_bytes m x (n + k)) ≡ mem_bytes m x n
unfolding mem_bytes
take-mem_bytes m zero x k = refl
take-mem_bytes m (suc n) x k =
    rw (suc_plus n k) (ap (λ l. m x ∷ l) (take-mem_bytes m n ((x + 1) % 2 ^ 32) k))
  where
    suc_plus : (k n : ℕ) → suc k + n ≡ suc (k + n)
    suc_plus k n = omega arith
