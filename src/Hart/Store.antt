-- ===== src/Hart/Store.antt =====
-- Bytes stored in the target's memory, one by one and word by word (src/backend.cpp, `write_mem`).
use mathlib.Core.Path.{subst}
use vxdebug.Base.{
  ℕ, zero, suc, ◌+◌, ◌-◌, ◌*◌, ◌/◌, ◌%◌, ◌^◌, ◌<◌, ◌≤◌, ◌≡◌, refl, sym, ap, arith, ◌∙◌, List, [],
  ◌∷◌, length, set, fun_ext,
}
use vxdebug.Base.Lists.{AreByteValues}
use vxdebug.Backend.Memory.{word_bytes, bytes_word, patch}
use vxdebug.Hart.{load_word, store_word, update}
use vxdebug.Hart.Bytes.{AreBytes, word_bytes-load}

-- A memory after bytes were stored from an address on; addresses wrap at 2 ^ 32.
unfoldable pub store_bytes : (ℕ → ℕ) → ℕ → List ℕ → ℕ → ℕ
store_bytes m a [] = m
store_bytes m a (x ∷ xs) = store_bytes (update m a x) ((a + 1) % 2 ^ 32) xs

-- The four bytes of the word at `b`.
abbrev pub store_four : (ℕ → ℕ) → ℕ → ℕ → ℕ → ℕ → ℕ → ℕ → ℕ
store_four m b p q r s =
    update (update (update (update m b p) ((b + 1) % 2 ^ 32) q) ((b + 2) % 2 ^ 32) r)
      ((b + 3) % 2 ^ 32) s

module _ (m : ℕ → ℕ) (b : ℕ) (lt : b < 2 ^ 32 - 3) where
  store_four_self :
      store_four m b (m b) (m ((b + 1) % 2 ^ 32)) (m ((b + 2) % 2 ^ 32)) (m ((b + 3) % 2 ^ 32)) ≡ m
  store_four_self = fun_ext λ j. ground arith

  module _ (p q r s x : ℕ) where
    store_first : store_four m b x q r s ≡ update (store_four m b p q r s) b x
    store_first = fun_ext λ j. ground arith

    store_second : store_four m b p x r s ≡ update (store_four m b p q r s) ((b + 1) % 2 ^ 32) x
    store_second = fun_ext λ j. ground arith

    store_third : store_four m b p q x s ≡ update (store_four m b p q r s) ((b + 2) % 2 ^ 32) x
    store_third = fun_ext λ j. ground arith

    store_fourth : store_four m b p q r x ≡ update (store_four m b p q r s) ((b + 3) % 2 ^ 32) x
    store_fourth = fun_ext λ j. ground arith

pub store_word-bytes :
    (m : ℕ → ℕ) (b p q r s : ℕ)
    → p < 256
    → q < 256
    → r < 256
    → s < 256
    → store_word m b (bytes_word (p ∷ q ∷ r ∷ s ∷ [])) ≡ store_four m b p q r s
store_word-bytes m b p q r s hp hq hr hs = rw (first, second, third, fourth) refl
  where
    first : (p + q * 256 + r * 65536 + s * 16777216) % 256 ≡ p
    first = omega arith

    second : (p + q * 256 + r * 65536 + s * 16777216) / 256 % 256 ≡ q
    second = omega arith

    third : (p + q * 256 + r * 65536 + s * 16777216) / 65536 % 256 ≡ r
    third = omega arith

    fourth : (p + q * 256 + r * 65536 + s * 16777216) / 16777216 % 256 ≡ s
    fourth = omega arith

-- The four bytes `ps`, stored at `b`, make `m` the memory `target`.
pub record Makes (m : ℕ → ℕ) (b : ℕ) (target : ℕ → ℕ) (ps : List ℕ) : Type 0 where
  pub p : ℕ
  pub q : ℕ
  pub r : ℕ
  pub s : ℕ
  pub shape : ps ≡ p ∷ q ∷ r ∷ s ∷ []
  pub p_byte : p < 256
  pub q_byte : q < 256
  pub r_byte : r < 256
  pub s_byte : s < 256
  pub stores : store_four m b p q r s ≡ target

pub store_word-Makes :
    (m : ℕ → ℕ) (b : ℕ) {target : ℕ → ℕ} {ps : List ℕ}
    → Makes m b target ps
    → store_word m b (bytes_word ps) ≡ target
store_word-Makes m b k =
    ap (λ l. store_word m b (bytes_word l)) k.shape
    ∙ store_word-bytes m b k.p k.q k.r k.s k.p_byte k.q_byte k.r_byte k.s_byte
    ∙ k.stores

module _ (m : ℕ → ℕ) (b : ℕ) (lt : b < 2 ^ 32 - 3) where
  -- The word as it is read.
  Makes-self : AreBytes m → Makes m b m (word_bytes (load_word m b))
  Makes-self by = record {
    p = m b;
    q = m ((b + 1) % 2 ^ 32);
    r = m ((b + 2) % 2 ^ 32);
    s = m ((b + 3) % 2 ^ 32);
    shape = word_bytes-load m b by;
    p_byte = by b;
    q_byte = by ((b + 1) % 2 ^ 32);
    r_byte = by ((b + 2) % 2 ^ 32);
    s_byte = by ((b + 3) % 2 ^ 32);
    stores = store_four_self m b lt;
  }

  -- One byte of it exchanged.
  Makes-set :
      {target : ℕ → ℕ} {ps : List ℕ} (i x : ℕ)
      → i < 4
      → x < 256
      → Makes m b target ps
      → Makes m b (update target ((b + i) % 2 ^ 32) x) (set ps i x)
  Makes-set {target = target} zero x hi hx k = record {
    p = x;
    q = k.q;
    r = k.r;
    s = k.s;
    shape = ap (λ l. set l 0 x) k.shape;
    p_byte = hx;
    q_byte = k.q_byte;
    r_byte = k.r_byte;
    s_byte = k.s_byte;
    stores =
        store_first m b lt k.p k.q k.r k.s x
        ∙ ap (λ f. update f b x) k.stores
        ∙ ap (λ j. update target j x) (omega arith);
  }
  Makes-set (suc zero) x hi hx k = record {
    p = k.p;
    q = x;
    r = k.r;
    s = k.s;
    shape = ap (λ l. set l 1 x) k.shape;
    p_byte = k.p_byte;
    q_byte = hx;
    r_byte = k.r_byte;
    s_byte = k.s_byte;
    stores =
        store_second m b lt k.p k.q k.r k.s x ∙ ap (λ f. update f ((b + 1) % 2 ^ 32) x) k.stores;
  }
  Makes-set (suc (suc zero)) x hi hx k = record {
    p = k.p;
    q = k.q;
    r = x;
    s = k.s;
    shape = ap (λ l. set l 2 x) k.shape;
    p_byte = k.p_byte;
    q_byte = k.q_byte;
    r_byte = hx;
    s_byte = k.s_byte;
    stores =
        store_third m b lt k.p k.q k.r k.s x ∙ ap (λ f. update f ((b + 2) % 2 ^ 32) x) k.stores;
  }
  Makes-set (suc (suc (suc zero))) x hi hx k = record {
    p = k.p;
    q = k.q;
    r = k.r;
    s = x;
    shape = ap (λ l. set l 3 x) k.shape;
    p_byte = k.p_byte;
    q_byte = k.q_byte;
    r_byte = k.r_byte;
    s_byte = hx;
    stores =
        store_fourth m b lt k.p k.q k.r k.s x ∙ ap (λ f. update f ((b + 3) % 2 ^ 32) x) k.stores;
  }
  Makes-set (suc (suc (suc (suc i)))) x hi hx k = absurd (omega arith)

  Makes-patch :
      (new : List ℕ) (i : ℕ) {target : ℕ → ℕ} {ps : List ℕ}
      → i + length new ≤ 4
      → AreByteValues new
      → Makes m b target ps
      → Makes m b (store_bytes target ((b + i) % 2 ^ 32) new) (patch ps i new)
  unfolding store_bytes patch AreByteValues
  Makes-patch [] i h by k = k
  Makes-patch (x ∷ xs) i {target = target} {ps = ps} h (hx, by) k =
      subst
        (λ j.
          Makes m b (store_bytes (update target ((b + i) % 2 ^ 32) x) j xs)
            (patch (set ps i x) (i + 1) xs))
        (omega arith) (Makes-patch xs (i + 1) (omega arith) by (Makes-set i x (omega arith) hx k))

  -- What `write_partial` writes back: the word with `new` in it from its byte `i` on.
  pub store_word-patch :
      (new : List ℕ) (i : ℕ)
      → i + length new ≤ 4
      → AreByteValues new
      → AreBytes m
      → store_word m b (bytes_word (patch (word_bytes (load_word m b)) i new))
        ≡ store_bytes m ((b + i) % 2 ^ 32) new
  store_word-patch new i h by mem = store_word-Makes m b (Makes-patch new i h by (Makes-self mem))

  pub patched-lt :
      (new : List ℕ) (i : ℕ)
      → i + length new ≤ 4
      → AreByteValues new
      → AreBytes m
      → bytes_word (patch (word_bytes (load_word m b)) i new) < 2 ^ 32
  patched-lt new i h by mem = below (Makes-patch new i h by (Makes-self mem))
    where
      below : {target : ℕ → ℕ} {ps : List ℕ} → Makes m b target ps → bytes_word ps < 2 ^ 32
      below {target} {ps} k =
          let hp = k.p_byte in
          let hq = k.q_byte in
          let hr = k.r_byte in
          let hs = k.s_byte in
          subst (λ l. bytes_word l < 2 ^ 32) (sym k.shape) (four k.p k.q k.r k.s hp hq hr hs)
        where
          four :
              (p q r s : ℕ)
              → p < 256
              → q < 256
              → r < 256
              → s < 256
              → p + q * 256 + r * 65536 + s * 16777216 < 2 ^ 32
          four p q r s hp hq hr hs = omega arith
