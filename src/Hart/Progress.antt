-- ===== src/Hart/Progress.antt =====
-- How far a sequence of bytes has been stored (src/backend.cpp, `cur` and `idx` in `write_mem`).
use vxdebug.Base.{
  ℕ, zero, suc, ◌+◌, ◌%◌, ◌^◌, ◌<◌, ◌≤◌, ◌≡◌, refl, sym, ap, arith, ◌∙◌, List, [], ◌∷◌, ◌++◌, take,
  drop, length, take-append-drop, length-take, length-drop,
}
use vxdebug.Base.Lists.{AreByteValues}
use vxdebug.Backend.Memory.{bytes_word}
use vxdebug.Hart.{store_word, update}
use vxdebug.Hart.Bytes.{AreBytes}
use vxdebug.Hart.Store.{store_bytes, store_word-bytes}

store_bytes-append :
    (m : ℕ → ℕ) (a : ℕ) (xs ys : List ℕ)
    → a < 2 ^ 32
    → store_bytes m a (xs ++ ys) ≡ store_bytes (store_bytes m a xs) ((a + length xs) % 2 ^ 32) ys
unfolding store_bytes
store_bytes-append m a [] ys lt = ap (λ i. store_bytes m i ys) (omega arith)
store_bytes-append m a (x ∷ xs) ys lt =
    store_bytes-append (update m a x) ((a + 1) % 2 ^ 32) xs ys (omega arith)
    ∙ ap (λ i. store_bytes (store_bytes (update m a x) ((a + 1) % 2 ^ 32) xs) i ys) (omega arith)

update-AreBytes : (m : ℕ → ℕ) (a x : ℕ) → AreBytes m → x < 256 → AreBytes (update m a x)
update-AreBytes m a x by h = λ j. let k = by j in ground arith

AreBytes-store :
    (m : ℕ → ℕ) (a : ℕ) (xs : List ℕ)
    → AreBytes m
    → AreByteValues xs
    → AreBytes (store_bytes m a xs)
unfolding store_bytes AreByteValues
AreBytes-store m a [] by h = by
AreBytes-store m a (x ∷ xs) by (h, hs) =
    AreBytes-store (update m a x) ((a + 1) % 2 ^ 32) xs (update-AreBytes m a x by h) hs

pub AreByteValues-take : (k : ℕ) (xs : List ℕ) → AreByteValues xs → AreByteValues (take k xs)
unfolding AreByteValues
AreByteValues-take zero xs h = tt
AreByteValues-take (suc k) [] h = tt
AreByteValues-take (suc k) (x ∷ xs) (h, hs) = (h, AreByteValues-take k xs hs)

AreByteValues-drop : (k : ℕ) (xs : List ℕ) → AreByteValues xs → AreByteValues (drop k xs)
unfolding AreByteValues
AreByteValues-drop zero xs h = h
AreByteValues-drop (suc k) [] h = tt
AreByteValues-drop (suc k) (x ∷ xs) (h, hs) = AreByteValues-drop k xs hs

-- With `rest` still to be stored from `cur` on in the memory `m`, and `goal` the memory then.
pub record Progress (goal : ℕ → ℕ) (finish : ℕ) (m : ℕ → ℕ) (cur : ℕ) (rest : List ℕ) : Type 0 where
  pub stored : store_bytes m cur rest ≡ goal
  pub ends_at : cur + length rest ≡ finish
  pub no_wrap : finish < 2 ^ 32
  pub values : AreByteValues rest
  pub memory : AreBytes m

pub Progress-advance :
    {goal : ℕ → ℕ} {finish : ℕ} (m : ℕ → ℕ) (cur : ℕ) (rest : List ℕ) (k : ℕ)
    → k ≤ length rest
    → Progress goal finish m cur rest
    → Progress goal finish (store_bytes m cur (take k rest)) ((cur + k) % 2 ^ 32) (drop k rest)
Progress-advance {goal} {finish} m cur rest k le g =
    let e = g.ends_at in
    let w = g.no_wrap in
    record {
      stored =
          ap (λ i. store_bytes (store_bytes m cur (take k rest)) i (drop k rest))
            (omega (arith, length-take k rest))
          ∙ sym (store_bytes-append m cur (take k rest) (drop k rest) (omega arith))
          ∙ ap (store_bytes m cur) (take-append-drop k rest)
          ∙ g.stored;
      ends_at = omega (arith, length-drop k rest);
      no_wrap = w;
      values = AreByteValues-drop k rest g.values;
      memory = AreBytes-store m cur (take k rest) g.memory (AreByteValues-take k rest g.values);
    }

-- Four bytes at once are one word.
pub store_word-take :
    (m : ℕ → ℕ) (cur : ℕ) (rest : List ℕ)
    → cur < 2 ^ 32
    → 4 ≤ length rest
    → AreByteValues rest
    → (store_word m cur (bytes_word (take 4 rest)) ≡ store_bytes m cur (take 4 rest))
      × (bytes_word (take 4 rest) < 2 ^ 32)
unfolding AreByteValues store_bytes
store_word-take m cur (p ∷ q ∷ r ∷ s ∷ rest) lt h (hp, (hq, (hr, (hs, by)))) =
    (store_word-bytes m cur p q r s hp hq hr hs ∙ rw (step cur 1, step cur 2) refl, omega arith)
  where
    step : (x k : ℕ) → ((x + k) % 2 ^ 32 + 1) % 2 ^ 32 ≡ (x + (k + 1)) % 2 ^ 32
    step x k = omega arith
store_word-take m cur [] lt h by = absurd (omega arith)
store_word-take m cur (p ∷ []) lt h by = absurd (omega arith)
store_word-take m cur (p ∷ q ∷ []) lt h by = absurd (omega arith)
store_word-take m cur (p ∷ q ∷ r ∷ []) lt h by = absurd (omega arith)
