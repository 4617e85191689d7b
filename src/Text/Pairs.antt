-- ===== src/Text/Pairs.antt =====
-- `%0Nx` two digits at a time.
use vxdebug.Base.{
  ℕ, zero, suc, ◌-◌, ◌/◌, ◌%◌, ◌<◌, ◌≤◌, ◌≡◌, refl, sym, ap, ap₂, ◌∙◌, arith, [], ◌∷◌, ◌++◌,
  append_assoc, length, length-append, replicate, inl, inr,
}
use vxdebug.Text.{Str}
use vxdebug.Text.Number.{digit_char, digits, hex, hex_padded}
use vxdebug.Text.Digits.{small_or_large, digits_small, digits_large, hex_two}

-- Enough fuel gives the digits.
digits-fuel : (k j n : ℕ) → n < k → n < j → digits 16 k n ≡ digits 16 j n
digits-fuel zero j n h l = absurd (omega arith)
digits-fuel (suc k) zero n h l = absurd (omega arith)
digits-fuel (suc k) (suc j) n h l = elim (small_or_large n) [
  | inl e ↦ digits_small k n e ∙ sym (digits_small j n e)
  | inr e ↦
      digits_large k n e
      ∙ ap (λ s. s ++ digit_char (n % 16) ∷ [])
          (digits-fuel k j (n / 16) (omega arith) (omega arith))
      ∙ sym (digits_large j n e)
]

hex-step : (n : ℕ) → 16 ≤ n → hex n ≡ hex (n / 16) ++ digit_char (n % 16) ∷ []
unfolding hex
hex-step n h =
    digits_large n n h
    ∙ ap (λ s. s ++ digit_char (n % 16) ∷ [])
        (digits-fuel n (suc (n / 16)) (n / 16) (omega arith) (omega arith))

zeros-step : (k : ℕ) → replicate {A = ℕ} k b'0' ++ b'0' ∷ [] ≡ replicate (suc k) b'0'
zeros-step zero = refl
zeros-step (suc k) = ap (λ s. b'0' ∷ s) (zeros-step k)

-- A text in a column, with zeros in front.
padded : ℕ → Str → Str
padded w s = replicate (w - length s) b'0' ++ s

padded-one :
    (w c d : ℕ) → c ≡ b'0' → padded (suc (suc w)) (d ∷ []) ≡ padded (suc w) (c ∷ []) ++ d ∷ []
unfolding padded
padded-one w c d e =
    ap (λ k. replicate k b'0' ++ d ∷ []) {x = suc (suc w) - 1} {y = suc w} (omega arith)
    ∙ ap (λ s. s ++ d ∷ [])
        (sym (zeros-step w)
          ∙ ap₂ (λ (k x : ℕ). replicate {A = ℕ} k b'0' ++ x ∷ []) {x = w} {y = suc w - 1}
              (omega arith) (sym e))

padded-more : (w d : ℕ) (s : Str) → padded (suc w) (s ++ d ∷ []) ≡ padded w s ++ d ∷ []
unfolding padded
padded-more w d s =
    ap (λ k. replicate {A = ℕ} k b'0' ++ (s ++ d ∷ [])) {x = suc w - length (s ++ d ∷ [])}
      {y = w - length s} (omega (arith, length-append s (d ∷ [])))
    ∙ sym (append_assoc (replicate (w - length s) b'0') s (d ∷ []))

hex-small : (n : ℕ) → n < 16 → hex n ≡ digit_char n ∷ []
unfolding hex
hex-small n h = digits_small n n h

-- One digit more.
hex_padded-step :
    (w n : ℕ) → hex_padded (suc (suc w)) n ≡ hex_padded (suc w) (n / 16) ++ digit_char (n % 16) ∷ []
unfolding hex_padded padded
hex_padded-step w n = elim (small_or_large n) [
  | inl e ↦
      ap (padded (suc (suc w))) (hex-small n e)
      ∙ padded-one w (digit_char (n / 16)) (digit_char n)
          (ap digit_char {x = n / 16} {y = 0} (omega arith))
      ∙ ap₂ (λ (s : Str) (x : ℕ). padded (suc w) s ++ x ∷ [])
          (sym (hex-small (n / 16) (omega arith)))
          (ap digit_char {x = n} {y = n % 16} (omega arith))
  | inr e ↦
      ap (padded (suc (suc w))) (hex-step n e)
      ∙ padded-more (suc w) (digit_char (n % 16)) (hex (n / 16))
]

-- Two digits more.
pub hex_padded-pair :
    (w n : ℕ)
    → hex_padded (suc (suc (suc w))) n ≡ hex_padded (suc w) (n / 256) ++ hex_padded 2 (n % 256)
hex_padded-pair w n =
    hex_padded-step (suc w) n
    ∙ ap (λ s. s ++ digit_char (n % 16) ∷ []) (hex_padded-step w (n / 16))
    ∙ append_assoc (hex_padded (suc w) (n / 16 / 16)) (digit_char (n / 16 % 16) ∷ [])
        (digit_char (n % 16) ∷ [])
    ∙ ap₂ (λ (k : ℕ) (s : Str). hex_padded (suc w) k ++ s) {x = n / 16 / 16} {y = n / 256}
        (omega arith)
        (ap₂ (λ (x y : ℕ). digit_char x ∷ digit_char y ∷ []) {x = n / 16 % 16} {y = n % 256 / 16}
            {u = n % 16} {v = n % 256 % 16} (omega arith) (omega arith)
          ∙ sym (hex_two (n % 256) (omega arith)))
