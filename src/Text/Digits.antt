-- ===== src/Text/Digits.antt =====
-- The digits of a number in base 16, and reading them one by one.
use mathlib.Core.Path.{◌≡⟨◌⟩◌, ◌∎, subst}
use native.Mathlib.Nat.{pow-suc}
use vxdebug.Base.{
  ℕ, zero, suc, ◌+◌, ◌-◌, ◌*◌, ◌/◌, ◌%◌, ◌^◌, ◌<◌, ◌≤◌, [], ◌∷◌, ◌++◌, some, length, replicate, ◌≡◌,
  refl, arith, true, ap, ap₂, ◌∙◌, sym, ◌⊎◌, inl, inr, append_assoc, length-append,
  length-replicate, append-nil,
}
use vxdebug.Text.{Str}
use vxdebug.Text.Number.{digit_char, digit_in, digits, hex, hex_padded, read_digits, starts_digit}

-- Text of which no more digits are read.
abbrev pub Stops : Str → Type 0
Stops rest = (n : ℕ) → read_digits 16 n rest ≡ n

pub Stops-nil : Stops []
unfolding read_digits
Stops-nil n = refl

digit_in-digit_char : (d : ℕ) → d < 16 → digit_in 16 (digit_char d) ≡ some d
digit_in-digit_char d h = ground arith

read-digit :
    (d acc : ℕ) (rest : Str)
    → d < 16
    → read_digits 16 acc (digit_char d ∷ rest) ≡ read_digits 16 (acc * 16 + d) rest
unfolding read_digits
read-digit d acc rest h = rw (digit_in-digit_char d h, read_digits) refl

pub digits_small : (k n : ℕ) → n < 16 → digits 16 (suc k) n ≡ digit_char n ∷ []
unfolding digits
digits_small k n h = ground arith

pub digits_large :
    (k n : ℕ) → 16 ≤ n → digits 16 (suc k) n ≡ digits 16 k (n / 16) ++ digit_char (n % 16) ∷ []
unfolding digits
digits_large k n h = ground arith

pub small_or_large : (n : ℕ) → (n < 16) ⊎ (16 ≤ n)
small_or_large n = ground arith

-- Fuel beyond the number itself suffices.
read-digits :
    (k n : ℕ) (rest : Str)
    → n < k
    → read_digits 16 0 (digits 16 k n ++ rest) ≡ read_digits 16 n rest
read-digits zero n rest h = absurd (omega arith)
read-digits (suc k) n rest h = elim (small_or_large n) [
  | inl e ↦
      rw (digits_small k n e)
        (read-digit n 0 rest e ∙ ap (λ x. read_digits 16 x rest) (omega arith))
  | inr e ↦
      read_digits 16 0 (digits 16 (suc k) n ++ rest)
      ≡⟨ rw (digits_large k n e, append_assoc) refl ⟩
        read_digits 16 0 (digits 16 k (n / 16) ++ digit_char (n % 16) ∷ rest)
      ≡⟨ read-digits k (n / 16) (digit_char (n % 16) ∷ rest) (omega arith) ⟩
        read_digits 16 (n / 16) (digit_char (n % 16) ∷ rest)
      ≡⟨ read-digit (n % 16) (n / 16) rest (omega arith) ⟩
        read_digits 16 (n / 16 * 16 + n % 16) rest
      ≡⟨ ap (λ x. read_digits 16 x rest) (omega arith) ⟩ read_digits 16 n rest ∎
]

read-zeros : (z : ℕ) (s : Str) → read_digits 16 0 (replicate z b'0' ++ s) ≡ read_digits 16 0 s
read-zeros zero s = refl
read-zeros (suc z) s = read-digit 0 0 (replicate z b'0' ++ s) (omega arith) ∙ read-zeros z s

pub read-hex_padded :
    (w n : ℕ) (rest : Str) → Stops rest → read_digits 16 0 (hex_padded w n ++ rest) ≡ n
unfolding hex_padded hex
read-hex_padded w n rest h =
    read_digits 16 0 ((replicate (w - length (hex n)) b'0' ++ hex n) ++ rest)
    ≡⟨ ap (read_digits 16 0) (append_assoc (replicate (w - length (hex n)) b'0') (hex n) rest) ⟩
      read_digits 16 0 (replicate (w - length (hex n)) b'0' ++ (hex n ++ rest))
    ≡⟨ read-zeros (w - length (hex n)) (hex n ++ rest) ⟩ read_digits 16 0 (hex n ++ rest)
    ≡⟨ read-digits (suc n) n rest (omega arith) ⟩ read_digits 16 n rest
    ≡⟨ h n ⟩ n ∎

-- Every character is a digit.
unfoldable pub AreDigits : Str → Type 0
AreDigits [] = Unit {0}
AreDigits (c ∷ s) = ((d : ℕ) × ((d < 16) × (c ≡ digit_char d))) × AreDigits s

AreDigits-append : (s t : Str) → AreDigits s → AreDigits t → AreDigits (s ++ t)
unfolding AreDigits
AreDigits-append [] t hs ht = ht
AreDigits-append (c ∷ s) t (h, hs) ht = (h, AreDigits-append s t hs ht)

AreDigits-zeros : (z : ℕ) → AreDigits (replicate z b'0')
unfolding AreDigits
AreDigits-zeros zero = tt
AreDigits-zeros (suc z) = ((0, (omega arith, refl)), AreDigits-zeros z)

pub AreDigits-digits : (k n : ℕ) → AreDigits (digits 16 k n)
unfolding AreDigits digits
AreDigits-digits zero n = tt
AreDigits-digits (suc k) n = elim (small_or_large n) [
  | inl e ↦ subst AreDigits (sym (digits_small k n e)) ((n, (e, refl)), tt)
  | inr e ↦ subst AreDigits (sym (digits_large k n e)) (
      AreDigits-append (digits 16 k (n / 16)) (digit_char (n % 16) ∷ [])
        (AreDigits-digits k (n / 16)) ((n % 16, (omega arith, refl)), tt))
]

pub AreDigits-hex_padded : (w n : ℕ) → AreDigits (hex_padded w n)
unfolding hex_padded hex
AreDigits-hex_padded w n =
    AreDigits-append (replicate (w - length (hex n)) b'0') (hex n)
      (AreDigits-zeros (w - length (hex n))) (AreDigits-digits (suc n) n)

pub wide-hex_padded : (w n : ℕ) → w ≤ length (hex_padded w n)
unfolding hex_padded
wide-hex_padded w n = omega (
  arith,
  length-append (replicate (w - length (hex n)) b'0') (hex n),
  length-replicate {A = ℕ} (w - length (hex n)) b'0',
)

-- A byte is printed as its two digits.
hex_one : (x : ℕ) → x < 16 → hex_padded 2 x ≡ digit_char 0 ∷ digit_char x ∷ []
unfolding hex_padded hex
hex_one x h = rw (digits_small x x h) refl

hex_high : (x : ℕ) → x < 256 → 16 ≤ x → digits 16 x (x / 16) ≡ digit_char (x / 16) ∷ []
hex_high zero h e = absurd (omega arith)
hex_high (suc k) h e = digits_small k (suc k / 16) (omega arith)

pub hex_two : (x : ℕ) → x < 256 → hex_padded 2 x ≡ digit_char (x / 16) ∷ digit_char (x % 16) ∷ []
unfolding hex_padded hex
hex_two x h = elim (small_or_large x) [
  | inl e ↦
      hex_one x e
      ∙ ap₂ (λ (y z : ℕ). digit_char y ∷ digit_char z ∷ []) {x = 0} {u = x} (omega arith)
          (omega arith)
  | inr e ↦ rw (digits_large x x e, hex_high x h e) refl
]

pub length-digits : (j k n : ℕ) → n < 16 ^ suc k → length (digits 16 j n) ≤ suc k
unfolding digits
length-digits zero k n h = omega arith
length-digits (suc j) zero n h = rw (digits_small j n (omega arith)) (omega arith)
length-digits (suc j) (suc k) n h = elim (small_or_large n) [
  | inl e ↦ rw (digits_small j n e) (omega arith)
  | inr e ↦ rw (digits_large j n e) (
      omega (
        arith,
        length-append (digits 16 j (n / 16)) (digit_char (n % 16) ∷ []),
        length-digits j k (n / 16) (omega (arith, pow-suc 16 (suc k))),
      ))
]

-- A number of at most `w` digits is printed with just `w` of them.
pub length-hex_padded : (w n : ℕ) → n < 16 ^ suc w → length (hex_padded (suc w) n) ≡ suc w
unfolding hex_padded hex
length-hex_padded w n h = omega (
  arith,
  length-append (replicate (suc w - length (hex n)) b'0') (hex n),
  length-replicate {A = ℕ} (suc w - length (hex n)) b'0',
  length-digits (suc n) w n h,
)

-- 32-bit words take at most 8 digits.
pub short-hex_padded : (w n : ℕ) → w ≤ 8 → n < 2 ^ 32 → length (hex_padded w n) ≤ 8
unfolding hex_padded hex
short-hex_padded w n wide h = omega (
  arith,
  length-append (replicate (w - length (hex n)) b'0') (hex n),
  length-replicate {A = ℕ} (w - length (hex n)) b'0',
  length-digits (suc n) 7 n h,
)

pub read-hex : (n : ℕ) → read_digits 16 0 (hex n) ≡ n
unfolding hex
read-hex n =
    ap (read_digits 16 0) (sym (append-nil (digits 16 (suc n) n)))
    ∙ read-digits (suc n) n [] (omega arith)
    ∙ Stops-nil n

starts_append : (s : Str) (c : ℕ) → starts_digit 16 s ≡ true → starts_digit 16 (s ++ c ∷ []) ≡ true
unfolding starts_digit
starts_append [] c h = cc
starts_append (x ∷ s) c h = h

starts_one : (d : ℕ) → d < 16 → starts_digit 16 (digit_char d ∷ []) ≡ true
unfolding starts_digit
starts_one d h = rw (starts_digit, digit_in-digit_char d h) refl

-- Fuel beyond the number itself suffices.
starts_digits : (k n : ℕ) → n ≤ k → starts_digit 16 (digits 16 (suc k) n) ≡ true
starts_digits zero n h = rw (digits_small 0 n (omega arith)) (starts_one n (omega arith))
starts_digits (suc k) n h = elim (small_or_large n) [
  | inl e ↦ rw (digits_small (suc k) n e) (starts_one n e)
  | inr e ↦ rw (digits_large (suc k) n e) (
      starts_append (digits 16 (suc k) (n / 16)) (digit_char (n % 16))
        (starts_digits k (n / 16) (omega arith)))
]

pub starts_digit-hex : (n : ℕ) → starts_digit 16 (hex n) ≡ true
unfolding hex
starts_digit-hex n = starts_digits n n (omega arith)
