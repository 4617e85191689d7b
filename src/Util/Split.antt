-- ===== src/Util/Split.antt =====
-- Where a text is cut at a delimiter, and putting tokens together (src/util.cpp, `tokenize`).
use vxdebug.Base.{ℕ, suc, ◌<◌, ◌⊎◌, ◌≡◌, ◌≢◌, refl, ap, ◌∙◌, arith, List, [], ◌∷◌, ◌++◌, some}
use vxdebug.Text.{Str}
use vxdebug.Text.Number.{digit_char, hex_padded, hex}
use vxdebug.Text.Digits.{AreDigits, AreDigits-digits, AreDigits-hex_padded}
use vxdebug.Util.{split_at, tokenize, join}

-- No character is `c`.
unfoldable pub Avoids : ℕ → Str → Type 0
Avoids c [] = Unit {0}
Avoids c (x ∷ s) = (x ≢ c) × Avoids c s

unfoldable pub AllAvoid : ℕ → List Str → Type 0
unfolding Avoids
AllAvoid c [] = Unit {0}
AllAvoid c (t ∷ ts) = Avoids c t × AllAvoid c ts

pub Avoids-append : (c : ℕ) (u v : Str) → Avoids c u → Avoids c v → Avoids c (u ++ v)
unfolding Avoids
Avoids-append c [] v h k = k
Avoids-append c (x ∷ u) v (ne, h) k = (ne, Avoids-append c u v h k)

pub split_at-append : (c : ℕ) (u v : Str) → Avoids c u → split_at c (u ++ c ∷ v) ≡ some (u, v)
unfolding split_at Avoids
split_at-append c [] v h = ground arith
split_at-append c (x ∷ u) v (ne, h) = ground (arith, split_at-append c u v h)

tokenize-plain : (c : ℕ) (t : Str) → Avoids c t → tokenize c t ≡ t ∷ []
unfolding tokenize Avoids
tokenize-plain c [] h = refl
tokenize-plain c (x ∷ t) (ne, h) = ground (arith, tokenize-plain c t h)

tokenize-first : (c : ℕ) (t s : Str) → Avoids c t → tokenize c (t ++ c ∷ s) ≡ t ∷ tokenize c s
unfolding tokenize Avoids
tokenize-first c [] s h = ground arith
tokenize-first c (x ∷ t) s (ne, h) = ground (arith, tokenize-first c t s h)

-- Tokens without the delimiter, at least one, are found again in the text that joins them.
pub tokenize-join :
    (c : ℕ) (t : Str) (ts : List Str)
    → Avoids c t
    → AllAvoid c ts
    → tokenize c (join c (t ∷ ts)) ≡ t ∷ ts
unfolding join AllAvoid
tokenize-join c t [] h hs = tokenize-plain c t h
tokenize-join c t (u ∷ ts) h (k, hs) =
    tokenize-first c t (join c (u ∷ ts)) h ∙ ap (λ l. t ∷ l) (tokenize-join c u ts k hs)

-- A digit is none of the separators.
digit_char-ne :
    (c x d : ℕ) → x < 16 → d ≡ digit_char x → c < b'0' ⊎ ((b'9' < c) × (c < b'a')) → d ≢ c
digit_char-ne c x d h e k q = ground arith

Avoids-AreDigits :
    (c : ℕ) (s : Str) → c < b'0' ⊎ ((b'9' < c) × (c < b'a')) → AreDigits s → Avoids c s
unfolding AreDigits Avoids
Avoids-AreDigits c [] h k = tt
Avoids-AreDigits c (d ∷ s) h ((x, (lt, e)), ks) =
    (digit_char-ne c x d lt e h, Avoids-AreDigits c s h ks)

pub Avoids-hex_padded :
    (c w n : ℕ) → c < b'0' ⊎ ((b'9' < c) × (c < b'a')) → Avoids c (hex_padded w n)
Avoids-hex_padded c w n h = Avoids-AreDigits c (hex_padded w n) h (AreDigits-hex_padded w n)

pub Avoids-hex : (c n : ℕ) → c < b'0' ⊎ ((b'9' < c) × (c < b'a')) → Avoids c (hex n)
unfolding hex
Avoids-hex c n h = Avoids-AreDigits c (hex n) h (AreDigits-digits (suc n) n)
