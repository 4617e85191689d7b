-- ===== src/Dm/Window.antt =====
-- A field's mask, extraction and replacement as arithmetic on the window it covers.
use native.Mathlib.Nat.{one-le-pow, mod-eq_of_lt, mul-div_left, mod-lt, div-add-mod'}
use native.Mathlib.Decide.{ℕ_discrete}
use vxdebug.Base.{
  ℕ, zero, suc, ◌+◌, ◌-◌, ◌*◌, ◌/◌, ◌%◌, ◌^◌, ◌<◌, ◌≤◌, ◌≡◌, refl, sym, ap, arith, ◌∙◌, ◌≢◌,
}
use vxdebug.Bits.{bit_and_window, bit_and_around, bit_or_window, pow-add}
use vxdebug.Dm.{FieldInfo, width, mask, extract_field, set_field}

-- A field of a 32-bit register.
pub record IsField (f : FieldInfo) : Type 0 where
  pub ordered : f.lsb ≤ f.msb
  pub fits : f.msb < 32

-- The word with window value `b` between the upper part `a` and the lower part `c`.
abbrev pub word : FieldInfo → ℕ → ℕ → ℕ → ℕ
word f a b c = (a * 2 ^ width f + b) * 2 ^ f.lsb + c

-- The complement of a mask within a word, with each power of two written as a successor.
suc_less : (n : ℕ) → suc n - 1 ≡ n
suc_less n = omega arith

complement_mask_suc : (a w l : ℕ) → suc a * suc w * suc l - 1 - w * suc l ≡ a * suc w * suc l + l
complement_mask_suc a w l = omega arith

complement_mask :
    (a w l : ℕ) → 1 ≤ a → 1 ≤ w → 1 ≤ l → a * w * l - 1 - (w - 1) * l ≡ (a - 1) * w * l + (l - 1)
complement_mask zero w l ha hw hl = absurd (omega arith)
complement_mask (suc a) zero l ha hw hl = absurd (omega arith)
complement_mask (suc a) (suc w) zero ha hw hl = absurd (omega arith)
complement_mask (suc a) (suc w) (suc l) ha hw hl =
    rw (suc_less a, suc_less w, suc_less l) (complement_mask_suc a w l)

inner_lt : (a w l : ℕ) → 1 ≤ a → 1 ≤ w → 1 ≤ l → (w - 1) * l < a * w * l
inner_lt zero w l ha hw hl = absurd (omega arith)
inner_lt (suc a) zero l ha hw hl = absurd (omega arith)
inner_lt (suc a) (suc w) zero ha hw hl = absurd (omega arith)
inner_lt (suc a) (suc w) (suc l) ha hw hl = rw (suc_less w) (omega arith)

pub mul_add_mod : (k m r : ℕ) → r < m → (k * m + r) % m ≡ r
mul_add_mod k m r h = grind arith

pub below_mul : (p l x y : ℕ) → x < p → y < l → x * l + y < p * l
below_mul p l x y hx hy = grind arith

shift_parts :
    (k s b a w l : ℕ)
    → s < a
    → b < w
    → 1 ≤ l
    → ((k * a + s) * w + b) * l % (a * w * l) ≡ (s * w + b) * l + 0
shift_parts k s b a w l hs hb hl =
    ap (λ (t : ℕ). t % (a * w * l)) (regroup k s b a w l)
    ∙ mul_add_mod k (a * w * l) ((s * w + b) * l + 0)
        (below_mul (a * w) l (s * w + b) 0 (below_mul a w s b hs hb) hl)
  where
    regroup :
        (k s b a w l : ℕ) → ((k * a + s) * w + b) * l ≡ k * (a * w * l) + ((s * w + b) * l + 0)
    regroup k s b a w l = omega arith

shift_mod :
    (x a w l : ℕ) → 1 ≤ a → 1 ≤ w → 1 ≤ l → x * l % (a * w * l) ≡ (x / w % a * w + x % w) * l + 0
shift_mod x a w l ha hw hl =
    ap (λ (t : ℕ). t * l % (a * w * l)) parts
    ∙ shift_parts (x / w / a) (x / w % a) (x % w) a w l (mod-lt (x / w) ha) (mod-lt x hw) hl
  where
    parts : x ≡ (x / w / a * a + x / w % a) * w + x % w
    parts = sym (div-add-mod' x w) ∙ ap (λ (t : ℕ). t * w + x % w) (sym (div-add-mod' (x / w) a))

module _ (f : FieldInfo) (h : IsField f) where
  pub above : ℕ
  above = 31 - f.msb

  pub powers : 2 ^ 32 ≡ 2 ^ above * 2 ^ width f * 2 ^ f.lsb
  unfolding above width
  powers =
      ap (λ (n : ℕ). 2 ^ n) total
      ∙ pow-add (above + width f) f.lsb
      ∙ ap (λ (n : ℕ). n * 2 ^ f.lsb) (pow-add above (width f))
    where
      total : ◌≡◌ {A = ℕ} 32 (above + width f + f.lsb)
      total = omega (arith, h.ordered, h.fits)

  mask-lt : (2 ^ width f - 1) * 2 ^ f.lsb < 2 ^ 32
  mask-lt = rw powers (
      inner_lt (2 ^ above) (2 ^ width f) (2 ^ f.lsb) (one-le-pow above 2 (omega arith))
        (one-le-pow (width f) 2 (omega arith)) (one-le-pow f.lsb 2 (omega arith)))

  narrow : width f ≢ 32 → mask f ≡ (2 ^ width f - 1) * 2 ^ f.lsb
  unfolding mask width
  narrow ne = ground (arith, mask-lt, mod-eq_of_lt mask-lt)

  full : width f ≡ 32 → mask f ≡ (2 ^ width f - 1) * 2 ^ f.lsb
  unfolding mask width
  full e = let low : f.lsb ≡ 0 = omega (arith, h.ordered, h.fits) in rw (e, low) refl

  mask_lem : mask f ≡ (2 ^ width f - 1) * 2 ^ f.lsb
  mask_lem = elim (ℕ_discrete (width f) 32) [ yes e ↦ full e | no ne ↦ narrow ne ]

  complement : 0xffff_ffff - mask f ≡ (2 ^ above - 1) * 2 ^ width f * 2 ^ f.lsb + (2 ^ f.lsb - 1)
  complement = rw mask_lem (
      omega (
        arith,
        powers,
        complement_mask (2 ^ above) (2 ^ width f) (2 ^ f.lsb) (one-le-pow above 2 (omega arith))
            (one-le-pow (width f) 2 (omega arith)) (one-le-pow f.lsb 2 (omega arith)),
      ))

  -- Shifting a value up keeps, of it, what stays within the word.
  shifted :
      (x : ℕ)
      → x * 2 ^ f.lsb % 2 ^ 32
        ≡ (x / 2 ^ width f % 2 ^ above * 2 ^ width f + x % 2 ^ width f) * 2 ^ f.lsb + 0
  shifted x = rw powers (
      shift_mod x (2 ^ above) (2 ^ width f) (2 ^ f.lsb) (one-le-pow above 2 (omega arith))
        (one-le-pow (width f) 2 (omega arith)) (one-le-pow f.lsb 2 (omega arith)))

  -- The three parts of a word, and that there are no others.
  module _ (a b c : ℕ) (ha : a < 2 ^ above) (hb : b < 2 ^ width f) (hc : c < 2 ^ f.lsb) where
    pub extract-word : extract_field f (word f a b c) ≡ b
    unfolding extract_field
    extract-word =
        rw (mask_lem, bit_and_window (width f) f.lsb a b c hb hc)
          (mul-div_left b (one-le-pow f.lsb 2 (omega arith)))

    pub set-word : (x : ℕ) → set_field f (word f a b c) x ≡ word f a (x % 2 ^ width f) c
    unfolding set_field
    set-word x =
        let low : 1 ≤ 2 ^ f.lsb = one-le-pow f.lsb 2 (omega arith) in
        let fits : x % 2 ^ width f < 2 ^ width f =
          mod-lt x (one-le-pow (width f) 2 (omega arith)) in
        rw
          (
            complement,
            mask_lem,
            shifted x,
            bit_and_around (width f) f.lsb a b c hb hc above ha,
            bit_and_window (width f) f.lsb (x / 2 ^ width f % 2 ^ above) (x % 2 ^ width f) 0 fits
                low,
            bit_or_window (width f) f.lsb a (x % 2 ^ width f) c fits hc,
          )
          refl
