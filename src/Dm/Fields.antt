-- ===== src/Dm/Fields.antt =====
-- What reading and replacing a field do to the value of a 32-bit register.
use native.Mathlib.Nat.{mod-lt, div-add-mod', div-lt_iff_lt-mul, one-le-pow, mul-add-div_right}
use native.Mathlib.Nat.{div-div-eq-div-mul, mul-add-mod_self_left, div-eq_of_lt}
use vxdebug.Base.{
  ℕ, ◌+◌, ◌-◌, ◌*◌, ◌/◌, ◌%◌, ◌^◌, ◌<◌, ◌≤◌, ◌≡◌, sym, ap, arith, ◌∙◌, ◌⊎◌, inl, inr,
}
use vxdebug.Bits.{pow-add}
use vxdebug.Dm.{FieldInfo, width, extract_field, set_field}
use vxdebug.Dm.Window.{IsField, word, above, powers, extract-word, set-word, below_mul, mul_add_mod}

-- Two fields that share no bit.
abbrev pub Apart : FieldInfo → FieldInfo → Type 0
Apart f g = (f.msb < g.lsb) ⊎ (g.msb < f.lsb)

module _ (f : FieldInfo) (h : IsField f) (v : ℕ) (hv : v < 2 ^ 32) where
  low : 1 ≤ 2 ^ f.lsb
  low = one-le-pow f.lsb 2 (omega arith)

  wide : 1 ≤ 2 ^ width f
  wide = one-le-pow (width f) 2 (omega arith)

  pub upper : ℕ
  upper = v / 2 ^ f.lsb / 2 ^ width f

  pub lower : ℕ
  lower = v % 2 ^ f.lsb

  upper-lt : upper < 2 ^ above f h
  unfolding upper
  upper-lt = (div-lt_iff_lt-mul wide).1 ((div-lt_iff_lt-mul low).1 (rw (powers f h) at hv))

  pub parts : v ≡ word f upper (v / 2 ^ f.lsb % 2 ^ width f) lower
  unfolding upper lower
  parts =
      sym (div-add-mod' v (2 ^ f.lsb))
      ∙ ap (λ (t : ℕ). t * 2 ^ f.lsb + v % 2 ^ f.lsb)
          (sym (div-add-mod' (v / 2 ^ f.lsb) (2 ^ width f)))

  pub extract_field_lem : extract_field f v ≡ v / 2 ^ f.lsb % 2 ^ width f
  unfolding lower
  extract_field_lem =
      ap (extract_field f) parts
      ∙ extract-word f h upper (v / 2 ^ f.lsb % 2 ^ width f) lower upper-lt
          (mod-lt (v / 2 ^ f.lsb) wide) (mod-lt v low)

  pub set_field_lem : (x : ℕ) → set_field f v x ≡ word f upper (x % 2 ^ width f) lower
  unfolding lower
  set_field_lem x =
      ap (λ (t : ℕ). set_field f t x) parts
      ∙ set-word f h upper (v / 2 ^ f.lsb % 2 ^ width f) lower upper-lt
          (mod-lt (v / 2 ^ f.lsb) wide) (mod-lt v low) x

  pub set_field-lt : (x : ℕ) → set_field f v x < 2 ^ 32
  unfolding lower
  set_field-lt x =
      rw (set_field_lem x, powers f h)
        (below_mul (2 ^ above f h * 2 ^ width f) (2 ^ f.lsb) (upper * 2 ^ width f + x % 2 ^ width f)
          lower
          (below_mul (2 ^ above f h) (2 ^ width f) upper (x % 2 ^ width f) upper-lt (mod-lt x wide))
          (mod-lt v low))

drop_low : (x y m : ℕ) → y < m → (x * m + y) / m ≡ x
drop_low x y m hy = mul-add-div_right (omega arith) x y ∙ omega (arith, div-eq_of_lt hy)

-- The same on numbers: dividing by more than the window forgets the two parts below it, and a
-- remainder by less than it forgets the two parts above.
div_word : (a b c w l k : ℕ) → b < w → c < l → ((a * w + b) * l + c) / (l * w * k) ≡ a / k
div_word a b c w l k hb hc =
    sym (div-div-eq-div-mul ((a * w + b) * l + c) (l * w) k)
    ∙ ap (λ (t : ℕ). t / k)
        (sym (div-div-eq-div-mul ((a * w + b) * l + c) l w)
          ∙ ap (λ (t : ℕ). t / w) (drop_low (a * w + b) c l hc)
          ∙ drop_low a b w hb)

mod_word : (x c m k : ℕ) → (x * (k * m) + c) % k ≡ c % k
mod_word x c m k = ap (λ (t : ℕ). (t + c) % k) (omega arith) ∙ mul-add-mod_self_left k (x * m) c

div-mod_swap : (u l w : ℕ) → 1 ≤ l → 1 ≤ w → u / l % w ≡ u % (l * w) / l
div-mod_swap u l w hl hw =
    let s = u / l % w in
    let c = u % l in
    let s<w = mod-lt (u / l) hw in
    let c<l = mod-lt u hl in
    sym (
      ap (λ (t : ℕ). t / l)
        (ap (λ (t : ℕ). t % (l * w)) (u_parts ∙ regroup (u / l / w) s c)
          ∙ mul_add_mod (u / l / w) (l * w) (s * l + c) (below w s c s<w c<l))
      ∙ drop_low s c l c<l)
  where
    u_parts : u ≡ (u / l / w * w + u / l % w) * l + u % l
    u_parts = sym (div-add-mod' u l) ∙ ap (λ (t : ℕ). t * l + u % l) (sym (div-add-mod' (u / l) w))

    regroup : (q s c : ℕ) → (q * w + s) * l + c ≡ q * (l * w) + (s * l + c)
    regroup q s c = omega arith

    below : (w s c : ℕ) → s < w → c < l → s * l + c < l * w
    below w s c hs hc = omega (arith, below_mul w l s c hs hc)

-- Above and below its window a replaced field leaves the value alone.
module _ (f : FieldInfo) (h : IsField f) (v x : ℕ) (hv : v < 2 ^ 32) where
  pub extract-set_self : extract_field f (set_field f v x) ≡ x % 2 ^ width f
  unfolding lower
  extract-set_self = rw (set_field_lem f h v hv x) (
      extract-word f h (upper f h v hv) (x % 2 ^ width f) (lower f h v hv) (upper-lt f h v hv)
        (mod-lt x (wide f h v hv)) (mod-lt v (low f h v hv)))

  div-set_above :
      (k : ℕ) → set_field f v x / 2 ^ (f.lsb + width f + k) ≡ v / 2 ^ (f.lsb + width f + k)
  unfolding lower
  div-set_above k =
      let u = upper f h v hv in
      let c<l = mod-lt v (low f h v hv) in
      rw (pow-add (f.lsb + width f) k, pow-add f.lsb (width f))
        (ap (λ (t : ℕ). t / (2 ^ f.lsb * 2 ^ width f * 2 ^ k)) (set_field_lem f h v hv x)
          ∙ div_word u (x % 2 ^ width f) (v % 2 ^ f.lsb) (2 ^ width f) (2 ^ f.lsb) (2 ^ k)
              (mod-lt x (wide f h v hv)) c<l
          ∙ sym (
              ap (λ (t : ℕ). t / (2 ^ f.lsb * 2 ^ width f * 2 ^ k)) (parts f h v hv)
              ∙ div_word u (v / 2 ^ f.lsb % 2 ^ width f) (v % 2 ^ f.lsb) (2 ^ width f) (2 ^ f.lsb)
                  (2 ^ k) (mod-lt (v / 2 ^ f.lsb) (wide f h v hv)) c<l))

  mod-set_below : (k : ℕ) → k ≤ f.lsb → set_field f v x % 2 ^ k ≡ v % 2 ^ k
  mod-set_below k le =
      ap (λ (t : ℕ). t % 2 ^ k) (set_field_lem f h v hv x)
      ∙ forget (upper f h v hv * 2 ^ width f + x % 2 ^ width f)
      ∙ sym (
          ap (λ (t : ℕ). t % 2 ^ k) (parts f h v hv)
          ∙ forget (upper f h v hv * 2 ^ width f + v / 2 ^ f.lsb % 2 ^ width f))
    where
      split : 2 ^ f.lsb ≡ 2 ^ k * 2 ^ (f.lsb - k)
      split = ap (λ (n : ℕ). 2 ^ n) (omega arith) ∙ pow-add k (f.lsb - k)

      forget : (y : ℕ) → (y * 2 ^ f.lsb + lower f h v hv) % 2 ^ k ≡ lower f h v hv % 2 ^ k
      forget y =
          ap (λ (t : ℕ). (y * t + lower f h v hv) % 2 ^ k) split
          ∙ mod_word y (lower f h v hv) (2 ^ (f.lsb - k)) (2 ^ k)

  pub extract-set_other :
      (g : FieldInfo)
      → IsField g
      → Apart f g
      → extract_field g (set_field f v x) ≡ extract_field g v
  unfolding width
  extract-set_other g hg (inl lt) =
      extract_field_lem g hg (set_field f v x) (set_field-lt f h v hv x)
      ∙ ap (λ (t : ℕ). t % 2 ^ width g) same
      ∙ sym (extract_field_lem g hg v hv)
    where
      at : g.lsb ≡ f.lsb + width f + (g.lsb - (f.lsb + width f))
      at = omega (arith, h.ordered)

      same : set_field f v x / 2 ^ g.lsb ≡ v / 2 ^ g.lsb
      same = rw at (div-set_above (g.lsb - (f.lsb + width f)))
  extract-set_other g hg (inr lt) =
      extract_field_lem g hg (set_field f v x) (set_field-lt f h v hv x)
      ∙ window (set_field f v x)
      ∙ ap (λ (t : ℕ). t / 2 ^ g.lsb) (mod-set_below (g.lsb + width g) (omega (arith, hg.ordered)))
      ∙ sym (extract_field_lem g hg v hv ∙ window v)
    where
      window : (u : ℕ) → u / 2 ^ g.lsb % 2 ^ width g ≡ u % 2 ^ (g.lsb + width g) / 2 ^ g.lsb
      window u =
          div-mod_swap u (2 ^ g.lsb) (2 ^ width g) (one-le-pow g.lsb 2 (omega arith))
            (one-le-pow (width g) 2 (omega arith))
          ∙ ap (λ (t : ℕ). u % t / 2 ^ g.lsb) (sym (pow-add g.lsb (width g)))
