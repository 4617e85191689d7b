-- ===== src/Dm/Table.antt =====
-- The tables of src/dmdefs.h: every field lies within 32 bits, the fields of one register share no
-- bit, and what this means for access by name.
use vxdebug.Base.{
  ℕ, ◌%◌, ◌^◌, ◌<◌, ◌≡◌, sym, ap, arith, ◌∙◌, inl, inr, List, [], ◌∷◌, none, some, Bool-cases, ◌≢◌,
  Option-cases, some_inj,
}
use mathlib.Core.Path.{subst}
use vxdebug.Text.{Str, str_eq, eq_of_str_eq}
use vxdebug.Dm.{
  FieldInfo, width, extract_field, set_field, DmReg, platform, dconfig, dselect, wmask, wactive,
  wstatus, dctrl, dpc, dinject, dscratch, get_dmreg, get_dmreg_field, find_field,
  extract_dmreg_field, set_dmreg_field,
}
use vxdebug.Dm.Window.{IsField}
use vxdebug.Dm.Fields.{Apart, extract-set_self, extract-set_other, set_field-lt}

-- Every field is one of a 32-bit register, and is apart from all that follow it.
abbrev All {ℓ} : (FieldInfo → Type ℓ) → List FieldInfo → Type ℓ
All P [] = Unit
All P (f ∷ fs) = P f × All P fs

abbrev AreApart : List FieldInfo → Type 0
AreApart [] = Unit
AreApart (f ∷ fs) = IsField f × All (Apart f) fs × AreApart fs

-- The layout of the register map.
get_dmreg-AreApart : (r : DmReg) → AreApart (get_dmreg r).fields
unfolding get_dmreg
get_dmreg-AreApart platform = omega arith
get_dmreg-AreApart dconfig = omega arith
get_dmreg-AreApart dselect = omega arith
get_dmreg-AreApart wmask = omega arith
get_dmreg-AreApart wactive = omega arith
get_dmreg-AreApart wstatus = omega arith
get_dmreg-AreApart dctrl = omega arith
get_dmreg-AreApart dpc = omega arith
get_dmreg-AreApart dinject = omega arith
get_dmreg-AreApart dscratch = omega arith

find_field-All {ℓ} :
    (P : FieldInfo → Type ℓ) (n : Str) (fs : List FieldInfo) {f : FieldInfo}
    → All P fs
    → find_field n fs ≡ some f
    → P f
unfolding find_field
find_field-All P n [] ps h = cc
find_field-All P n (g ∷ fs) ps h = elim (Bool-cases (str_eq g.name n)) [
  | inl e ↦ subst P (some_inj (rw e at h)) ps.0
  | inr e ↦ find_field-All P n fs ps.1 (rw e at h)
]

find_field-IsField :
    (n : Str) (fs : List FieldInfo) {f : FieldInfo}
    → AreApart fs
    → find_field n fs ≡ some f
    → IsField f
unfolding find_field
find_field-IsField n [] ps h = cc
find_field-IsField n (g ∷ fs) ps h = elim (Bool-cases (str_eq g.name n)) [
  | inl e ↦ subst IsField (some_inj (rw e at h)) ps.0
  | inr e ↦ find_field-IsField n fs ps.2 (rw e at h)
]

Apart-sym : (f g : FieldInfo) → Apart f g → Apart g f
Apart-sym f g (inl h) = inr h
Apart-sym f g (inr h) = inl h

-- Two names find two fields that are apart.
find_field-Apart :
    (n m : Str) (fs : List FieldInfo) {f g : FieldInfo}
    → m ≢ n
    → AreApart fs
    → find_field n fs ≡ some f
    → find_field m fs ≡ some g
    → Apart f g
unfolding find_field
find_field-Apart n m [] ne ps hf hg = cc
find_field-Apart n m (k ∷ fs) {f} {g} ne ps hf hg = elim (Bool-cases (str_eq k.name n)) [
  | inl e ↦ elim (Bool-cases (str_eq k.name m)) [
    | inl d ↦ absurd (ne (sym (eq_of_str_eq k.name m d) ∙ eq_of_str_eq k.name n e))
    | inr d ↦
        subst (λ j. Apart j g) (some_inj (rw e at hf))
          (find_field-All (Apart k) m fs ps.1 (rw d at hg))
  ]
  | inr e ↦ elim (Bool-cases (str_eq k.name m)) [
    | inl d ↦
        subst (λ j. Apart f j) (some_inj (rw d at hg))
          (Apart-sym k f (find_field-All (Apart k) n fs ps.1 (rw e at hf)))
    | inr d ↦ find_field-Apart n m fs ne ps.2 (rw e at hf) (rw d at hg)
  ]
]

-- Every field that a lookup by name returns lies within its 32-bit register.
pub get_dmreg_field-IsField :
    (r : DmReg) (n : Str) {f : FieldInfo} → get_dmreg_field r n ≡ some f → IsField f
unfolding get_dmreg_field
get_dmreg_field-IsField r n h = find_field-IsField n (get_dmreg r).fields (get_dmreg-AreApart r) h

get_dmreg_field-Apart :
    (r : DmReg) (n m : Str) {f g : FieldInfo}
    → m ≢ n
    → get_dmreg_field r n ≡ some f
    → get_dmreg_field r m ≡ some g
    → Apart f g
unfolding get_dmreg_field
get_dmreg_field-Apart r n m ne hf hg =
    find_field-Apart n m (get_dmreg r).fields ne (get_dmreg-AreApart r) hf hg

pub extract_found :
    (r : DmReg) (n : Str) (v : ℕ) (f : FieldInfo)
    → get_dmreg_field r n ≡ some f
    → extract_dmreg_field r n v ≡ some (extract_field f v)
unfolding extract_dmreg_field
extract_found r n v f e = rw (e, extract_dmreg_field)

extract_missing :
    (r : DmReg) (n : Str) (v : ℕ) → get_dmreg_field r n ≡ none → extract_dmreg_field r n v ≡ none
unfolding extract_dmreg_field
extract_missing r n v e = rw (e, extract_dmreg_field)

-- What a caller of `set_dmreg_field` may rely on, for the value `u` that it returns: the field
-- reads back as the value written, cut to its width, and every other field of the register reads
-- as before.
pub record IsSetField (r : DmReg) (n : Str) (v x u : ℕ) : Type 0 where
  pub finfo : FieldInfo
  pub found : get_dmreg_field r n ≡ some finfo
  pub in_word : u < 2 ^ 32
  pub reads_back : extract_dmreg_field r n u ≡ some (x % 2 ^ width finfo)
  pub others : (m : Str) → m ≢ n → extract_dmreg_field r m u ≡ extract_dmreg_field r m v

-- When `set_dmreg_field` finds the named field, the value that it returns for a 32-bit register
-- value is again below 2 ^ 32, reads back in that field as the value given, cut to the field's
-- width, and agrees with the old value in every field of another name.
pub set_dmreg_field_lem :
    (r : DmReg) (n : Str) (v x : ℕ) {u : ℕ}
    → v < 2 ^ 32
    → set_dmreg_field r n v x ≡ some u
    → IsSetField r n v x u
unfolding set_dmreg_field
set_dmreg_field_lem r n v x {u} hv h = elim (Option-cases (get_dmreg_field r n)) [
  | inl e ↦ absurd (none_ne_some (rw (e, set_dmreg_field) at h))
  | inr (f, e) ↦
      let field = get_dmreg_field-IsField r n e in
      let value : set_field f v x ≡ u = some_inj (rw (e, set_dmreg_field) at h) in
      record {
        finfo = f;
        found = e;
        in_word = subst (λ t. t < 2 ^ 32) value (set_field-lt f field v hv x);
        reads_back =
            rw (← value, extract_found r n (set_field f v x) f e)
              (ap some (extract-set_self f field v x hv));
        others = λ m ne. others f e value m ne;
      }
]
  where
    none_ne_some : none ≡ some u → ⊥
    none_ne_some k = cc

    others :
        (f : FieldInfo)
        → get_dmreg_field r n ≡ some f
        → set_field f v x ≡ u
        → (m : Str) → m ≢ n
        → extract_dmreg_field r m u ≡ extract_dmreg_field r m v
    others f e value m ne = elim (Option-cases (get_dmreg_field r m)) [
      | inl d ↦ extract_missing r m u d ∙ sym (extract_missing r m v d)
      | inr (g, d) ↦
          extract_found r m u g d
          ∙ rw (← value) (
              ap some (
                extract-set_other f (get_dmreg_field-IsField r n e) v x hv g
                  (get_dmreg_field-IsField r m d) (get_dmreg_field-Apart r n m ne e d)))
          ∙ sym (extract_found r m v g d)
    ]
