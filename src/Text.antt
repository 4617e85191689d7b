-- ===== src/Text.antt =====
-- `std::string` as the list of its bytes.
use Prim.Native.Char.{code}
use Prim.Native.String.{String}
pub mod Pairs
pub mod Number
pub mod Digits
pub mod Hex
pub mod Parse
pub mod Plain
use vxdebug.Base.{
  ℕ, ◌≡◌, refl, ◌↔◌, Bool, true, false, ◌&&◌, List, [], ◌∷◌, arith, ◌==◌, ==_iff, ◌≢◌, sym, ap, ◌∙◌,
}

abbrev pub Str : Type 0
Str = List ℕ

-- The bytes of an ASCII literal.
abbrev pub codes : String → Str
codes String.[] = []
codes (String.◌∷◌ c s) = code c ∷ codes s

-- `==` of two strings.
unfoldable pub str_eq : Str → Str → Bool
str_eq [] [] = true
str_eq [] (d ∷ t) = false
str_eq (c ∷ s) [] = false
str_eq (c ∷ s) (d ∷ t) = c == d && str_eq s t

pub eq_of_str_eq : (s t : Str) → str_eq s t ≡ true → s ≡ t
unfolding str_eq
eq_of_str_eq [] [] h = refl
eq_of_str_eq [] (d ∷ t) h = ground arith
eq_of_str_eq (c ∷ s) [] h = ground arith
eq_of_str_eq (c ∷ s) (d ∷ t) h = ground (arith, eq_of_str_eq s t)

pub str_eq_self : (s : Str) → str_eq s s ≡ true
unfolding str_eq
str_eq_self [] = refl
str_eq_self (c ∷ s) = ground (arith, str_eq_self s)

pub ne_of_str_eq : (s t : Str) → str_eq s t ≡ false → s ≢ t
ne_of_str_eq s t h e = false_ne_true (sym h ∙ ap (λ u. str_eq s u) (sym e) ∙ str_eq_self s)
  where
    false_ne_true : ◌≢◌ {A = Bool} false true
    false_ne_true k = cc
