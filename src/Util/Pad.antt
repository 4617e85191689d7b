-- ===== src/Util/Pad.antt =====
-- The formats `%Nd` and `%-Ns` of the source's `strfmt`, and the order of the keys of a `std::map`.
use vxdebug.Base.{
  ℕ, ◌-◌, Bool, true, false, List, [], ◌∷◌, ◌++◌, ◌==◌, ltb, if◌then◌else◌, length, replicate,
}
use vxdebug.Text.{Str, str_eq}

abbrev pub pad_left : ℕ → Str → Str
pad_left width s = replicate (width - length s) b' ' ++ s

abbrev pub pad_right : ℕ → Str → Str
pad_right width s = s ++ replicate (width - length s) b' '

-- `<` of two strings.
unfoldable pub str_lt : Str → Str → Bool
str_lt s [] = false
str_lt [] (d ∷ t) = true
str_lt (c ∷ s) (d ∷ t) = if c == d then str_lt s t else ltb c d

unfoldable pub insert_key : Str → List Str → List Str
unfolding str_lt str_eq
insert_key k [] = k ∷ []
insert_key k (j ∷ js) =
    if str_eq k j then j ∷ js else if str_lt k j then k ∷ j ∷ js else j ∷ insert_key k js

-- The keys in the order in which the map is walked, each once.
unfoldable pub sorted_keys {ℓ} : {V : Type ℓ} → List (Str × V) → List Str
unfolding insert_key
sorted_keys [] = []
sorted_keys ((k, v) ∷ m) = insert_key k (sorted_keys m)
