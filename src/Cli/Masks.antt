-- ===== src/Cli/Masks.antt =====
-- Which warps a list of identifiers selects (`select_warps` of src/backend.cpp): the masks that it
-- writes to the windows.
use native.Mathlib.Nat.{zero-div}
use vxdebug.Base.{
  ℕ, ◌≤◌, zero, suc, ◌+◌, ◌/◌, ◌%◌, ◌^◌, ◌<◌, bit_or, ◌≡◌, refl, ap, ◌∙◌, arith, Bool, true, false,
  ◌&&◌, ◌||◌, List, [], ◌∷◌, ◌==◌, ltb, if◌then◌else◌, length, get_or, set, replicate,
  length-replicate, Bool-cases, inl, ◌⊎◌, inr,
}
use vxdebug.Base.Lists.{length-set}
use vxdebug.Bits.Single.{bit_or-bit}
use vxdebug.Base.Int.{ℤ, pos, negsuc}
use vxdebug.Backend.Warps.{num_windows, bit_of, add_warp, add_warps, window_masks}
use vxdebug.Cli.Warps.{has_wid}

pub get_or-set :
    (l : List ℕ) (i j v d : ℕ)
    → get_or (set l i v) j d ≡ (if (i == j) && ltb j (length l) then v else get_or l j d)
get_or-set [] i j v d = ground arith
get_or-set (x ∷ xs) zero zero v d = ground arith
get_or-set (x ∷ xs) zero (suc j) v d = ground arith
get_or-set (x ∷ xs) (suc i) zero v d = ground arith
get_or-set (x ∷ xs) (suc i) (suc j) v d = get_or-set xs i j v d ∙ ground arith

-- Whether the masks have the bit of a warp.
abbrev pub marks : List ℕ → ℕ → Bool
marks masks w = bit_of (get_or masks (w / 32) 0) (w % 32)

abbrev names_valid : ℕ → ℤ → ℕ → Bool
names_valid warps (pos u) w = ltb u warps && (u == w)
names_valid warps (negsuc u) w = false

-- Where the windows differ, or the bits within one.
same_place : (u w : ℕ) → ((u / 32 == w / 32) && (u % 32 == w % 32)) ≡ (u == w)
same_place u w = ground arith

-- A window's mask with one more bit: `cu` is the mask of the warp's window, `cw` that of the place's.
mark_one :
    (n cu cw u w : ℕ)
    → w / 32 < n
    → (u / 32 ≡ w / 32 → cu ≡ cw)
    → bit_of
        (if (u / 32 == w / 32) && ltb (w / 32) n then bit_or cu (2 ^ (u % 32)) else cw)
        (w % 32)
      ≡ (bit_of cw (w % 32) || (u == w))
mark_one n cu cw u w h same = one (Bool-cases (u / 32 == w / 32))
  where
    one :
        ((u / 32 == w / 32) ≡ true) ⊎ ((u / 32 == w / 32) ≡ false)
        → bit_of
            (if (u / 32 == w / 32) && ltb (w / 32) n then bit_or cu (2 ^ (u % 32)) else cw)
            (w % 32)
          ≡ (bit_of cw (w % 32) || (u == w))
    one (inl e) =
        ap (λ m. bit_of m (w % 32)) (chosen e)
        ∙ bit_or-bit cu (u % 32) (w % 32)
        ∙ rw (same (ground arith)) (ap (λ b. bit_of cw (w % 32) || b) (ground arith))
      where
        chosen :
            (u / 32 == w / 32) ≡ true
            → (if (u / 32 == w / 32) && ltb (w / 32) n then bit_or cu (2 ^ (u % 32)) else cw)
              ≡ bit_or cu (2 ^ (u % 32))
        chosen e = ground arith
    one (inr e) = rw (e, differ e) (ground arith)
      where
        differ : (u / 32 == w / 32) ≡ false → (u == w) ≡ false
        differ e = ground arith

marks-set :
    (masks : List ℕ) (u w : ℕ)
    → w / 32 < length masks
    → marks (set masks (u / 32) (bit_or (get_or masks (u / 32) 0) (2 ^ (u % 32)))) w
      ≡ (marks masks w || (u == w))
marks-set masks u w h =
    ap (λ x. bit_of x (w % 32))
      (get_or-set masks (u / 32) (w / 32) (bit_or (get_or masks (u / 32) 0) (2 ^ (u % 32))) 0)
    ∙ mark_one (length masks) (get_or masks (u / 32) 0) (get_or masks (w / 32) 0) u w h
        (ap (λ (i : ℕ). get_or masks i 0))

marks-add_warp :
    (warps : ℕ) (masks : List ℕ) (id : ℤ) (w : ℕ)
    → warps < 2 ^ 31
    → w / 32 < length masks
    → marks (add_warp warps masks id) w ≡ (marks masks w || names_valid warps id w)
unfolding add_warp
marks-add_warp warps masks (negsuc u) w small h = ground arith
marks-add_warp warps masks (pos u) w small h = ground (arith, marks-set masks u w)

length-add_warp :
    (warps : ℕ) (masks : List ℕ) (id : ℤ) → length (add_warp warps masks id) ≡ length masks
unfolding add_warp
length-add_warp warps masks (negsuc u) = refl
length-add_warp warps masks (pos u) =
    ground (arith, length-set masks (u / 32) (bit_or (get_or masks (u / 32) 0) (2 ^ (u % 32))))

marks-add_warps :
    (warps : ℕ) (masks : List ℕ) (ids : List ℤ) (w : ℕ)
    → warps < 2 ^ 31
    → w / 32 < length masks
    → marks (add_warps warps masks ids) w ≡ (marks masks w || (ltb w warps && has_wid (pos w) ids))
unfolding add_warps has_wid
marks-add_warps warps masks [] w small h = ground arith
marks-add_warps warps masks (id ∷ ids) w small h =
    marks-add_warps warps (add_warp warps masks id) ids w small
      (omega (arith, length-add_warp warps masks id))
    ∙ ap (λ b. b || (ltb w warps && has_wid (pos w) ids)) (marks-add_warp warps masks id w small h)
    ∙ by_id id
  where
    by_id :
        (id : ℤ)
        → ((marks masks w || names_valid warps id w) || (ltb w warps && has_wid (pos w) ids))
          ≡ (marks masks w || (ltb w warps && has_wid (pos w) (id ∷ ids)))
    by_id (pos u) = ground arith
    by_id (negsuc u) = ground arith

no_bit : (b : ℕ) → bit_of 0 b ≡ false
no_bit b = rw (zero-div (2 ^ b)) refl

marks-none : (k w : ℕ) → marks (replicate k 0) w ≡ false
marks-none k w = ap (λ x. bit_of x (w % 32)) (none_at k (w / 32)) ∙ no_bit (w % 32)
  where
    none_at : (k i : ℕ) → ◌≡◌ {A = ℕ} (get_or (replicate k 0) i 0) 0
    none_at zero i = refl
    none_at (suc k) zero = refl
    none_at (suc k) (suc i) = none_at k i

length-add_warps :
    (warps : ℕ) (masks : List ℕ) (ids : List ℤ) → length (add_warps warps masks ids) ≡ length masks
unfolding add_warps
length-add_warps warps masks [] = refl
length-add_warps warps masks (id ∷ ids) =
    length-add_warps warps (add_warp warps masks id) ids ∙ length-add_warp warps masks id

length-none :
    (warps : ℕ)
    → warps < 2 ^ 31
    → length (replicate {A = ℕ} (num_windows warps) 0) ≡ (warps + 31) / 32
length-none warps small = omega (arith, length-replicate {A = ℕ} (num_windows warps) 0)

-- Behind the windows there is neither a mask nor a warp.
marks-behind : (masks : List ℕ) (w : ℕ) → length masks ≤ w / 32 → marks masks w ≡ false
marks-behind masks w h =
    ap (λ x. bit_of x (w % 32)) (get_or-behind masks (w / 32) h) ∙ no_bit (w % 32)
  where
    get_or-behind : (l : List ℕ) (i : ℕ) → length l ≤ i → ◌≡◌ {A = ℕ} (get_or l i 0) 0
    get_or-behind [] i h = refl
    get_or-behind (x ∷ l) zero h = absurd (omega arith)
    get_or-behind (x ∷ l) (suc i) h = get_or-behind l i (omega arith)

-- For fewer than 2 ^ 31 warps, the masks that `select_warps` computes from a list of identifiers are
-- one for each window of 32 warps, and the bit of place w % 32 in the mask of window w / 32 is set
-- exactly if w is a warp and its identifier is in the list: other identifiers, negative ones among
-- them, set no bit.
pub window_masks_lem :
    (warps : ℕ) (ids : List ℤ) (w : ℕ)
    → warps < 2 ^ 31
    → (length (window_masks warps ids) ≡ (warps + 31) / 32)
      × (marks (window_masks warps ids) w ≡ (ltb w warps && has_wid (pos w) ids))
unfolding window_masks
window_masks_lem warps ids w small = (
  lengths,
  elim (in_or_behind (w / 32) ((warps + 31) / 32)) [
    | inl h ↦
        marks-add_warps warps (replicate (num_windows warps) 0) ids w small
          (omega (arith, length-none warps small))
        ∙ ap (λ b. b || (ltb w warps && has_wid (pos w) ids)) (marks-none (num_windows warps) w)
    | inr h ↦
        marks-behind (add_warps warps (replicate (num_windows warps) 0) ids) w
          (omega (arith, lengths))
        ∙ ap (λ b. b && has_wid (pos w) ids) (no_warp w warps h)
  ],
)
  where
    lengths : length (add_warps warps (replicate (num_windows warps) 0) ids) ≡ (warps + 31) / 32
    lengths = length-add_warps warps (replicate (num_windows warps) 0) ids ∙ length-none warps small

    in_or_behind : (i n : ℕ) → (i < n) ⊎ (n ≤ i)
    in_or_behind i n = ground arith

    no_warp : (w n : ℕ) → (n + 31) / 32 ≤ w / 32 → false ≡ ltb w n
    no_warp w n h = ground arith
