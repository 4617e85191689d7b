-- ===== src/Hart/Windows.antt =====
-- The masks that `select_warps` of src/backend.cpp writes to the windows of the debug module.
use mathlib.Core.Path.{subst}
use vxdebug.Base.{
  Option, some_inj, if_true, if_false, lt→ltb, not_ltb, ℕ, zero, suc, ◌+◌, ◌/◌, ◌%◌, ◌^◌, ◌<◌, ◌≤◌,
  bit_or, ◌≡◌, refl, ap, sym, ◌∙◌, arith, true, ◌&&◌, List, [], ◌∷◌, ltb, if◌then◌else◌, length,
  get_or, replicate, some, update, ◌⊎◌, inl, inr,
}
use vxdebug.Base.Int.{ℤ, pos, negsuc}
use vxdebug.Bits.Single.{bit_or-lt, pow-word}
use vxdebug.Text.{codes}
use vxdebug.Target.{Target}
use vxdebug.Dm.{
  FieldInfo, width, dselect, wmask, get_dmreg_addr, get_dmreg_field, extract_dmreg_field,
}
use vxdebug.Dm.Table.{IsSetField}
use vxdebug.Run.{and_then}
use vxdebug.Backend.State.{Backend}
use vxdebug.Backend.Dmreg.{dmreg_wrfield}
use vxdebug.Backend.Warps.{
  num_windows, bit_of, add_warp, add_warps, window_masks, write_masks, select_warps,
}
use vxdebug.Cli.Warps.{has_wid}
use vxdebug.Cli.Masks.{get_or-set, window_masks_lem}
use vxdebug.Hart.{Returns}
use vxdebug.Hart.Ends.{at, Ends, ends, bind, mono, Ends-wrfield}

-- The windows of warp masks: DSELECT has the number of the selected one in `winsel`, and a write of
-- WMASK sets its mask.
pub record Windows {D : Type 0} (t : Target D) : Type 1 where
  -- Window `k` is selected, and the masks are `m`.
  pub At : ℕ → (ℕ → ℕ) → D → Type 0
  pub connected : {k : ℕ} {m : ℕ → ℕ} {d : D} → At k m d → t.connected d ≡ true
  pub read_dselect :
      {k : ℕ} {m : ℕ → ℕ} {d : D}
      → At k m d
      → Returns (λ v e. (v < 2 ^ 32) × At k m e) (t.read_reg 0x2 d)
  pub write_dselect :
      {k : ℕ} {m : ℕ → ℕ} {d : D} (u j : ℕ)
      → u < 2 ^ 32
      → extract_dmreg_field dselect (codes "winsel") u ≡ some j
      → At k m d
      → Returns (λ _ e. At j m e) (t.write_reg 0x2 u d)
  pub read_wmask :
      {k : ℕ} {m : ℕ → ℕ} {d : D}
      → At k m d
      → Returns (λ v e. (v < 2 ^ 32) × At k m e) (t.read_reg 0x3 d)
  pub write_wmask :
      {k : ℕ} {m : ℕ → ℕ} {d : D} (u x : ℕ)
      → u < 2 ^ 32
      → extract_dmreg_field wmask (codes "mask") u ≡ some x
      → At k m d
      → Returns (λ _ e. At k (update m k x) e) (t.write_reg 0x3 u d)

-- Every mask is a 32-bit word.
AreMasks : List ℕ → Type 0
AreMasks l = (i : ℕ) → get_or l i 0 < 2 ^ 32

AreMasks-add_warp : (warps : ℕ) (l : List ℕ) (id : ℤ) → AreMasks l → AreMasks (add_warp warps l id)
unfolding add_warp AreMasks
AreMasks-add_warp warps l (negsuc u) h i = h i
AreMasks-add_warp warps l (pos u) h i = ground (
  arith,
  get_or-set l (u / 32) i (bit_or (get_or l (u / 32) 0) (2 ^ (u % 32))) 0,
  h i,
  bit_or-lt 32 (get_or l (u / 32) 0) (2 ^ (u % 32)) (h (u / 32)) (pow-word (u % 32) (omega arith)),
)

AreMasks-add_warps :
    (warps : ℕ) (l : List ℕ) (ids : List ℤ) → AreMasks l → AreMasks (add_warps warps l ids)
unfolding add_warps
AreMasks-add_warps warps l [] h = h
AreMasks-add_warps warps l (id ∷ ids) h =
    AreMasks-add_warps warps (add_warp warps l id) ids (AreMasks-add_warp warps l id h)

AreMasks-none : (k : ℕ) → AreMasks (replicate k 0)
unfolding AreMasks
AreMasks-none zero i = omega arith
AreMasks-none (suc k) zero = omega arith
AreMasks-none (suc k) (suc i) = AreMasks-none k i

-- The masks after those of a list are written from window `i` on.
abbrev written : (ℕ → ℕ) → ℕ → List ℕ → ℕ → ℕ
written m i [] = m
written m i (x ∷ xs) = written (update m i x) (i + 1) xs

written-before : (m : ℕ → ℕ) (i : ℕ) (l : List ℕ) (j : ℕ) → j < i → written m i l j ≡ m j
written-before m i [] j h = refl
written-before m i (x ∷ xs) j h =
    written-before (update m i x) (i + 1) xs j (omega arith) ∙ ground arith

written-at :
    (m : ℕ → ℕ) (i : ℕ) (l : List ℕ) (k : ℕ) → k < length l → written m i l (i + k) ≡ get_or l k 0
written-at m i [] k h = absurd (omega arith)
written-at m i (x ∷ xs) zero h =
    written-before (update m i x) (i + 1) xs (i + 0) (omega arith) ∙ ground arith
written-at m i (x ∷ xs) (suc k) h =
    ap (written (update m i x) (i + 1) xs) {x = i + suc k} {y = i + 1 + k} (omega arith)
    ∙ written-at (update m i x) (i + 1) xs k (omega arith)

written-behind : (m : ℕ → ℕ) (i : ℕ) (l : List ℕ) (j : ℕ) → i + length l ≤ j → written m i l j ≡ m j
written-behind m i [] j h = refl
written-behind m i (x ∷ xs) j h =
    written-behind (update m i x) (i + 1) xs j (omega arith) ∙ ground arith

AreMasks-window_masks : (warps : ℕ) (ids : List ℤ) → AreMasks (window_masks warps ids)
unfolding window_masks
AreMasks-window_masks warps ids =
    AreMasks-add_warps warps (replicate (num_windows warps) 0) ids
      (AreMasks-none (num_windows warps))

-- The bits of the masks that are written, and of those that are not.
bits_written :
    (warps : ℕ) (ids : List ℤ) (m : ℕ → ℕ)
    → warps < 2 ^ 31
    → (w : ℕ)
    → bit_of (written m 0 (window_masks warps ids) (w / 32)) (w % 32) ≡ (
        if ltb (w / 32) ((warps + 31) / 32)
        then ltb w warps && has_wid (pos w) ids
        else bit_of (m (w / 32)) (w % 32))
bits_written warps ids m small w =
    let known = window_masks_lem warps ids w small in
    elim (in_or_behind (w / 32) ((warps + 31) / 32)) [
      | inl h ↦
          ap (λ x. bit_of x (w % 32))
            (ap (written m 0 (window_masks warps ids)) {x = w / 32} {y = 0 + w / 32} (omega arith)
              ∙ written-at m 0 (window_masks warps ids) (w / 32) (omega (arith, known.0)))
          ∙ known.1
          ∙ sym (
              if_true (ltb w warps && has_wid (pos w) ids) (bit_of (m (w / 32)) (w % 32))
                (lt→ltb (w / 32) ((warps + 31) / 32) h))
      | inr h ↦
          ap (λ x. bit_of x (w % 32))
            (written-behind m 0 (window_masks warps ids) (w / 32) (omega (arith, known.0)))
          ∙ sym (
              if_false (ltb w warps && has_wid (pos w) ids) (bit_of (m (w / 32)) (w % 32))
                (not_ltb (w / 32) ((warps + 31) / 32) h))
    ]
  where
    in_or_behind : (i n : ℕ) → (i < n) ⊎ (n ≤ i)
    in_or_behind i n = ground arith

module _ {D : Type 0} ⦃t : Target D⦄ (wins : Windows t) (b : Backend D) where
  winsel : FieldInfo
  winsel = record { name = codes "winsel"; msb = 31; lsb = 22 }

  found_winsel : get_dmreg_field dselect (codes "winsel") ≡ some winsel
  unfolding winsel get_dmreg_field
  found_winsel = refl

  mask_field : FieldInfo
  mask_field = record { name = codes "mask"; msb = 31; lsb = 0 }

  found_mask : get_dmreg_field wmask (codes "mask") ≡ some mask_field
  unfolding mask_field get_dmreg_field
  found_mask = refl

  reads_window :
      {v u : ℕ} (k : ℕ)
      → k < 1024
      → IsSetField dselect (codes "winsel") v k u
      → extract_dmreg_field dselect (codes "winsel") u ≡ some k
  unfolding winsel width
  reads_window k lt s =
      s.reads_back
      ∙ subst (λ f. ◌≡◌ {A = Option ℕ} (some (k % 2 ^ width f)) (some k))
          (some_inj (sym found_winsel ∙ s.found)) (ap some (omega arith))

  reads_mask :
      {v u : ℕ} (x : ℕ)
      → x < 2 ^ 32
      → IsSetField wmask (codes "mask") v x u
      → extract_dmreg_field wmask (codes "mask") u ≡ some x
  unfolding mask_field width
  reads_mask x lt s =
      s.reads_back
      ∙ subst (λ f. ◌≡◌ {A = Option ℕ} (some (x % 2 ^ width f)) (some x))
          (some_inj (sym found_mask ∙ s.found)) (ap some (omega arith))

  Ends-winsel :
      {k : ℕ} {m : ℕ → ℕ} {d : D} (i : ℕ)
      → i < 1024
      → wins.At k m d
      → Ends b (λ _ e. wins.At i m e) (dmreg_wrfield dselect (codes "winsel") i (at b d))
  unfolding get_dmreg_addr
  Ends-winsel i lt p =
      Ends-wrfield (wins.connected p) dselect (codes "winsel") i found_winsel (wins.read_dselect p)
        (λ v u e q s. wins.write_dselect u i s.in_word (reads_window i lt s) q)

  Ends-mask :
      {k : ℕ} {m : ℕ → ℕ} {d : D} (x : ℕ)
      → x < 2 ^ 32
      → wins.At k m d
      → Ends b (λ _ e. wins.At k (update m k x) e) (dmreg_wrfield wmask (codes "mask") x (at b d))
  unfolding get_dmreg_addr
  Ends-mask x lt p =
      Ends-wrfield (wins.connected p) wmask (codes "mask") x found_mask (wins.read_wmask p)
        (λ v u e q s. wins.write_wmask u x s.in_word (reads_mask x lt s) q)

  Ends-write_masks :
      (i : ℕ) (l : List ℕ) {k : ℕ} {m : ℕ → ℕ} {d : D}
      → i + length l ≤ 1024
      → AreMasks l
      → wins.At k m d
      → Ends b (λ _ e. (j : ℕ) × wins.At j (written m i l) e) (write_masks i l (at b d))
  unfolding write_masks AreMasks
  Ends-write_masks i [] {k} fits small p = ends (k, p)
  Ends-write_masks i (x ∷ xs) fits small p = bind _ (Ends-winsel i (omega arith) p) λ _ d1 p1.
      bind _ (Ends-mask x (small 0) p1)
        λ _ d2 p2. Ends-write_masks (i + 1) xs (omega arith) (λ j. small (suc j)) p2

  -- Where the debug module keeps warp masks in windows, which DSELECT selects and WMASK sets, and
  -- there are at most 32768 warps, `select_warps` succeeds. Place w % 32 of window w / 32 then is set
  -- exactly if w is a warp and its identifier is in the list, for the windows that cover the warps:
  -- other identifiers, negative ones among them, set no bit. The masks of the windows behind are as
  -- before, and nothing of the backend changes.
  pub select_warps_lem :
      (ids : List ℤ) {k : ℕ} {m : ℕ → ℕ} {d : D}
      → b.platinfo.num_total_warps ≤ 32768
      → wins.At k m d
      → Ends b
          (λ _ e.
            (j : ℕ) × (m' : ℕ → ℕ) × wins.At j m' e
            × ((w : ℕ)
                → bit_of (m' (w / 32)) (w % 32) ≡ (
                    if ltb (w / 32) ((b.platinfo.num_total_warps + 31) / 32)
                    then ltb w b.platinfo.num_total_warps && has_wid (pos w) ids
                    else bit_of (m (w / 32)) (w % 32))))
          (select_warps ids (at b d))
  unfolding select_warps and_then
  select_warps_lem ids {k} {m} few p =
      mono
        (Ends-write_masks 0 (window_masks b.platinfo.num_total_warps ids)
          (omega (arith, few, (window_masks_lem b.platinfo.num_total_warps ids 0 (omega arith)).0))
          (AreMasks-window_masks b.platinfo.num_total_warps ids) p)
        (λ v e q. (
          q.0,
          written m 0 (window_masks b.platinfo.num_total_warps ids),
          q.1,
          bits_written b.platinfo.num_total_warps ids m (omega arith),
        ))
