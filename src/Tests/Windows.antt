-- ===== src/Tests/Windows.antt =====
-- Selecting warps at a debug module that has nothing but the windows of warp masks.
use vxdebug.Base.{
  ℕ, ◌+◌, ◌/◌, ◌%◌, ◌^◌, ◌<◌, ◌≡◌, refl, arith, true, ◌&&◌, [], ◌∷◌, ltb, ◌==◌, if◌then◌else◌, none,
  update, Option, some, ap, ap₂, ◌∙◌,
}
use vxdebug.Base.Int.{pos, negsuc}
use vxdebug.Text.{codes}
use vxdebug.Run.{Run, ok, err, error}
use vxdebug.Target.{Target}
use vxdebug.Dm.{dselect, wmask, get_dmreg_field, extract_field, extract_dmreg_field}
use vxdebug.Backend.State.{Backend, initial, no_platinfo}
use vxdebug.Backend.Warps.{bit_of, select_warps}
use vxdebug.Cli.Warps.{has_wid}
use vxdebug.Hart.{Returns, returns}
use vxdebug.Hart.Ends.{at, Ends}
use vxdebug.Hart.Windows.{Windows, select_warps_lem}

-- DSELECT, and the masks of the windows.
record Masked : Type 0 where
  dsel : ℕ
  masks : ℕ → ℕ

abbrev or_zero : Option ℕ → ℕ
or_zero none = 0
or_zero (some x) = x

unfoldable window : ℕ → ℕ
unfolding extract_dmreg_field
window u = or_zero (extract_dmreg_field dselect (codes "winsel") u)

unfoldable mask_value : ℕ → ℕ
unfolding extract_dmreg_field
mask_value u = or_zero (extract_dmreg_field wmask (codes "mask") u)

abbrev read_masked : ℕ → Masked → Run Masked ℕ
read_masked r d = if r == 0x2 then ok d.dsel d else if r == 0x3 then ok 0 d else err error d

abbrev write_masked : ℕ → ℕ → Masked → Run Masked (Unit {0})
write_masked r v d =
    if r == 0x2
    then ok tt (record d { dsel = v })
    else if r == 0x3
    then ok tt (record d { masks = update d.masks (window d.dsel) (mask_value v) })
    else err error d

instance abbrev masked : Target Masked
masked = record {
  connected = λ d. true;
  read_reg = read_masked;
  write_reg = write_masked;
  assemble = λ s. none;
}

data AtMasks : ℕ → (ℕ → ℕ) → Masked → Type 0 where
  at_masks :
      {k : ℕ} {m : ℕ → ℕ} {d : Masked}
      → d.dsel < 2 ^ 32
      → window d.dsel ≡ k
      → d.masks ≡ m
      → AtMasks k m d

module _ {k : ℕ} {m : ℕ → ℕ} {d : Masked} where
  dselect_read : AtMasks k m d → Returns (λ v e. (v < 2 ^ 32) × AtMasks k m e) (read_masked 0x2 d)
  dselect_read (at_masks lt e f) = returns (lt, at_masks lt e f)

  dselect_written :
      (u j : ℕ)
      → u < 2 ^ 32
      → extract_dmreg_field dselect (codes "winsel") u ≡ some j
      → AtMasks k m d
      → Returns (λ _ e. AtMasks j m e) (write_masked 0x2 u d)
  unfolding window
  dselect_written u j lt e (at_masks l e' f) = returns (at_masks lt (ap or_zero e) f)

  wmask_read : AtMasks k m d → Returns (λ v e. (v < 2 ^ 32) × AtMasks k m e) (read_masked 0x3 d)
  wmask_read p = returns (omega arith, p)

  wmask_written :
      (u x : ℕ)
      → u < 2 ^ 32
      → extract_dmreg_field wmask (codes "mask") u ≡ some x
      → AtMasks k m d
      → Returns (λ _ e. AtMasks k (update m k x) e) (write_masked 0x3 u d)
  unfolding mask_value
  wmask_written u x lt e (at_masks l e' f) = returns (
      at_masks l e' (
        ap₂ (λ (i y : ℕ). update d.masks i y) e' (ap or_zero e)
        ∙ ap (λ (g : ℕ → ℕ). update g k x) f))

abbrev windows : Windows masked
windows = record {
  At = AtMasks;
  connected = λ p. refl;
  read_dselect = dselect_read;
  write_dselect = dselect_written;
  read_wmask = wmask_read;
  write_wmask = wmask_written;
}

abbrev cleared : Masked
cleared = record { dsel = 0; masks = λ i. 0 }

-- Forty warps in two windows.
abbrev forty : Backend Masked
forty = record (initial cleared) { platinfo = record no_platinfo { num_total_warps = 40 } }

cleared-At : AtMasks 0 (λ i. 0) cleared
unfolding window extract_dmreg_field get_dmreg_field extract_field
cleared-At = at_masks (omega arith) refl refl

select_warps_lem_example :
    Ends forty
      (λ _ e.
        (j : ℕ) × (m' : ℕ → ℕ) × AtMasks j m' e
        × ((w : ℕ)
            → bit_of (m' (w / 32)) (w % 32) ≡ (
                if ltb (w / 32) ((40 + 31) / 32)
                then ltb w 40 && has_wid (pos w) (pos 33 ∷ negsuc 0 ∷ pos 50 ∷ [])
                else bit_of 0 (w % 32))))
      (select_warps (pos 33 ∷ negsuc 0 ∷ pos 50 ∷ []) (at forty cleared))
select_warps_lem_example =
    select_warps_lem windows forty (pos 33 ∷ negsuc 0 ∷ pos 50 ∷ []) (omega arith) cleared-At
