-- ===== src/Hart/Checked.antt =====
-- The checks before every access to a thread's registers or memory (src/backend.cpp,
-- `CHECK_SELECTED`, `CHECK_HALTED` and `get_warp_state`).
use vxdebug.Base.{
  ℕ, ◌<◌, ◌^◌, ◌*◌, ◌/◌, ◌%◌, ◌≡◌, refl, sym, ap, arith, ◌∙◌, true, false, Option, some, leb,
  some_inj,
}
use vxdebug.Base.Int.{ℤ, pos, is_negative, to_ℕ, to_int}
use vxdebug.Text.{codes, str_eq, ne_of_str_eq}
use mathlib.Core.Path.{subst}
use vxdebug.Run.{Cmd, and_then, ◌>>◌}
use vxdebug.Target.{Target}
use vxdebug.Dm.{
  dselect, wactive, wstatus, FieldInfo, width, get_dmreg_addr, get_dmreg_field, extract_dmreg_field,
}
use vxdebug.Dm.Table.{IsSetField}
use vxdebug.Backend.State.{Backend}
use vxdebug.Backend.Dmreg.{check_selected, dmreg_wrfield, retries_of}
use vxdebug.Backend.Warps.{get_warp_state}
use vxdebug.Backend.Control.{check_halted}
use vxdebug.Hart.{Arch, Hart}
use vxdebug.Hart.Ends.{at, Ends, ends, bind, Ends-rd, Ends-wrfield}

-- The backend has the hart's warp and thread selected, and polls long enough for an injection.
pub record Selects {D : Type 0} (t : Target D) (wid tid latency : ℕ) (b : Backend D) : Type 0 where
  pub warp : b.selected_wid ≡ pos wid
  pub thread : b.selected_tid ≡ pos tid
  pub exists : wid < to_ℕ (to_int b.platinfo.num_total_warps)
  pub in_windows : wid < 32 * 1024
  pub patient : latency < retries_of b.poll_retries

module _ {D : Type 0} ⦃t : Target D⦄ {wid tid : ℕ} (h : Hart t wid tid) (b : Backend D) where
  winsel : FieldInfo
  winsel = record { name = codes "winsel"; msb = 31; lsb = 22 }

  found_winsel : get_dmreg_field dselect (codes "winsel") ≡ some winsel
  unfolding winsel get_dmreg_field
  found_winsel = refl

  reads_window :
      {v u : ℕ} (k : ℕ)
      → k < 1024
      → IsSetField dselect (codes "winsel") v k u
      → extract_dmreg_field dselect (codes "winsel") u ≡ some k
  unfolding winsel width
  reads_window k lt s =
      s.reads_back
      ∙ subst (λ f. ◌≡◌ {A = Option ℕ} (some (k % 2 ^ width f)) (some k))
          (some_inj (sym found_winsel ∙ s.found)) (ap some (omega arith))

  -- Selecting the window of the selected warp.
  Ends-window :
      {a : Arch} {d : D}
      → wid / 32 < 1024
      → h.At a d
      → Ends b
          (λ _ e. h.AtWindow (wid / 32) a e)
          (dmreg_wrfield dselect (codes "winsel") (wid / 32) (at b d))
  unfolding get_dmreg_addr str_eq
  Ends-window lt p =
      Ends-wrfield (h.connected p) dselect (codes "winsel") (wid / 32) found_winsel
        (h.read_dselect p)
        (λ v u e q s.
          h.write_dselect u (wid / 32) s.in_word
            (s.others (codes "warpsel") (ne_of_str_eq _ _ refl) ∙ q.0)
            (s.others (codes "threadsel") (ne_of_str_eq _ _ refl) ∙ q.1)
            (reads_window (wid / 32) lt s) q.2)

  -- The warp's state as the backend reads it.
  Ends-warp_state :
      (w : ℤ) {a : Arch} {d : D}
      → w ≡ pos wid
      → wid < to_ℕ (to_int b.platinfo.num_total_warps)
      → wid < 32 * 1024
      → h.At a d
      → Ends b (λ v e. (v.0 ≡ true) × (v.1 ≡ true) × h.At a e) (get_warp_state w (at b d))
  unfolding get_warp_state get_dmreg_addr
  Ends-warp_state w {a} {d} e exists windows p =
      rw (e, outside)
        (bind _ (Ends-window (omega arith) p) λ _ d1 p1.
          bind _ (Ends-rd (h.connected (h.window_At p1)) wactive (h.read_wactive p1)) λ x d2 p2.
            bind _ (Ends-rd (h.connected (h.window_At p2.1)) wstatus (h.read_wstatus p2.1))
              λ y d3 p3. ends (p2.0, p3.0, h.window_At p3.1))
    where
      outside : leb (to_ℕ (to_int b.platinfo.num_total_warps)) wid ≡ false
      outside = ground arith

  Ends-selected :
      {a : Arch} {d : D}
      → Selects t wid tid h.latency b
      → h.At a d
      → Ends b (λ _ e. h.At a e) (check_selected (at b d))
  unfolding check_selected
  Ends-selected s p = rw (ap is_negative s.warp, ap is_negative s.thread) (ends p)

  Ends-halted :
      {a : Arch} {d : D}
      → Selects t wid tid h.latency b
      → h.At a d
      → Ends b (λ _ e. h.At a e) (check_halted (at b d))
  unfolding check_halted and_then
  Ends-halted s p =
      bind _ (Ends-warp_state b.selected_wid s.warp s.exists s.in_windows p)
        λ v e q. rw (q.0, q.1) (ends q.2)

  -- A call that first checks the selection goes on where the warp is as the hart has it.
  pub Ends-checked :
      {A : Type 0} {Q : A → D → Type 0} (k : Cmd (Backend D) A) {a : Arch} {d : D}
      → Selects t wid tid h.latency b
      → h.At a d
      → ((e : D) → h.At a e → Ends b Q (k (at b e)))
      → Ends b Q ((check_selected >> (check_halted >> k)) (at b d))
  Ends-checked k {a} {d} s p next =
      bind _ (Ends-selected s p) λ _ _ p1. bind _ (Ends-halted s p1) λ _ e p2. next e p2
