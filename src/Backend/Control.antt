-- ===== src/Backend/Control.antt =====
-- Halting, resuming and stepping warps (src/backend.cpp, "Warp Control Methods").
use vxdebug.Base.{ℕ, Bool, true, false, not, ◌&&◌, List, [], ◌∷◌, if◌then◌else◌}
use vxdebug.Base.Int.{ℤ}
use vxdebug.Text.{codes}
use vxdebug.Run.{
  error, warp_not_active, warp_not_halted, Cmd, pure, fail, ◌>>=◌, ◌>>◌, get_state, put_state,
}
use vxdebug.Target.{Target}
use vxdebug.Dm.{dctrl, dpc, dinject}
use vxdebug.Backend.State.{Backend}
use vxdebug.Backend.Dmreg.{check_selected, dmreg_rd, dmreg_wr, dmreg_wrfield, dmreg_pollfield}
use vxdebug.Backend.Warps.{
  select_warps, select_all_warps, get_warp_state, get_warp_status, get_warp_summary,
}

module _ {D : Type 0} ⦃t : Target D⦄ where
  -- The loop over the identifiers after a request; `wanted` is the halted state asked for, and the
  -- result tells whether every warp is active and in that state.
  check_states : Bool → Bool → List ℤ → Cmd (Backend D) Bool
  check_states wanted sofar [] = pure sofar
  check_states wanted sofar (w ∷ ws) = do
    (active, halted) ← get_warp_state w
    check_states wanted (sofar && (active && (if wanted then halted else not halted))) ws

  all_or_error : Bool → Cmd (Backend D) (Unit {0})
  all_or_error true = pure tt
  all_or_error false = fail error

  unfoldable pub halt_warps : List ℤ → Cmd (Backend D) (Unit {0})
  unfolding check_states all_or_error
  halt_warps wids = do
    select_warps wids
    dmreg_wrfield dctrl (codes "haltreq") 1
    good ← check_states true true wids
    all_or_error good

  -- The overload without arguments.
  unfoldable pub halt_all_warps : Cmd (Backend D) (Unit {0})
  halt_all_warps = do
    select_all_warps true
    dmreg_wrfield dctrl (codes "haltreq") 1
    _ ← dmreg_pollfield dctrl (codes "allhalted") 1
    pure tt

  unfoldable pub resume_warps : List ℤ → Cmd (Backend D) (Unit {0})
  unfolding check_states all_or_error
  resume_warps wids = do
    select_warps wids
    dmreg_wrfield dctrl (codes "resumereq") 1
    _ ← get_warp_status false true
    good ← check_states false true wids
    all_or_error good

  -- The overload without arguments.
  unfoldable pub resume_all_warps : Cmd (Backend D) (Unit {0})
  resume_all_warps = do
    select_all_warps true
    dmreg_wrfield dctrl (codes "resumereq") 1
    _ ← dmreg_pollfield dctrl (codes "allrunning") 1
    pure tt

  -- `CHECK_HALTED()`
  unfoldable pub check_halted : Cmd (Backend D) (Unit {0})
  check_halted = do
    b ← get_state
    (active, halted) ← get_warp_state b.selected_wid
    (if active then (if halted then pure tt else fail warp_not_halted) else fail warp_not_active)

  unfoldable pub step_warp : Cmd (Backend D) (Unit {0})
  step_warp = do
    check_selected
    check_halted
    _ ← get_warp_summary
    dmreg_wrfield dctrl (codes "stepreq") 1
    _ ← dmreg_pollfield dctrl (codes "stepstate") 0
    pc ← dmreg_rd dpc
    b ← get_state
    put_state (record b { selected_warp_pc = pc })

  -- Runs one instruction word on the selected thread.
  unfoldable pub inject_word : ℕ → Cmd (Backend D) (Unit {0})
  inject_word instruction = do
    dmreg_wr dinject instruction
    dmreg_wrfield dctrl (codes "injectreq") 1
    _ ← dmreg_pollfield dctrl (codes "injectstate") 0
    pure tt
