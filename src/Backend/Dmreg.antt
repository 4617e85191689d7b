-- ===== src/Backend/Dmreg.antt =====
-- Access to the debug module's registers and their fields.
pub mod Polling
use vxdebug.Base.{ℕ, zero, suc, ◌/◌, ◌^◌, bit_and, true, false, ◌==◌, ltb, if◌then◌else◌}
use vxdebug.Base.Int.{is_negative}
use vxdebug.Text.{Str}
use vxdebug.Run.{
  invalid_arg, timeout, transport_err, noneselected_err, ok, err, Cmd, fail, catching, need, ◌>>=◌,
  ◌>>◌,
}
use vxdebug.Target.{Target}
use vxdebug.Dm.{
  FieldInfo, mask, DmReg, get_dmreg_addr, get_dmreg_field, extract_dmreg_field, set_dmreg_field,
}
use vxdebug.Backend.State.{Backend, on_target}

-- `int max_retries = poll_retries_`: a count from 2 ^ 31 on is negative, and makes no attempt.
abbrev pub retries_of : ℕ → ℕ
retries_of n = if ltb n (2 ^ 31) then n else 0

module _ {D : Type 0} ⦃t : Target D⦄ where
  unfoldable pub check_transport : Cmd (Backend D) (Unit {0})
  check_transport b = if t.connected b.target then ok tt b else err transport_err b

  unfoldable pub check_selected : Cmd (Backend D) (Unit {0})
  check_selected b =
      if is_negative b.selected_wid
      then err noneselected_err b
      else if is_negative b.selected_tid
      then err noneselected_err b
      else ok tt b

  unfoldable pub dmreg_rd : DmReg → Cmd (Backend D) ℕ
  unfolding check_transport
  dmreg_rd r = do check_transport; on_target (t.read_reg (get_dmreg_addr r))

  unfoldable pub dmreg_wr : DmReg → ℕ → Cmd (Backend D) (Unit {0})
  unfolding check_transport
  dmreg_wr r v = do check_transport; on_target (t.write_reg (get_dmreg_addr r) v)

  rdfield_body : DmReg → Str → Cmd (Backend D) ℕ
  rdfield_body r n = do
    _ ← need (get_dmreg_field r n)
    v ← on_target (t.read_reg (get_dmreg_addr r))
    need (extract_dmreg_field r n v)

  unfoldable pub dmreg_rdfield : DmReg → Str → Cmd (Backend D) ℕ
  unfolding check_transport rdfield_body
  dmreg_rdfield r n = do check_transport; λ b. catching invalid_arg (rdfield_body r n b)

  wrfield_body : DmReg → Str → ℕ → Cmd (Backend D) (Unit {0})
  wrfield_body r n x = do
    _ ← need (get_dmreg_field r n)
    v ← on_target (t.read_reg (get_dmreg_addr r))
    u ← need (set_dmreg_field r n v x)
    on_target (t.write_reg (get_dmreg_addr r) u)

  unfoldable pub dmreg_wrfield : DmReg → Str → ℕ → Cmd (Backend D) (Unit {0})
  unfolding check_transport wrfield_body
  dmreg_wrfield r n x = do check_transport; λ b. catching invalid_arg (wrfield_body r n x b)

  -- The attempts that are left of the polling loop.
  unfoldable pub poll_loop : DmReg → FieldInfo → ℕ → ℕ → Cmd (Backend D) ℕ
  poll_loop r finfo expected zero = fail timeout
  poll_loop r finfo expected (suc attempts) = do
    v ← on_target (t.read_reg (get_dmreg_addr r))
    (λ b. elim (bit_and v (mask finfo) / 2 ^ finfo.lsb == expected) [
      | true ↦ ok (bit_and v (mask finfo) / 2 ^ finfo.lsb) b
      | false ↦ poll_loop r finfo expected attempts b
    ])

  pollfield_body : DmReg → Str → ℕ → ℕ → Cmd (Backend D) ℕ
  unfolding poll_loop
  pollfield_body r n expected retries = do
    finfo ← need (get_dmreg_field r n)
    poll_loop r finfo expected retries

  -- `dmreg_pollfield` with its default number of retries. On a timeout no caller looks at
  -- `*final_value`, so the value comes with success only.
  unfoldable pub dmreg_pollfield : DmReg → Str → ℕ → Cmd (Backend D) ℕ
  unfolding check_transport pollfield_body
  dmreg_pollfield r n expected = do
    check_transport
    λ b. catching invalid_arg (pollfield_body r n expected (retries_of b.poll_retries) b)
