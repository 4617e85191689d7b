-- ===== src/Backend/Registers.antt =====
-- Reading and writing the selected thread's registers by injected instructions (src/backend.cpp,
-- "Platform Query/Update Methods").
use vxdebug.Base.{ℕ, List, [], ◌∷◌, ◌++◌, if◌then◌else◌, ◌==◌, length}
use vxdebug.Text.{Str, codes, str_eq}
use vxdebug.Text.Number.{dec}
use vxdebug.Run.{invalid_arg, Cmd, pure, fail, need, ◌>>=◌, ◌>>◌}
use vxdebug.Target.{Target}
use vxdebug.Dm.{dscratch}
use vxdebug.Riscv.{RegType, gpr, csr, no_reg, rvreg_gettype, rvgpr_name2num, rvcsr_name2addr}
use vxdebug.Backend.State.{Backend}
use vxdebug.Backend.Dmreg.{check_selected, dmreg_rd, dmreg_wr}
use vxdebug.Backend.Warps.{get_warp_pc, set_warp_pc}
use vxdebug.Backend.Control.{check_halted, inject_word}

-- `RV_CSR_VX_DSCRATCH`
abbrev pub vx_dscratch : ℕ
vx_dscratch = 0x7b2

-- The lines of assembly that the source formats.
unfoldable pub csrw_reg : ℕ → Str
csrw_reg regnum = codes "csrw " ++ (dec vx_dscratch ++ (codes ", x" ++ dec regnum))

unfoldable pub csrr_reg : ℕ → Str
csrr_reg regnum = codes "csrr x" ++ (dec regnum ++ (codes ", " ++ dec vx_dscratch))

-- `csrw <csr>, t0` and `csrr t0, <csr>`, and the same with t1.
unfoldable pub csrw_t0 : ℕ → Str
csrw_t0 regaddr = codes "csrw " ++ (dec regaddr ++ codes ", t0")

unfoldable pub csrr_t0 : ℕ → Str
csrr_t0 regaddr = codes "csrr t0, " ++ dec regaddr

unfoldable pub csrw_t1 : ℕ → Str
csrw_t1 regaddr = codes "csrw " ++ (dec regaddr ++ codes ", t1")

unfoldable pub csrr_t1 : ℕ → Str
csrr_t1 regaddr = codes "csrr t1, " ++ dec regaddr

module _ {D : Type 0} ⦃t : Target D⦄ where
  -- `inject_instruction` of a line of assembly.
  unfoldable pub inject_instruction : Str → Cmd (Backend D) (Unit {0})
  inject_instruction line = do w ← need (t.assemble line); inject_word w

  unfoldable pub read_gpr : ℕ → Cmd (Backend D) ℕ
  read_gpr regnum = do
    check_selected
    check_halted
    inject_instruction (csrw_reg regnum)
    dmreg_rd dscratch

  unfoldable pub write_gpr : ℕ → ℕ → Cmd (Backend D) (Unit {0})
  write_gpr regnum value = do
    check_selected
    check_halted
    dmreg_wr dscratch value
    inject_instruction (csrr_reg regnum)

  unfoldable pub read_csr : ℕ → Cmd (Backend D) ℕ
  read_csr regaddr = do
    check_selected
    check_halted
    inject_instruction (csrw_t0 vx_dscratch)
    t0_val ← dmreg_rd dscratch
    inject_instruction (csrr_t0 regaddr)
    inject_instruction (csrw_t0 vx_dscratch)
    value ← dmreg_rd dscratch
    dmreg_wr dscratch t0_val
    inject_instruction (csrr_t0 vx_dscratch)
    pure value

  unfoldable pub write_csr : ℕ → ℕ → Cmd (Backend D) (Unit {0})
  write_csr regaddr value = do
    check_selected
    check_halted
    inject_instruction (csrw_t0 vx_dscratch)
    t0_val ← dmreg_rd dscratch
    dmreg_wr dscratch value
    inject_instruction (csrr_t0 vx_dscratch)
    inject_instruction (csrw_t0 regaddr)
    dmreg_wr dscratch t0_val
    inject_instruction (csrr_t0 vx_dscratch)

  -- The register that a name stands for decides the access; `pc` is none of the tables'.
  read_typed : RegType → Str → Cmd (Backend D) ℕ
  read_typed gpr name = do regnum ← need (rvgpr_name2num name); read_gpr regnum
  read_typed csr name = do csraddr ← need (rvcsr_name2addr name); read_csr csraddr
  read_typed no_reg name = if str_eq name (codes "pc") then get_warp_pc else fail invalid_arg

  unfoldable pub read_reg : Str → Cmd (Backend D) ℕ
  unfolding read_typed
  read_reg name = read_typed (rvreg_gettype name) name

  write_typed : RegType → Str → ℕ → Cmd (Backend D) (Unit {0})
  write_typed gpr name value = do regnum ← need (rvgpr_name2num name); write_gpr regnum value
  write_typed csr name value = do csraddr ← need (rvcsr_name2addr name); write_csr csraddr value
  write_typed no_reg name value =
      if str_eq name (codes "pc") then set_warp_pc value else fail invalid_arg

  unfoldable pub write_reg : Str → ℕ → Cmd (Backend D) (Unit {0})
  unfolding write_typed
  write_reg name value = write_typed (rvreg_gettype name) name value

  unfoldable pub read_regs : List Str → Cmd (Backend D) (List ℕ)
  read_regs [] = pure []
  read_regs (name ∷ names) = do
    value ← read_reg name
    values ← read_regs names
    pure (value ∷ values)

  write_each : List Str → List ℕ → Cmd (Backend D) (Unit {0})
  write_each [] values = pure tt
  write_each (name ∷ names) [] = pure tt
  write_each (name ∷ names) (value ∷ values) = do write_reg name value; write_each names values

  unfoldable pub write_regs : List Str → List ℕ → Cmd (Backend D) (Unit {0})
  unfolding write_each
  write_regs names values =
      if length names == length values then write_each names values else fail invalid_arg
