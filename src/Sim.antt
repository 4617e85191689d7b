-- ===== src/Sim.antt =====
-- A small debug module with one warp, on which the hypotheses about the target hold: the concrete
-- target of the tests. It stands for no code of the repository.
pub mod Laws
pub mod Instance
pub mod Registers
pub mod Network
use vxdebug.Base.{
  ℕ, zero, suc, ◌+◌, ◌*◌, ◌/◌, ◌%◌, ◌^◌, ◌<◌, ◌≡◌, refl, arith, Bool, true, false, Option, none,
  some, ◌==◌, if◌then◌else◌, List, [], ◌∷◌,
}
use vxdebug.Text.{Str, codes, str_eq}
use vxdebug.Text.Number.{dec}
use vxdebug.Run.{error, Run, ok, err}
use vxdebug.Target.{Target}
use vxdebug.Backend.Registers.{csrw_reg, csrr_reg, csrw_t0, csrr_t0, csrw_t1, csrr_t1}
use vxdebug.Hart.{
  Arch, Instr, csrw_scratch, csrr_scratch, csrw_from_t0, csrr_to_t0, lw_t1_t0, sw_t1_t0, addi_t0_4,
  exec,
}

pub record Sim : Type 0 where
  pub arch : Arch
  pub dinject : ℕ
  pub dselect : ℕ
  pub polls : ℕ

abbrev pub sim : Arch → ℕ → ℕ → ℕ → Sim
sim a w s n = record { arch = a; dinject = w; dselect = s; polls = n }

-- Instruction words of the simulated target.
unfoldable pub encode : Instr → ℕ
encode (csrw_scratch n) = n * 8
encode (csrr_scratch n) = n * 8 + 1
encode (csrw_from_t0 n) = n * 8 + 2
encode (csrr_to_t0 n) = n * 8 + 3
encode lw_t1_t0 = 4
encode sw_t1_t0 = 5
encode addi_t0_4 = 6

unfoldable pub decode : ℕ → Instr
decode w =
    if w % 8 == 0
    then csrw_scratch (w / 8)
    else if w % 8 == 1
    then csrr_scratch (w / 8)
    else if w % 8 == 2
    then csrw_from_t0 (w / 8)
    else if w % 8 == 3
    then csrr_to_t0 (w / 8)
    else if w % 8 == 4
    then lw_t1_t0
    else if w % 8 == 5
    then sw_t1_t0
    else addi_t0_4

-- A read of DCTRL counts an injection down.
unfoldable pub read_control : ℕ → Sim → Run Sim ℕ
read_control zero d = ok 0x8000_0000 d
read_control (suc n) d = ok 0x8000_0080 (record d { polls = n })

unfoldable pub sim_read : ℕ → Sim → Run Sim ℕ
unfolding read_control
sim_read r d =
    if r == 9
    then ok d.arch.scratch d
    else if r == 6
    then read_control d.polls d
    else if r == 2
    then ok d.dselect d
    else if r == 4
    then ok 0xffff_ffff d
    else if r == 5
    then ok 0xffff_ffff d
    else err error d

unfoldable pub sim_write : ℕ → ℕ → Sim → Run Sim (Unit {0})
unfolding exec decode
sim_write r v d =
    if r == 9
    then ok tt (record d { arch = record (d.arch) { scratch = v } })
    else if r == 8
    then ok tt (record d { dinject = v })
    else if r == 6
    then ok tt (record d { arch = exec (decode d.dinject) d.arch; polls = 2 })
    else if r == 2
    then ok tt (record d { dselect = v })
    else err error d

-- The lines that the tests use, with the instructions they stand for.
abbrev lines : List (Str × Instr)
lines =
    (csrw_t0 0x7b2, csrw_scratch 5)
    ∷ (csrw_t1 0x7b2, csrw_scratch 6)
    ∷ (csrr_t0 0x7b2, csrr_scratch 5)
    ∷ (csrr_t1 0x7b2, csrr_scratch 6)
    ∷ (codes "lw t1, 0(t0)", lw_t1_t0)
    ∷ (codes "sw t1, 0(t0)", sw_t1_t0)
    ∷ (codes "addi t0, t0, 4", addi_t0_4)
    ∷ (csrw_reg 10, csrw_scratch 10)
    ∷ (csrr_reg 10, csrr_scratch 10)
    ∷ (csrw_t0 0x340, csrw_from_t0 0x340)
    ∷ (csrr_t0 0x340, csrr_to_t0 0x340)
    ∷ []

find_line : Str → List (Str × Instr) → Option ℕ
unfolding str_eq encode
find_line s [] = none
find_line s ((l, i) ∷ ls) = if str_eq s l then some (encode i) else find_line s ls

-- `ebreak` is the word that the RISC-V manual gives.
unfoldable pub sim_assemble : Str → Option ℕ
unfolding find_line dec csrw_reg csrr_reg csrw_t0 csrr_t0 csrw_t1 csrr_t1
sim_assemble s = if str_eq s (codes "ebreak") then some 0x0010_0073 else find_line s lines

instance abbrev pub sim_target : Target Sim
sim_target = record {
  connected = λ d. true;
  read_reg = sim_read;
  write_reg = sim_write;
  assemble = sim_assemble;
}
