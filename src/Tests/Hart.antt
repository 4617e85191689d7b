-- ===== src/Tests/Hart.antt =====
-- Register and memory access on the simulated target.
use vxdebug.Base.{ℕ, ◌*◌, ◌%◌, ◌≡◌, refl, arith, false, List, [], ◌∷◌}
use vxdebug.Base.Int.{pos}
use vxdebug.Dm.{extract_dmreg_field, get_dmreg_field, extract_field}
use vxdebug.Backend.State.{Backend, initial, no_platinfo}
use vxdebug.Backend.Registers.{read_gpr, write_gpr, read_csr, write_csr}
use vxdebug.Backend.Memory.{read_mem, write_mem, word_bytes}
use vxdebug.Backend.Breakpoints.{lookup, erase, enabled_at, set_breakpoint, remove_breakpoint}
use vxdebug.Hart.Breakpoints.{set-remove_breakpoint}
use vxdebug.Run.{ok}
use vxdebug.Hart.Breakpoints.Marks.{Edit, put, remove, ArePlaces, after_all}
use vxdebug.Hart.Breakpoints.Edits.{Marked, edit_all, edit_all_lem}
use vxdebug.Hart.{Arch, update, write_reg}
use vxdebug.Hart.Ends.{at, Ends}
use vxdebug.Hart.Checked.{Selects}
use vxdebug.Hart.Temps.{Lines}
use vxdebug.Hart.Bytes.{mem_bytes, AreBytes}
use vxdebug.Hart.Registers.{read_gpr_lem, write_gpr_lem, read_csr_lem, write_csr_lem}
use vxdebug.Hart.ReadMem.{read_mem_lem}
use vxdebug.Hart.WriteMem.{write_mem_lem}
use vxdebug.Hart.Store.{store_bytes}
use vxdebug.Base.Lists.{AreByteValues}
use vxdebug.Sim.{Sim, sim, sim_assemble, sim_target, encode}
use vxdebug.Sim.Laws.{InRange, SelectsZero, SimAt, sim_at}
use vxdebug.Sim.Instance.{sim_hart}

abbrev pub arch : Arch
arch = record { gpr = λ r. r % 64 * 16; csr = λ c. 7; mem = λ k. k % 256; scratch = 0 }

abbrev pub target : Sim
target = sim arch 0 0 0

-- Four warps, warp 0 and thread 0 selected.
abbrev pub backend : Backend Sim
backend = record (initial target) {
  selected_wid = pos 0;
  selected_tid = pos 0;
  platinfo = record no_platinfo { num_total_warps = 4; num_threads = 4 };
}

pub backend-Selects : Selects sim_target 0 0 2 backend
backend-Selects = record {
  warp = refl;
  thread = refl;
  exists = omega arith;
  in_windows = omega arith;
  patient = omega arith;
}

select_zero : SelectsZero 0
unfolding extract_dmreg_field get_dmreg_field extract_field
select_zero = record { word = omega arith; warp = refl; thread = refl }

arch-InRange : InRange arch
arch-InRange = record {
  gprs = λ r. omega arith;
  csrs = λ c. omega arith;
  bytes = λ k. omega arith;
  scratched = omega arith;
}

pub target-SimAt : SimAt arch target
target-SimAt = sim_at arch-InRange select_zero

pub sim-Lines : Lines sim_target encode
unfolding sim_assemble
sim-Lines = record {
  csrw_t0_line = refl;
  csrw_t1_line = refl;
  csrr_t0_line = refl;
  csrr_t1_line = refl;
  lw_line = refl;
  sw_line = refl;
  addi_line = refl;
}

read_gpr_lem_example :
    Ends backend
      (λ v e. (v ≡ 160) × SimAt (record arch { scratch = 160 }) e)
      (read_gpr 10 (at backend target))
unfolding sim_assemble
read_gpr_lem_example = read_gpr_lem sim_hart backend 10 refl backend-Selects target-SimAt

write_gpr_lem_example :
    Ends backend
      (λ _ e. SimAt (record arch { gpr = write_reg arch.gpr 10 99; scratch = 99 }) e)
      (write_gpr 10 99 (at backend target))
unfolding sim_assemble
write_gpr_lem_example =
    write_gpr_lem sim_hart backend 10 99 (omega arith) refl backend-Selects target-SimAt

read_csr_lem_example :
    Ends backend
      (λ v e. (v ≡ 7) × SimAt (record arch { scratch = 80 }) e)
      (read_csr 0x340 (at backend target))
unfolding sim_assemble
read_csr_lem_example =
    read_csr_lem sim_hart backend 0x340 refl refl refl backend-Selects target-SimAt

write_csr_lem_example :
    Ends backend
      (λ _ e. SimAt (record arch { csr = update arch.csr 0x340 9; scratch = 80 }) e)
      (write_csr 0x340 9 (at backend target))
unfolding sim_assemble
write_csr_lem_example =
    write_csr_lem sim_hart backend 0x340 9 (omega arith) refl refl refl backend-Selects target-SimAt

pub arch-AreBytes : AreBytes arch.mem
arch-AreBytes k = omega arith

read_mem_lem_example :
    Ends backend
      (λ bytes e.
        (bytes ≡ 0x13 ∷ 0x14 ∷ 0x15 ∷ 0x16 ∷ 0x17 ∷ [])
        × ((s : ℕ) × SimAt (record arch { scratch = s }) e))
      (read_mem 0x8000_0013 5 (at backend target))
unfolding mem_bytes
read_mem_lem_example =
    read_mem_lem sim_hart backend 0x8000_0013 5 arch (omega arith) (omega arith) arch-AreBytes
      sim-Lines backend-Selects target-SimAt

seven-AreByteValues : AreByteValues (1 ∷ 2 ∷ 3 ∷ 4 ∷ 5 ∷ 6 ∷ 7 ∷ [])
unfolding AreByteValues
seven-AreByteValues = (
  omega arith,
  (omega arith, (omega arith, (omega arith, (omega arith, (omega arith, (omega arith, tt)))))),
)

-- Part of a word, a whole word and part of a word.
write_mem_lem_example :
    Ends backend
      (λ _ e.
        (s : ℕ) × SimAt
          (record arch {
            mem = store_bytes arch.mem 0x8000_0013 (1 ∷ 2 ∷ 3 ∷ 4 ∷ 5 ∷ 6 ∷ 7 ∷ []);
            scratch = s;
          })
          e)
      (write_mem 0x8000_0013 (1 ∷ 2 ∷ 3 ∷ 4 ∷ 5 ∷ 6 ∷ 7 ∷ []) (at backend target))
write_mem_lem_example =
    write_mem_lem sim_hart backend 0x8000_0013 (1 ∷ 2 ∷ 3 ∷ 4 ∷ 5 ∷ 6 ∷ 7 ∷ []) arch (omega arith)
      seven-AreByteValues arch-AreBytes sim-Lines backend-Selects target-SimAt

set-remove_breakpoint_example :
    (b : Backend Sim) × (s : ℕ) × (set_breakpoint 0x8000_0010 (at backend target) ≡ ok tt b)
    × SimAt
        (record arch {
          mem = store_bytes arch.mem 0x8000_0010 (word_bytes 0x0010_0073);
          scratch = s;
        })
        b.target
    × ((d : Sim) × (s' : ℕ) × (remove_breakpoint 0x8000_0010 b
          ≡ ok tt (at (record backend { breakpoints = erase 0x8000_0010 b.breakpoints }) d))
        × SimAt (record arch { scratch = s' }) d)
unfolding enabled_at lookup sim_assemble
set-remove_breakpoint_example =
    set-remove_breakpoint sim_hart backend 0x8000_0010 0x0010_0073 arch (omega arith) arch-AreBytes
      sim-Lines refl backend-Selects refl target-SimAt

-- Two breakpoints are set, and the first one is removed.
abbrev edits : List Edit
edits = put 0x8000_0010 ∷ put 0x8000_0020 ∷ remove 0x8000_0010 ∷ []

edits-ArePlaces : ArePlaces edits
unfolding ArePlaces
edits-ArePlaces =
    ((omega arith, omega arith), ((omega arith, omega arith), ((omega arith, omega arith), tt)))

edit_all_lem_example :
    Marked sim_hart backend arch 0x0010_0073
      (after_all edits (λ k. false))
      (edit_all edits (at backend target))
unfolding sim_assemble
edit_all_lem_example =
    edit_all_lem sim_hart backend arch 0x0010_0073 edits edits-ArePlaces arch-AreBytes sim-Lines
      refl backend-Selects refl target-SimAt
