-- ===== src/Hart.antt =====
-- The target as the backend relies on it: the selected thread's registers and memory, what the
-- injected instructions do to them, and how the debug module serves an injection. None of this is
-- code of the repository; it is the documented behaviour of the hardware, and enters the theorems
-- about src/backend.cpp as hypotheses.
pub mod Windows
pub mod Ends
pub mod Inject
pub mod Checked
pub mod Temps
pub mod Registers
pub mod Bytes
pub mod ReadMem
pub mod Store
pub mod Progress
pub mod WriteWords
pub mod WriteParts
pub mod WriteMem
pub mod Breakpoints
pub use vxdebug.Base.{update}
use vxdebug.Base.{
  ℕ, zero, suc, ◌+◌, ◌*◌, ◌/◌, ◌%◌, ◌^◌, ◌<◌, ◌≡◌, ◌≢◌, Bool, true, false, Option, some, ◌==◌,
  if◌then◌else◌,
}
use vxdebug.Text.{Str, codes}
use vxdebug.Run.{Run, ok}
use vxdebug.Target.{Target}
use vxdebug.Dm.{dctrl, dselect, extract_dmreg_field}
use vxdebug.Backend.Warps.{bit_of}

pub record Arch : Type 0 where
  pub gpr : ℕ → ℕ
  pub csr : ℕ → ℕ
  pub mem : ℕ → ℕ
  pub scratch : ℕ

-- The little-endian word at an address, and storing one.
abbrev pub load_word : (ℕ → ℕ) → ℕ → ℕ
load_word m a =
    m a
    + m ((a + 1) % 2 ^ 32) * 256
    + m ((a + 2) % 2 ^ 32) * 65536
    + m ((a + 3) % 2 ^ 32) * 16777216

abbrev pub store_word : (ℕ → ℕ) → ℕ → ℕ → ℕ → ℕ
store_word m a w =
    update
      (update (update (update m a (w % 256)) ((a + 1) % 2 ^ 32) (w / 256 % 256)) ((a + 2) % 2 ^ 32)
        (w / 65536 % 256))
      ((a + 3) % 2 ^ 32) (w / 16777216 % 256)

-- The instructions that the backend injects, by their operands.
pub data Instr : Type 0 where
  csrw_scratch : ℕ → Instr
  csrr_scratch : ℕ → Instr
  csrw_from_t0 : ℕ → Instr
  csrr_to_t0 : ℕ → Instr
  lw_t1_t0 sw_t1_t0 addi_t0_4 : Instr

-- x0 keeps its value.
abbrev pub write_reg : (ℕ → ℕ) → ℕ → ℕ → ℕ → ℕ
write_reg g n v = if n == 0 then g else update g n v

-- t0 is x5 and t1 is x6.
unfoldable pub exec : Instr → Arch → Arch
exec (csrw_scratch n) a = record a { scratch = a.gpr n }
exec (csrr_scratch n) a = record a { gpr = write_reg a.gpr n a.scratch }
exec (csrw_from_t0 c) a = record a { csr = update a.csr c (a.gpr 5) }
exec (csrr_to_t0 c) a = record a { gpr = update a.gpr 5 (a.csr c) }
exec lw_t1_t0 a = record a { gpr = update a.gpr 6 (load_word a.mem (a.gpr 5)) }
exec sw_t1_t0 a = record a { mem = store_word a.mem (a.gpr 5) (a.gpr 6) }
exec addi_t0_4 a = record a { gpr = update a.gpr 5 ((a.gpr 5 + 4) % 2 ^ 32) }

-- A value of DCTRL that requests nothing of the debug module but, perhaps, an injection.
pub record IsQuiet (v : ℕ) : Type 0 where
  pub awake : extract_dmreg_field dctrl (codes "dmactive") v ≡ some 1
  pub no_reset : extract_dmreg_field dctrl (codes "ndmreset") v ≡ some 0
  pub no_step : extract_dmreg_field dctrl (codes "stepreq") v ≡ some 0
  pub no_resethalt : extract_dmreg_field dctrl (codes "resethaltreq") v ≡ some 0
  pub no_resume : extract_dmreg_field dctrl (codes "resumereq") v ≡ some 0
  pub no_halt : extract_dmreg_field dctrl (codes "haltreq") v ≡ some 0

pub data Returns {S A : Type 0} (P : A → S → Type 0) : Run S A → Type 0 where
  returns : {v : A} {s : S} → P v s → Returns P (ok v s)

-- The debug module with warp `wid` and thread `tid` selected, that warp active and halted.
pub record Hart {D : Type 0} (t : Target D) (wid tid : ℕ) : Type 1 where
  -- The target shows these registers and this memory, and no injection is under way.
  pub At : Arch → D → Type 0
  -- So too, with window `k` of the warp masks selected.
  pub AtWindow : ℕ → Arch → D → Type 0
  -- So too, with an instruction word in DINJECT.
  pub Loaded : ℕ → Arch → D → Type 0
  -- An injection that ends after so many more polls, and what the target shows then.
  pub Running : ℕ → Arch → D → Type 0
  pub latency : ℕ
  pub code : Instr → ℕ
  pub connected : {a : Arch} {d : D} → At a d → t.connected d ≡ true
  pub window_At : {k : ℕ} {a : Arch} {d : D} → AtWindow k a d → At a d
  pub loaded_connected : {w : ℕ} {a : Arch} {d : D} → Loaded w a d → t.connected d ≡ true
  pub running_connected : {n : ℕ} {a : Arch} {d : D} → Running n a d → t.connected d ≡ true
  pub read_dscratch :
      {a : Arch} {d : D}
      → At a d
      → Returns (λ v e. (v ≡ a.scratch) × (v < 2 ^ 32) × At a e) (t.read_reg 0x9 d)
  pub write_dscratch :
      {a : Arch} {d : D} (v : ℕ)
      → v < 2 ^ 32
      → At a d
      → Returns (λ _ e. At (record a { scratch = v }) e) (t.write_reg 0x9 v d)
  pub write_dinject :
      {a : Arch} {d : D} (w : ℕ) → At a d → Returns (λ _ e. Loaded w a e) (t.write_reg 0x8 w d)
  pub read_dctrl :
      {a : Arch} {d : D} {w : ℕ}
      → Loaded w a d
      → Returns (λ v e. (v < 2 ^ 32) × (IsQuiet v × Loaded w a e)) (t.read_reg 0x6 d)
  pub request :
      {a : Arch} {d : D} (i : Instr) (v : ℕ)
      → IsQuiet v
      → extract_dmreg_field dctrl (codes "injectreq") v ≡ some 1
      → Loaded (code i) a d
      → Returns (λ _ e. Running latency (exec i a) e) (t.write_reg 0x6 v d)
  pub poll_busy :
      {a : Arch} {d : D} (n : ℕ)
      → Running (suc n) a d
      → Returns
          (λ v e. (extract_dmreg_field dctrl (codes "injectstate") v ≢ some 0) × Running n a e)
          (t.read_reg 0x6 d)
  pub poll_done :
      {a : Arch} {d : D}
      → Running zero a d
      → Returns
          (λ v e. (extract_dmreg_field dctrl (codes "injectstate") v ≡ some 0) × At a e)
          (t.read_reg 0x6 d)
  pub read_dselect :
      {a : Arch} {d : D}
      → At a d
      → Returns
          (λ v e.
            (v < 2 ^ 32)
            × ((extract_dmreg_field dselect (codes "warpsel") v ≡ some wid)
                × (extract_dmreg_field dselect (codes "threadsel") v ≡ some tid)
                × At a e))
          (t.read_reg 0x2 d)
  pub write_dselect :
      {a : Arch} {d : D} (v k : ℕ)
      → v < 2 ^ 32
      → extract_dmreg_field dselect (codes "warpsel") v ≡ some wid
      → extract_dmreg_field dselect (codes "threadsel") v ≡ some tid
      → extract_dmreg_field dselect (codes "winsel") v ≡ some k
      → At a d
      → Returns (λ _ e. AtWindow k a e) (t.write_reg 0x2 v d)
  pub read_wactive :
      {a : Arch} {d : D}
      → AtWindow (wid / 32) a d
      → Returns (λ v e. (bit_of v (wid % 32) ≡ true) × AtWindow (wid / 32) a e) (t.read_reg 0x4 d)
  pub read_wstatus :
      {a : Arch} {d : D}
      → AtWindow (wid / 32) a d
      → Returns (λ v e. (bit_of v (wid % 32) ≡ true) × AtWindow (wid / 32) a e) (t.read_reg 0x5 d)
