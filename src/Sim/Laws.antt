-- ===== src/Sim/Laws.antt =====
-- The simulated target meets the hypotheses about the hardware.
use vxdebug.Base.{ℕ, ◌+◌, ◌%◌, ◌^◌, ◌<◌, ◌≡◌, refl, arith, some}
use vxdebug.Text.{codes}
use vxdebug.Dm.{dselect, dctrl, extract_dmreg_field, get_dmreg_field, extract_field}
use vxdebug.Hart.{
  Arch, Instr, csrw_scratch, csrr_scratch, csrw_from_t0, csrr_to_t0, lw_t1_t0, sw_t1_t0, addi_t0_4,
  exec, update, load_word, store_word, write_reg, IsQuiet,
}
use vxdebug.Sim.{Sim, sim, encode, decode, sim_target}

pub decode-encode : (i : Instr) → decode (encode i) ≡ i
unfolding decode encode
decode-encode (csrw_scratch n) = ground arith
decode-encode (csrr_scratch n) = ground arith
decode-encode (csrw_from_t0 n) = ground arith
decode-encode (csrr_to_t0 n) = ground arith
decode-encode lw_t1_t0 = refl
decode-encode sw_t1_t0 = refl
decode-encode addi_t0_4 = refl

pub record InRange (a : Arch) : Type 0 where
  pub gprs : (r : ℕ) → a.gpr r < 2 ^ 32
  pub csrs : (c : ℕ) → a.csr c < 2 ^ 32
  pub bytes : (k : ℕ) → a.mem k < 256
  pub scratched : a.scratch < 2 ^ 32

update-lt :
    (bound : ℕ) (f : ℕ → ℕ) (k v : ℕ)
    → ((j : ℕ) → f j < bound)
    → v < bound
    → (j : ℕ) → update f k v j < bound
update-lt bound f k v hf hv j = ground (arith, hf j)

write_reg-lt :
    (g : ℕ → ℕ) (n v : ℕ)
    → ((j : ℕ) → g j < 2 ^ 32)
    → v < 2 ^ 32
    → (j : ℕ) → write_reg g n v j < 2 ^ 32
write_reg-lt g n v hg hv j = ground (arith, hg j)

load_word-lt : (m : ℕ → ℕ) (x : ℕ) → ((k : ℕ) → m k < 256) → load_word m x < 2 ^ 32
load_word-lt m x h =
    omega (arith, h x, h ((x + 1) % 2 ^ 32), h ((x + 2) % 2 ^ 32), h ((x + 3) % 2 ^ 32))

store_word-lt : (m : ℕ → ℕ) (x w : ℕ) → ((k : ℕ) → m k < 256) → (j : ℕ) → store_word m x w j < 256
store_word-lt m x w h j = ground (arith, h j)

pub exec-InRange : (i : Instr) {a : Arch} → InRange a → InRange (exec i a)
unfolding exec
exec-InRange (csrw_scratch n) r = record {
  gprs = r.gprs;
  csrs = r.csrs;
  bytes = r.bytes;
  scratched = r.gprs n;
}
exec-InRange (csrr_scratch n) {a} r = record {
  gprs = write_reg-lt a.gpr n a.scratch r.gprs r.scratched;
  csrs = r.csrs;
  bytes = r.bytes;
  scratched = r.scratched;
}
exec-InRange (csrw_from_t0 c) {a} r = record {
  gprs = r.gprs;
  csrs = update-lt (2 ^ 32) a.csr c (a.gpr 5) r.csrs (r.gprs 5);
  bytes = r.bytes;
  scratched = r.scratched;
}
exec-InRange (csrr_to_t0 c) {a} r = record {
  gprs = update-lt (2 ^ 32) a.gpr 5 (a.csr c) r.gprs (r.csrs c);
  csrs = r.csrs;
  bytes = r.bytes;
  scratched = r.scratched;
}
exec-InRange lw_t1_t0 {a} r = record {
  gprs =
      update-lt (2 ^ 32) a.gpr 6 (load_word a.mem (a.gpr 5)) r.gprs
        (load_word-lt a.mem (a.gpr 5) r.bytes);
  csrs = r.csrs;
  bytes = r.bytes;
  scratched = r.scratched;
}
exec-InRange sw_t1_t0 {a} r = record {
  gprs = r.gprs;
  csrs = r.csrs;
  bytes = store_word-lt a.mem (a.gpr 5) (a.gpr 6) r.bytes;
  scratched = r.scratched;
}
exec-InRange addi_t0_4 {a} r = record {
  gprs = update-lt (2 ^ 32) a.gpr 5 ((a.gpr 5 + 4) % 2 ^ 32) r.gprs (omega arith);
  csrs = r.csrs;
  bytes = r.bytes;
  scratched = r.scratched;
}

-- DSELECT names warp 0 and thread 0.
pub record SelectsZero (v : ℕ) : Type 0 where
  pub word : v < 2 ^ 32
  pub warp : extract_dmreg_field dselect (codes "warpsel") v ≡ some 0
  pub thread : extract_dmreg_field dselect (codes "threadsel") v ≡ some 0

pub data SimAt : Arch → Sim → Type 0 where
  sim_at : {a : Arch} {w s : ℕ} → InRange a → SelectsZero s → SimAt a (sim a w s 0)

pub data SimLoaded (c : ℕ) : Arch → Sim → Type 0 where
  sim_loaded :
      {a : Arch} {w s : ℕ} → w ≡ c → InRange a → SelectsZero s → SimLoaded c a (sim a w s 0)

pub data SimRunning : ℕ → Arch → Sim → Type 0 where
  sim_running :
      {n : ℕ} {a : Arch} {w s : ℕ} → InRange a → SelectsZero s → SimRunning n a (sim a w s n)

pub IsQuiet-value : IsQuiet 0x8000_0000
unfolding extract_dmreg_field get_dmreg_field extract_field
IsQuiet-value = record {
  awake = refl;
  no_reset = refl;
  no_step = refl;
  no_resethalt = refl;
  no_resume = refl;
  no_halt = refl;
}

pub idle_state : extract_dmreg_field dctrl (codes "injectstate") 0x8000_0000 ≡ some 0
unfolding extract_dmreg_field get_dmreg_field extract_field
idle_state = refl

pub busy_state : extract_dmreg_field dctrl (codes "injectstate") 0x8000_0080 ≡ some 1
unfolding extract_dmreg_field get_dmreg_field extract_field
busy_state = refl
