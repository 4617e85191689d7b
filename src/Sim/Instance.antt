-- ===== src/Sim/Instance.antt =====
-- The simulated target as a `Hart`, with warp 0 and thread 0 selected.
use mathlib.Core.Path.{subst}
use vxdebug.Base.{ℕ, zero, suc, ◌^◌, ◌<◌, ◌≡◌, refl, sym, ap, arith, ◌∙◌, true, some, ◌≢◌, Option}
use vxdebug.Text.{codes}
use vxdebug.Dm.{dselect, dctrl, extract_dmreg_field}
use vxdebug.Backend.Warps.{bit_of}
use vxdebug.Hart.{Arch, Instr, exec, IsQuiet, Returns, returns, Hart}
use vxdebug.Sim.{Sim, sim, encode, decode, sim_read, sim_write, sim_target}
use vxdebug.Sim.Laws.{
  exec-InRange, SimAt, sim_at, SimLoaded, sim_loaded, SimRunning, sim_running, IsQuiet-value,
  idle_state, busy_state, decode-encode,
}

pub write_scratch :
    {a : Arch} {d : Sim} (v : ℕ)
    → v < 2 ^ 32
    → SimAt a d
    → Returns (λ _ e. SimAt (record a { scratch = v }) e) (sim_write 0x9 v d)
unfolding sim_write
write_scratch v lt (sim_at r s) =
    returns (sim_at (record { gprs = r.gprs; csrs = r.csrs; bytes = r.bytes; scratched = lt }) s)

pub request_runs :
    {a : Arch} {d : Sim} (i : Instr) (v : ℕ)
    → SimLoaded (encode i) a d
    → Returns (λ _ e. SimRunning 2 (exec i a) e) (sim_write 0x6 v d)
unfolding sim_write
request_runs {a} i v (sim_loaded {w = w} {s = s} e r sel) = returns (
    subst (λ j. SimRunning 2 (exec i a) (sim (exec j a) w s 2))
      (sym (ap decode e ∙ decode-encode i)) (sim_running (exec-InRange i r) sel))

pub poll_once :
    {a : Arch} {d : Sim} (n : ℕ)
    → SimRunning (suc n) a d
    → Returns
        (λ v e. (extract_dmreg_field dctrl (codes "injectstate") v ≢ some 0) × SimRunning n a e)
        (sim_read 0x6 d)
unfolding sim_read
poll_once n (sim_running r s) = returns (λ e. one_ne_zero (sym busy_state ∙ e), sim_running r s)
  where
    one_ne_zero : ◌≢◌ {A = Option ℕ} (some 1) (some 0)
    one_ne_zero e = ground arith

pub read_scratch :
    {a : Arch} {d : Sim}
    → SimAt a d
    → Returns (λ v e. (v ≡ a.scratch) × (v < 2 ^ 32) × SimAt a e) (sim_read 0x9 d)
unfolding sim_read
read_scratch (sim_at r s) = returns (refl, r.scratched, sim_at r s)

pub write_inject :
    {a : Arch} {d : Sim} (w : ℕ) → SimAt a d → Returns (λ _ e. SimLoaded w a e) (sim_write 0x8 w d)
unfolding sim_write
write_inject w (sim_at r s) = returns (sim_loaded refl r s)

pub read_ctrl :
    {a : Arch} {d : Sim} {w : ℕ}
    → SimLoaded w a d
    → Returns (λ v e. (v < 2 ^ 32) × (IsQuiet v × SimLoaded w a e)) (sim_read 0x6 d)
unfolding sim_read
read_ctrl (sim_loaded e r s) = returns (omega arith, (IsQuiet-value, sim_loaded e r s))

pub poll_last :
    {a : Arch} {d : Sim}
    → SimRunning zero a d
    → Returns
        (λ v e. (extract_dmreg_field dctrl (codes "injectstate") v ≡ some 0) × SimAt a e)
        (sim_read 0x6 d)
unfolding sim_read
poll_last (sim_running r s) = returns (idle_state, sim_at r s)

pub read_select :
    {a : Arch} {d : Sim}
    → SimAt a d
    → Returns
        (λ v e.
          (v < 2 ^ 32)
          × ((extract_dmreg_field dselect (codes "warpsel") v ≡ some 0)
              × (extract_dmreg_field dselect (codes "threadsel") v ≡ some 0)
              × SimAt a e))
        (sim_read 0x2 d)
unfolding sim_read
read_select (sim_at r s) = returns (s.word, (s.warp, s.thread, sim_at r s))

pub write_select :
    {a : Arch} {d : Sim} (v : ℕ)
    → v < 2 ^ 32
    → extract_dmreg_field dselect (codes "warpsel") v ≡ some 0
    → extract_dmreg_field dselect (codes "threadsel") v ≡ some 0
    → SimAt a d
    → Returns (λ _ e. SimAt a e) (sim_write 0x2 v d)
unfolding sim_write
write_select v lt w h (sim_at r s) = returns (sim_at r (record { word = lt; warp = w; thread = h }))

pub read_status :
    {a : Arch} {d : Sim} (bit : ℕ)
    → bit ≡ 0
    → SimAt a d
    → (Returns (λ v e. (bit_of v bit ≡ true) × SimAt a e) (sim_read 0x4 d))
      × Returns (λ v e. (bit_of v bit ≡ true) × SimAt a e) (sim_read 0x5 d)
unfolding sim_read
read_status bit e (sim_at r s) = (returns (rw e refl, sim_at r s), returns (rw e refl, sim_at r s))

abbrev pub sim_hart : Hart sim_target 0 0
sim_hart = record {
  At = SimAt;
  AtWindow = λ k a d. SimAt a d;
  Loaded = SimLoaded;
  Running = SimRunning;
  latency = 2;
  code = encode;
  connected = λ p. refl;
  window_At = λ p. p;
  loaded_connected = λ p. refl;
  running_connected = λ p. refl;
  read_dscratch = read_scratch;
  write_dscratch = write_scratch;
  write_dinject = write_inject;
  read_dctrl = read_ctrl;
  request = λ i v q o l. request_runs i v l;
  poll_busy = poll_once;
  poll_done = poll_last;
  read_dselect = read_select;
  write_dselect = λ v k lt w h s p. write_select v lt w h p;
  read_wactive = λ p. (read_status 0 refl p).0;
  read_wstatus = λ p. (read_status 0 refl p).1;
}
