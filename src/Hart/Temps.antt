-- ===== src/Hart/Temps.antt =====
-- The effect of injected instructions on t0, t1 and DSCRATCH, which the backend borrows.
use vxdebug.Base.{
  ℕ, ◌+◌, ◌%◌, ◌^◌, ◌<◌, ◌≡◌, refl, sym, ap, arith, fun_ext, ◌==◌, if◌then◌else◌, some,
}
use mathlib.Core.Path.{subst}
use vxdebug.Text.{Str, codes}
use vxdebug.Target.{Target}
use vxdebug.Backend.State.{Backend}
use vxdebug.Backend.Dmreg.{retries_of}
use vxdebug.Backend.Control.{inject_word}
use vxdebug.Backend.Registers.{vx_dscratch, csrw_t0, csrr_t0, csrw_t1, csrr_t1, inject_instruction}
use vxdebug.Hart.{
  Arch, Instr, csrw_scratch, csrr_scratch, lw_t1_t0, sw_t1_t0, addi_t0_4, exec, load_word,
  store_word, Hart,
}
use vxdebug.Hart.Ends.{at, Ends, ends, bind, mono}
use vxdebug.Hart.Inject.{Ends-inject, Ends-line, Ends-read_scratch, Ends-write_scratch}
use vxdebug.Backend.Memory.{save_temps, restore_temps}

abbrev pub with_temps : (ℕ → ℕ) → ℕ → ℕ → ℕ → ℕ
with_temps g x y r = if r == 5 then x else if r == 6 then y else g r

-- `a` with t0, t1 and DSCRATCH at given values.
abbrev pub temps : Arch → ℕ → ℕ → ℕ → Arch
temps a x y s = record a { gpr = with_temps a.gpr x y; scratch = s }

pub temps_self : (a : Arch) (s : ℕ) → temps a (a.gpr 5) (a.gpr 6) s ≡ record a { scratch = s }
temps_self a s = ap (λ (g : ℕ → ℕ). record a { gpr = g; scratch = s }) (fun_ext λ r. same r)
  where
    same : (r : ℕ) → with_temps a.gpr (a.gpr 5) (a.gpr 6) r ≡ a.gpr r
    same r = ground arith

module _ (a : Arch) (x y s : ℕ) where
  pub exec-csrw_t0 : exec (csrw_scratch 5) (temps a x y s) ≡ temps a x y x
  unfolding exec
  exec-csrw_t0 = refl

  pub exec-csrw_t1 : exec (csrw_scratch 6) (temps a x y s) ≡ temps a x y y
  unfolding exec
  exec-csrw_t1 = refl

  pub exec-csrr_t0 : exec (csrr_scratch 5) (temps a x y s) ≡ temps a s y s
  unfolding exec
  exec-csrr_t0 = ap (λ (g : ℕ → ℕ). record a { gpr = g; scratch = s }) (fun_ext λ r. ground arith)

  pub exec-csrr_t1 : exec (csrr_scratch 6) (temps a x y s) ≡ temps a x s s
  unfolding exec
  exec-csrr_t1 = ap (λ (g : ℕ → ℕ). record a { gpr = g; scratch = s }) (fun_ext λ r. ground arith)

  pub exec-lw : exec lw_t1_t0 (temps a x y s) ≡ temps a x (load_word a.mem x) s
  unfolding exec
  exec-lw = ap (λ (g : ℕ → ℕ). record a { gpr = g; scratch = s }) (fun_ext λ r. ground arith)

  pub exec-addi : exec addi_t0_4 (temps a x y s) ≡ temps a ((x + 4) % 2 ^ 32) y s
  unfolding exec
  exec-addi = ap (λ (g : ℕ → ℕ). record a { gpr = g; scratch = s }) (fun_ext λ r. ground arith)

  pub exec-sw :
      exec sw_t1_t0 (temps a x y s) ≡ temps (record a { mem = store_word a.mem x y }) x y s
  unfolding exec
  exec-sw = refl

-- The lines that save and restore t0 and t1 or walk through memory assemble to the words of their
-- instructions.
pub record Lines {D : Type 0} (t : Target D) (code : Instr → ℕ) : Type 0 where
  pub csrw_t0_line : t.assemble (csrw_t0 vx_dscratch) ≡ some (code (csrw_scratch 5))
  pub csrw_t1_line : t.assemble (csrw_t1 vx_dscratch) ≡ some (code (csrw_scratch 6))
  pub csrr_t0_line : t.assemble (csrr_t0 vx_dscratch) ≡ some (code (csrr_scratch 5))
  pub csrr_t1_line : t.assemble (csrr_t1 vx_dscratch) ≡ some (code (csrr_scratch 6))
  pub lw_line : t.assemble (codes "lw t1, 0(t0)") ≡ some (code lw_t1_t0)
  pub sw_line : t.assemble (codes "sw t1, 0(t0)") ≡ some (code sw_t1_t0)
  pub addi_line : t.assemble (codes "addi t0, t0, 4") ≡ some (code addi_t0_4)

module _ {D : Type 0} ⦃t : Target D⦄ {wid tid : ℕ} (h : Hart t wid tid) (b : Backend D) where
  -- One injected instruction whose effect is known.
  pub Ends-step :
      (i : Instr) {a a' : Arch} {d : D}
      → exec i a ≡ a'
      → h.latency < retries_of b.poll_retries
      → h.At a d
      → Ends b (λ _ e. h.At a' e) (inject_word (h.code i) (at b d))
  Ends-step i e patient p = mono (Ends-inject h b i patient p) λ _ d q. subst (λ a. h.At a d) e q

  pub Ends-step_line :
      (i : Instr) (line : Str) {a a' : Arch} {d : D}
      → exec i a ≡ a'
      → t.assemble line ≡ some (h.code i)
      → h.latency < retries_of b.poll_retries
      → h.At a d
      → Ends b (λ _ e. h.At a' e) (inject_instruction line (at b d))
  Ends-step_line i line e assembles patient p =
      mono (Ends-line h b i line assembles patient p) λ _ d q. subst (λ a. h.At a d) e q

  -- Saving, and restoring what was saved.
  pub Ends-save :
      (l : Lines t h.code) {a : Arch} {d : D}
      → h.latency < retries_of b.poll_retries
      → h.At a d
      → Ends b
          (λ v e.
            (v.0 ≡ a.gpr 5)
            × (v.1 ≡ a.gpr 6)
            × (v.0 < 2 ^ 32)
            × (v.1 < 2 ^ 32)
            × h.At (temps a (a.gpr 5) (a.gpr 6) (a.gpr 6)) e)
          (save_temps (at b d))
  unfolding save_temps exec
  Ends-save l {a} patient p =
      bind _ (Ends-step_line (csrw_scratch 5) (csrw_t0 vx_dscratch) refl l.csrw_t0_line patient p)
        λ _ d1 p1. bind _ (Ends-read_scratch h b p1) λ t0 d2 p2.
          bind _
            (Ends-step_line (csrw_scratch 6) (csrw_t1 vx_dscratch) refl l.csrw_t1_line patient p2.2)
            λ _ d3 p3. bind _ (Ends-read_scratch h b p3) λ t1 d4 p4.
              ends
                (p2.0, p4.0, p2.1, p4.1, subst (λ x. h.At x d4) (sym (temps_self a (a.gpr 6))) p4.2)

  pub Ends-restore :
      (l : Lines t h.code) (a : Arch) (t0 t1 x y s : ℕ) {d : D}
      → t0 < 2 ^ 32
      → t1 < 2 ^ 32
      → h.latency < retries_of b.poll_retries
      → h.At (temps a x y s) d
      → Ends b (λ _ e. h.At (temps a t0 t1 t1) e) (restore_temps t0 t1 (at b d))
  unfolding restore_temps
  Ends-restore l a t0 t1 x y s lt0 lt1 patient p =
      bind _ (Ends-write_scratch h b t0 lt0 p) λ _ d1 p1.
        bind _
          (Ends-step_line (csrr_scratch 5) (csrr_t0 vx_dscratch) (exec-csrr_t0 a x y t0)
            l.csrr_t0_line patient p1)
          λ _ d2 p2. bind _ (Ends-write_scratch h b t1 lt1 p2) λ _ d3 p3.
            Ends-step_line (csrr_scratch 6) (csrr_t1 vx_dscratch) (exec-csrr_t1 a t0 y t1)
              l.csrr_t1_line patient p3
