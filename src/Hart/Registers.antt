-- ===== src/Hart/Registers.antt =====
-- What the backend's register accesses do to the selected thread (src/backend.cpp, `read_gpr`,
-- `write_gpr`, `read_csr`, `write_csr`).
use vxdebug.Base.{ℕ, ◌^◌, ◌<◌, ◌≡◌, ap, arith, fun_ext, some, ◌∙◌}
use mathlib.Core.Path.{subst}
use vxdebug.Target.{Target}
use vxdebug.Backend.State.{Backend}
use vxdebug.Backend.Registers.{
  vx_dscratch, csrw_reg, csrr_reg, csrw_t0, csrr_t0, read_gpr, write_gpr, read_csr, write_csr,
}
use vxdebug.Hart.{
  Arch, csrw_scratch, csrr_scratch, csrr_to_t0, csrw_from_t0, exec, update, write_reg, Hart,
}
use vxdebug.Hart.Ends.{at, Ends, ends, bind, mono}
use vxdebug.Hart.Inject.{Ends-line, Ends-read_scratch, Ends-write_scratch}
use vxdebug.Hart.Checked.{Selects, Ends-checked}

module _ {D : Type 0} ⦃t : Target D⦄ {wid tid : ℕ} (h : Hart t wid tid) (b : Backend D) where
  -- With a warp of the platform, below 32768, selected, active and halted, more poll retries than
  -- an injection takes polls, and a line that assembles to moving register `n` to DSCRATCH,
  -- `read_gpr` succeeds, returns the register's value, and changes of the thread's state only
  -- DSCRATCH, and nothing of the backend.
  pub read_gpr_lem :
      (n : ℕ) {a : Arch} {d : D}
      → t.assemble (csrw_reg n) ≡ some (h.code (csrw_scratch n))
      → Selects t wid tid h.latency b
      → h.At a d
      → Ends b
          (λ v e. (v ≡ a.gpr n) × h.At (record a { scratch = a.gpr n }) e)
          (read_gpr n (at b d))
  unfolding read_gpr exec
  read_gpr_lem n line s p = Ends-checked h b _ s p λ d1 p1.
      bind _ (Ends-line h b (csrw_scratch n) (csrw_reg n) line s.patient p1)
        λ _ d2 p2. mono (Ends-read_scratch h b p2) λ v d3 p3. (p3.0, p3.2)

  -- With a warp of the platform, below 32768, selected, active and halted, more poll retries than
  -- an injection takes polls, and a line that assembles to moving DSCRATCH to register `n`,
  -- `write_gpr` of a 32-bit value succeeds, writes that register (none for x0), and changes of the
  -- thread's state else only DSCRATCH, and nothing of the backend.
  pub write_gpr_lem :
      (n v : ℕ) {a : Arch} {d : D}
      → v < 2 ^ 32
      → t.assemble (csrr_reg n) ≡ some (h.code (csrr_scratch n))
      → Selects t wid tid h.latency b
      → h.At a d
      → Ends b
          (λ _ e. h.At (record a { gpr = write_reg a.gpr n v; scratch = v }) e)
          (write_gpr n v (at b d))
  unfolding write_gpr exec
  write_gpr_lem n v lt line s p = Ends-checked h b _ s p λ d1 p1.
      bind _ (Ends-write_scratch h b v lt p1)
        λ _ d2 p2. Ends-line h b (csrr_scratch n) (csrr_reg n) line s.patient p2

  restores : (g : ℕ → ℕ) (v : ℕ) → update (update g 5 v) 5 (g 5) ≡ g
  restores g v = fun_ext λ r. ground arith

  -- With a warp of the platform, below 32768, selected, active and halted, more poll retries than
  -- an injection takes polls, and lines that assemble to their instructions, `read_csr` succeeds
  -- and returns the CSR's value; t0, through which it went, has its old value again, and only
  -- DSCRATCH differs.
  pub read_csr_lem :
      (c : ℕ) {a : Arch} {d : D}
      → t.assemble (csrw_t0 vx_dscratch) ≡ some (h.code (csrw_scratch 5))
      → t.assemble (csrr_t0 vx_dscratch) ≡ some (h.code (csrr_scratch 5))
      → t.assemble (csrr_t0 c) ≡ some (h.code (csrr_to_t0 c))
      → Selects t wid tid h.latency b
      → h.At a d
      → Ends b
          (λ v e. (v ≡ a.csr c) × h.At (record a { scratch = a.gpr 5 }) e)
          (read_csr c (at b d))
  unfolding read_csr exec
  read_csr_lem c {a} save restore fetch s p = Ends-checked h b _ s p λ d1 p1.
      bind _ (Ends-line h b (csrw_scratch 5) (csrw_t0 vx_dscratch) save s.patient p1) λ _ d2 p2.
        bind _ (Ends-read_scratch h b p2) λ t0 d3 p3.
          bind _ (Ends-line h b (csrr_to_t0 c) (csrr_t0 c) fetch s.patient p3.2) λ _ d4 p4.
            bind _ (Ends-line h b (csrw_scratch 5) (csrw_t0 vx_dscratch) save s.patient p4)
              λ _ d5 p5. bind _ (Ends-read_scratch h b p5) λ v d6 p6.
                bind _ (Ends-write_scratch h b t0 p3.1 p6.2) λ _ d7 p7.
                  bind _ (Ends-line h b (csrr_scratch 5) (csrr_t0 vx_dscratch) restore s.patient p7)
                    λ _ d8 p8. ends (p6.0, subst (λ x. h.At x d8) (back t0 p3.0) p8)
    where
      back :
          (t0 : ℕ)
          → t0 ≡ a.gpr 5
          → record a { gpr = update (update a.gpr 5 (a.csr c)) 5 t0; scratch = t0 }
            ≡ record a { scratch = a.gpr 5 }
      back t0 e =
          ap (λ (v : ℕ). record a { gpr = update (update a.gpr 5 (a.csr c)) 5 v; scratch = v }) e
          ∙ ap (λ (g : ℕ → ℕ). record a { gpr = g; scratch = a.gpr 5 }) (restores a.gpr (a.csr c))

  -- With a warp of the platform, below 32768, selected, active and halted, more poll retries than
  -- an injection takes polls, and lines that assemble to their instructions, `write_csr` of a
  -- 32-bit value succeeds and writes the CSR; t0 has its old value again, and else only DSCRATCH
  -- differs.
  pub write_csr_lem :
      (c v : ℕ) {a : Arch} {d : D}
      → v < 2 ^ 32
      → t.assemble (csrw_t0 vx_dscratch) ≡ some (h.code (csrw_scratch 5))
      → t.assemble (csrr_t0 vx_dscratch) ≡ some (h.code (csrr_scratch 5))
      → t.assemble (csrw_t0 c) ≡ some (h.code (csrw_from_t0 c))
      → Selects t wid tid h.latency b
      → h.At a d
      → Ends b
          (λ _ e. h.At (record a { csr = update a.csr c v; scratch = a.gpr 5 }) e)
          (write_csr c v (at b d))
  unfolding write_csr exec
  write_csr_lem c v {a} lt save restore store s p = Ends-checked h b _ s p λ d1 p1.
      bind _ (Ends-line h b (csrw_scratch 5) (csrw_t0 vx_dscratch) save s.patient p1) λ _ d2 p2.
        bind _ (Ends-read_scratch h b p2) λ t0 d3 p3.
          bind _ (Ends-write_scratch h b v lt p3.2) λ _ d4 p4.
            bind _ (Ends-line h b (csrr_scratch 5) (csrr_t0 vx_dscratch) restore s.patient p4)
              λ _ d5 p5.
                bind _ (Ends-line h b (csrw_from_t0 c) (csrw_t0 c) store s.patient p5) λ _ d6 p6.
                  bind _ (Ends-write_scratch h b t0 p3.1 p6) λ _ d7 p7.
                    mono (Ends-line h b (csrr_scratch 5) (csrr_t0 vx_dscratch) restore s.patient p7)
                      λ _ d8 p8. subst (λ x. h.At x d8) (back t0 p3.0) p8
    where
      back :
          (t0 : ℕ)
          → t0 ≡ a.gpr 5
          → record a { gpr = update (update a.gpr 5 v) 5 t0; csr = update a.csr c v; scratch = t0 }
            ≡ record a { csr = update a.csr c v; scratch = a.gpr 5 }
      back t0 e =
          ap
            (λ (w : ℕ). record a {
              gpr = update (update a.gpr 5 v) 5 w;
              csr = update a.csr c v;
              scratch = w;
            })
            e
          ∙ ap (λ (g : ℕ → ℕ). record a { gpr = g; csr = update a.csr c v; scratch = a.gpr 5 })
              (restores a.gpr v)
