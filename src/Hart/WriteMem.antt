-- ===== src/Hart/WriteMem.antt =====
-- What `write_mem` of src/backend.cpp leaves in memory, and that it leaves the registers alone.
use mathlib.Core.Path.{subst}
use vxdebug.Base.{ℕ, ◌+◌, ◌%◌, ◌^◌, ◌<◌, ◌≡◌, refl, sym, arith, List, [], ◌∷◌, length}
use vxdebug.Base.Lists.{AreByteValues}
use vxdebug.Run.{and_then}
use vxdebug.Target.{Target}
use vxdebug.Backend.State.{Backend}
use vxdebug.Backend.Dmreg.{retries_of}
use vxdebug.Backend.Memory.{assemble_write, write_parts, write_checked, write_mem}
use vxdebug.Hart.{Arch, Hart}
use vxdebug.Hart.Ends.{at, Ends, ends, bind, mono}
use vxdebug.Hart.Checked.{Selects, Ends-checked}
use vxdebug.Hart.Temps.{temps, temps_self, Lines, Ends-save, Ends-restore}
use vxdebug.Hart.Bytes.{AreBytes}
use vxdebug.Hart.Store.{store_bytes}
use vxdebug.Hart.Progress.{Progress}
use vxdebug.Hart.WriteWords.{with_mem, words, Shows}
use vxdebug.Hart.WriteParts.{Ends-write_head, Ends-write_middle, Ends-write_tail}

module _ {D : Type 0} ⦃t : Target D⦄ {wid tid : ℕ} (h : Hart t wid tid) (b : Backend D) where
  Ends-write_parts :
      (a : Arch) (patient : h.latency < retries_of b.poll_retries) (addr : ℕ) (bytes : List ℕ)
      {d : D}
      → addr + length bytes < 2 ^ 32
      → AreByteValues bytes
      → AreBytes a.mem
      → Shows h b a patient a.mem d
      → Ends b
          (λ _ e. Shows h b a patient (store_bytes a.mem addr bytes) e)
          (write_parts (words h.code) addr bytes (at b d))
  unfolding write_parts
  Ends-write_parts a patient addr bytes lt by mem p = rw (in_word addr bytes lt) (
      bind _ (Ends-write_head h b a patient goal finish a.mem addr bytes begin p) λ v d1 q.
        bind _ (Ends-write_middle h b a patient goal finish q.0 v.0 v.1 q.1 q.2 q.3)
          λ u d2 r. Ends-write_tail h b a patient goal finish r.0 u.0 u.1 r.1 r.2 r.3 r.4)
    where
      goal : ℕ → ℕ
      goal = store_bytes a.mem addr bytes

      finish : ℕ
      finish = addr + length bytes

      in_word :
          (addr : ℕ) (bytes : List ℕ)
          → addr + length bytes < 2 ^ 32
          → (addr + length bytes) % 2 ^ 32 ≡ addr + length bytes
      in_word addr bytes lt = omega arith

      begin : Progress goal finish a.mem addr bytes
      begin = record { stored = refl; ends_at = refl; no_wrap = lt; values = by; memory = mem }

  Ends-assemble_write :
      (l : Lines t h.code) {d : D}
      → Ends b (λ c e. (c ≡ words h.code) × (e ≡ d)) (assemble_write (at b d))
  unfolding assemble_write and_then
  Ends-assemble_write l =
      rw (l.csrr_t0_line, l.csrr_t1_line, l.csrw_t1_line, l.lw_line, l.sw_line, l.addi_line)
        (ends (refl, refl))

  -- With t0 and t1 restored, only memory and DSCRATCH differ.
  restored :
      (a : Arch) (m : ℕ → ℕ) (t0 t1 : ℕ)
      → t0 ≡ a.gpr 5
      → t1 ≡ a.gpr 6
      → temps (with_mem a m) t0 t1 t1 ≡ record a { mem = m; scratch = t1 }
  restored a m t0 t1 e0 e1 = rw (e0, e1) (temps_self (with_mem a m) (a.gpr 6))

  -- With a warp of the platform, below 32768, selected, active and halted, more poll retries than
  -- an injection takes polls, lines that assemble to their instructions, a memory of bytes, and
  -- bytes that do not reach the end of the address space, `write_mem` succeeds and leaves in memory
  -- exactly these bytes from the address on; all other bytes of memory, CSRs and all registers are
  -- as before, only DSCRATCH may differ, and nothing of the backend changes.
  pub write_mem_lem :
      (addr : ℕ) (bytes : List ℕ) (a : Arch) {d : D}
      → addr + length bytes < 2 ^ 32
      → AreByteValues bytes
      → AreBytes a.mem
      → Lines t h.code
      → Selects t wid tid h.latency b
      → h.At a d
      → Ends b
          (λ _ e. (s : ℕ) × h.At (record a { mem = store_bytes a.mem addr bytes; scratch = s }) e)
          (write_mem addr bytes (at b d))
  unfolding write_mem write_checked store_bytes
  write_mem_lem addr [] a lt by mem l s p = Ends-checked h b _ s p λ d1 p1. ends (a.scratch, p1)
  write_mem_lem addr (x ∷ xs) a lt by mem l s p = Ends-checked h b _ s p λ d1 p1.
      bind _ (Ends-save h b l s.patient p1) λ v d2 p2. bind _ (Ends-assemble_write l) λ c d3 q.
        rw q.0 (
          bind _
            (Ends-write_parts a s.patient addr (x ∷ xs) lt by mem (
              a.gpr 5,
              a.gpr 6,
              a.gpr 6,
              subst (λ y. h.At (temps a (a.gpr 5) (a.gpr 6) (a.gpr 6)) y) (sym q.1) p2.4,
            ))
            λ _ d4 r.
              mono
                (Ends-restore h b l (with_mem a (store_bytes a.mem addr (x ∷ xs))) v.0 v.1 r.0 r.1
                  r.2 p2.2 p2.3 s.patient r.3)
                λ _ d5 z. (
                  v.1,
                  subst (λ y. h.At y d5)
                      (restored a (store_bytes a.mem addr (x ∷ xs)) v.0 v.1 p2.0 p2.1) z,
                ))
