-- ===== src/Hart/ReadMem.antt =====
-- What `read_mem` of src/backend.cpp returns, and that it leaves the thread as it was.
use mathlib.Core.Path.{subst}
use vxdebug.Base.{
  ℕ, zero, suc, ◌+◌, ◌-◌, ◌*◌, ◌/◌, ◌%◌, ◌^◌, ◌<◌, ◌≤◌, ◌≡◌, refl, sym, ap, ap₂, arith, ◌∙◌, List,
  ◌++◌, take, drop,
}
use vxdebug.Run.{and_then}
use vxdebug.Target.{Target}
use vxdebug.Backend.State.{Backend}
use vxdebug.Backend.Dmreg.{retries_of}
use vxdebug.Backend.Registers.{vx_dscratch, csrr_t0}
use vxdebug.Backend.Memory.{
  word_bytes, word_base, aligned_size, trim, read_words, read_aligned, read_mem,
}
use vxdebug.Hart.{Arch, csrw_scratch, csrr_scratch, lw_t1_t0, addi_t0_4, load_word, Hart}
use vxdebug.Hart.Ends.{at, Ends, ends, bind}
use vxdebug.Hart.Inject.{Ends-read_scratch, Ends-write_scratch}
use vxdebug.Hart.Checked.{Selects, Ends-checked}
use vxdebug.Hart.Temps.{
  temps, temps_self, exec-csrw_t1, exec-csrr_t0, exec-lw, exec-addi, Lines, Ends-step,
  Ends-step_line, Ends-save, Ends-restore,
}
use vxdebug.Hart.Bytes.{
  mem_bytes, AreBytes, word_base_lem, word_bytes-load, mem_bytes_four, drop-mem_bytes,
  take-mem_bytes,
}

-- The bytes of whole words, cut to those asked for.
trim-mem_bytes :
    (m : ℕ → ℕ) (addr n : ℕ)
    → addr < 2 ^ 32
    → n + 8 ≤ 2 ^ 32
    → trim
        (addr - word_base addr)
        n
        (mem_bytes m (word_base addr) (4 * ((aligned_size addr n + 3) / 4)))
      ≡ mem_bytes m addr n
trim-mem_bytes m addr n lt small =
    ap (λ (i : ℕ). take n (drop k (mem_bytes m base i))) total
    ∙ ap (take n) (drop-mem_bytes m k base (n + spare) (omega (arith, word_base_lem addr lt)))
    ∙ take-mem_bytes m n ((base + k) % 2 ^ 32) spare
    ∙ ap (λ (i : ℕ). mem_bytes m i n) (omega (arith, word_base_lem addr lt))
  where
    base : ℕ
    base = word_base addr

    k : ℕ
    k = addr - base

    spare : ℕ
    spare = 4 * ((aligned_size addr n + 3) / 4) - (k + n)

    total : 4 * ((aligned_size addr n + 3) / 4) ≡ k + (n + spare)
    total =
        omega (arith, word_base_lem addr lt, word_base_lem ((addr + n + 3) % 2 ^ 32) (omega arith))

module _ {D : Type 0} ⦃t : Target D⦄ {wid tid : ℕ} (h : Hart t wid tid) (b : Backend D) where
  abbrev Shows : Arch → D → Type 0
  Shows a d = (x : ℕ) × (y : ℕ) × (s : ℕ) × h.At (temps a x y s) d

  -- The loop reads as many words as it is told to, from the address in t0 on.
  Ends-read_words :
      (l : Lines t h.code) (a : Arch) (left x y s : ℕ) {d : D}
      → AreBytes a.mem
      → h.latency < retries_of b.poll_retries
      → h.At (temps a x y s) d
      → Ends b
          (λ bytes e. (bytes ≡ mem_bytes a.mem x (4 * left)) × Shows a e)
          (read_words (h.code lw_t1_t0) (h.code (csrw_scratch 6)) (h.code addi_t0_4) left (at b d))
  unfolding read_words mem_bytes
  Ends-read_words l a zero x y s by patient p = ends (refl, (x, y, s, p))
  Ends-read_words l a (suc left) x y s by patient p =
      bind _ (Ends-step h b lw_t1_t0 (exec-lw a x y s) patient p) λ _ d1 p1.
        bind _ (Ends-step h b (csrw_scratch 6) (exec-csrw_t1 a x (load_word a.mem x) s) patient p1)
          λ _ d2 p2. bind _ (Ends-read_scratch h b p2) λ w d3 p3.
            bind _
              (Ends-step h b addi_t0_4 (exec-addi a x (load_word a.mem x) (load_word a.mem x))
                patient p3.2)
              λ _ d4 p4.
                bind _
                  (Ends-read_words l a left ((x + 4) % 2 ^ 32) (load_word a.mem x)
                    (load_word a.mem x) by patient p4)
                  λ rest d5 p5. ends (
                    ap₂ (λ (v : ℕ) (r : List ℕ). word_bytes v ++ r) p3.0 p5.0
                        ∙ ap (λ u. u ++ mem_bytes a.mem ((x + 4) % 2 ^ 32) (4 * left))
                            (word_bytes-load a.mem x by)
                        ∙ sym (mem_bytes_four a.mem x left),
                    p5.1,
                  )

  Ends-read_aligned :
      (l : Lines t h.code) (addr n : ℕ) (a : Arch) {d : D}
      → addr < 2 ^ 32
      → AreBytes a.mem
      → h.latency < retries_of b.poll_retries
      → h.At a d
      → Ends b
          (λ bytes e.
            (bytes ≡ mem_bytes a.mem (word_base addr) (4 * ((aligned_size addr n + 3) / 4)))
            × ((s : ℕ) × h.At (record a { scratch = s }) e))
          (read_aligned (word_base addr) (aligned_size addr n) (at b d))
  unfolding read_aligned and_then
  Ends-read_aligned l addr n a lt by patient p = bind _ (Ends-save h b l patient p) λ v d1 p1.
      bind _ (Ends-write_scratch h b (word_base addr) (omega (arith, word_base_lem addr lt)) p1.4)
        λ _ d2 p2.
          bind _
            (Ends-step_line h b (csrr_scratch 5) (csrr_t0 vx_dscratch)
              (exec-csrr_t0 a (a.gpr 5) (a.gpr 6) (word_base addr)) l.csrr_t0_line patient p2)
            λ _ d3 p3.
              rw (l.lw_line, l.csrw_t1_line, l.addi_line)
                (bind _
                  (Ends-read_words l a ((aligned_size addr n + 3) / 4) (word_base addr) (a.gpr 6)
                    (word_base addr) by patient p3)
                  λ bytes d4 p4.
                    bind _
                      (Ends-restore h b l a v.0 v.1 p4.1.0 p4.1.1 p4.1.2 p1.2 p1.3 patient p4.1.3)
                      λ _ d5 p5.
                        ends (p4.0, (v.1, subst (λ x. h.At x d5) (back v.0 v.1 p1.0 p1.1) p5)))
    where
      back :
          (t0 t1 : ℕ) → t0 ≡ a.gpr 5 → t1 ≡ a.gpr 6 → temps a t0 t1 t1 ≡ record a { scratch = t1 }
      back t0 t1 e0 e1 = rw (e0, e1) (temps_self a (a.gpr 6))

  -- With a warp of the platform, below 32768, selected, active and halted, more poll retries than
  -- an injection takes polls, lines that assemble to their instructions, a memory of bytes, a
  -- 32-bit address and a length that does not reach round the address space, `read_mem` succeeds
  -- and returns exactly the bytes from the address on; memory, CSRs and all registers are as
  -- before, only DSCRATCH may differ, and nothing of the backend changes.
  pub read_mem_lem :
      (addr n : ℕ) (a : Arch) {d : D}
      → addr < 2 ^ 32
      → n + 8 ≤ 2 ^ 32
      → AreBytes a.mem
      → Lines t h.code
      → Selects t wid tid h.latency b
      → h.At a d
      → Ends b
          (λ bytes e.
            (bytes ≡ mem_bytes a.mem addr n) × ((s : ℕ) × h.At (record a { scratch = s }) e))
          (read_mem addr n (at b d))
  unfolding read_mem mem_bytes
  read_mem_lem addr zero a lt small by l s p =
      Ends-checked h b _ s p λ d1 p1. ends (refl, (a.scratch, p1))
  read_mem_lem addr (suc n) a lt small by l s p = Ends-checked h b _ s p λ d1 p1.
      bind _ (Ends-read_aligned l addr (suc n) a lt by s.patient p1) λ bytes d2 p2. ends (
        ap (trim (addr - word_base addr) (suc n)) p2.0 ∙ trim-mem_bytes a.mem addr (suc n) lt small,
        p2.1,
      )
