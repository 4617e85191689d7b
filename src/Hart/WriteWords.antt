-- ===== src/Hart/WriteWords.antt =====
-- The rounds of `write_mem` (src/backend.cpp): part of a word, and the loop over whole words.
use mathlib.Core.Path.{subst}
use vxdebug.Base.{
  ℕ, zero, suc, ◌+◌, ◌-◌, ◌%◌, ◌^◌, ◌<◌, ◌≤◌, ◌≡◌, refl, arith, ◌∙◌, List, take, drop, length,
  length-drop, inl, inr, leb, true, false, Bool-cases,
}
use vxdebug.Base.Lists.{AreByteValues}
use vxdebug.Target.{Target}
use vxdebug.Backend.State.{Backend}
use vxdebug.Backend.Dmreg.{retries_of}
use vxdebug.Backend.Memory.{word_bytes, bytes_word, patch, WriteCode, write_partial, write_words}
use vxdebug.Hart.{
  Arch, csrw_scratch, csrr_scratch, lw_t1_t0, sw_t1_t0, addi_t0_4, load_word, store_word, Hart,
  Instr,
}
use vxdebug.Hart.Ends.{at, Ends, ends, bind, mono}
use vxdebug.Hart.Inject.{Ends-read_scratch, Ends-write_scratch}
use vxdebug.Hart.Temps.{
  temps, exec-csrw_t1, exec-csrr_t0, exec-csrr_t1, exec-lw, exec-sw, exec-addi, Ends-step,
}
use vxdebug.Hart.Bytes.{AreBytes}
use vxdebug.Hart.Store.{store_bytes, store_word-patch, patched-lt}
use vxdebug.Hart.Progress.{Progress, Progress-advance, store_word-take}

abbrev pub with_mem : Arch → (ℕ → ℕ) → Arch
with_mem a m = record a { mem = m }

-- The words of the instructions.
abbrev pub words : (Instr → ℕ) → WriteCode
words code = record {
  csrr_t0_dscratch = code (csrr_scratch 5);
  csrr_t1_dscratch = code (csrr_scratch 6);
  csrw_dscratch_t1 = code (csrw_scratch 6);
  lw_t1_t0 = code lw_t1_t0;
  sw_t1_t0 = code sw_t1_t0;
  addi_t0_4 = code addi_t0_4;
}

-- The word at `base` with `new` in it from its byte `i` on.
abbrev patched : (ℕ → ℕ) → ℕ → ℕ → List ℕ → ℕ
patched m base i new = bytes_word (patch (word_bytes (load_word m base)) i new)

module _ {D : Type 0} ⦃t : Target D⦄ {wid tid : ℕ} (h : Hart t wid tid) (b : Backend D) (a : Arch)
    (patient : h.latency < retries_of b.poll_retries) where
  -- The thread as it was but for its memory, t0, t1 and DSCRATCH.
  abbrev pub Shows : (ℕ → ℕ) → D → Type 0
  Shows m d = (x : ℕ) × (y : ℕ) × (s : ℕ) × h.At (temps (with_mem a m) x y s) d

  pub Ends-write_partial :
      (m : ℕ → ℕ) (base i : ℕ) (new : List ℕ) {d : D}
      → base < 2 ^ 32 - 3
      → i + length new ≤ 4
      → AreByteValues new
      → AreBytes m
      → Shows m d
      → Ends b
          (λ _ e. Shows (store_bytes m ((base + i) % 2 ^ 32) new) e)
          (write_partial (words h.code) base i new (at b d))
  unfolding write_partial
  Ends-write_partial m base i new lt fits by mem (x, y, s, p) =
      bind _ (Ends-write_scratch h b base (omega arith) p) λ _ d1 p1.
        bind _ (Ends-step h b (csrr_scratch 5) (exec-csrr_t0 (with_mem a m) x y base) patient p1)
          λ _ d2 p2.
            bind _ (Ends-step h b lw_t1_t0 (exec-lw (with_mem a m) base y base) patient p2)
              λ _ d3 p3.
                bind _
                  (Ends-step h b (csrw_scratch 6)
                    (exec-csrw_t1 (with_mem a m) base (load_word m base) base) patient p3)
                  λ _ d4 p4. bind _ (Ends-read_scratch h b p4) λ value d5 p5. rw p5.0 (
                    bind _
                      (Ends-write_scratch h b (patched m base i new)
                        (patched-lt m base lt new i fits by mem) p5.2)
                      λ _ d6 p6.
                        bind _
                          (Ends-step h b (csrr_scratch 6)
                            (exec-csrr_t1 (with_mem a m) base (load_word m base)
                              (patched m base i new))
                            patient p6)
                          λ _ d7 p7.
                            mono
                              (Ends-step h b sw_t1_t0
                                (exec-sw (with_mem a m) base (patched m base i new)
                                  (patched m base i new))
                                patient p7)
                              λ _ e q. (
                                base,
                                patched m base i new,
                                patched m base i new,
                                subst
                                    (λ n.
                                      h.At
                                        (temps (with_mem a n) base (patched m base i new)
                                          (patched m base i new))
                                        e)
                                    (store_word-patch m base lt new i fits by mem) q,
                              ))

  -- The whole words, from an address that t0 has.
  pub Ends-write_words :
      (goal : ℕ → ℕ) (finish fuel : ℕ) (m : ℕ → ℕ) (cur y s : ℕ) (rest : List ℕ) {d : D}
      → length rest < fuel
      → Progress goal finish m cur rest
      → h.At (temps (with_mem a m) cur y s) d
      → Ends b
          (λ v e.
            (n : ℕ → ℕ) × Progress goal finish n v.0 v.1
            × (length v.1 < 4)
            × (v.0 % 4 ≡ cur % 4)
            × Shows n e)
          (write_words (words h.code) fuel finish cur rest (at b d))
  unfolding write_words
  Ends-write_words goal finish zero m cur y s rest lt g p = absurd (omega arith)
  Ends-write_words goal finish (suc fuel) m cur y s rest lt g p =
      let e = g.ends_at in
      let w = g.no_wrap in
      elim (Bool-cases (leb 4 ((finish + 2 ^ 32 - cur) % 2 ^ 32))) [
        | inr few ↦ rw (few, write_words) (ends (m, g, less e w few, refl, (cur, y, s, p)))
        | inl many ↦
            rw (many, write_words)
              (bind _ (Ends-write_scratch h b (bytes_word (take 4 rest)) (word e w many).1 p)
                λ _ d1 p1.
                  bind _
                    (Ends-step h b (csrr_scratch 6)
                      (exec-csrr_t1 (with_mem a m) cur y (bytes_word (take 4 rest))) patient p1)
                    λ _ d2 p2.
                      bind _
                        (Ends-step h b sw_t1_t0
                          (exec-sw (with_mem a m) cur (bytes_word (take 4 rest))
                            (bytes_word (take 4 rest)))
                          patient p2)
                        λ _ d3 p3.
                          bind _
                            (Ends-step h b addi_t0_4
                              (exec-addi (with_mem a (store_word m cur (bytes_word (take 4 rest))))
                                cur (bytes_word (take 4 rest)) (bytes_word (take 4 rest)))
                              patient p3)
                            λ _ d4 p4.
                              mono
                                (Ends-write_words goal finish fuel (store_bytes m cur (take 4 rest))
                                  ((cur + 4) % 2 ^ 32) (bytes_word (take 4 rest))
                                  (bytes_word (take 4 rest)) (drop 4 rest) (fewer (enough e w many))
                                  (Progress-advance m cur rest 4 (enough e w many) g)
                                  (subst
                                    (λ n.
                                      h.At
                                        (temps (with_mem a n) ((cur + 4) % 2 ^ 32)
                                          (bytes_word (take 4 rest)) (bytes_word (take 4 rest)))
                                        d4)
                                    (word e w many).0 p4))
                                λ v d5 q.
                                  (q.0, q.1, q.2, q.3 ∙ same_offset e w (enough e w many), q.4))
      ]
    where
      less :
          cur + length rest ≡ finish
          → finish < 2 ^ 32
          → leb 4 ((finish + 2 ^ 32 - cur) % 2 ^ 32) ≡ false
          → length rest < 4
      less e w few = ground arith

      enough :
          cur + length rest ≡ finish
          → finish < 2 ^ 32
          → leb 4 ((finish + 2 ^ 32 - cur) % 2 ^ 32) ≡ true
          → 4 ≤ length rest
      enough e w many = ground arith

      fewer : 4 ≤ length rest → length (drop 4 rest) < fuel
      fewer k = omega (arith, length-drop 4 rest)

      same_offset :
          cur + length rest ≡ finish
          → finish < 2 ^ 32
          → 4 ≤ length rest
          → (cur + 4) % 2 ^ 32 % 4 ≡ cur % 4
      same_offset e w k = omega arith

      word :
          cur + length rest ≡ finish
          → finish < 2 ^ 32
          → leb 4 ((finish + 2 ^ 32 - cur) % 2 ^ 32) ≡ true
          → (store_word m cur (bytes_word (take 4 rest)) ≡ store_bytes m cur (take 4 rest))
            × (bytes_word (take 4 rest) < 2 ^ 32)
      word e w many = store_word-take m cur rest (omega arith) (enough e w many) g.values
