-- ===== src/Backend/Memory.antt =====
-- Reading and writing the target's memory word by word through t0 and t1 (src/backend.cpp,
-- `read_mem` and `write_mem`).
use vxdebug.Base.{
  ℕ, zero, suc, ◌+◌, ◌-◌, ◌*◌, ◌/◌, ◌%◌, ◌^◌, min, bit_and, true, false, List, [], ◌∷◌, ◌++◌, ◌==◌,
  ltb, leb, length, take, drop, get_or, set,
}
use vxdebug.Text.{codes}
use vxdebug.Run.{ok, waits, Cmd, pure, need, ◌>>=◌, ◌>>◌}
use vxdebug.Target.{Target}
use vxdebug.Dm.{dscratch}
use vxdebug.Backend.State.{Backend}
use vxdebug.Backend.Dmreg.{check_selected, dmreg_rd, dmreg_wr}
use vxdebug.Backend.Control.{check_halted, inject_word}
use vxdebug.Backend.Registers.{vx_dscratch, csrw_t0, csrr_t0, csrw_t1, csrr_t1, inject_instruction}

-- The bytes of a word and back, little-endian, as the union `WordBytes_t` gives them.
abbrev pub word_bytes : ℕ → List ℕ
word_bytes w = w % 256 ∷ w / 256 % 256 ∷ w / 65536 % 256 ∷ w / 16777216 % 256 ∷ []

abbrev pub byte_of : List ℕ → ℕ → ℕ
byte_of bs i = get_or bs i 0

abbrev pub bytes_word : List ℕ → ℕ
bytes_word bs = byte_of bs 0 + byte_of bs 1 * 256 + byte_of bs 2 * 65536 + byte_of bs 3 * 16777216

-- `for (i = from; …; ++i) value.bytes[i] = new[…]`
unfoldable pub patch : List ℕ → ℕ → List ℕ → List ℕ
patch bytes from [] = bytes
patch bytes from (x ∷ xs) = patch (set bytes from x) (from + 1) xs

-- `addr & ~0x3`
abbrev pub word_base : ℕ → ℕ
word_base addr = bit_and addr 0xffff_fffc

-- The number of bytes from the first word to the end of the last.
abbrev pub aligned_size : ℕ → ℕ → ℕ
aligned_size addr nbytes =
    (word_base ((addr + nbytes + 3) % 2 ^ 32) + 2 ^ 32 - word_base addr) % 2 ^ 32

-- The bytes asked for, out of those of the whole words.
abbrev pub trim : ℕ → ℕ → List ℕ → List ℕ
trim head_offset nbytes bytes = take nbytes (drop head_offset bytes)

module _ {D : Type 0} ⦃t : Target D⦄ where
  -- Saves t0 and t1 in the debugger.
  unfoldable pub save_temps : Cmd (Backend D) (ℕ × ℕ)
  save_temps = do
    inject_instruction (csrw_t0 vx_dscratch)
    t0_val ← dmreg_rd dscratch
    inject_instruction (csrw_t1 vx_dscratch)
    t1_val ← dmreg_rd dscratch
    pure (t0_val, t1_val)

  unfoldable pub restore_temps : ℕ → ℕ → Cmd (Backend D) (Unit {0})
  restore_temps t0_val t1_val = do
    dmreg_wr dscratch t0_val
    inject_instruction (csrr_t0 vx_dscratch)
    dmreg_wr dscratch t1_val
    inject_instruction (csrr_t1 vx_dscratch)

  -- The loop of `read_mem` with its pre-assembled instructions; the words left to read.
  unfoldable pub read_words : ℕ → ℕ → ℕ → ℕ → Cmd (Backend D) (List ℕ)
  read_words lw_t1 csrw_dscratch_t1 addi_t0_4 zero = pure []
  read_words lw_t1 csrw_dscratch_t1 addi_t0_4 (suc left) = do
    inject_word lw_t1
    inject_word csrw_dscratch_t1
    rword ← dmreg_rd dscratch
    inject_word addi_t0_4
    rest ← read_words lw_t1 csrw_dscratch_t1 addi_t0_4 left
    pure (word_bytes rword ++ rest)

  unfoldable pub read_aligned : ℕ → ℕ → Cmd (Backend D) (List ℕ)
  unfolding read_words
  read_aligned start_addr size_in_bytes = do
    (t0_val, t1_val) ← save_temps
    dmreg_wr dscratch start_addr
    inject_instruction (csrr_t0 vx_dscratch)
    lw_t1 ← need (t.assemble (codes "lw t1, 0(t0)"))
    csrw_dscratch_t1 ← need (t.assemble (csrw_t1 vx_dscratch))
    addi_t0_4 ← need (t.assemble (codes "addi t0, t0, 4"))
    bytes ← read_words lw_t1 csrw_dscratch_t1 addi_t0_4 ((size_in_bytes + 3) / 4)
    restore_temps t0_val t1_val
    pure bytes

  -- With no byte asked for, the caller's vector stays as it is; every caller passes an empty one.
  read_checked : ℕ → ℕ → Cmd (Backend D) (List ℕ)
  unfolding read_aligned
  read_checked addr zero = pure []
  read_checked addr (suc n) = do
    bytes ← read_aligned (word_base addr) (aligned_size addr (suc n))
    pure (trim (addr - word_base addr) (suc n) bytes)

  unfoldable pub read_mem : ℕ → ℕ → Cmd (Backend D) (List ℕ)
  unfolding read_checked
  read_mem addr nbytes = do check_selected; check_halted; read_checked addr nbytes

-- The instructions that `write_mem` assembles beforehand.
pub record WriteCode : Type 0 where
  pub csrr_t0_dscratch : ℕ
  pub csrr_t1_dscratch : ℕ
  pub csrw_dscratch_t1 : ℕ
  pub lw_t1_t0 : ℕ
  pub sw_t1_t0 : ℕ
  pub addi_t0_4 : ℕ

module _ {D : Type 0} ⦃t : Target D⦄ where
  unfoldable pub assemble_write : Cmd (Backend D) WriteCode
  assemble_write = do
    a ← need (t.assemble (csrr_t0 vx_dscratch))
    b ← need (t.assemble (csrr_t1 vx_dscratch))
    c ← need (t.assemble (csrw_t1 vx_dscratch))
    d ← need (t.assemble (codes "lw t1, 0(t0)"))
    e ← need (t.assemble (codes "sw t1, 0(t0)"))
    f ← need (t.assemble (codes "addi t0, t0, 4"))
    pure (record {
      csrr_t0_dscratch = a;
      csrr_t1_dscratch = b;
      csrw_dscratch_t1 = c;
      lw_t1_t0 = d;
      sw_t1_t0 = e;
      addi_t0_4 = f;
    })

  module _ (code : WriteCode) where
    -- Reads the word at `base`, puts the bytes `new` into it from `offset` on, and writes it back.
    unfoldable pub write_partial : ℕ → ℕ → List ℕ → Cmd (Backend D) (Unit {0})
    write_partial base offset new = do
      dmreg_wr dscratch base
      inject_word code.csrr_t0_dscratch
      inject_word code.lw_t1_t0
      inject_word code.csrw_dscratch_t1
      value ← dmreg_rd dscratch
      dmreg_wr dscratch (bytes_word (patch (word_bytes value) offset new))
      inject_word code.csrr_t1_dscratch
      inject_word code.sw_t1_t0

    -- The whole words; `cur` and `idx` run on together, so the bytes not yet written are passed
    -- instead of `idx`. Fuel: each round takes four of the bytes, so one more than they are is enough.
    unfoldable pub write_words : ℕ → ℕ → ℕ → List ℕ → Cmd (Backend D) (ℕ × List ℕ)
    write_words zero end_addr cur rest b = waits b
    write_words (suc fuel) end_addr cur rest b = elim (leb 4 ((end_addr + 2 ^ 32 - cur) % 2 ^ 32)) [
      | false ↦ ok (cur, rest) b
      | true ↦
          (do
            dmreg_wr dscratch (bytes_word (take 4 rest))
            inject_word code.csrr_t1_dscratch
            inject_word code.sw_t1_t0
            inject_word code.addi_t0_4
            write_words fuel end_addr ((cur + 4) % 2 ^ 32) (drop 4 rest))
            b
    ]

    unfoldable pub write_head : ℕ → List ℕ → Cmd (Backend D) (ℕ × List ℕ)
    write_head cur rest b = elim (cur % 4 == 0) [
      | true ↦ ok (cur, rest) b
      | false ↦
          (do
            let taken = min (4 - cur % 4) (length rest)
            write_partial (word_base cur) (cur % 4) (take taken rest)
            pure ((cur + taken) % 2 ^ 32, drop taken rest))
            b
    ]

    unfoldable pub write_middle : ℕ → ℕ → List ℕ → Cmd (Backend D) (ℕ × List ℕ)
    write_middle end_addr cur rest b = elim (leb 4 ((end_addr + 2 ^ 32 - cur) % 2 ^ 32)) [
      | false ↦ ok (cur, rest) b
      | true ↦
          (do
            dmreg_wr dscratch cur
            inject_word code.csrr_t0_dscratch
            write_words (suc (length rest)) end_addr cur rest)
            b
    ]

    unfoldable pub write_tail : ℕ → ℕ → List ℕ → Cmd (Backend D) (Unit {0})
    write_tail end_addr cur rest b = elim (ltb cur end_addr) [
      | false ↦ ok tt b
      | true ↦ write_partial (word_base cur) 0 (take (end_addr - cur) rest) b
    ]

    unfoldable pub write_parts : ℕ → List ℕ → Cmd (Backend D) (Unit {0})
    write_parts addr bytes = do
      (cur, rest) ← write_head addr bytes
      (cur', rest') ← write_middle ((addr + length bytes) % 2 ^ 32) cur rest
      write_tail ((addr + length bytes) % 2 ^ 32) cur' rest'

  unfoldable pub write_checked : ℕ → List ℕ → Cmd (Backend D) (Unit {0})
  unfolding assemble_write
  write_checked addr [] = pure tt
  write_checked addr (x ∷ xs) = do
    (t0_val, t1_val) ← save_temps
    code ← assemble_write
    write_parts code addr (x ∷ xs)
    restore_temps t0_val t1_val

  unfoldable pub write_mem : ℕ → List ℕ → Cmd (Backend D) (Unit {0})
  unfolding write_checked
  write_mem addr bytes = do check_selected; check_halted; write_checked addr bytes
