-- ===== src/Hart/Breakpoints.antt =====
-- Setting and removing a breakpoint (src/backend.cpp) leaves the target's memory as it was.
pub mod Marks
pub mod Edits
use mathlib.Core.Path.{subst}
use vxdebug.Base.{
  ℕ, ◌+◌, ◌*◌, ◌/◌, ◌%◌, ◌^◌, ◌<◌, ◌≡◌, refl, ap, ◌∙◌, fun_ext, arith, List, [], ◌∷◌, none, some,
  ==_self,
}
use vxdebug.Base.Lists.{AreByteValues}
use vxdebug.Text.{codes}
use vxdebug.Run.{Run, ok, and_then}
use vxdebug.Target.{Target}
use vxdebug.Backend.State.{Backend}
use vxdebug.Backend.Memory.{word_bytes, bytes_word}
use vxdebug.Backend.Breakpoints.{
  Table, lookup, erase, insert, enabled_at, new_breakpoint, insert_breakpoint, set_breakpoint,
  restore_instruction, remove_breakpoint,
}
use vxdebug.Hart.{Arch, Hart, update}
use vxdebug.Hart.Ends.{at, Ends, ends}
use vxdebug.Hart.Checked.{Selects}
use vxdebug.Hart.Temps.{Lines}
use vxdebug.Hart.Bytes.{mem_bytes, mem_bytes_four, AreBytes}
use vxdebug.Hart.Store.{store_bytes, store_four}
use vxdebug.Hart.ReadMem.{read_mem_lem}
use vxdebug.Hart.WriteMem.{write_mem_lem}

pub store_bytes-four :
    (m : ℕ → ℕ) (a p q r s : ℕ)
    → a + 4 < 2 ^ 32
    → store_bytes m a (p ∷ q ∷ r ∷ s ∷ []) ≡ store_four m a p q r s
unfolding store_bytes
store_bytes-four m a p q r s lt = rw (second, third) refl
  where
    second : ((a + 1) % 2 ^ 32 + 1) % 2 ^ 32 ≡ (a + 2) % 2 ^ 32
    second = omega arith

    third : ((a + 2) % 2 ^ 32 + 1) % 2 ^ 32 ≡ (a + 3) % 2 ^ 32
    third = omega arith

stored_back :
    (m : ℕ → ℕ) (a p q r s : ℕ)
    → a + 4 < 2 ^ 32
    → store_four
        (store_four m a p q r s)
        a
        (m a)
        (m ((a + 1) % 2 ^ 32))
        (m ((a + 2) % 2 ^ 32))
        (m ((a + 3) % 2 ^ 32))
      ≡ m
stored_back m a p q r s lt = fun_ext λ j. ground arith

pub word_bytes-bytes_word :
    (p q r s : ℕ)
    → p < 256
    → q < 256
    → r < 256
    → s < 256
    → word_bytes (bytes_word (p ∷ q ∷ r ∷ s ∷ [])) ≡ p ∷ q ∷ r ∷ s ∷ []
word_bytes-bytes_word p q r s hp hq hr hs = rw (first, second, third, fourth) refl
  where
    first : (p + q * 256 + r * 65536 + s * 16777216) % 256 ≡ p
    first = omega arith

    second : (p + q * 256 + r * 65536 + s * 16777216) / 256 % 256 ≡ q
    second = omega arith

    third : (p + q * 256 + r * 65536 + s * 16777216) / 65536 % 256 ≡ r
    third = omega arith

    fourth : (p + q * 256 + r * 65536 + s * 16777216) / 16777216 % 256 ≡ s
    fourth = omega arith

-- The instruction put back where `ebreak` stood.
restored_mem :
    (m : ℕ → ℕ) (a w : ℕ)
    → a + 4 < 2 ^ 32
    → AreBytes m
    → store_bytes (store_bytes m a (word_bytes w)) a (word_bytes (bytes_word (mem_bytes m a 4))) ≡ m
unfolding mem_bytes
restored_mem m a w lt by =
    ap (λ l. store_bytes (store_bytes m a (word_bytes w)) a (word_bytes (bytes_word l))) four_bytes
    ∙ ap (store_bytes (store_bytes m a (word_bytes w)) a) (
        word_bytes-bytes_word (m a) (m ((a + 1) % 2 ^ 32)) (m ((a + 2) % 2 ^ 32))
          (m ((a + 3) % 2 ^ 32)) (by a) (by ((a + 1) % 2 ^ 32)) (by ((a + 2) % 2 ^ 32))
          (by ((a + 3) % 2 ^ 32)))
    ∙ store_bytes-four (store_bytes m a (word_bytes w)) a (m a) (m ((a + 1) % 2 ^ 32))
        (m ((a + 2) % 2 ^ 32)) (m ((a + 3) % 2 ^ 32)) lt
    ∙ ap
        (λ n.
          store_four n a (m a) (m ((a + 1) % 2 ^ 32)) (m ((a + 2) % 2 ^ 32)) (m ((a + 3) % 2 ^ 32)))
        (store_bytes-four m a (w % 256) (w / 256 % 256) (w / 65536 % 256) (w / 16777216 % 256) lt)
    ∙ stored_back m a (w % 256) (w / 256 % 256) (w / 65536 % 256) (w / 16777216 % 256) lt
  where
    four_bytes :
        mem_bytes m a 4
        ≡ m a ∷ m ((a + 1) % 2 ^ 32) ∷ m ((a + 2) % 2 ^ 32) ∷ m ((a + 3) % 2 ^ 32) ∷ []
    four_bytes = mem_bytes_four m a 0

pub AreBytes-store_bytes :
    (m : ℕ → ℕ) (a : ℕ) (l : List ℕ) → AreBytes m → AreByteValues l → AreBytes (store_bytes m a l)
unfolding store_bytes AreByteValues
AreBytes-store_bytes m a [] by h = by
AreBytes-store_bytes m a (x ∷ xs) by (lt, h) =
    AreBytes-store_bytes (update m a x) ((a + 1) % 2 ^ 32) xs (λ j. ground (arith, by j)) h

AreByteValues-word_bytes : (w : ℕ) → AreByteValues (word_bytes w)
unfolding AreByteValues
AreByteValues-word_bytes w = (omega arith, (omega arith, (omega arith, (omega arith, tt))))

enabled_at-insert :
    (addr instr : ℕ) (t : Table)
    → enabled_at addr (insert addr (new_breakpoint addr instr) t) ≡ some (new_breakpoint addr instr)
unfolding enabled_at insert lookup
enabled_at-insert addr instr t = rw (enabled_at, insert, lookup, ==_self addr) refl

pub Ends-view :
    {D A : Type 0} {b : Backend D} {P : A → D → Type 0} {r : Run (Backend D) A}
    → Ends b P r
    → (v : A) × (d : D) × (r ≡ ok v (at b d)) × P v d
Ends-view (ends {v} {d} p) = (v, d, refl, p)

module _ {D : Type 0} ⦃t : Target D⦄ {wid tid : ℕ} (h : Hart t wid tid) (b : Backend D) where
  -- The backend with a breakpoint at `addr`, where `bytes` stood.
  abbrev pub marked : ℕ → List ℕ → Backend D
  marked addr bytes = record b {
    breakpoints = insert addr (new_breakpoint addr (bytes_word bytes)) b.breakpoints;
  }

  marked-Selects :
      (addr : ℕ) (bytes : List ℕ)
      → Selects t wid tid h.latency b
      → Selects t wid tid h.latency (marked addr bytes)
  marked-Selects addr bytes s = record {
    warp = s.warp;
    thread = s.thread;
    exists = s.exists;
    in_windows = s.in_windows;
    patient = s.patient;
  }

  pub set_breakpoint_lem :
      (addr w : ℕ) (a : Arch) {d : D}
      → addr + 4 < 2 ^ 32
      → AreBytes a.mem
      → Lines t h.code
      → t.assemble (codes "ebreak") ≡ some w
      → Selects t wid tid h.latency b
      → enabled_at addr b.breakpoints ≡ none
      → h.At a d
      → (d' : D) × (s : ℕ) × (set_breakpoint addr (at b d)
          ≡ ok tt (at (marked addr (mem_bytes a.mem addr 4)) d'))
        × h.At (record a { mem = store_bytes a.mem addr (word_bytes w); scratch = s }) d'
  unfolding set_breakpoint insert_breakpoint and_then
  set_breakpoint_lem addr w a lt by l line sel free p =
      let (bytes, d1, e1, (same, (s1, p1))) =
        Ends-view (read_mem_lem h b addr 4 a (omega arith) (omega arith) by l sel p) in
      let (u, d2, e2, (s2, p2)) = Ends-view (
        write_mem_lem h b addr (word_bytes w) (record a { scratch = s1 }) lt
          (AreByteValues-word_bytes w) by l sel p1) in
      (
        d2,
        s2,
        rw (set_breakpoint, free, e1, line, e2) (ap (λ x. ok tt (at (marked addr x) d2)) same),
        p2,
      )

  pub remove_breakpoint_lem :
      (addr instr : ℕ) (a : Arch) {d : D}
      → addr + 4 < 2 ^ 32
      → AreBytes a.mem
      → Lines t h.code
      → Selects t wid tid h.latency b
      → enabled_at addr b.breakpoints ≡ some (new_breakpoint addr instr)
      → h.At a d
      → (d' : D) × (s : ℕ) × (remove_breakpoint addr (at b d)
          ≡ ok tt (at (record b { breakpoints = erase addr b.breakpoints }) d'))
        × h.At (record a { mem = store_bytes a.mem addr (word_bytes instr); scratch = s }) d'
  unfolding remove_breakpoint restore_instruction and_then
  remove_breakpoint_lem addr instr a lt by l sel there p =
      let (u, d1, e1, (s1, p1)) = Ends-view (
        write_mem_lem h b addr (word_bytes instr) a lt (AreByteValues-word_bytes instr) by l sel
          p) in
      (d1, s1, rw (remove_breakpoint, there, e1) refl, p1)

module _ {D : Type 0} ⦃t : Target D⦄ {wid tid : ℕ} (h : Hart t wid tid) (b : Backend D) where
  -- With a warp of the platform, below 32768, selected, active and halted, more poll retries than
  -- an injection takes polls, lines that assemble to their instructions, a memory of bytes, an
  -- address below the last word and no breakpoint enabled at it, setting a breakpoint and then
  -- removing it succeeds, and leaves memory, registers and CSRs as they were; only DSCRATCH may
  -- differ. After setting it, the word at the address is that of `ebreak`, all else in memory being
  -- as before.
  pub set-remove_breakpoint :
      (addr w : ℕ) (a : Arch) {d : D}
      → addr + 4 < 2 ^ 32
      → AreBytes a.mem
      → Lines t h.code
      → t.assemble (codes "ebreak") ≡ some w
      → Selects t wid tid h.latency b
      → enabled_at addr b.breakpoints ≡ none
      → h.At a d
      → (b' : Backend D) × (s : ℕ) × (set_breakpoint addr (at b d) ≡ ok tt b')
        × h.At (record a { mem = store_bytes a.mem addr (word_bytes w); scratch = s }) b'.target
        × ((d' : D) × (s' : ℕ) × (remove_breakpoint addr b'
              ≡ ok tt (at (record b { breakpoints = erase addr b'.breakpoints }) d'))
            × h.At (record a { scratch = s' }) d')
  set-remove_breakpoint addr w a lt by l line sel free p =
      let (d1, s1, e1, p1) = set_breakpoint_lem h b addr w a lt by l line sel free p in
      let bytes = mem_bytes a.mem addr 4 in
      let stored = store_bytes a.mem addr (word_bytes w) in
      let (d2, s2, e2, p2) =
        remove_breakpoint_lem h (marked h b addr bytes) addr (bytes_word bytes)
          (record a { mem = stored; scratch = s1 }) lt
          (AreBytes-store_bytes a.mem addr (word_bytes w) by (AreByteValues-word_bytes w)) l
          (marked-Selects h b addr bytes sel)
          (enabled_at-insert addr (bytes_word bytes) b.breakpoints) p1 in
      (
        at (marked h b addr bytes) d1,
        s1,
        e1,
        p1,
        (
          d2,
          s2,
          e2,
          subst (λ m. h.At (record a { mem = m; scratch = s2 }) d2)
              (restored_mem a.mem addr w lt by) p2,
        ),
      )
