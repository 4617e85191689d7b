-- ===== src/Hart/Inject.antt =====
-- Injecting one instruction and using DSCRATCH (src/backend.cpp, `inject_instruction` and
-- `dmreg_pollfield`).
use vxdebug.Base.{
  ℕ, zero, suc, ◌<◌, ◌^◌, ◌/◌, ◌%◌, bit_and, ◌≡◌, ◌≢◌, refl, sym, ap, arith, ◌∙◌, true, false,
  Option, some, ◌==◌, some_inj, ==_false,
}
use vxdebug.Text.{Str, codes, str_eq, ne_of_str_eq}
use mathlib.Core.Path.{subst}
use vxdebug.Run.{and_then}
use vxdebug.Target.{Target}
use vxdebug.Dm.{
  dctrl, dinject, dscratch, FieldInfo, width, mask, get_dmreg_addr, get_dmreg_field, extract_field,
  extract_dmreg_field,
}
use vxdebug.Dm.Table.{IsSetField, extract_found}
use vxdebug.Backend.State.{Backend}
use vxdebug.Backend.Dmreg.{dmreg_rd, dmreg_wr, dmreg_pollfield, poll_loop, retries_of}
use vxdebug.Backend.Control.{inject_word}
use vxdebug.Backend.Registers.{inject_instruction}
use vxdebug.Hart.{Arch, Instr, exec, IsQuiet, Hart}
use vxdebug.Hart.Ends.{
  at, Ends, ends, bind, Ends-target, Ends-catching, Ends-rd, Ends-wr, Ends-wrfield,
}

module _ {D : Type 0} ⦃t : Target D⦄ {wid tid : ℕ} (h : Hart t wid tid) (b : Backend D) where
  injectstate : FieldInfo
  injectstate = record { name = codes "injectstate"; msb = 8; lsb = 7 }

  found_injectstate : get_dmreg_field dctrl (codes "injectstate") ≡ some injectstate
  unfolding injectstate get_dmreg_field
  found_injectstate = refl

  state_is :
      (v : ℕ)
      → extract_dmreg_field dctrl (codes "injectstate") v
        ≡ some (bit_and v (mask injectstate) / 2 ^ injectstate.lsb)
  unfolding extract_field
  state_is v = extract_found dctrl (codes "injectstate") v injectstate found_injectstate

  -- An injection that ends after `n` polls is seen to have ended, given more than `n` attempts.
  Ends-poll :
      (n attempts : ℕ) {a : Arch} {d : D}
      → n < attempts
      → h.Running n a d
      → Ends b (λ _ e. h.At a e) (poll_loop dctrl injectstate 0 attempts (at b d))
  unfolding poll_loop get_dmreg_addr
  Ends-poll n zero lt r = absurd (omega arith)
  Ends-poll zero (suc attempts) {a} {d} lt r =
      bind _ (Ends-target d (h.poll_done r)) (λ v e p. rw (done v p.0) (ends p.1))
    where
      done :
          (v : ℕ)
          → extract_dmreg_field dctrl (codes "injectstate") v ≡ some 0
          → (bit_and v (mask injectstate) / 2 ^ injectstate.lsb == 0) ≡ true
      done v p = rw (some_inj (sym (state_is v) ∙ p)) refl
  Ends-poll (suc n) (suc attempts) {a} {d} lt r =
      bind _ (Ends-target d (h.poll_busy n r))
        (λ v e p. rw (busy v p.0) (Ends-poll n attempts (omega arith) p.1))
    where
      busy :
          (v : ℕ)
          → extract_dmreg_field dctrl (codes "injectstate") v ≢ some 0
          → (bit_and v (mask injectstate) / 2 ^ injectstate.lsb == 0) ≡ false
      busy v p = ==_false _ 0 (λ e. p (state_is v ∙ ap some e))

  Ends-polled :
      {a : Arch} {e : D}
      → h.latency < retries_of b.poll_retries
      → h.Running h.latency a e
      → Ends b (λ _ e'. h.At a e') (dmreg_pollfield dctrl (codes "injectstate") 0 (at b e))
  unfolding dmreg_pollfield and_then
  Ends-polled patient r =
      rw (h.running_connected r, found_injectstate)
        (Ends-catching (Ends-poll h.latency (retries_of b.poll_retries) patient r))

  -- The value that requests an injection requests nothing else.
  IsQuiet-request : {v u : ℕ} → IsQuiet v → IsSetField dctrl (codes "injectreq") v 1 u → IsQuiet u
  unfolding str_eq
  IsQuiet-request q s = record {
    awake = s.others (codes "dmactive") (ne_of_str_eq _ _ refl) ∙ q.awake;
    no_reset = s.others (codes "ndmreset") (ne_of_str_eq _ _ refl) ∙ q.no_reset;
    no_step = s.others (codes "stepreq") (ne_of_str_eq _ _ refl) ∙ q.no_step;
    no_resethalt = s.others (codes "resethaltreq") (ne_of_str_eq _ _ refl) ∙ q.no_resethalt;
    no_resume = s.others (codes "resumereq") (ne_of_str_eq _ _ refl) ∙ q.no_resume;
    no_halt = s.others (codes "haltreq") (ne_of_str_eq _ _ refl) ∙ q.no_halt;
  }

  injectreq : FieldInfo
  injectreq = record { name = codes "injectreq"; msb = 6; lsb = 6 }

  found_injectreq : get_dmreg_field dctrl (codes "injectreq") ≡ some injectreq
  unfolding injectreq get_dmreg_field
  found_injectreq = refl

  reads_one :
      {v u : ℕ}
      → IsSetField dctrl (codes "injectreq") v 1 u
      → extract_dmreg_field dctrl (codes "injectreq") u ≡ some 1
  unfolding injectreq width
  reads_one s =
      s.reads_back
      ∙ subst (λ f. ◌≡◌ {A = Option ℕ} (some (1 % 2 ^ width f)) (some 1))
          (some_inj (sym found_injectreq ∙ s.found)) refl

  -- Injecting the word of an instruction has that instruction's effect.
  pub Ends-inject :
      (i : Instr) {a : Arch} {d : D}
      → h.latency < retries_of b.poll_retries
      → h.At a d
      → Ends b (λ _ e. h.At (exec i a) e) (inject_word (h.code i) (at b d))
  unfolding inject_word get_dmreg_addr
  Ends-inject i {a} {d} patient p =
      bind _ (Ends-wr (h.connected p) dinject (h.code i) (h.write_dinject (h.code i) p)) λ _ e l.
        bind _
          (Ends-wrfield (h.loaded_connected l) dctrl (codes "injectreq") 1 found_injectreq
            (h.read_dctrl l) (λ v u e q s. h.request i u (IsQuiet-request q.0 s) (reads_one s) q.1))
          λ _ e r. bind _ (Ends-polled patient r) λ _ e q. ends q

  -- So has injecting a line that assembles to that word.
  pub Ends-line :
      (i : Instr) (line : Str) {a : Arch} {d : D}
      → t.assemble line ≡ some (h.code i)
      → h.latency < retries_of b.poll_retries
      → h.At a d
      → Ends b (λ _ e. h.At (exec i a) e) (inject_instruction line (at b d))
  unfolding inject_instruction and_then
  Ends-line i line assembles patient p = rw assembles (Ends-inject i patient p)

  pub Ends-read_scratch :
      {a : Arch} {d : D}
      → h.At a d
      → Ends b (λ v e. (v ≡ a.scratch) × (v < 2 ^ 32) × h.At a e) (dmreg_rd dscratch (at b d))
  unfolding get_dmreg_addr
  Ends-read_scratch p = Ends-rd (h.connected p) dscratch (h.read_dscratch p)

  pub Ends-write_scratch :
      (v : ℕ) {a : Arch} {d : D}
      → v < 2 ^ 32
      → h.At a d
      → Ends b (λ _ e. h.At (record a { scratch = v }) e) (dmreg_wr dscratch v (at b d))
  unfolding get_dmreg_addr
  Ends-write_scratch v lt p = Ends-wr (h.connected p) dscratch v (h.write_dscratch v lt p)
