-- ===== src/Backend/Dmreg/Polling.antt =====
-- How often `dmreg_pollfield` of src/backend.cpp reads the register, and what it then gives.
use vxdebug.Base.{
  ℕ, zero, suc, ◌/◌, ◌^◌, ◌<◌, bit_and, ◌≡◌, ◌≢◌, refl, ap, ◌∙◌, arith, true, ==_false, ◌⊎◌, inl,
  inr, ==_iff, lt→ltb, some,
}
use vxdebug.Text.{Str}
use vxdebug.Run.{ok, err, timeout, and_then, catching, invalid_arg}
use vxdebug.Target.{Target}
use vxdebug.Dm.{DmReg, FieldInfo, mask, get_dmreg_addr, get_dmreg_field}
use vxdebug.Backend.State.{Backend}
use vxdebug.Backend.Dmreg.{poll_loop, pollfield_body, dmreg_pollfield, check_transport}

-- The target after so many reads, where `next` is what one read does to it.
abbrev pub after_reads : {D : Type 0} → (D → D) → ℕ → D → D
after_reads next zero d = d
after_reads next (suc n) d = after_reads next n (next d)

-- The field in what a read gives.
abbrev pub field_of : {D : Type 0} → FieldInfo → (D → ℕ) → D → ℕ
field_of finfo value d = bit_and (value d) (mask finfo) / 2 ^ finfo.lsb

module _ {D : Type 0} ⦃t : Target D⦄ (r : DmReg) (finfo : FieldInfo) (expected : ℕ) (value : D → ℕ)
    (next : D → D) (reads : (d : D) → t.read_reg (get_dmreg_addr r) d ≡ ok (value d) (next d)) where
  -- One round of the loop.
  round_hit :
      (attempts : ℕ) (b : Backend D)
      → field_of finfo value b.target ≡ expected
      → poll_loop r finfo expected (suc attempts) b
        ≡ ok expected (record b { target = next b.target })
  unfolding poll_loop and_then
  round_hit attempts b e =
      rw (reads b.target, and_then, (==_iff (field_of finfo value b.target) expected).1 e)
        (ap (λ v. ok v (record b { target = next b.target })) e)

  round_miss :
      (attempts : ℕ) (b : Backend D)
      → field_of finfo value b.target ≢ expected
      → poll_loop r finfo expected (suc attempts) b
        ≡ poll_loop r finfo expected attempts (record b { target = next b.target })
  unfolding poll_loop and_then
  round_miss attempts b ne =
      rw (reads b.target, and_then, ==_false (field_of finfo value b.target) expected ne) refl

  poll_found :
      (k attempts : ℕ) (b : Backend D)
      → k < attempts
      → ((j : ℕ) → j < k → field_of finfo value (after_reads next j b.target) ≢ expected)
      → field_of finfo value (after_reads next k b.target) ≡ expected
      → poll_loop r finfo expected attempts b
        ≡ ok expected (record b { target = after_reads next (suc k) b.target })
  poll_found k zero b h before at = absurd (omega arith)
  poll_found zero (suc attempts) b h before at = round_hit attempts b at
  poll_found (suc k) (suc attempts) b h before at =
      round_miss attempts b (before 0 (omega arith))
      ∙ poll_found k attempts (record b { target = next b.target }) (omega arith)
          (λ j l. before (suc j) (omega arith)) at

  poll_timeout :
      (attempts : ℕ) (b : Backend D)
      → ((j : ℕ) → j < attempts → field_of finfo value (after_reads next j b.target) ≢ expected)
      → poll_loop r finfo expected attempts b
        ≡ err timeout (record b { target = after_reads next attempts b.target })
  unfolding poll_loop
  poll_timeout zero b never = refl
  poll_timeout (suc attempts) b never =
      round_miss attempts b (never 0 (omega arith))
      ∙ poll_timeout attempts (record b { target = next b.target })
          (λ j l. never (suc j) (omega arith))

  polls :
      (name : Str) (b : Backend D)
      → get_dmreg_field r name ≡ some finfo
      → t.connected b.target ≡ true
      → b.poll_retries < 2 ^ 31
      → dmreg_pollfield r name expected b
        ≡ catching invalid_arg (poll_loop r finfo expected b.poll_retries b)
  unfolding dmreg_pollfield check_transport pollfield_body and_then
  polls name b field up few = rw (up, field, lt→ltb b.poll_retries (2 ^ 31) few) refl

  -- The first of so many reads that finds the value, or none does.
  before-suc :
      (k : ℕ) (d : D)
      → field_of finfo value d ≢ expected
      → ((j : ℕ) → j < k → field_of finfo value (after_reads next j (next d)) ≢ expected)
      → (j : ℕ) → j < suc k
      → field_of finfo value (after_reads next j d) ≢ expected
  before-suc k d ne before zero l = ne
  before-suc k d ne before (suc j) l = before j (omega arith)

  first_found :
      (n : ℕ) (d : D)
      → ((k : ℕ) × (k < n)
          × ((j : ℕ) → j < k → field_of finfo value (after_reads next j d) ≢ expected)
          × (field_of finfo value (after_reads next k d) ≡ expected))
        ⊎ ((j : ℕ) → j < n → field_of finfo value (after_reads next j d) ≢ expected)
  first_found zero d = inr (λ j l. absurd (omega arith))
  first_found (suc n) d = elim (hit_or_miss (field_of finfo value d)) [
    | inl e ↦ inl (0, (omega arith), (λ j l. absurd (omega arith)), e)
    | inr ne ↦ elim (first_found n (next d)) [
      | inl (k, l, before, at) ↦ inl (suc k, (omega arith), before-suc k d ne before, at)
      | inr never ↦ inr (before-suc n d ne never)
    ]
  ]
    where
      hit_or_miss : (x : ℕ) → (x ≡ expected) ⊎ (x ≢ expected)
      hit_or_miss x = ground arith

  -- Where the transport is connected, every read of the register succeeds and the number of retries
  -- is below 2 ^ 31, polling a field of it ends. Either it gives the expected value, after k + 1
  -- reads: then k is less than the number of retries, and the field has the value at the read k + 1
  -- and at none before. Or it is a timeout, after as many reads as retries: then the field has the
  -- value at none of them. Nothing but the target's state has changed.
  pub dmreg_pollfield_lem :
      (name : Str) (b : Backend D)
      → get_dmreg_field r name ≡ some finfo
      → t.connected b.target ≡ true
      → b.poll_retries < 2 ^ 31
      → ((k : ℕ) × (k < b.poll_retries)
          × ((j : ℕ) → j < k → field_of finfo value (after_reads next j b.target) ≢ expected)
          × (field_of finfo value (after_reads next k b.target) ≡ expected)
          × (dmreg_pollfield r name expected b
              ≡ ok expected (record b { target = after_reads next (suc k) b.target })))
        ⊎ (((j : ℕ)
              → j < b.poll_retries
              → field_of finfo value (after_reads next j b.target) ≢ expected)
            × (dmreg_pollfield r name expected b
                ≡ err timeout (record b { target = after_reads next b.poll_retries b.target })))
  dmreg_pollfield_lem name b field up few = elim (first_found b.poll_retries b.target) [
    | inl (k, l, before, at) ↦ inl (
      k,
      l,
      before,
      at,
      polls name b field up few
          ∙ ap (catching invalid_arg) (poll_found k b.poll_retries b l before at),
    )
    | inr never ↦ inr (
      never,
      polls name b field up few ∙ ap (catching invalid_arg) (poll_timeout b.poll_retries b never),
    )
  ]
