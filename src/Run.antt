-- ===== src/Run.antt =====
-- Effects: a state, the return codes of src/util.h, exceptions, and loops that still wait.
use vxdebug.Base.{Bool, true, false, Option, none, some}

-- The `RCODE_*` values but `RCODE_OK`, which is the constructor `ok` of `Run`.
pub data Rcode : Type 0 where
  error timeout not_impl invalid_arg buffer_ovrflw comm_err transport_err noneselected_err : Rcode
  warp_not_halted warp_not_active : Rcode

-- How a call ends: with its results, with an error code, by an exception, or (for a loop that polls
-- without bound) not within the rounds it was given.
pub data Run (S A : Type 0) : Type 0 where
  ok : A → S → Run S A
  err : Rcode → S → Run S A
  throws : S → Run S A
  waits : S → Run S A

abbrev pub Cmd : Type 0 → Type 0 → Type 0
Cmd S A = S → Run S A

module _ {S A : Type 0} where
  unfoldable pub and_then : {B : Type 0} → Run S A → (A → Cmd S B) → Run S B
  and_then (ok a s) k = k a s
  and_then (err c s) k = err c s
  and_then (throws s) k = throws s
  and_then (waits s) k = waits s

  abbrev pub pure : A → Cmd S A
  pure a s = ok a s

  abbrev pub fail : Rcode → Cmd S A
  fail c s = err c s

  abbrev pub throw : Cmd S A
  throw s = throws s

  -- `try { … } catch (…) { return c; }`
  abbrev pub catching : Rcode → Run S A → Run S A
  catching c (ok a s) = ok a s
  catching c (err d s) = err d s
  catching c (throws s) = err c s
  catching c (waits s) = waits s

  -- `if (rc != RCODE_OK) return c;`
  abbrev pub failing_as : Rcode → Run S A → Run S A
  failing_as c (ok a s) = ok a s
  failing_as c (err d s) = err c s
  failing_as c (throws s) = throws s
  failing_as c (waits s) = waits s

  -- A call whose return code is not looked at; `d` is what its out-parameter then holds.
  abbrev pub or_else : A → Run S A → Run S A
  or_else d (ok a s) = ok a s
  or_else d (err c s) = ok d s
  or_else d (throws s) = throws s
  or_else d (waits s) = waits s

  -- A value that is missing where the source throws.
  abbrev pub need : Option A → Cmd S A
  need none s = throws s
  need (some a) s = ok a s

infixl 5 ◌>>=◌ ◌>>◌
abbrev pub ◌>>=◌ : {S A B : Type 0} → Cmd S A → (A → Cmd S B) → Cmd S B
◌>>=◌ m k s = and_then (m s) k

abbrev pub ◌>>◌ : {S B : Type 0} → Cmd S (Unit {0}) → Cmd S B → Cmd S B
◌>>◌ m k s = and_then (m s) (λ _. k)

abbrev pub get_state : {S : Type 0} → Cmd S S
get_state s = ok s s

abbrev pub put_state : {S : Type 0} → S → Cmd S (Unit {0})
put_state t s = ok tt t

-- Statements under a condition.
abbrev pub when : {S : Type 0} → Bool → Cmd S (Unit {0}) → Cmd S (Unit {0})
when true m s = m s
when false m s = ok tt s
