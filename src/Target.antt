-- ===== src/Target.antt =====
-- What the backend uses of code outside it: the virtual calls of `Transport`
-- (src/transport.h) and the assembler that `rv_asm` runs (src/riscv.h).
use vxdebug.Base.{ℕ, Bool, Option}
use vxdebug.Text.{Str}
use vxdebug.Run.{Cmd}

-- `D` is the state of the connection and of the target behind it.
pub record Target (D : Type 0) : Type 0 where
  -- `transport_ && transport_->is_connected()`
  pub connected : D → Bool
  pub read_reg : ℕ → Cmd D ℕ
  pub write_reg : ℕ → ℕ → Cmd D (Unit {0})
  -- The word for one line of assembly, `none` where `rv_asm` throws.
  pub assemble : Str → Option ℕ
