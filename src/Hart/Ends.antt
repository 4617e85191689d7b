-- ===== src/Hart/Ends.antt =====
-- Runs of the backend that succeed and change nothing but the target, and the rules for its access
-- to registers and fields.
use vxdebug.Base.{ℕ, ◌<◌, ◌^◌, ◌≡◌, true, some}
use vxdebug.Text.{Str}
use vxdebug.Run.{invalid_arg, Run, ok, Cmd, and_then, catching, need}
use vxdebug.Target.{Target}
use vxdebug.Dm.{DmReg, FieldInfo, get_dmreg_addr, get_dmreg_field, set_field, set_dmreg_field}
use vxdebug.Dm.Table.{IsSetField, set_dmreg_field_lem}
use vxdebug.Backend.State.{Backend, on_target, with_target}
use vxdebug.Backend.Dmreg.{dmreg_rd, dmreg_wr, dmreg_wrfield}
use vxdebug.Hart.{Returns, returns}

-- The backend `b` with the target in another state.
abbrev pub at : {D : Type 0} → Backend D → D → Backend D
at b d = record b { target = d }

pub data Ends {D A : Type 0} (b : Backend D) (P : A → D → Type 0) : Run (Backend D) A → Type 0 where
  ends : {v : A} {d : D} → P v d → Ends b P (ok v (at b d))

module _ {D A : Type 0} {b : Backend D} {P : A → D → Type 0} where
  pub bind :
      {B : Type 0} {Q : B → D → Type 0} {r : Run (Backend D) A} (k : A → Cmd (Backend D) B)
      → Ends b P r
      → ((v : A) (d : D) → P v d → Ends b Q (k v (at b d)))
      → Ends b Q (and_then r k)
  unfolding and_then
  bind k (ends p) next = next _ _ p

  pub mono :
      {Q : A → D → Type 0} {r : Run (Backend D) A}
      → Ends b P r
      → ((v : A) (d : D) → P v d → Q v d)
      → Ends b Q r
  mono (ends p) weaken = ends (weaken _ _ p)

  pub Ends-target : {r : Run D A} (d : D) → Returns P r → Ends b P (with_target (at b d) r)
  Ends-target d (returns p) = ends p

  pub Ends-catching : {r : Run (Backend D) A} → Ends b P r → Ends b P (catching invalid_arg r)
  Ends-catching (ends p) = ends p

module _ {D : Type 0} ⦃t : Target D⦄ {b : Backend D} {d : D} (c : t.connected d ≡ true) where
  pub Ends-rd :
      {P : ℕ → D → Type 0} (r : DmReg)
      → Returns P (t.read_reg (get_dmreg_addr r) d)
      → Ends b P (dmreg_rd r (at b d))
  unfolding dmreg_rd and_then
  Ends-rd r h = rw c (Ends-target d h)

  pub Ends-wr :
      {P : Unit {0} → D → Type 0} (r : DmReg) (v : ℕ)
      → Returns P (t.write_reg (get_dmreg_addr r) v d)
      → Ends b P (dmreg_wr r v (at b d))
  unfolding dmreg_wr and_then
  Ends-wr r v h = rw c (Ends-target d h)

  -- A field is written by reading the register, replacing the field and writing it back.
  pub Ends-wrfield :
      {P : ℕ → D → Type 0} {Q : Unit {0} → D → Type 0} (r : DmReg) (n : Str) (x : ℕ)
      {finfo : FieldInfo}
      → get_dmreg_field r n ≡ some finfo
      → Returns (λ v e. (v < 2 ^ 32) × P v e) (t.read_reg (get_dmreg_addr r) d)
      → ((v u : ℕ) (e : D)
          → P v e
          → IsSetField r n v x u
          → Returns Q (t.write_reg (get_dmreg_addr r) u e))
      → Ends b Q (dmreg_wrfield r n x (at b d))
  unfolding dmreg_wrfield set_dmreg_field and_then
  Ends-wrfield {P} {Q} r n x {finfo} found reads writes =
      rw (c, found, and_then) (Ends-catching (bind _ (Ends-target d reads) stores))
    where
      stored : (v : ℕ) → set_dmreg_field r n v x ≡ some (set_field finfo v x)
      stored v = rw (found, set_dmreg_field)

      stores :
          (v : ℕ) (e : D)
          → (v < 2 ^ 32) × P v e
          → Ends b Q (
              and_then
                (need (set_dmreg_field r n v x) (at b e))
                (λ u. on_target (t.write_reg (get_dmreg_addr r) u)))
      stores v e p =
          rw (stored v, and_then)
            (Ends-target e
              (writes v (set_field finfo v x) e p.1 (set_dmreg_field_lem r n v x p.0 (stored v))))
