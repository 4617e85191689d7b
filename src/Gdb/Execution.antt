-- ===== src/Gdb/Execution.antt =====
-- The handlers that run the program and set breakpoints (src/gdbstub.cpp).
use vxdebug.Base.{ℕ, ◌%◌, ◌^◌, true, false, ◌||◌, [], ◌∷◌, ◌==◌, if◌then◌else◌, none, some}
use vxdebug.Base.Int.{ℤ}
use vxdebug.Text.{Str, codes}
use vxdebug.Text.Number.{hex_u32, strtoul}
use vxdebug.Util.{split_at, substr_from}
use vxdebug.Run.{Cmd, pure, need, ◌>>=◌, ◌>>◌}
use vxdebug.Target.{Target}
use vxdebug.Backend.State.{Backend}
use vxdebug.Backend.Warps.{set_warp_pc, get_selected_warp_thread}
use vxdebug.Backend.Control.{resume_warps, resume_all_warps, step_warp}
use vxdebug.Backend.Breakpoints.{set_breakpoint, remove_breakpoint, until_breakpoint}
use vxdebug.Gdb.State.{Stub, send_packet, ignored, reply_rc}

module _ {D : Type 0} ⦃t : Target D⦄ where
  -- Any failure is answered alike; `resume_warps` and `until_breakpoint` in turn.
  run_until_halt : ℕ → ℤ → Cmd (Backend D) (Unit {0})
  run_until_halt rounds wid = do resume_warps (wid ∷ []); until_breakpoint false rounds

module _ {D I : Type 0} ⦃t : Target D⦄ where
  -- The optional address of `c` and `s`.
  set_pc_arg : Str → Cmd (Stub D I) (Unit {0})
  set_pc_arg [] = pure tt
  set_pc_arg (c ∷ s) = ignored tt (set_warp_pc (hex_u32 (c ∷ s)))

  -- A failed query leaves the selection undefined: `unset`.
  unfoldable pub cmd_continue : ℤ → ℕ → Str → Cmd (Stub D I) (Unit {0})
  unfolding set_pc_arg run_until_halt
  cmd_continue unset rounds cmdstr = do
    args ← need (substr_from 1 cmdstr)
    set_pc_arg args
    (selected_wid, selected_tid) ← ignored (unset, unset) (get_selected_warp_thread true)
    reply_rc (codes "S05") (codes "E01") (run_until_halt rounds selected_wid)

  unfoldable pub cmd_step : Str → Cmd (Stub D I) (Unit {0})
  unfolding set_pc_arg
  cmd_step cmdstr = do
    args ← need (substr_from 1 cmdstr)
    set_pc_arg args
    reply_rc (codes "S05") (codes "E01") step_warp

  unfoldable pub cmd_detach : Cmd (Stub D I) (Unit {0})
  cmd_detach g =
      ((do _ ← ignored tt resume_all_warps; send_packet (codes "OK"))
        (record g { is_attached = false }))

  -- `type,addr,kind`, of which `kind` is not read.
  with_place : Str → (ℕ → Cmd (Backend D) (Unit {0})) → Cmd (Stub D I) (Unit {0})
  with_place args act = elim (split_at b',' args) [
    | none ↦ send_packet (codes "E01")
    | some (type_str, others) ↦ elim (split_at b',' others) [
      | none ↦ send_packet (codes "E01")
      | some (addr_str, kind) ↦
          if strtoul 10 type_str % 2 ^ 32 == 0 || strtoul 10 type_str % 2 ^ 32 == 1
          then reply_rc (codes "OK") (codes "E03") (act (hex_u32 addr_str))
          else send_packet (codes "E02")
    ]
  ]

  unfoldable pub cmd_insert_bp : Str → Cmd (Stub D I) (Unit {0})
  unfolding with_place
  cmd_insert_bp cmdstr = do args ← need (substr_from 1 cmdstr); with_place args set_breakpoint

  unfoldable pub cmd_remove_bp : Str → Cmd (Stub D I) (Unit {0})
  unfolding with_place
  cmd_remove_bp cmdstr = do args ← need (substr_from 1 cmdstr); with_place args remove_breakpoint
