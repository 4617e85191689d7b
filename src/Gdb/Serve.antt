-- ===== src/Gdb/Serve.antt =====
-- The table of commands, its dispatch and the loop over one client's packets (`serve_forever` of
-- src/gdbstub.cpp).
pub mod Order
pub mod Session
pub mod Memory
pub mod Client
pub mod Forever
use vxdebug.Base.{
  ℕ, zero, suc, ◌-◌, Bool, true, false, List, [], ◌∷◌, ◌++◌, if◌then◌else◌, length, take, drop,
}
use vxdebug.Base.Int.{ℤ}
use vxdebug.Text.{Str, codes}
use vxdebug.Util.{starts_with}
use vxdebug.Run.{Rcode, transport_err, Run, ok, err, throws, waits, Cmd, pure, ◌>>=◌, ◌>>◌}
use vxdebug.Target.{Target}
use vxdebug.Backend.State.{Backend}
use vxdebug.Gdb.State.{Stub, send_ack}
use vxdebug.Gdb.Packet.{Socket, recv_packet}
use vxdebug.Gdb.Access.{
  cmd_read_regs, cmd_write_regs, cmd_read_reg, cmd_write_reg, cmd_read_mem, cmd_write_mem,
}
use vxdebug.Gdb.Execution.{cmd_continue, cmd_step, cmd_detach, cmd_insert_bp, cmd_remove_bp}
use vxdebug.Gdb.Threads.{
  cmd_thread_list_first, cmd_thread_list_next, cmd_thread_info, cmd_thread_select, cmd_thread_alive,
}
use vxdebug.Gdb.Xml.{target_xml}
use vxdebug.Gdb.Query.{
  cmd_supported, cmd_attached, cmd_halted, cmd_notfound, cmd_qxfer_features_read, cmd_monitor,
}

-- `cmd_handler_t`, by the handler's name.
pub data Handler : Type 0 where
  halted detach read_regs write_regs read_reg write_reg read_mem write_mem continue step : Handler
  insert_bp remove_bp thread_list_first thread_list_next thread_info thread_select : Handler
  thread_alive supported attached qxfer_features_read monitor notfound : Handler

-- `cmd_map_`. A hash table is walked in an unspecified order.
abbrev pub cmd_map : List (Str × Handler)
cmd_map =
    (codes "?", halted)
    ∷ (codes "D", detach)
    ∷ (codes "g", read_regs)
    ∷ (codes "G", write_regs)
    ∷ (codes "p", read_reg)
    ∷ (codes "P", write_reg)
    ∷ (codes "m", read_mem)
    ∷ (codes "M", write_mem)
    ∷ (codes "c", continue)
    ∷ (codes "s", step)
    ∷ (codes "Z", insert_bp)
    ∷ (codes "z", remove_bp)
    ∷ (codes "qfThreadInfo", thread_list_first)
    ∷ (codes "qsThreadInfo", thread_list_next)
    ∷ (codes "qThreadExtraInfo", thread_info)
    ∷ (codes "Hc", thread_select)
    ∷ (codes "Hg", thread_select)
    ∷ (codes "T", thread_alive)
    ∷ (codes "qSupported", supported)
    ∷ (codes "qAttached", attached)
    ∷ (codes "qXfer:features:read:target.xml:", qxfer_features_read)
    ∷ (codes "qRcmd,", monitor)
    ∷ (codes "vMustReplyEmpty", notfound)
    ∷ []

-- What the handlers use beside the stub's state: the values of variables without initializer, the
-- rounds that `c` may poll for, and the command interpreter.
pub record Surroundings (D : Type 0) : Type 0 where
  pub unset : ℕ
  pub unset_flag : Bool
  pub unset_id : ℤ
  pub rounds : ℕ
  pub execute_line : Str → Cmd (Backend D) ℤ

module _ {D I : Type 0} where
  unfoldable if_not_found : Bool → Cmd (Stub D I) (Unit {0})
  if_not_found true = pure tt
  if_not_found false = do send_ack; cmd_notfound

module _ {D I : Type 0} ⦃t : Target D⦄ (env : Surroundings D) where
  unfoldable pub run_handler : Handler → Str → Cmd (Stub D I) (Unit {0})
  run_handler halted cmdstr = cmd_halted
  run_handler detach cmdstr = cmd_detach
  run_handler read_regs cmdstr = cmd_read_regs env.unset
  run_handler write_regs cmdstr = cmd_write_regs cmdstr
  run_handler read_reg cmdstr = cmd_read_reg cmdstr
  run_handler write_reg cmdstr = cmd_write_reg cmdstr
  run_handler read_mem cmdstr = cmd_read_mem cmdstr
  run_handler write_mem cmdstr = cmd_write_mem cmdstr
  run_handler continue cmdstr = cmd_continue env.unset_id env.rounds cmdstr
  run_handler step cmdstr = cmd_step cmdstr
  run_handler insert_bp cmdstr = cmd_insert_bp cmdstr
  run_handler remove_bp cmdstr = cmd_remove_bp cmdstr
  run_handler thread_list_first cmdstr = cmd_thread_list_first
  run_handler thread_list_next cmdstr = cmd_thread_list_next
  run_handler thread_info cmdstr = cmd_thread_info env.unset_flag cmdstr
  run_handler thread_select cmdstr = cmd_thread_select cmdstr
  run_handler thread_alive cmdstr = cmd_thread_alive env.unset_flag cmdstr
  run_handler supported cmdstr = cmd_supported cmdstr
  run_handler attached cmdstr = cmd_attached
  run_handler qxfer_features_read cmdstr = cmd_qxfer_features_read target_xml cmdstr
  run_handler monitor cmdstr = cmd_monitor env.execute_line cmdstr
  run_handler notfound cmdstr = cmd_notfound

  -- The loop over the table, every entry of which is tried; whether one was found.
  unfoldable pub dispatch_loop : List (Str × Handler) → Str → Cmd (Stub D I) Bool
  unfolding starts_with
  dispatch_loop [] cmdstr = pure false
  dispatch_loop ((prefix, fn) ∷ m) cmdstr = λ g. elim (starts_with prefix cmdstr) [
    | false ↦ dispatch_loop m cmdstr g
    | true ↦ (do send_ack; run_handler fn cmdstr; _ ← dispatch_loop m cmdstr; pure true) g
  ]

  unfoldable pub dispatch : List (Str × Handler) → Str → Cmd (Stub D I) (Unit {0})
  unfolding dispatch_loop if_not_found
  dispatch m cmdstr = do cmd_found ← dispatch_loop m cmdstr; if_not_found cmd_found

  -- `pkt.substr(1, pkt.length() - 4)`; the empty packet calls for nothing.
  answer : Str → Cmd (Stub D I) (Unit {0})
  unfolding dispatch
  answer [] = pure tt
  answer (c ∷ pkt) = dispatch cmd_map (take (length pkt - 3) pkt)

  -- One packet; the code tells whether the connection still stands.
  serve_packet : Run (Stub D I) Str → Run (Stub D I) Bool
  unfolding answer
  serve_packet (ok pkt g) = (do answer pkt; pure true) g
  serve_packet (err transport_err g) = ok false g
  serve_packet (err c g) = ok true g
  serve_packet (throws g) = throws g
  serve_packet (waits g) = waits g

  -- The inner loop, for so many packets; `waits` if the client is still there.
  unfoldable pub serve_client : ⦃socket : Socket I⦄ → ℕ → Cmd (Stub D I) (Unit {0})
  unfolding serve_packet
  serve_client zero = λ g. waits g
  serve_client (suc packets) = do
    connected ← (λ g. serve_packet (recv_packet g))
    (λ g. elim connected [ false ↦ ok tt g | true ↦ serve_client packets g ])
