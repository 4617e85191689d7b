-- ===== src/Gdb/Access.antt =====
-- The handlers that read and write registers and memory (src/gdbstub.cpp). `unset` is what a
-- variable without initializer holds.
use vxdebug.Base.{
  ℕ, zero, suc, ◌+◌, ◌-◌, ◌*◌, ◌%◌, List, [], ◌∷◌, ◌++◌, ◌==◌, ltb, if◌then◌else◌, none, some,
  length, take, get_or,
}
use vxdebug.Text.{Str, codes}
use vxdebug.Text.Number.{hex_u32, hex_padded, strtoul}
use vxdebug.Util.{split_at, substr_from, swap_endianess32}
use vxdebug.Run.{Run, ok, err, throws, waits, Cmd, pure, need, ◌>>=◌, ◌>>◌}
use vxdebug.Target.{Target}
use vxdebug.Backend.State.{Backend}
use vxdebug.Backend.Warps.{get_warp_pc, set_warp_pc}
use vxdebug.Backend.Registers.{read_gpr, write_gpr, read_csr}
use vxdebug.Backend.Memory.{read_mem, write_mem}
use vxdebug.Gdb.State.{Stub, send_packet, on_backend, ignored, reply_rc}

-- `CSR_LIST`
abbrev pub csr_list : List ℕ
csr_list = 0xfc2 ∷ 0xfc1 ∷ 0xfc0 ∷ 0xcc2 ∷ 0xcc1 ∷ 0xcc0 ∷ 0xcc3 ∷ 0xcc4 ∷ 0xfc3 ∷ []

-- `strfmt("%08x", swap_endianess32(value))`
abbrev pub hex_value : ℕ → Str
hex_value value = hex_padded 8 (swap_endianess32 value)

-- `swap_endianess32(strtoul(s, nullptr, 16))`
abbrev pub value_hex : Str → ℕ
value_hex s = swap_endianess32 (hex_u32 s)

-- The bytes of a memory reply.
unfoldable pub hex_bytes : List ℕ → Str
unfolding hex_padded
hex_bytes [] = []
hex_bytes (x ∷ xs) = hex_padded 2 x ++ hex_bytes xs

-- The bytes of a memory request, two characters each; a last odd one stands alone.
unfoldable pub bytes_hex : Str → List ℕ
unfolding strtoul
bytes_hex [] = []
bytes_hex (x ∷ []) = (strtoul 16 (x ∷ []) % 256) ∷ []
bytes_hex (x ∷ y ∷ s) = (strtoul 16 (x ∷ y ∷ []) % 256) ∷ bytes_hex s

module _ {D I : Type 0} ⦃t : Target D⦄ where
  -- The loops of `cmd_read_regs`: over the registers left, and over the CSRs, which share a variable.
  gpr_values : ℕ → ℕ → ℕ → Cmd (Stub D I) Str
  gpr_values unset i zero = pure []
  gpr_values unset i (suc left) = do
    value ← ignored unset (read_gpr i)
    rest ← gpr_values unset (suc i) left
    pure (hex_value value ++ rest)

  csr_values : ℕ → List ℕ → Cmd (Stub D I) Str
  csr_values before [] = pure []
  csr_values before (k ∷ ks) = do
    value ← ignored before (read_csr k)
    rest ← csr_values value ks
    pure (hex_value value ++ rest)

  unfoldable pub cmd_read_regs : ℕ → Cmd (Stub D I) (Unit {0})
  unfolding gpr_values csr_values
  cmd_read_regs unset = do
    gprs ← gpr_values unset 0 32
    pc ← ignored unset get_warp_pc
    csrs ← csr_values unset csr_list
    send_packet (gprs ++ (hex_value pc ++ csrs))

  -- The loop of `cmd_write_regs`; `substr` throws once its start lies behind the text.
  put_gprs : Str → ℕ → ℕ → Cmd (Stub D I) (Unit {0})
  put_gprs args i zero = pure tt
  put_gprs args i (suc left) = do
    reg_str ← need (substr_from (i * 8) args)
    _ ← ignored tt (write_gpr i (value_hex (take 8 reg_str)))
    put_gprs args (suc i) left

  unfoldable pub cmd_write_regs : Str → Cmd (Stub D I) (Unit {0})
  unfolding put_gprs
  cmd_write_regs cmdstr = do
    args ← need (substr_from 1 cmdstr)
    put_gprs args 0 32
    pc_str ← need (substr_from (32 * 8) args)
    _ ← ignored tt (set_warp_pc (value_hex (take 8 pc_str)))
    send_packet (codes "OK")

  reply_value : Cmd (Backend D) ℕ → Cmd (Stub D I) (Unit {0})
  reply_value m = do value ← ignored 0 m; send_packet (hex_value value)

  -- Registers of the stub: 32 general ones, the pc, and the listed CSRs.
  read_indexed : ℕ → Cmd (Stub D I) (Unit {0})
  unfolding reply_value
  read_indexed reg_idx =
      if ltb reg_idx 32
      then reply_value (read_gpr reg_idx)
      else if reg_idx == 32
      then reply_value get_warp_pc
      else if ltb reg_idx (33 + length csr_list)
      then reply_value (read_csr (get_or csr_list (reg_idx - 33) 0))
      else send_packet (codes "E02")

  unfoldable pub cmd_read_reg : Str → Cmd (Stub D I) (Unit {0})
  unfolding read_indexed
  cmd_read_reg cmdstr = do args ← need (substr_from 1 cmdstr); read_indexed (hex_u32 args)

  -- The CSRs are read only.
  write_indexed : ℕ → ℕ → Cmd (Stub D I) (Unit {0})
  write_indexed reg_idx value =
      if ltb reg_idx 32
      then reply_rc (codes "OK") (codes "E03") (write_gpr reg_idx value)
      else if reg_idx == 32
      then reply_rc (codes "OK") (codes "E03") (set_warp_pc value)
      else if ltb reg_idx (33 + length csr_list)
      then send_packet (codes "E03")
      else send_packet (codes "E01")

  unfoldable pub cmd_write_reg : Str → Cmd (Stub D I) (Unit {0})
  unfolding write_indexed
  cmd_write_reg cmdstr = do
    args ← need (substr_from 1 cmdstr)
    elim (split_at b'=' args) [
      | none ↦ send_packet (codes "E01")
      | some (reg_idx_str, val_str) ↦ write_indexed (hex_u32 reg_idx_str) (value_hex val_str)
    ]

  send_memory : Run (Stub D I) (List ℕ) → Run (Stub D I) (Unit {0})
  send_memory (ok bytes g) = send_packet (hex_bytes bytes) g
  send_memory (err c g) = send_packet (codes "E01") g
  send_memory (throws g) = throws g
  send_memory (waits g) = waits g

  unfoldable pub cmd_read_mem : Str → Cmd (Stub D I) (Unit {0})
  unfolding send_memory
  cmd_read_mem cmdstr = do
    args ← need (substr_from 1 cmdstr)
    elim (split_at b',' args) [
      | none ↦ send_packet (codes "E01")
      | some (addr_s, length_s) ↦
          λ g. send_memory (on_backend (read_mem (hex_u32 addr_s) (hex_u32 length_s)) g)
    ]

  write_counted : ℕ → ℕ → List ℕ → Cmd (Stub D I) (Unit {0})
  write_counted addr count bytes =
      if length bytes == count
      then reply_rc (codes "OK") (codes "E03") (write_mem addr bytes)
      else send_packet (codes "E02")

  unfoldable pub cmd_write_mem : Str → Cmd (Stub D I) (Unit {0})
  unfolding write_counted
  cmd_write_mem cmdstr = do
    args ← need (substr_from 1 cmdstr)
    elim (split_at b':' args) [
      | none ↦ send_packet (codes "E01")
      | some (addr_length_str, data_str) ↦ elim (split_at b',' addr_length_str) [
        | none ↦ send_packet (codes "E01")
        | some (addr_s, length_s) ↦
            write_counted (hex_u32 addr_s) (hex_u32 length_s) (bytes_hex data_str)
      ]
    ]
