-- ===== src/Cli/Inspect.antt =====
-- The commands that read and write registers, memory and breakpoints (src/vxdebug.cpp).
use vxdebug.Base.{
  ℕ, ◌+◌, ◌%◌, ◌^◌, Bool, true, ◌||◌, List, [], ◌∷◌, ◌++◌, if◌then◌else◌, Option, none, some,
}
use vxdebug.Base.Int.{ℤ, pos, negsuc, to_u32}
use vxdebug.Text.{Str, codes, str_eq}
use vxdebug.Text.Number.{dec}
use vxdebug.Util.{tokenize}
use vxdebug.Util.Parse.{parse_uint}
use vxdebug.Util.Dump.{hex_upper, hexdump}
use vxdebug.Run.{Cmd, need, ◌>>=◌, ◌>>◌}
use vxdebug.Target.{Target}
use vxdebug.Dm.{get_dmreg_id}
use vxdebug.Backend.State.{Backend}
use vxdebug.Backend.Dmreg.{dmreg_rd, dmreg_wr}
use vxdebug.Backend.Warps.{get_warp_status}
use vxdebug.Backend.Registers.{read_reg, write_reg}
use vxdebug.Backend.Memory.{read_mem, write_mem}
use vxdebug.Backend.Breakpoints.{set_breakpoint, remove_breakpoint}
use vxdebug.Backend.Describe.{get_platform_info_str}
use vxdebug.Backend.Params.{set_param, get_param}
use vxdebug.Cli.Status.{warps_text}
use vxdebug.Cli.{Console, Arguments, Outside, returning, show, check_errs, ignored, parsed}

abbrev pub is_one_of : Str → Str → Str → Bool
is_one_of s short long = str_eq s short || str_eq s long

-- `%d`
abbrev pub int_text : ℤ → Str
int_text (pos n) = dec n
int_text (negsuc n) = b'-' ∷ dec (1 + n)

abbrev pub reg_text : Str → ℕ → Str
reg_text name v =
    codes "Register " ++ name ++ codes " = 0x" ++ hex_upper 8 v ++ codes " (" ++ dec v ++ codes ")"

abbrev pub mem_text : ℕ → ℤ → Bool → Bool → List ℕ → Str
mem_text address length bytes ascii contents =
    codes "Read "
    ++ int_text length
    ++ codes " bytes from address 0x"
    ++ hex_upper 8 address
    ++ codes ":"
    ++ 10
      ∷ (if bytes then hexdump contents address 1 16 ascii else hexdump contents address 4 4 ascii)

-- The bytes of a comma-separated list; `none` where `parse_uint` throws.
unfoldable pub byte_list : List Str → Option (List ℕ)
unfolding parse_uint
byte_list [] = some []
byte_list (s ∷ more) =
    let rest = byte_list more in
    elim (parse_uint s) [
      | none ↦ none
      | some v ↦ elim rest [ none ↦ none | some vs ↦ some (v % 2 ^ 8 ∷ vs) ]
    ]

abbrev pub dmreg_text : Str → ℕ → Str
dmreg_text name v = codes "Rd DM[" ++ name ++ codes "]: 0x" ++ hex_upper 8 v

abbrev pub param_text : Str → Str → Str
param_text name value = codes "Parameter " ++ name ++ codes " = " ++ value

module _ {D : Type 0} ⦃t : Target D⦄ where
  abbrev zero_after : Cmd (Backend D) (Unit {0}) → Cmd (Console D) ℤ
  zero_after m = check_errs m (λ _. returning (pos 0))

  unfoldable pub cmd_reg : Outside D → List Str → Cmd (Console D) ℤ
  unfolding str_eq parse_uint
  cmd_reg out args = parsed (out.parse_args (codes "reg") args) (λ a.
      let operation = a.text (codes "operation") in
      let name = a.text (codes "name") in
      if is_one_of operation (codes "r") (codes "read")
      then check_errs (read_reg name) (λ v. do show (reg_text name v); returning (pos 0))
      else if is_one_of operation (codes "w") (codes "write")
      then (do v ← need (parse_uint (a.text (codes "value"))); zero_after (write_reg name v))
      else returning (pos 1))

  unfoldable pub load_file : ℕ → Option (List ℕ) → Cmd (Console D) ℤ
  load_file address none = returning (pos 1)
  load_file address (some bytes) = zero_after (write_mem address bytes)

  unfoldable pub mem_operation : Outside D → Arguments → ℕ → Cmd (Console D) ℤ
  unfolding str_eq tokenize byte_list load_file
  mem_operation out a address =
      let operation = a.text (codes "operation") in
      let length = a.number (codes "length") in
      if is_one_of operation (codes "r") (codes "read")
      then check_errs (read_mem address (to_u32 length)) (λ bytes. do
        show (mem_text address length (a.flag (codes "bytes")) (a.flag (codes "ascii")) bytes)
        returning (pos 0))
      else if is_one_of operation (codes "w") (codes "write")
      then (do
        bytes ← need (byte_list (tokenize b',' (a.text (codes "value"))))
        zero_after (write_mem address bytes))
      else if str_eq operation (codes "loadbin")
      then load_file address (out.read_file (a.text (codes "value")))
      else returning (pos 1)

  unfoldable pub cmd_mem : Outside D → List Str → Cmd (Console D) ℤ
  unfolding mem_operation parse_uint
  cmd_mem out args =
      parsed (out.parse_args (codes "mem") args) (λ a. do
        address ← need (parse_uint (a.text (codes "address")))
        mem_operation out a address)

  unfoldable pub cmd_dmreg : Outside D → List Str → Cmd (Console D) ℤ
  unfolding str_eq parse_uint get_dmreg_id
  cmd_dmreg out args = parsed (out.parse_args (codes "dmreg") args) (λ a.
      let operation = a.text (codes "operation") in
      let name = a.text (codes "name") in
      if is_one_of operation (codes "r") (codes "read")
      then (do
        r ← need (get_dmreg_id name)
        check_errs (dmreg_rd r) (λ v. do show (dmreg_text name v); returning (pos 0)))
      else if is_one_of operation (codes "w") (codes "write")
      then (do
        v ← need (parse_uint (a.text (codes "value")))
        r ← need (get_dmreg_id name)
        zero_after (dmreg_wr r v))
      else returning (pos 1))

  -- The address is needed; the breakpoint's own code is not looked at.
  unfoldable pub break_at : (ℕ → Cmd (Backend D) (Unit {0})) → Str → Cmd (Console D) ℤ
  unfolding parse_uint
  break_at act [] = returning (pos 1)
  break_at act (c ∷ s) = do
    address ← need (parse_uint (c ∷ s))
    ignored tt (act address)
    returning (pos 0)

  unfoldable pub cmd_break : Outside D → List Str → Cmd (Console D) ℤ
  unfolding str_eq break_at
  cmd_break out args = parsed (out.parse_args (codes "break") args) (λ a.
      let operation = a.text (codes "operation") in
      if str_eq operation (codes "set")
      then break_at set_breakpoint (a.text (codes "address"))
      else if str_eq operation (codes "del")
      then break_at remove_breakpoint (a.text (codes "address"))
      else if str_eq operation (codes "ls")
      then returning (pos 0)
      else returning (pos 1))

  -- A text that is empty stops the command.
  abbrev pub given : Str → Cmd (Console D) ℤ → Cmd (Console D) ℤ
  given [] k = returning (pos 1)
  given (c ∷ s) k = k

  unfoldable pub cmd_param : Outside D → List Str → Cmd (Console D) ℤ
  unfolding str_eq set_param get_param
  cmd_param out args = parsed (out.parse_args (codes "param") args) (λ a.
      let operation = a.text (codes "operation") in
      let name = a.text (codes "param_name") in
      let value = a.text (codes "param_value") in
      if str_eq operation (codes "get")
      then given name
          (λ g. (do show (param_text name (get_param name g.backend)); returning (pos 0)) g)
      else if str_eq operation (codes "set")
      then given name (given value (do ignored tt (set_param name value); returning (pos 0)))
      else returning (pos 1))

  -- A failure to fetch the status is not looked at; the source then shows the warps that it had
  -- fetched before, which are not known here.
  unfoldable pub cmd_info : Outside D → List Str → Cmd (Console D) ℤ
  unfolding str_eq get_warp_status get_platform_info_str warps_text
  cmd_info out args = parsed (out.parse_args (codes "info") args) (λ a.
      let info_type = a.text (codes "info_type") in
      if is_one_of info_type (codes "warps") (codes "w")
      then (do
        warp_status ← ignored [] (get_warp_status true true)
        (λ g.
            (do
              show (
                  warps_text (a.flag (codes "long")) g.backend.platinfo.num_warps
                    (a.texts (codes "wid")) warp_status)
              returning (pos 0))
              g))
      else if is_one_of info_type (codes "platform") (codes "p")
      then (λ g.
          (do
            show (codes "Platform Information:" ++ 10 ∷ get_platform_info_str g.backend.platinfo)
            returning (pos 0))
            g)
      else returning (pos 1))
