-- ===== src/Cli/Help.antt =====
-- The list of commands that `help` shows (src/vxdebug.cpp).
use vxdebug.Base.{Bool, false, not, ◌&&◌, List, [], ◌∷◌, ◌++◌, if◌then◌else◌, Option, none, some}
use vxdebug.Text.{Str, codes, str_eq}
use vxdebug.Util.Pad.{pad_right, sorted_keys}
use vxdebug.Cli.Table.{
  Command, help, exit, init, transport, source, reset, info, halt, continue, select, stepi, inject,
  reg, mem, dmreg, break, gdbserver, param, Table, find,
}

-- The descriptions with which the commands are registered.
unfoldable pub description : Command → Str
description help = codes "Show this help message"
description exit = codes "Exit the debugger"
description init = codes "Initialize the target program"
description transport = codes "Set backend transport"
description source = codes "Execute commands from a script file"
description reset = codes "Reset the target system"
description info = codes "Display information about the target"
description halt = codes "Halt warps"
description continue = codes "Continue/resume warps"
description select = codes "Select current warp and thread"
description stepi = codes "Single step instruction"
description inject = codes "Inject instruction"
description reg = codes "Register operations"
description mem = codes "Memory operations"
description dmreg = codes "Debug module register operations"
description break = codes "Breakpoint operations"
description gdbserver = codes "Start GDB server"
description param = codes "Get/Set debugger parameters"

abbrev stands_for : Str → Option Str → Bool
stands_for primary none = false
stands_for primary (some p) = str_eq p primary

-- The other names that lead to a command.
unfoldable aliases_of : Table → Str → List Str → List Str
unfolding find str_eq
aliases_of t primary [] = []
aliases_of t primary (alias ∷ more) =
    let rest = aliases_of t primary more in
    if stands_for primary (find alias t.alias_map) && not (str_eq alias primary)
    then alias ∷ rest
    else rest

abbrev comma_separated : List Str → Str
comma_separated [] = []
comma_separated (alias ∷ more) = codes ", " ++ alias ++ comma_separated more

abbrev in_parentheses : List Str → Str
in_parentheses [] = []
in_parentheses (alias ∷ more) = codes " (" ++ alias ++ comma_separated more ++ codes ")"

abbrev described : Option Command → Str
described none = []
described (some c) = description c

-- `"  %-20s - %s\n"`
unfoldable help_lines : Table → List Str → Str
unfolding aliases_of sorted_keys find description
help_lines t [] = []
help_lines t (primary ∷ more) =
    (codes "  "
      ++ pad_right 20 (primary ++ in_parentheses (aliases_of t primary (sorted_keys t.alias_map)))
      ++ codes " - "
      ++ described (find primary t.command)
      ++ 10 ∷ [])
    ++ help_lines t more

unfoldable pub help_text : Option Table → Str
unfolding help_lines sorted_keys
help_text none = []
help_text (some t) = codes "Available commands:" ++ 10 ∷ help_lines t (sorted_keys t.command)
