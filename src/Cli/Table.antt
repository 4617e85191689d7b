-- ===== src/Cli/Table.antt =====
-- The commands' names and aliases, as the constructor of `VortexDebugger` registers them.
use vxdebug.Base.{List, [], ◌∷◌, if◌then◌else◌, Option, none, some}
use vxdebug.Text.{Str, codes, str_eq}

pub data Command : Type 0 where
  help exit init transport source reset info halt continue select stepi inject reg mem : Command
  dmreg break gdbserver param : Command

-- `find` in a map, and an insertion that replaces, as the first entry for a key counts.
unfoldable pub find {ℓ} : {A : Type ℓ} → Str → List (Str × A) → Option A
unfolding str_eq
find key [] = none
find key ((k, v) ∷ more) = if str_eq k key then some v else find key more

-- `command_` and `alias_map_`.
pub record Table : Type 0 where
  pub command : List (Str × Command)
  pub alias_map : List (Str × Str)

abbrev pub add_aliases : Str → List Str → List (Str × Str) → List (Str × Str)
add_aliases primary [] m = m
add_aliases primary (a ∷ more) m = add_aliases primary more ((a, primary) ∷ m)

-- `none` where it throws.
unfoldable pub register_command : Str → List Str → Command → Table → Option Table
unfolding find
register_command primary_name aliases c t = elim (find primary_name t.command) [
  | some _ ↦ none
  | none ↦ some (record {
    command = (primary_name, c) ∷ t.command;
    alias_map = add_aliases primary_name aliases ((primary_name, primary_name) ∷ t.alias_map);
  })
]

unfoldable pub register_all : List (Str × (List Str × Command)) → Table → Option Table
unfolding register_command
register_all [] t = some t
register_all ((name, (aliases, c)) ∷ more) t = elim (register_command name aliases c t) [
  | none ↦ none
  | some u ↦ register_all more u
]

abbrev pub no_commands : Table
no_commands = record { command = []; alias_map = [] }

abbrev pub registrations : List (Str × (List Str × Command))
registrations =
    (codes "help", (codes "h" ∷ [], help))
    ∷ (codes "exit", (codes "quit" ∷ codes "q" ∷ [], exit))
    ∷ (codes "init", ([], init))
    ∷ (codes "transport", (codes "t" ∷ [], transport))
    ∷ (codes "source", (codes "src" ∷ [], source))
    ∷ (codes "reset", (codes "R" ∷ [], reset))
    ∷ (codes "info", (codes "i" ∷ [], info))
    ∷ (codes "halt", (codes "h" ∷ [], halt))
    ∷ (codes "continue", (codes "c" ∷ [], continue))
    ∷ (codes "select", (codes "sel" ∷ [], select))
    ∷ (codes "stepi", (codes "s" ∷ [], stepi))
    ∷ (codes "inject", (codes "inj" ∷ [], inject))
    ∷ (codes "reg", (codes "r" ∷ [], reg))
    ∷ (codes "mem", (codes "m" ∷ [], mem))
    ∷ (codes "dmreg", (codes "d" ∷ [], dmreg))
    ∷ (codes "break", (codes "b" ∷ [], break))
    ∷ (codes "gdbserver", (codes "gdb" ∷ [], gdbserver))
    ∷ (codes "param", ([], param))
    ∷ []

-- The command that a name stands for; `none` where `execute_command` throws.
unfoldable pub resolve : Str → Table → Option Command
unfolding find
resolve cmd t = elim (find cmd t.alias_map) [
  | none ↦ none
  | some primary_cmd ↦ find primary_cmd t.command
]

-- The table after the constructor.
unfoldable pub commands : Option Table
unfolding register_all
commands = register_all registrations no_commands
