-- ===== src/Tests/Main.antt =====
-- The program's entry and the logger at concrete inputs.
use vxdebug.Base.{◌≡◌, refl, arith, false, if◌then◌else◌, [], ◌∷◌, Option, none, some, true, ◌++◌}
use vxdebug.Base.Int.{pos, negsuc}
use vxdebug.Text.{codes, str_eq}
use vxdebug.Util.Split.{Avoids}
use vxdebug.Logger.{Globals, Logger, log_debug, log_internal, initial_globals}
use vxdebug.Logger.Colors.{plain_texts, PlainPrefixes, log_internal-colors}
use vxdebug.Cli.{Arguments, options}
use vxdebug.Cli.Scripts.{Settles}
use vxdebug.Main.{Program, Process, main}
use vxdebug.Main.Exit.{expected_code, main_lem}
use vxdebug.Sim.{Sim, sim_target}
use vxdebug.Tests.Cli.{console, outside}

-- `-s a.vx -v 2`
abbrev arguments : Arguments
arguments = record {
  text = λ n. if str_eq n (codes "script") then codes "a.vx" else [];
  texts = λ n. [];
  flag = λ n. false;
  number = λ n. pos 2;
}

abbrev program : Program Sim
program = record {
  parse_args = λ argv. options arguments;
  version = codes "v0.1";
  opens = λ path. false;
  out = record outside { read_lines = λ path. none };
  depth = 2;
}

abbrev process : Process Sim
process = record { console = console; log = initial_globals }

main_lem_example :
    Settles
      (λ rc g. rc ≡ expected_code false (codes "a.vx") none)
      (main program (codes "-s" ∷ codes "a.vx" ∷ []) (codes "exit" ∷ []) process)
unfolding str_eq
main_lem_example =
    main_lem program arguments (codes "exit" ∷ []) (codes "-s" ∷ codes "a.vx" ∷ []) process refl

abbrev gdb_logger : Option Logger
gdb_logger = some (record { prefix = codes "GDB"; debug_threshold = pos 4 })

abbrev verbose : Globals
verbose = record initial_globals { level = pos 5 }

Avoids-hi : Avoids 27 (codes "hi")
unfolding Avoids
Avoids-hi = (ground arith, (ground arith, tt))

gdb_logger-PlainPrefixes : PlainPrefixes gdb_logger verbose
unfolding PlainPrefixes Avoids
gdb_logger-PlainPrefixes = ((ground arith, (ground arith, (ground arith, tt))), tt)

log_internal-colors_example :
    plain_texts
      (log_internal gdb_logger log_debug
        (codes "hi")
        (negsuc 0)
        (record verbose { color_enabled = true })).written
    ≡ (log_internal gdb_logger log_debug
        (codes "hi")
        (negsuc 0)
        (record verbose { color_enabled = false })).written
log_internal-colors_example =
    log_internal-colors gdb_logger log_debug (codes "hi") (negsuc 0) verbose
      gdb_logger-PlainPrefixes Avoids-hi refl

debug_text :
    (log_internal gdb_logger log_debug
      (codes "hi")
      (negsuc 0)
      (record verbose { color_enabled = false })).written
    ≡ (none, codes "(GDB) [>] hi" ++ 10 ∷ []) ∷ []
unfolding log_internal
debug_text = refl
