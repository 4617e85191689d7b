-- ===== src/Tests/Cli.antt =====
-- The command interpreter on the simulated target.
use vxdebug.Base.{
  ℕ, ◌≡◌, refl, false, ◌&&◌, not, List, [], ◌∷◌, none, some, ltb, if◌then◌else◌, take, ◌++◌, arith,
}
use vxdebug.Base.Int.{ℤ, pos}
use vxdebug.Text.{Str, codes, str_eq}
use vxdebug.Text.Number.{skip_spaces, starts_digit, read_digits}
use vxdebug.Text.Parse.{stoi, read_number}
use vxdebug.Util.{tokenize, preprocess_commandline, strip, lstrip, rstrip, split_at}
use vxdebug.Run.{ok}
use vxdebug.Backend.Control.{halt_warps}
use vxdebug.Cli.{Console, Arguments, options, Outside, stopped, running}
use vxdebug.Cli.Help.{help_text}
use vxdebug.Cli.Table.{commands, resolve, find, register_command, register_all}
use vxdebug.Cli.Warps.{read_wids, has_wid, cmd_halt, done}
use vxdebug.Cli.Execute.{inner, execute_line, execute_script, cli_loop, command_named}
use vxdebug.Cli.Selection.{Excepts, cmd_halt-except}
use vxdebug.Cli.Scripts.{
  Settles, Anything, HasEnded, Sources, none_yet, execute_line_lem, execute_script_lem,
  cli_loop-source, script-failed,
}
use vxdebug.Sim.{Sim, sim_target}
use vxdebug.Tests.Hart.{backend}

abbrev pub console : Console Sim
console = record { backend = backend; state = stopped; shown = [] }

-- `halt --except 1`, `source a.vx`, and no other options.
abbrev pub arguments : Arguments
arguments = record {
  text = λ n. if str_eq n (codes "script_file") then codes "a.vx" else [];
  texts = λ n. if str_eq n (codes "except") then codes "1" ∷ [] else [];
  flag = λ n. false;
  number = λ n. pos 0;
}

abbrev pub outside : Outside Sim
outside = record {
  parse_args = λ name args. options arguments;
  read_lines = λ path. some (codes "foo" ∷ codes "exit" ∷ []);
  read_file = λ path. none;
  transport_setup = λ type b. ok tt b;
  transport_connect = λ args b. ok tt b;
  serve_forever = λ port g. ok (pos 0) g;
  unset_wid = pos 0;
  unset_tid = pos 0;
  unset_pc = 0;
  rounds = 3;
}

arguments-Excepts : Excepts arguments
unfolding str_eq
arguments-Excepts = record {
  first = codes "1";
  more = [];
  not_all = refl;
  none_listed = refl;
  listed = refl;
}

cmd_halt-except_example :
    (ws : List ℤ) × (cmd_halt outside (codes "halt" ∷ []) console ≡ done (halt_warps ws) console)
    × ((w : ℕ) → has_wid (pos w) ws ≡ (ltb w 4 && not (has_wid (pos w) (pos 1 ∷ []))))
unfolding arguments-Excepts read_wids stoi skip_spaces read_number starts_digit read_digits
cmd_halt-except_example =
    cmd_halt-except outside (codes "halt" ∷ []) arguments (pos 1 ∷ []) console arguments-Excepts
      refl (omega arith) refl

execute_line_lem_example :
    Settles Anything (execute_line outside (inner outside 2) (codes "foo") console)
    × ((cmd : Str) (more : List Str)
        → tokenize b' ' (codes "foo") ≡ cmd ∷ more
        → command_named cmd ≡ none
        → execute_line outside (inner outside 2) (codes "foo") console ≡ ok (pos 1) console)
execute_line_lem_example = execute_line_lem outside (inner outside 2) (codes "foo") console

execute_script_lem_example :
    Settles HasEnded (execute_script outside (inner outside 2) (codes "a.vx") console)
execute_script_lem_example =
    execute_script_lem outside (inner outside 2) (codes "a.vx") (codes "foo" ∷ codes "exit" ∷ [])
      console refl

sourcing : Sources outside (codes "src a.vx")
unfolding tokenize commands register_all register_command find resolve str_eq
sourcing = record {
  cmd = codes "src";
  more = codes "a.vx" ∷ [];
  arguments = arguments;
  lines = codes "foo" ∷ codes "exit" ∷ [];
  tokens = refl;
  named = refl;
  accepted = refl;
  there = refl;
}

cli_loop-source_example :
    cli_loop outside (inner outside 3) [] (codes "src a.vx" ∷ codes "halt" ∷ []) console
    ≡ cli_loop outside (inner outside 3) [] (codes "src a.vx" ∷ []) console
unfolding preprocess_commandline strip lstrip rstrip split_at
cli_loop-source_example =
    cli_loop-source outside 2 [] (codes "src a.vx") (codes "halt" ∷ []) console b's'
      (codes "rc a.vx") refl sourcing

script-failed_example :
    execute_script outside (inner outside 2) (codes "a.vx") console
    ≡ ok (pos 0) (record console { state = stopped })
unfolding preprocess_commandline strip lstrip rstrip split_at tokenize commands register_all
    register_command find resolve str_eq
script-failed_example =
    script-failed outside (inner outside 2) (codes "a.vx") [] (codes "exit" ∷ []) (codes "foo")
      console (record console { state = running }) (record console { state = running }) b'f'
      (codes "oo") (pos 1) refl none_yet refl refl
      ((execute_line_lem outside (inner outside 2) (codes "foo")
          (record console { state = running })).1
        (codes "foo") [] refl refl)
      refl

help_table :
    take 147 (help_text commands)
    ≡ codes "Available commands:"
      ++ 10
        ∷ (codes "  break (b)            - Breakpoint operations"
            ++ 10
              ∷ (codes "  continue (c)         - Continue/resume warps"
                  ++ 10 ∷ codes "  dmreg (d)            - Debug mo"))
unfolding help_text commands register_all register_command find str_eq
help_table = refl
