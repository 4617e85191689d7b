-- ===== src/Main.antt =====
-- The program's entry, `main` of src/main.cpp. What the debugger itself logs is left out; what
-- main prints and logs stands in `written` of the logger's settings.
pub mod Exit
use vxdebug.Base.{ℕ, Bool, true, false, ◌||◌, List, [], ◌∷◌, ◌++◌, Option, none, if◌then◌else◌}
use vxdebug.Base.Int.{ℤ, pos, is_zero}
use vxdebug.Text.{Str, codes}
use vxdebug.Run.{Run, ok, err, throws, waits, Cmd, ◌>>=◌, ◌>>◌}
use vxdebug.Target.{Target}
use vxdebug.Logger.{
  Globals, set_color_enabled, set_global_level, set_global_debug_threshold, set_output_file, ginfo,
  gerror, ansi_ylw, ansi_rst,
}
use vxdebug.Cli.{
  DbgState, stopped, running, exited, Console, Arguments, Parsed, refused, options, Outside,
}
use vxdebug.Cli.Inspect.{int_text}
use vxdebug.Cli.Execute.{inner, execute_script, start_cli}

-- What lies outside: the argument parser, the version that the build sets, which files can be
-- opened, what the interpreter needs, and how deep commands may stand within commands.
pub record Program (D : Type 0) : Type 0 where
  pub parse_args : List Str → Parsed
  pub version : Str
  pub opens : Str → Bool
  pub out : Outside D
  pub depth : ℕ

-- The debugger and the logger's settings.
pub record Process (D : Type 0) : Type 0 where
  pub console : Console D
  pub log : Globals

abbrev line : Str → Str
line s = s ++ 10 ∷ []

abbrev pub banner : Str
banner =
    line (codes "+--------------------------------------------------------------------------+")
    ++ line (codes "| Vortex Debugger                                                          |")
    ++ line (
        codes "| Copyright "
        ++ 0xc2 ∷ 0xa9 ∷ codes " 2019-2023                                                    |")
    ++ line (codes "|                                                                          |")
    ++ line (codes "| Licensed under the Apache License, Version 2.0 (the \"License\");          |")
    ++ line (codes "| you may not use this file except in compliance with the License.         |")
    ++ line (codes "| You may obtain a copy of the License at                                  |")
    ++ line (codes "| http://www.apache.org/licenses/LICENSE-2.0                               |")
    ++ line (codes "|                                                                          |")
    ++ line (codes "| Unless required by applicable law or agreed to in writing, software      |")
    ++ line (codes "| distributed under the License is distributed on an \"AS IS\" BASIS,        |")
    ++ line (codes "| WITHOUT WARRANTIES OR CONDITIONS OF ANY KIND, either express or implied. |")
    ++ line (codes "| See the License for the specific language governing permissions and      |")
    ++ line (codes "| limitations under the License.                                           |")
    ++ line (codes "+--------------------------------------------------------------------------+")

abbrev pub is_exited : DbgState → Bool
is_exited stopped = false
is_exited running = false
is_exited exited = true

-- `std::cout << s`
unfoldable pub print : Str → Globals → Globals
print s g = record g { written = g.written ++ (none, s) ∷ [] }

unfoldable pub log_to : (Str → Bool) → Str → Globals → Globals
unfolding ginfo set_output_file
log_to opens [] g = g
log_to opens (c ∷ s) g =
    set_output_file opens (c ∷ s) (ginfo (codes "Logging to file: " ++ c ∷ s) g)

-- From the logger's options to the banner.
unfoldable pub set_up : (Str → Bool) → Arguments → Globals → Globals
unfolding set_color_enabled set_global_level set_global_debug_threshold log_to print
set_up opens a g =
    let colored = if a.flag (codes "no_color") then set_color_enabled false g else g in
    let verbosity = a.number (codes "verbose") in
    let leveled = set_global_debug_threshold verbosity (set_global_level verbosity colored) in
    let filed = log_to opens (a.text (codes "log")) leveled in
    if a.flag (codes "no_banner") then filed else print (ansi_ylw ++ (banner ++ ansi_rst)) filed

module _ {D : Type 0} where
  -- A call of the debugger.
  abbrev pub on_console :
      Process D → Run (Console D) ℤ → (ℤ → Cmd (Process D) ℤ) → Run (Process D) ℤ
  on_console g (ok rc c) k = k rc (record g { console = c })
  on_console g (err e c) k = err e (record g { console = c })
  on_console g (throws c) k = throws (record g { console = c })
  on_console g (waits c) k = waits (record g { console = c })

  abbrev pub logging : (Globals → Globals) → Process D → Process D
  logging f g = record g { log = f g.log }

  -- An exception is logged (its text is left out), and leaves the code at 0.
  abbrev pub fatal : Run (Process D) ℤ → Run (Process D) ℤ
  fatal (ok rc g) = ok rc g
  fatal (err c g) = err c g
  fatal (throws g) = ok (pos 0) (logging (gerror (codes "Fatal error: ")) g)
  fatal (waits g) = waits g

  unfoldable pub report : Str → ℤ → Cmd (Process D) ℤ
  unfolding gerror
  report what rc g =
      if is_zero rc then ok rc g else ok rc (logging (gerror (what ++ int_text rc)) g)

module _ {D : Type 0} ⦃t : Target D⦄ (p : Program D) where
  -- The interactive loop on the lines that the user gives.
  unfoldable pub interact : Arguments → List Str → Cmd (Process D) ℤ
  unfolding report
  interact a input g =
      if a.flag (codes "no_cli") || is_exited g.console.state
      then ok (pos 0) g
      else on_console g (start_cli p.out (inner p.out p.depth) input g.console)
          (report (codes "CLI exited with code "))

  -- After the script.
  unfoldable pub after_script : Arguments → List Str → ℤ → Cmd (Process D) ℤ
  unfolding interact report
  after_script a input rc g =
      if is_zero rc
      then interact a input g
      else report (codes "Script execution failed with code ") rc g

  unfoldable pub run_session : Arguments → List Str → Str → Cmd (Process D) ℤ
  unfolding after_script
  run_session a input [] g = interact a input g
  run_session a input (c ∷ s) g =
      on_console g (execute_script p.out (inner p.out p.depth) (c ∷ s) g.console)
        (after_script a input)

  unfoldable pub run_options : Arguments → List Str → Cmd (Process D) ℤ
  unfolding set_up run_session print ginfo
  run_options a input g =
      if a.flag (codes "version")
      then ok (pos 0) (logging (print (codes "Vortex Debugger " ++ (p.version ++ 10 ∷ []))) g)
      else fatal (
          run_session a input (a.text (codes "script")) (
            logging
              (λ l. ginfo (codes "Starting Vortex Debugger " ++ p.version) (set_up p.opens a l)) g))

  unfoldable pub main : List Str → List Str → Cmd (Process D) ℤ
  unfolding run_options
  main argv input g = elim (p.parse_args argv) [
    | refused rc ↦ ok rc g
    | options a ↦ run_options a input g
  ]
