-- ===== src/Cli/Execute.antt =====
-- Executing commands, lines and scripts, and the interactive loop (src/vxdebug.cpp). A script's
-- commands may run scripts: they are given as `Inner`, and `inner` ties the two together, down to a
-- depth of nested commands.
use vxdebug.Base.{ℕ, zero, suc, Bool, true, false, List, [], ◌∷◌, if◌then◌else◌, Option, none, some}
use vxdebug.Base.Int.{ℤ, pos, is_zero}
use vxdebug.Text.{Str, codes}
use vxdebug.Util.{tokenize, preprocess_commandline}
use vxdebug.Run.{Run, ok, err, throws, waits, Cmd, and_then, ◌>>=◌, ◌>>◌, need, pure, when}
use vxdebug.Target.{Target}
use vxdebug.Backend.Warps.{get_selected_warp_thread, get_warp_pc}
use vxdebug.Cli.Help.{help_text}
use vxdebug.Cli.Status.{prompt_text}
use vxdebug.Cli.{
  show, DbgState, stopped, running, exited, Console, Outside, rcode, returning, ignored, parsed,
}
use vxdebug.Cli.Table.{
  Command, help, exit, init, transport, source, reset, info, halt, continue, select, stepi, inject,
  reg, mem, dmreg, break, gdbserver, param, commands, resolve,
}
use vxdebug.Cli.Warps.{cmd_halt, cmd_continue, cmd_select, cmd_stepi, cmd_inject}
use vxdebug.Cli.Inspect.{cmd_reg, cmd_mem, cmd_dmreg, cmd_break, cmd_param, cmd_info}
use vxdebug.Cli.Session.{cmd_transport, cmd_exit, cmd_gdbserver, cmd_init, cmd_reset}

pub record Inner (D : Type 0) : Type 0 where
  pub execute_command : Str → List Str → Cmd (Console D) ℤ
  pub execute_script : Str → Cmd (Console D) ℤ

abbrev pub is_running : DbgState → Bool
is_running stopped = false
is_running running = true
is_running exited = false

-- `if (running_ != EXIT) running_ = STOPPED;`
abbrev pub after_loop : DbgState → DbgState
after_loop stopped = stopped
after_loop running = stopped
after_loop exited = exited

abbrev pub command_named : Str → Option Command
command_named cmd = elim commands [ none ↦ none | some table ↦ resolve cmd table ]

-- A blank line stands for the one before.
abbrev pub input_or : Str → Str → Str
input_or prev [] = prev
input_or prev (c ∷ s) = c ∷ s

module _ {D : Type 0} where
  -- The command's code; an exception leaves it at 1.
  abbrev pub caught : Run (Console D) ℤ → Run (Console D) ℤ
  caught (ok rc g) = ok rc g
  caught (err c g) = ok (rcode c) g
  caught (throws g) = ok (pos 1) g
  caught (waits g) = waits g

  -- A line without its comment: a blank one does nothing, and one that fails is the last.
  abbrev pub script_line :
      Str → (Str → Cmd (Console D) ℤ) → Cmd (Console D) (Unit {0}) → Cmd (Console D) (Unit {0})
  script_line [] run rest = rest
  script_line (c ∷ s) run rest = do rc ← run (c ∷ s); when (is_zero rc) rest

  abbrev pub input_line :
      Str → (Str → Cmd (Console D) ℤ) → Cmd (Console D) (Unit {0}) → Cmd (Console D) (Unit {0})
  input_line [] run rest = rest
  input_line (c ∷ s) run rest = do rc ← run (c ∷ s); rest

  unfoldable pub end_loop : Cmd (Console D) ℤ
  end_loop g = ok (pos 0) (record g { state = after_loop g.state })

module _ {D : Type 0} ⦃t : Target D⦄ (out : Outside D) where
  -- All commands, or the help of one: its own `--help`, whose code is not looked at.
  unfoldable pub cmd_help : Inner D → List Str → Cmd (Console D) ℤ
  unfolding help_text
  cmd_help within args = parsed (out.parse_args (codes "help") args) (λ a.
      elim (a.text (codes "command")) [
        | [] ↦ (do show (help_text commands); returning (pos 0))
        | c ∷ s ↦ (do
          rc ← within.execute_command (c ∷ s) ((c ∷ s) ∷ codes "--help" ∷ [])
          returning (pos 0))
      ])

  unfoldable pub cmd_source : Inner D → List Str → Cmd (Console D) ℤ
  cmd_source within args =
      parsed (out.parse_args (codes "source") args)
        (λ a. within.execute_script (a.text (codes "script_file")))

  unfoldable pub run_command : Inner D → Command → List Str → Cmd (Console D) ℤ
  unfolding cmd_help cmd_source
  run_command within help args = cmd_help within args
  run_command within exit args = cmd_exit
  run_command within init args = cmd_init out args
  run_command within transport args = cmd_transport out args
  run_command within source args = cmd_source within args
  run_command within reset args = cmd_reset out args
  run_command within info args = cmd_info out args
  run_command within halt args = cmd_halt out args
  run_command within continue args = cmd_continue out args
  run_command within select args = cmd_select out args
  run_command within stepi args = cmd_stepi out args
  run_command within inject args = cmd_inject out args
  run_command within reg args = cmd_reg out args
  run_command within mem args = cmd_mem out args
  run_command within dmreg args = cmd_dmreg out args
  run_command within break args = cmd_break out args
  run_command within gdbserver args = cmd_gdbserver out args
  run_command within param args = cmd_param out args

  unfoldable pub execute_command : Inner D → Str → List Str → Cmd (Console D) ℤ
  unfolding run_command
  execute_command within cmd args = do c ← need (command_named cmd); run_command within c args

  unfoldable pub run_tokens : Inner D → List Str → Cmd (Console D) ℤ
  unfolding execute_command
  run_tokens within [] g = ok (pos 0) g
  run_tokens within (cmd ∷ more) g = caught (execute_command within cmd (cmd ∷ more) g)

  unfoldable pub execute_line : Inner D → Str → Cmd (Console D) ℤ
  unfolding run_tokens tokenize
  execute_line within input = run_tokens within (tokenize b' ' input)

  -- The lines of a script.
  unfoldable pub script_loop : Inner D → List Str → Cmd (Console D) (Unit {0})
  unfolding execute_line preprocess_commandline
  script_loop within [] = pure tt
  script_loop within (raw ∷ more) = λ g.
      when (is_running g.state)
        (script_line (preprocess_commandline raw) (execute_line within) (script_loop within more)) g

  unfoldable pub run_script : Inner D → Option (List Str) → Cmd (Console D) ℤ
  unfolding script_loop end_loop
  run_script within none g = ok (pos 1) g
  run_script within (some lines) g =
      and_then (script_loop within lines (record g { state = running })) (λ _. end_loop)

  unfoldable pub execute_script : Inner D → Str → Cmd (Console D) ℤ
  unfolding run_script
  execute_script within filepath = run_script within (out.read_lines filepath)

  -- Commands within commands, to a depth.
  unfoldable pub inner : ℕ → Inner D
  unfolding execute_command execute_script
  inner zero = record {
    execute_command = λ cmd args g. waits g;
    execute_script = λ path g. waits g;
  }
  inner (suc depth) = record {
    execute_command = execute_command (inner depth);
    execute_script = execute_script (inner depth);
  }

  -- The prompt, and what it asks of the backend.
  unfoldable pub get_prompt : Cmd (Console D) Str
  unfolding prompt_text
  get_prompt g =
      if t.connected g.backend.target
      then (do
        selected ← ignored (out.unset_wid, out.unset_tid) (get_selected_warp_thread true)
        pc ← ignored out.unset_pc get_warp_pc
        pure (prompt_text true selected.0 selected.1 pc))
          g
      else ok (prompt_text false out.unset_wid out.unset_tid 0) g

  -- The interactive loop on the lines that the user gives; they end in the end of input.
  unfoldable pub cli_loop : Inner D → Str → List Str → Cmd (Console D) (Unit {0})
  unfolding get_prompt execute_line preprocess_commandline
  cli_loop within prev_input [] = λ g. when (is_running g.state) (do prompt ← get_prompt; pure tt) g
  cli_loop within prev_input (raw ∷ more) = λ g.
      when (is_running g.state)
        (do
          prompt ← get_prompt
          input_line (preprocess_commandline (input_or prev_input raw)) (execute_line within)
              (cli_loop within (input_or prev_input raw) more))
        g

  unfoldable pub start_cli : Inner D → List Str → Cmd (Console D) ℤ
  unfolding cli_loop end_loop
  start_cli within lines g =
      and_then (cli_loop within [] lines (record g { state = running })) (λ _. end_loop)
