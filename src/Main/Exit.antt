-- ===== src/Main/Exit.antt =====
-- With which code the program ends (src/main.cpp).
use vxdebug.Base.{
  ◌≡◌, refl, inl, inr, Bool, true, false, ◌||◌, List, [], ◌∷◌, Option, none, some, Bool-cases,
}
use vxdebug.Base.Int.{ℤ, pos}
use vxdebug.Text.{Str, codes}
use vxdebug.Util.{preprocess_commandline}
use vxdebug.Run.{Run, ok, err, throws, waits, Cmd, and_then, when}
use vxdebug.Target.{Target}
use vxdebug.Backend.State.{Backend}
use vxdebug.Backend.Warps.{get_selected_warp_thread, get_warp_pc}
use vxdebug.Cli.{Console, Arguments, options, Outside, regardless}
use vxdebug.Cli.Execute.{
  Inner, is_running, inner, execute_line, execute_script, run_script, get_prompt, input_or,
  input_line, cli_loop, start_cli, end_loop,
}
use vxdebug.Cli.Scripts.{Settles, settled, unsettled, execute_line_lem, execute_script_lem}
use vxdebug.Main.{
  Program, Process, on_console, fatal, report, interact, after_script, run_session, run_options,
  main, is_exited,
}

-- The run does not end with an error code; where it returns, it is with `P`.
data Finishes {S A : Type 0} (P : A → S → Type 0) : Run S A → Type 0 where
  finished : {a : A} {s : S} → P a s → Finishes P (ok a s)
  thrown : {s : S} → Finishes P (throws s)
  unfinished : {s : S} → Finishes P (waits s)

Finishes-and_then :
    {S A B : Type 0} {P : A → S → Type 0} {Q : B → S → Type 0} {r : Run S A} {k : A → Cmd S B}
    → Finishes P r
    → ((a : A) (s : S) → P a s → Finishes Q (k a s))
    → Finishes Q (and_then r k)
unfolding and_then
Finishes-and_then (finished {a} {s} h) f = f a s h
Finishes-and_then thrown f = thrown
Finishes-and_then unfinished f = unfinished

Finishes-Settles :
    {S A : Type 0} {P Q : A → S → Type 0} {r : Run S A}
    → Settles P r
    → ((a : A) (s : S) → P a s → Q a s)
    → Finishes Q r
Finishes-Settles (settled {a} {s} h) f = finished (f a s h)
Finishes-Settles unsettled f = unfinished

abbrev Anything : {S A : Type 0} → A → S → Type 0
Anything a s = Unit {0}

-- The code is 0.
abbrev pub IsZero : {S : Type 0} → ℤ → S → Type 0
IsZero rc s = rc ≡ pos 0

Finishes-regardless :
    {D A : Type 0} (g : Console D) (before : A) (r : Run (Backend D) A)
    → Finishes Anything (regardless g before r)
Finishes-regardless g before (ok a b) = finished tt
Finishes-regardless g before (err c b) = finished tt
Finishes-regardless g before (throws b) = thrown
Finishes-regardless g before (waits b) = unfinished

Finishes-when :
    {S : Type 0} (b : Bool) (m : Cmd S (Unit {0})) (s : S)
    → Finishes Anything (m s)
    → Finishes Anything (when b m s)
Finishes-when true m s h = h
Finishes-when false m s h = finished tt

module _ {D : Type 0} ⦃t : Target D⦄ (out : Outside D) where
  get_prompt-Finishes : (g : Console D) → Finishes Anything (get_prompt out g)
  unfolding get_prompt
  get_prompt-Finishes g = elim (Bool-cases (t.connected g.backend.target)) [
    | inl e ↦
        rw (get_prompt, e)
          (Finishes-and_then
            (Finishes-regardless g (out.unset_wid, out.unset_tid)
              (get_selected_warp_thread true g.backend))
            (λ a h _.
              Finishes-and_then (Finishes-regardless h out.unset_pc (get_warp_pc h.backend))
                (λ b k _. finished tt)))
    | inr e ↦ rw (get_prompt, e) (finished tt)
  ]

  input_line-Finishes :
      {rest : Cmd (Console D) (Unit {0})} (within : Inner D) (line : Str) (g : Console D)
      → ((h : Console D) → Finishes Anything (rest h))
      → Finishes Anything (input_line line (execute_line out within) rest g)
  input_line-Finishes within [] g next = next g
  input_line-Finishes within (c ∷ s) g next =
      Finishes-and_then (Finishes-Settles (execute_line_lem out within (c ∷ s) g).0 (λ _ _ _. tt))
        (λ rc h _. next h)

  cli_loop-Finishes :
      (within : Inner D) (prev : Str) (lines : List Str) (g : Console D)
      → Finishes Anything (cli_loop out within prev lines g)
  unfolding cli_loop
  cli_loop-Finishes within prev [] g =
      Finishes-when (is_running g.state) _ g
        (Finishes-and_then (get_prompt-Finishes g) (λ _ h _. finished tt))
  cli_loop-Finishes within prev (raw ∷ more) g = Finishes-when (is_running g.state) _ g (
      Finishes-and_then (get_prompt-Finishes g) (λ _ h _.
        input_line-Finishes within (preprocess_commandline (input_or prev raw)) h
          (cli_loop-Finishes within (input_or prev raw) more)))

  start_cli-Finishes :
      (within : Inner D) (lines : List Str) (g : Console D)
      → Finishes IsZero (start_cli out within lines g)
  unfolding start_cli end_loop
  start_cli-Finishes within lines g =
      Finishes-and_then (cli_loop-Finishes within [] lines _) (λ _ h _. finished refl)

  -- The code of a script is 0 if its file is there.
  execute_script-Finishes :
      (within : Inner D) (path : Str) (lines : List Str) (g : Console D)
      → out.read_lines path ≡ some lines
      → Finishes IsZero (execute_script out within path g)
  execute_script-Finishes within path lines g e =
      Finishes-Settles (execute_script_lem out within path lines g e) (λ rc h k. k.0)

-- The code with which main ends, by the `--version` option, the path of the script (empty for none)
-- and its lines (`none` where the file cannot be read): 1 for a script that is not there, else 0.
pub expected_code : Bool → Str → Option (List Str) → ℤ
expected_code true script lines = pos 0
expected_code false [] lines = pos 0
expected_code false (c ∷ s) (some lines) = pos 0
expected_code false (c ∷ s) none = pos 1

module _ {D : Type 0} where
  Finishes-on_console :
      {P : ℤ → Console D → Type 0} {Q : ℤ → Process D → Type 0} {r : Run (Console D) ℤ}
      (g : Process D) (k : ℤ → Cmd (Process D) ℤ)
      → Finishes P r
      → ((rc : ℤ) (c : Console D) → P rc c → Finishes Q (k rc (record g { console = c })))
      → Finishes Q (on_console g r k)
  Finishes-on_console g k (finished {a} {s} h) f = f a s h
  Finishes-on_console g k thrown f = thrown
  Finishes-on_console g k unfinished f = unfinished

  Settles-fatal : {r : Run (Process D) ℤ} → Finishes IsZero r → Settles IsZero (fatal r)
  Settles-fatal (finished h) = settled h
  Settles-fatal thrown = settled refl
  Settles-fatal unfinished = unsettled

module _ {D : Type 0} ⦃t : Target D⦄ (p : Program D) (a : Arguments) (input : List Str) where
  interact-Finishes : (g : Process D) → Finishes IsZero (interact p a input g)
  unfolding interact report
  interact-Finishes g = elim (Bool-cases (a.flag (codes "no_cli") || is_exited g.console.state)) [
    | inl e ↦ rw (interact, e) (finished refl)
    | inr e ↦
        rw (interact, e)
          (Finishes-on_console g _ (start_cli-Finishes p.out (inner p.out p.depth) input g.console)
            (λ rc c zero. rw zero (finished refl)))
  ]

  session-there :
      (path : Str) (lines : List Str) (g : Process D)
      → p.out.read_lines path ≡ some lines
      → Finishes IsZero (run_session p a input path g)
  unfolding run_session after_script
  session-there [] lines g e = interact-Finishes g
  session-there (c ∷ s) lines g e =
      Finishes-on_console g _
        (execute_script-Finishes p.out (inner p.out p.depth) (c ∷ s) lines g.console e)
        (λ rc k zero. rw zero (interact-Finishes (record g { console = k })))

  session-code :
      (path : Str) (there : Option (List Str)) (g : Process D)
      → p.out.read_lines path ≡ there
      → Settles (λ rc h. rc ≡ expected_code false path there) (fatal (run_session p a input path g))
  unfolding expected_code run_session execute_script run_script after_script report
  session-code [] there g e = Settles-fatal (interact-Finishes g)
  session-code (c ∷ s) none g e = rw (run_session, execute_script, e) (settled refl)
  session-code (c ∷ s) (some lines) g e = Settles-fatal (session-there (c ∷ s) lines g e)

  options-code :
      (version : Bool) (g : Process D)
      → a.flag (codes "version") ≡ version
      → Settles
          (λ rc h.
            rc
            ≡ expected_code version
                (a.text (codes "script"))
                (p.out.read_lines (a.text (codes "script"))))
          (run_options p a input g)
  unfolding expected_code run_options
  options-code true g e = rw (run_options, e) (settled refl)
  options-code false g e = rw (run_options, e) (session-code (a.text (codes "script")) _ _ refl)

  -- With options that the parser accepts, main ends, if it does not wait, with the code expected of
  -- `--version` and the script alone: 1 if there is a script whose file cannot be read, else 0,
  -- whatever a script, the interactive loop or an exception brought about.
  pub main_lem :
      (argv : List Str) (g : Process D)
      → p.parse_args argv ≡ options a
      → Settles
          (λ rc h.
            rc
            ≡ expected_code
                (a.flag (codes "version"))
                (a.text (codes "script"))
                (p.out.read_lines (a.text (codes "script"))))
          (main p argv input g)
  unfolding main
  main_lem argv g accepted = rw (main, accepted) (options-code (a.flag (codes "version")) g refl)
