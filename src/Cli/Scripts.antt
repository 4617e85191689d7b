-- ===== src/Cli/Scripts.antt =====
-- How lines, scripts and the interactive loop end (src/vxdebug.cpp).
use mathlib.Core.Path.{subst}
use vxdebug.Base.{ℕ, suc, ◌≡◌, refl, sym, ◌∙◌, Bool, true, false, List, [], ◌∷◌, ◌++◌, none, some}
use vxdebug.Base.Int.{ℤ, pos, is_zero}
use vxdebug.Text.{Str, codes}
use vxdebug.Util.{tokenize, preprocess_commandline}
use vxdebug.Run.{Run, ok, err, throws, waits, Cmd, and_then, when}
use vxdebug.Target.{Target}
use vxdebug.Cli.{DbgState, stopped, running, exited, Console, Arguments, options, Outside}
use vxdebug.Cli.Table.{source}
use vxdebug.Cli.Execute.{
  Inner, is_running, after_loop, command_named, caught, execute_command, run_command, cmd_source,
  run_tokens, script_line, run_script, execute_line, script_loop, execute_script, end_loop, inner,
  get_prompt, input_or, cli_loop,
}

-- The run returns with `P`, or still waits: it ends neither with a code nor with an exception.
pub data Settles {S A : Type 0} (P : A → S → Type 0) : Run S A → Type 0 where
  settled : {a : A} {s : S} → P a s → Settles P (ok a s)
  unsettled : {s : S} → Settles P (waits s)

Settles-and_then :
    {S A B : Type 0} {P : A → S → Type 0} {Q : B → S → Type 0} {r : Run S A} {k : A → Cmd S B}
    → Settles P r
    → ((a : A) (s : S) → P a s → Settles Q (k a s))
    → Settles Q (and_then r k)
unfolding and_then
Settles-and_then (settled {a} {s} h) f = f a s h
Settles-and_then unsettled f = unsettled

and_then-same :
    {S A B : Type 0} {P : A → S → Type 0} {r : Run S A} (k j : A → Cmd S B)
    → Settles P r
    → ((a : A) (s : S) → P a s → k a s ≡ j a s)
    → and_then r k ≡ and_then r j
unfolding and_then
and_then-same k j (settled {a} {s} h) f = f a s h
and_then-same k j unsettled f = refl

and_then-cong :
    {S A B : Type 0} (r : Run S A) (k j : A → Cmd S B)
    → ((a : A) (s : S) → k a s ≡ j a s)
    → and_then r k ≡ and_then r j
unfolding and_then
and_then-cong (ok a s) k j f = f a s
and_then-cong (err c s) k j f = refl
and_then-cong (throws s) k j f = refl
and_then-cong (waits s) k j f = refl

-- Nothing is said of the state.
abbrev pub Anything : {S A : Type 0} → A → S → Type 0
Anything a s = Unit {0}

Settles-when :
    {S : Type 0} (b : Bool) (m : Cmd S (Unit {0})) (s : S)
    → Settles Anything (m s)
    → Settles Anything (when b m s)
Settles-when true m s h = h
Settles-when false m s h = settled tt

caught-Settles : {D : Type 0} (r : Run (Console D) ℤ) → Settles Anything (caught r)
caught-Settles (ok rc g) = settled tt
caught-Settles (err c g) = settled tt
caught-Settles (throws g) = settled tt
caught-Settles (waits g) = unsettled

-- A script has returned 0, and the debugger does not run.
abbrev pub HasEnded : {D : Type 0} → ℤ → Console D → Type 0
HasEnded rc g = (rc ≡ pos 0) × (is_running g.state ≡ false)

caught-HasEnded :
    {D : Type 0} {r : Run (Console D) ℤ} → Settles HasEnded r → Settles HasEnded (caught r)
caught-HasEnded (settled h) = settled h
caught-HasEnded unsettled = unsettled

when-same :
    {S : Type 0} (b : Bool) (m n : Cmd S (Unit {0})) (s : S) → m s ≡ n s → when b m s ≡ when b n s
when-same true m n s e = e
when-same false m n s e = refl

module _ {D : Type 0} ⦃t : Target D⦄ (out : Outside D) where
  run_tokens-Settles :
      (within : Inner D) (toks : List Str) (g : Console D)
      → Settles Anything (run_tokens out within toks g)
  unfolding run_tokens
  run_tokens-Settles within [] g = settled tt
  run_tokens-Settles within (cmd ∷ more) g =
      caught-Settles (execute_command out within cmd (cmd ∷ more) g)

  -- A line, whatever it is, ends neither with an exception nor in any other way but returning a
  -- code or waiting; one whose command has no such name returns 1 and changes nothing.
  pub execute_line_lem :
      (within : Inner D) (input : Str) (g : Console D)
      → Settles Anything (execute_line out within input g)
        × ((cmd : Str) (more : List Str)
            → tokenize b' ' input ≡ cmd ∷ more
            → command_named cmd ≡ none
            → execute_line out within input g ≡ ok (pos 1) g)
  unfolding execute_line run_tokens execute_command and_then
  execute_line_lem within input g = (
    run_tokens-Settles within (tokenize b' ' input) g,
    (λ cmd more e unknown. rw (e, run_tokens, unknown) refl),
  )

  script_line-Settles :
      {rest : Cmd (Console D) (Unit {0})} (within : Inner D) (line : Str) (g : Console D)
      → ((h : Console D) → Settles Anything (rest h))
      → Settles Anything (script_line line (execute_line out within) rest g)
  unfolding and_then
  script_line-Settles within [] g next = next g
  script_line-Settles within (c ∷ s) g next =
      Settles-and_then ((execute_line_lem within (c ∷ s) g).0)
        (λ rc h _. Settles-when (is_zero rc) _ h (next h))

  script_loop-Settles :
      (within : Inner D) (lines : List Str) (g : Console D)
      → Settles Anything (script_loop out within lines g)
  unfolding script_loop
  script_loop-Settles within [] g = settled tt
  script_loop-Settles within (raw ∷ more) g =
      Settles-when (is_running g.state)
        (script_line (preprocess_commandline raw) (execute_line out within)
          (script_loop out within more))
        g
        (script_line-Settles within (preprocess_commandline raw) g
          (script_loop-Settles within more))

  end_loop-HasEnded : (g : Console D) → Settles HasEnded (end_loop g)
  unfolding end_loop
  end_loop-HasEnded g = settled (refl, not_running g.state)
    where
      not_running : (s : DbgState) → is_running (after_loop s) ≡ false
      not_running stopped = refl
      not_running running = refl
      not_running exited = refl

  run_script-HasEnded :
      (within : Inner D) (lines : List Str) (g : Console D)
      → Settles HasEnded (run_script out within (some lines) g)
  unfolding run_script
  run_script-HasEnded within lines g =
      Settles-and_then (script_loop-Settles within lines (record g { state = running }))
        (λ _ h _. end_loop-HasEnded h)

  -- A script whose file is there ends, if its commands do, with code 0 and with the debugger no
  -- longer running, whether it was running before or not and whichever of its lines failed.
  pub execute_script_lem :
      (within : Inner D) (filepath : Str) (lines : List Str) (g : Console D)
      → out.read_lines filepath ≡ some lines
      → Settles HasEnded (execute_script out within filepath g)
  unfolding execute_script
  execute_script_lem within filepath lines g e =
      subst (λ o. Settles HasEnded (run_script out within o g)) (sym e)
        (run_script-HasEnded within lines g)

  -- A line whose command is `source` of a file that is there.
  pub record Sources (line : Str) : Type 0 where
    pub cmd : Str
    pub more : List Str
    pub arguments : Arguments
    pub lines : List Str
    pub tokens : tokenize b' ' line ≡ cmd ∷ more
    pub named : command_named cmd ≡ some source
    pub accepted : out.parse_args (codes "source") (cmd ∷ more) ≡ options arguments
    pub there : out.read_lines (arguments.text (codes "script_file")) ≡ some lines

  source-HasEnded :
      (depth : ℕ) (line : Str) (g : Console D)
      → Sources line
      → Settles HasEnded (execute_line out (inner out (suc depth)) line g)
  unfolding execute_line run_tokens execute_command run_command cmd_source inner and_then
  source-HasEnded depth line g s =
      rw (s.tokens, run_tokens, s.named, s.accepted)
        (caught-HasEnded (execute_script_lem (inner out depth) _ s.lines g s.there))

  cli_loop-stopped :
      (within : Inner D) (prev : Str) (more : List Str) (g : Console D)
      → is_running g.state ≡ false
      → cli_loop out within prev more g ≡ ok tt g
  unfolding cli_loop
  cli_loop-stopped within prev [] g e = rw e refl
  cli_loop-stopped within prev (raw ∷ more) g e = rw e refl

  -- After a line that sources a script whose file is there, the interactive loop takes no more
  -- input: what the user would type next makes no difference.
  pub cli_loop-source :
      (depth : ℕ) (prev raw : Str) (more : List Str) (g : Console D) (c : ℕ) (s : Str)
      → preprocess_commandline (input_or prev raw) ≡ c ∷ s
      → Sources (c ∷ s)
      → cli_loop out (inner out (suc depth)) prev (raw ∷ more) g
        ≡ cli_loop out (inner out (suc depth)) prev (raw ∷ []) g
  unfolding cli_loop and_then
  cli_loop-source depth prev raw more g c s line h =
      let within = inner out (suc depth) in
      let next = input_or prev raw in
      rw (line) (
        when-same (is_running g.state) _ _ g (
          and_then-cong (get_prompt out g) _ _ (λ _ k.
            and_then-same _ _ (source-HasEnded depth (c ∷ s) k h) (λ rc k' ended.
              cli_loop-stopped within next more k' ended.1
              ∙ sym (cli_loop-stopped within next [] k' ended.1)))))

  -- The lines of a script that were carried out, and the debugger then.
  pub data Ran (within : Inner D) : List Str → Console D → Console D → Type 0 where
    none_yet : {g : Console D} → Ran within [] g g
    blank :
        {raw : Str} {more : List Str} {g h : Console D}
        → is_running g.state ≡ true
        → preprocess_commandline raw ≡ []
        → Ran within more g h
        → Ran within (raw ∷ more) g h
    succeeded :
        {raw : Str} {more : List Str} {g h k : Console D} (c : ℕ) (s : Str)
        → is_running g.state ≡ true
        → preprocess_commandline raw ≡ c ∷ s
        → execute_line out within (c ∷ s) g ≡ ok (pos 0) h
        → Ran within more h k
        → Ran within (raw ∷ more) g k

  Ran-script_loop :
      {within : Inner D} {before : List Str} {g h : Console D} (after : List Str)
      → Ran within before g h
      → script_loop out within (before ++ after) g ≡ script_loop out within after h
  unfolding script_loop and_then
  Ran-script_loop after none_yet = refl
  Ran-script_loop after (blank up e r) = rw (up, e) (Ran-script_loop after r)
  Ran-script_loop after (succeeded c s up e run r) = rw (up, e, run) (Ran-script_loop after r)

  -- A script whose lines succeed up to one that returns another code than 0 ends there with code
  -- 0, and the lines after it are not carried out.
  pub script-failed :
      (within : Inner D) (filepath : Str) (before after : List Str) (raw : Str) (g h k : Console D)
      (c : ℕ) (s : Str) (rc : ℤ)
      → out.read_lines filepath ≡ some (before ++ raw ∷ after)
      → Ran within before (record g { state = running }) h
      → is_running h.state ≡ true
      → preprocess_commandline raw ≡ c ∷ s
      → execute_line out within (c ∷ s) h ≡ ok rc k
      → is_zero rc ≡ false
      → execute_script out within filepath g ≡ ok (pos 0) (record k { state = after_loop k.state })
  unfolding execute_script run_script script_loop end_loop and_then
  script-failed within filepath before after raw g h k c s rc there r up line run bad =
      rw (there, run_script, Ran-script_loop (raw ∷ after) r, up, line, run, bad) refl
