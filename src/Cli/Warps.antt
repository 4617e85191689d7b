-- ===== src/Cli/Warps.antt =====
-- The commands that halt, resume, select and step warps (src/vxdebug.cpp).
use vxdebug.Base.{
  ℕ, zero, suc, Bool, true, false, ◌||◌, List, [], ◌∷◌, ◌==◌, ltb, if◌then◌else◌, none, some,
}
use vxdebug.Base.Int.{ℤ, pos, negsuc, is_negative, to_ℕ}
use vxdebug.Text.{Str, codes}
use vxdebug.Text.Parse.{stoi}
use vxdebug.Util.Parse.{parse_uint}
use vxdebug.Run.{ok, err, throws, waits, warp_not_active, warp_not_halted, Cmd, throw, ◌>>=◌, ◌>>◌}
use vxdebug.Target.{Target}
use vxdebug.Backend.State.{Backend}
use vxdebug.Backend.Warps.{get_selected_warp_thread, get_warp_state, select_warp_thread}
use vxdebug.Backend.Control.{
  halt_warps, halt_all_warps, resume_warps, resume_all_warps, step_warp, inject_word,
}
use vxdebug.Backend.Registers.{inject_instruction}
use vxdebug.Backend.Breakpoints.{any_breakpoints, until_breakpoint}
use vxdebug.Cli.{Console, Outside, rcode, returning, check_errs, ignored, parsed}

-- How a list of warp IDs is read: to the end, or up to one that names no warp (`return 1`), or up to
-- one that `std::stoi` refuses, whose exception is no `std::runtime_error` and leaves the handler.
pub data WarpIds : Type 0 where
  warp_ids : List ℤ → WarpIds
  bad_warp bad_number : WarpIds

abbrev also : ℤ → WarpIds → WarpIds
also wid (warp_ids wids) = warp_ids (wid ∷ wids)
also wid bad_warp = bad_warp
also wid bad_number = bad_number

abbrev is_warp : ℕ → ℤ → Bool
is_warp total (pos n) = ltb n total
is_warp total (negsuc n) = false

unfoldable pub read_wids : ℕ → List Str → WarpIds
unfolding stoi
read_wids total [] = warp_ids []
read_wids total (s ∷ more) =
    let rest = read_wids total more in
    elim (stoi s) [
      | none ↦ bad_number
      | some wid ↦ if is_warp total wid then also wid rest else bad_warp
    ]

abbrev same_int : ℤ → ℤ → Bool
same_int (pos m) (pos n) = m == n
same_int (negsuc m) (negsuc n) = m == n
same_int (pos m) (negsuc n) = false
same_int (negsuc m) (pos n) = false

-- `std::find(…) != end()`
unfoldable pub has_wid : ℤ → List ℤ → Bool
has_wid w [] = false
has_wid w (x ∷ xs) = if same_int x w then true else has_wid w xs

-- The warps from `wid` on, so many of them, that are not listed.
unfoldable pub others : List ℤ → ℕ → ℕ → List ℤ
unfolding has_wid
others listed wid zero = []
others listed wid (suc n) =
    let rest = others listed (suc wid) n in
    if has_wid (pos wid) listed then rest else pos wid ∷ rest

-- All warps but those listed.
unfoldable pub all_except : ℕ → List ℤ → List ℤ
unfolding others
all_except total listed = others listed 0 total

module _ {D : Type 0} ⦃t : Target D⦄ where
  abbrev pub on_wids : WarpIds → (List ℤ → Cmd (Console D) ℤ) → Cmd (Console D) ℤ
  on_wids (warp_ids wids) k = k wids
  on_wids bad_warp k = returning (pos 1)
  on_wids bad_number k = throw

  abbrev pub done : Cmd (Backend D) (Unit {0}) → Cmd (Console D) ℤ
  done m = do ignored tt m; returning (pos 0)

  -- The branches of `cmd_halt` and `cmd_continue` but the first: the listed warps, all but those
  -- excluded, or the selected one.
  unfoldable pub for_warps :
      Outside D → (List ℤ → Cmd (Backend D) (Unit {0})) → List Str → List Str → Cmd (Console D) ℤ
  unfolding read_wids all_except
  for_warps out act (w ∷ wids) excluded g =
      on_wids (read_wids g.backend.platinfo.num_total_warps (w ∷ wids)) (λ l. done (act l)) g
  for_warps out act [] (e ∷ excluded) g =
      on_wids (read_wids g.backend.platinfo.num_total_warps (e ∷ excluded))
        (λ l. done (act (all_except g.backend.platinfo.num_total_warps l))) g
  for_warps out act [] [] g =
      (do
        selected ← ignored (out.unset_wid, out.unset_tid) (get_selected_warp_thread true)
        (if is_negative selected.0 then returning (pos 1) else done (act (selected.0 ∷ []))))
        g

  unfoldable pub cmd_halt : Outside D → List Str → Cmd (Console D) ℤ
  unfolding for_warps
  cmd_halt out args = parsed (out.parse_args (codes "halt") args) (λ a.
      if a.flag (codes "all")
      then done halt_all_warps
      else for_warps out halt_warps (a.texts (codes "wid")) (a.texts (codes "except")))

  -- Resuming all warps goes on until a breakpoint is hit, where there are any.
  unfoldable pub continue_all : Outside D → Cmd (Console D) ℤ
  continue_all out = do
    ignored tt resume_all_warps
    check_errs any_breakpoints
        (λ any. if any then done (until_breakpoint true out.rounds) else returning (pos 0))

  unfoldable pub cmd_continue : Outside D → List Str → Cmd (Console D) ℤ
  unfolding for_warps continue_all
  cmd_continue out args = parsed (out.parse_args (codes "continue") args) (λ a.
      if a.flag (codes "all")
      then continue_all out
      else for_warps out resume_warps (a.texts (codes "wid")) (a.texts (codes "except")))

  unfoldable pub cmd_select : Outside D → List Str → Cmd (Console D) ℤ
  cmd_select out args =
      parsed (out.parse_args (codes "select") args)
        (λ a. done (select_warp_thread (a.number (codes "wid")) (a.number (codes "tid"))))

  -- The steps that are left; a step that fails ends them.
  unfoldable pub step_loop : ℕ → Cmd (Console D) ℤ
  step_loop zero = returning (pos 0)
  step_loop (suc count) = λ g. elim (step_warp g.backend) [
    | ok _ b ↦ step_loop count (record g { backend = b })
    | err c b ↦ ok (pos 1) (record g { backend = b })
    | throws b ↦ throws (record g { backend = b })
    | waits b ↦ waits (record g { backend = b })
  ]

  unfoldable pub cmd_stepi : Outside D → List Str → Cmd (Console D) ℤ
  unfolding step_loop
  cmd_stepi out args =
      parsed (out.parse_args (codes "stepi") args)
        (λ a. step_loop (to_ℕ (a.number (codes "count"))))

  -- A text that is no number, or an injection that throws, is tried as assembly.
  unfoldable pub inject_text : Str → Cmd (Console D) ℤ
  unfolding parse_uint
  inject_text instr g = elim (parse_uint instr) [
    | none ↦ check_errs (inject_instruction instr) (λ _. returning (pos 0)) g
    | some w ↦ elim (inject_word w g.backend) [
      | ok _ b ↦ ok (pos 0) (record g { backend = b })
      | err c b ↦ ok (rcode c) (record g { backend = b })
      | throws b ↦
          check_errs (inject_instruction instr) (λ _. returning (pos 0)) (record g { backend = b })
      | waits b ↦ waits (record g { backend = b })
    ]
  ]

  unfoldable pub cmd_inject : Outside D → List Str → Cmd (Console D) ℤ
  unfolding inject_text
  cmd_inject out args = parsed (out.parse_args (codes "inject") args) (λ a. do
    selected ← ignored (out.unset_wid, out.unset_tid) (get_selected_warp_thread true)
    (if is_negative selected.0 || is_negative selected.1 then returning (pos 1) else (λ g.
        check_errs (get_warp_state g.backend.selected_wid)
          (λ active_halted.
            if active_halted.0
            then (if active_halted.1
                then inject_text (a.text (codes "instruction"))
                else returning (rcode warp_not_halted))
            else returning (rcode warp_not_active))
          g)))
