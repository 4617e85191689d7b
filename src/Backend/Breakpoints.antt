-- ===== src/Backend/Breakpoints.antt =====
-- Software breakpoints (src/backend.cpp, "Breakpoint Management"). The hash table is an association
-- list with at most one entry for an address.
use vxdebug.Base.{
  ℕ, zero, suc, Bool, true, false, ◌&&◌, List, [], ◌∷◌, Option, none, some, ◌==◌, if◌then◌else◌,
}
use vxdebug.Base.Int.{pos}
use vxdebug.Text.{codes}
use vxdebug.Run.{ok, waits, Cmd, pure, need, ◌>>=◌, ◌>>◌, get_state, put_state}
use vxdebug.Target.{Target}
use vxdebug.Backend.State.{Backend, BreakPointInfo, WarpStatus}
use vxdebug.Backend.Memory.{read_mem, write_mem, word_bytes, bytes_word}
use vxdebug.Backend.Warps.{get_warp_summary, get_warp_status, select_warp_thread}
use vxdebug.Backend.Control.{resume_all_warps}

abbrev pub Table : Type 0
Table = List (ℕ × BreakPointInfo)

unfoldable pub lookup : ℕ → Table → Option BreakPointInfo
lookup a [] = none
lookup a ((k, v) ∷ t) = if k == a then some v else lookup a t

unfoldable pub erase : ℕ → Table → Table
erase a [] = []
erase a ((k, v) ∷ t) = if k == a then erase a t else (k, v) ∷ erase a t

-- `breakpoints_[addr] = info`
unfoldable pub insert : ℕ → BreakPointInfo → Table → Table
unfolding erase
insert a v t = (a, v) ∷ erase a t

-- The entry of an enabled breakpoint at an address.
unfoldable pub enabled_at : ℕ → Table → Option BreakPointInfo
unfolding lookup
enabled_at a t = elim (lookup a t) [ none ↦ none | some v ↦ if v.enabled then some v else none ]

unfoldable pub any_enabled : Table → Bool
any_enabled [] = false
any_enabled ((k, v) ∷ t) = if v.enabled then true else any_enabled t

abbrev pub new_breakpoint : ℕ → ℕ → BreakPointInfo
new_breakpoint addr instr = record {
  enabled = true;
  addr = addr;
  replaced_instr = instr;
  hit_count = 0;
}

-- The warps that halted because of a breakpoint, in order.
unfoldable pub halted_wids : List WarpStatus → List ℕ
halted_wids [] = []
halted_wids (w ∷ ws) =
    if w.halted && (w.hacause == 1) then w.wid ∷ halted_wids ws else halted_wids ws

module _ {D : Type 0} ⦃t : Target D⦄ where
  -- Where no breakpoint is enabled yet.
  unfoldable pub insert_breakpoint : ℕ → Cmd (Backend D) (Unit {0})
  insert_breakpoint addr = do
    instr_data ← read_mem addr 4
    ebreak ← need (t.assemble (codes "ebreak"))
    write_mem addr (word_bytes ebreak)
    b ← get_state
    put_state (record b {
      breakpoints = insert addr (new_breakpoint addr (bytes_word instr_data)) b.breakpoints;
    })

  unfoldable pub set_breakpoint : ℕ → Cmd (Backend D) (Unit {0})
  unfolding insert_breakpoint
  set_breakpoint addr b = elim (enabled_at addr b.breakpoints) [
    | some _ ↦ ok tt b
    | none ↦ insert_breakpoint addr b
  ]

  unfoldable pub restore_instruction : ℕ → BreakPointInfo → Cmd (Backend D) (Unit {0})
  restore_instruction addr info = do
    write_mem addr (word_bytes info.replaced_instr)
    b ← get_state
    put_state (record b { breakpoints = erase addr b.breakpoints })

  unfoldable pub remove_breakpoint : ℕ → Cmd (Backend D) (Unit {0})
  unfolding restore_instruction
  remove_breakpoint addr b = elim (enabled_at addr b.breakpoints) [
    | none ↦ ok tt b
    | some info ↦ restore_instruction addr info b
  ]

  unfoldable pub any_breakpoints : Cmd (Backend D) Bool
  any_breakpoints b = ok (any_enabled b.breakpoints) b

  unfoldable pub select_first : Bool → List ℕ → Cmd (Backend D) (Unit {0})
  select_first false wids = pure tt
  select_first true [] = pure tt
  select_first true (w ∷ ws) = select_warp_thread (pos w) (pos 0)

  -- The endless polling loop, for as many rounds as there is fuel; `waits` if it is still polling.
  unfoldable pub until_breakpoint : Bool → ℕ → Cmd (Backend D) (Unit {0})
  unfolding halted_wids select_first
  until_breakpoint auto_select zero = λ b. waits b
  until_breakpoint auto_select (suc rounds) = do
    s ← get_warp_summary
    (λ b. elim s.anyhalted [
      | false ↦ until_breakpoint auto_select rounds b
      | true ↦
          (do
            ws ← get_warp_status true true
            (λ c. elim (halted_wids ws) [
              | [] ↦ (do resume_all_warps; until_breakpoint auto_select rounds) c
              | w ∷ rest ↦ select_first auto_select (w ∷ rest) c
            ]))
            b
    ])
