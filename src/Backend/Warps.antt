-- ===== src/Backend/Warps.antt =====
-- Selecting warps and reading their state (src/backend.cpp, "Warp Selection" and "Query Warp
-- Status").
use vxdebug.Base.{
  ℕ, zero, suc, ◌+◌, ◌*◌, ◌/◌, ◌%◌, ◌^◌, bit_or, Bool, true, false, not, ◌&&◌, ◌||◌, List, [], ◌∷◌,
  ◌++◌, ◌==◌, leb, if◌then◌else◌, replicate, get_or, set,
}
use vxdebug.Base.Int.{ℤ, pos, is_negative, to_ℕ, to_int}
use vxdebug.Text.{codes}
use vxdebug.Run.{
  invalid_arg, ok, err, Cmd, pure, or_else, need, ◌>>=◌, ◌>>◌, get_state, put_state, when,
}
use vxdebug.Target.{Target}
use vxdebug.Dm.{dselect, wmask, wactive, wstatus, dctrl, dpc, extract_dmreg_field}
use vxdebug.Backend.State.{Backend, WarpStatus, WarpSummary}
use vxdebug.Backend.Dmreg.{check_selected, dmreg_rd, dmreg_wr, dmreg_rdfield, dmreg_wrfield}

-- How many 32-bit windows cover the warps.
abbrev pub num_windows : ℕ → ℕ
num_windows warps = (warps + 31) % 2 ^ 32 / 32

-- `(value >> bit) & 1`
abbrev pub bit_of : ℕ → ℕ → Bool
bit_of value bit = value / 2 ^ bit % 2 == 1

-- An identifier `w` with `w < 0 || w >= static_cast<int>(limit)`: a negative `int` bounds as 0 does.
abbrev pub is_invalid : ℕ → ℤ → Bool
is_invalid limit w = is_negative w || leb (to_ℕ (to_int limit)) (to_ℕ w)

-- `wid >= static_cast<int>(limit)`, the order of `int`s being that of the patterns with the sign
-- bit turned.
abbrev is_past : ℕ → ℕ → Bool
is_past limit wid = leb ((limit + 2 ^ 31) % 2 ^ 32) ((wid + 2 ^ 31) % 2 ^ 32)

-- One identifier's part in the window masks.
unfoldable pub add_warp : ℕ → List ℕ → ℤ → List ℕ
add_warp warps masks w =
    if is_invalid warps w
    then masks
    else set masks (to_ℕ w / 32) (bit_or (get_or masks (to_ℕ w / 32) 0) (2 ^ (to_ℕ w % 32)))

unfoldable pub add_warps : ℕ → List ℕ → List ℤ → List ℕ
unfolding add_warp
add_warps warps masks [] = masks
add_warps warps masks (w ∷ ws) = add_warps warps (add_warp warps masks w) ws

-- The masks that `select_warps` computes for a list of identifiers.
unfoldable pub window_masks : ℕ → List ℤ → List ℕ
unfolding add_warps
window_masks warps wids = add_warps warps (replicate (num_windows warps) 0) wids

module _ {D : Type 0} ⦃t : Target D⦄ where
  -- The windows from `i` on, with their masks.
  unfoldable pub write_masks : ℕ → List ℕ → Cmd (Backend D) (Unit {0})
  write_masks i [] = pure tt
  write_masks i (m ∷ ms) = do
    dmreg_wrfield dselect (codes "winsel") i
    dmreg_wrfield wmask (codes "mask") m
    write_masks (i + 1) ms

  unfoldable pub select_warps : List ℤ → Cmd (Backend D) (Unit {0})
  unfolding write_masks window_masks
  select_warps wids = do b ← get_state; write_masks 0 (window_masks b.platinfo.num_total_warps wids)

  unfoldable pub select_all_loop : Bool → ℕ → ℕ → Cmd (Backend D) (Unit {0})
  select_all_loop all i zero = pure tt
  select_all_loop all i (suc left) = do
    dmreg_wrfield dselect (codes "winsel") i
    dmreg_wr wmask (if all then 0xffff_ffff else 0)
    select_all_loop all (i + 1) left

  -- The overload of `select_warps` on a flag.
  unfoldable pub select_all_warps : Bool → Cmd (Backend D) (Unit {0})
  unfolding select_all_loop
  select_all_warps all = do
    b ← get_state
    select_all_loop all 0 (num_windows b.platinfo.num_total_warps)

  unfoldable pub get_warp_pc : Cmd (Backend D) ℕ
  unfolding check_selected
  get_warp_pc = do
    check_selected
    pc ← dmreg_rd dpc
    b ← get_state
    put_state (record b { selected_warp_pc = pc })
    pure pc

  unfoldable pub set_warp_pc : ℕ → Cmd (Backend D) (Unit {0})
  unfolding check_selected
  set_warp_pc pc = do
    check_selected
    dmreg_wr dpc pc
    b ← get_state
    put_state (record b { selected_warp_pc = pc })

  unfoldable pub get_warp_hacause : Cmd (Backend D) ℕ
  unfolding check_selected
  get_warp_hacause = do check_selected; dmreg_rdfield dctrl (codes "hacause")

  -- The writes to DSELECT for identifiers that were found valid; the result of refreshing the
  -- cached program counter is not looked at.
  unfoldable pub select_valid : ℤ → ℤ → Cmd (Backend D) (Unit {0})
  unfolding get_warp_pc
  select_valid wid tid = do
    dmreg_wrfield dselect (codes "warpsel") (to_ℕ wid)
    dmreg_wrfield dselect (codes "threadsel") (to_ℕ tid)
    b ← get_state
    put_state (record b { selected_wid = wid; selected_tid = tid })
    _ ← λ c. or_else 0 (get_warp_pc c)
    pure tt

  unfoldable pub select_warp_thread : ℤ → ℤ → Cmd (Backend D) (Unit {0})
  unfolding select_valid
  select_warp_thread wid tid b =
      if is_invalid b.platinfo.num_total_warps wid
      then err invalid_arg b
      else if is_invalid b.platinfo.num_threads tid
      then err invalid_arg b
      else select_valid wid tid b

  fetch_selected : Cmd (Backend D) (Unit {0})
  fetch_selected = do
    v ← dmreg_rd dselect
    w ← need (extract_dmreg_field dselect (codes "warpsel") v)
    h ← need (extract_dmreg_field dselect (codes "threadsel") v)
    b ← get_state
    put_state (record b { selected_wid = to_int w; selected_tid = to_int h })

  unfoldable pub get_selected_warp_thread : Bool → Cmd (Backend D) (ℤ × ℤ)
  unfolding fetch_selected
  get_selected_warp_thread force_fetch = do
    when force_fetch fetch_selected
    b ← get_state
    pure (b.selected_wid, b.selected_tid)

  valid_warp_state : ℕ → Cmd (Backend D) (Bool × Bool)
  valid_warp_state wid = do
    dmreg_wrfield dselect (codes "winsel") (wid / 32)
    a ← dmreg_rd wactive
    s ← dmreg_rd wstatus
    pure (bit_of a (wid % 32), bit_of s (wid % 32))

  -- Whether a warp is active, and whether it is halted.
  unfoldable pub get_warp_state : ℤ → Cmd (Backend D) (Bool × Bool)
  unfolding valid_warp_state
  get_warp_state wid b =
      if is_invalid b.platinfo.num_total_warps wid
      then err invalid_arg b
      else valid_warp_state (to_ℕ wid) b

  unfoldable pub get_warp_summary : Cmd (Backend D) WarpSummary
  get_warp_summary = do
    v ← dmreg_rd dctrl
    ah ← need (extract_dmreg_field dctrl (codes "allhalted") v)
    nh ← need (extract_dmreg_field dctrl (codes "anyhalted") v)
    ar ← need (extract_dmreg_field dctrl (codes "allrunning") v)
    nr ← need (extract_dmreg_field dctrl (codes "anyrunning") v)
    au ← need (extract_dmreg_field dctrl (codes "allunavail") v)
    nu ← need (extract_dmreg_field dctrl (codes "anyunavail") v)
    pure (record {
      allhalted = not (ah == 0);
      anyhalted = not (nh == 0);
      allrunning = not (ar == 0);
      anyrunning = not (nr == 0);
      allunavail = not (au == 0);
      anyunavail = not (nu == 0);
    })

  -- One value of `get_warp_status` that is fetched only where asked for, and only of a warp that
  -- does not run. The result of the selection before it is not looked at.
  read_stopped : Bool → ℕ → Cmd (Backend D) ℕ → Cmd (Backend D) ℕ
  read_stopped false wid fetch = pure 0xfafa_fafa
  read_stopped true wid fetch = do
    _ ← λ b. or_else tt (select_warp_thread (pos wid) (pos 0) b)
    fetch

  status_of : Bool → Bool → ℕ → ℕ → ℕ → Cmd (Backend D) WarpStatus
  unfolding read_stopped
  status_of with_pc with_cause a s wid = do
    let active = bit_of a (wid % 32)
    let halted = bit_of s (wid % 32)
    pc ← read_stopped (with_pc && (not active || halted)) wid get_warp_pc
    cause ← read_stopped (with_cause && (not active || halted)) wid get_warp_hacause
    pure (record { wid = wid; active = active; halted = halted; pc = pc; hacause = cause })

  -- The warps of one window from `wid` on, at most `left` of them.
  status_window : Bool → Bool → ℕ → ℕ → ℕ → ℕ → Cmd (Backend D) (List WarpStatus)
  unfolding status_of
  status_window with_pc with_cause a s wid zero = pure []
  status_window with_pc with_cause a s wid (suc left) = do
    b ← get_state
    (λ c. elim (is_past b.platinfo.num_total_warps wid) [
      | true ↦ ok [] c
      | false ↦
          (do
            w ← status_of with_pc with_cause a s wid
            ws ← status_window with_pc with_cause a s (wid + 1) left
            pure (w ∷ ws))
            c
    ])

  status_loop : Bool → Bool → ℕ → ℕ → Cmd (Backend D) (List WarpStatus)
  unfolding status_window
  status_loop with_pc with_cause win zero = pure []
  status_loop with_pc with_cause win (suc left) = do
    dmreg_wrfield dselect (codes "winsel") win
    a ← dmreg_rd wactive
    s ← dmreg_rd wstatus
    ws ← status_window with_pc with_cause a s (win * 32) 32
    rest ← status_loop with_pc with_cause (win + 1) left
    pure (ws ++ rest)

  -- The entries of `warp_status`, in the order of their keys.
  unfoldable pub get_warp_status : Bool → Bool → Cmd (Backend D) (List WarpStatus)
  unfolding status_loop
  get_warp_status with_pc with_cause = do
    b ← get_state
    ws ← status_loop with_pc with_cause 0 (num_windows b.platinfo.num_total_warps)
    when (not (is_negative b.selected_wid) && not (is_negative b.selected_tid))
        (select_warp_thread b.selected_wid b.selected_tid)
    pure ws
