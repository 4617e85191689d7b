-- ===== src/Cli/Status.antt =====
-- The table of warps that `info` shows (src/vxdebug.cpp), and the prompt's text.
use vxdebug.Base.{
  ℕ, suc, ◌+◌, ◌/◌, ◌%◌, Bool, true, false, ◌||◌, List, [], ◌∷◌, ◌++◌, ◌==◌, if◌then◌else◌, take,
}
use vxdebug.Base.Int.{ℤ, pos}
use vxdebug.Text.{Str, codes, str_eq}
use vxdebug.Text.Number.{dec, hex}
use vxdebug.Util.Dump.{hex_upper}
use vxdebug.Util.Pad.{pad_left, pad_right}
use vxdebug.Logger.{ansi_rst, ansi_gry, ansi_blu, ansi_ylw, ansi_red, ansi_grn}
use vxdebug.Backend.State.{WarpStatus}

unfoldable pub hacause_tostr : ℕ → Str
hacause_tostr hacause =
    if hacause == 0
    then codes "None"
    else if hacause == 1
    then codes "Ebreak"
    else if hacause == 2
    then codes "Halt Requested"
    else if hacause == 3
    then codes "Step Requested"
    else if hacause == 4
    then codes "Reset Halt Requested"
    else codes "Unknown"

-- How a warp is shown, by whether it is active and whether it is halted.
record Look : Type 0 where
  active_clr : Str
  active_str : Str
  haltrun_clr : Str
  haltrun_str : Str
  show_values : Bool

unfoldable look : Bool → Bool → Look
look true halted = record {
  active_clr = ansi_grn;
  active_str = codes "Active";
  haltrun_clr = if halted then ansi_red else ansi_grn;
  haltrun_str = if halted then codes "Halted" else codes "Running";
  show_values = halted;
}
look false halted = record {
  active_clr = ansi_ylw;
  active_str = codes "Inactive";
  haltrun_clr = ansi_gry;
  haltrun_str = if halted then codes "Halted" else codes "Unhalted";
  show_values = true;
}

-- `0x%08X`
abbrev word_text : ℕ → Str
word_text v = codes "0x" ++ hex_upper 8 v

unfoldable long_line : ℕ → WarpStatus → Look → Str
unfolding hacause_tostr
long_line num_warps w l =
    codes "  (Core:"
    ++ dec (w.wid / num_warps)
    ++ codes ") Warp "
    ++ pad_left 2 (dec w.wid)
    ++ codes ": "
    ++ l.active_clr
    ++ pad_right 8 l.active_str
    ++ ansi_rst
    ++ codes " "
    ++ l.haltrun_clr
    ++ pad_right 8 l.haltrun_str
    ++ ansi_rst
    ++ codes "  PC="
    ++ ansi_blu
    ++ (if l.show_values then word_text w.pc ++ codes " " else codes "0x________ ")
    ++ ansi_rst
    ++ (if l.show_values
        then codes "(Cause " ++ hex w.hacause ++ codes ": " ++ hacause_tostr w.hacause ++ codes ")"
        else [])
    ++ 10 ∷ []

unfoldable short_entry : ℕ → WarpStatus → Look → Str
unfolding hacause_tostr
short_entry num_warps w l =
    pad_left 3 (dec w.wid)
    ++ codes ":"
    ++ l.active_clr
    ++ take 1 l.active_str
    ++ ansi_rst
    ++ codes ","
    ++ l.haltrun_clr
    ++ take 1 l.haltrun_str
    ++ ansi_rst
    ++ codes ":"
    ++ ansi_blu
    ++ (if l.show_values then word_text w.pc else codes "0x________")
    ++ ansi_rst
    ++ (if l.show_values then codes "," ++ take 1 (hacause_tostr w.hacause) else codes "  ")
    ++ codes "  "
    ++ (if (w.wid + 1) % num_warps == 0 then 10 ∷ [] else [])

unfoldable is_among : Str → List Str → Bool
unfolding str_eq
is_among wid [] = false
is_among wid (w ∷ ws) = str_eq w wid || is_among wid ws

-- `wids.empty()`, or the warp is among those asked for.
unfoldable is_listed : List Str → Str → Bool
unfolding is_among
is_listed [] wid = true
is_listed (w ∷ ws) wid = is_among wid (w ∷ ws)

unfoldable pub listed_warps : List Str → List WarpStatus → List WarpStatus
unfolding is_listed
listed_warps wids [] = []
listed_warps wids (w ∷ ws) =
    let rest = listed_warps wids ws in if is_listed wids (dec w.wid) then w ∷ rest else rest

unfoldable pub count_halted : List WarpStatus → ℕ
count_halted [] = 0
count_halted (w ∷ ws) = if w.halted then suc (count_halted ws) else count_halted ws

unfoldable pub count_warps : List WarpStatus → ℕ
count_warps [] = 0
count_warps (w ∷ ws) = suc (count_warps ws)

unfoldable pub warp_lines : Bool → ℕ → List WarpStatus → Str
unfolding look long_line short_entry
warp_lines long_format num_warps [] = []
warp_lines long_format num_warps (w ∷ ws) =
    (if long_format
      then long_line num_warps w (look w.active w.halted)
      else short_entry num_warps w (look w.active w.halted))
    ++ warp_lines long_format num_warps ws

-- The warps asked for; where there are warps, a core has some, so nothing is divided by 0.
unfoldable pub warps_text : Bool → ℕ → List Str → List WarpStatus → Str
unfolding listed_warps count_warps count_halted warp_lines
warps_text long_format num_warps wids warps =
    let shown = listed_warps wids warps in
    codes "Warp Status: "
    ++ 10
      ∷ (codes "Showing status for "
          ++ dec (count_warps shown)
          ++ codes " warps: (Halted: "
          ++ dec (count_halted shown)
          ++ codes " warps)"
          ++ 10 ∷ warp_lines long_format num_warps shown)

-- `get_prompt`, by whether the transport is connected, the selection and its program counter.
unfoldable pub prompt_text : Bool → ℤ → ℤ → ℕ → Str
prompt_text connected (pos wid) (pos tid) pc =
    ansi_grn
    ++ (if connected
        then 0xe2 ∷ 0x97 ∷ 0x8f ∷ codes " vxdbg [W"
          ++ dec wid
          ++ codes ":T"
          ++ dec tid
          ++ codes ", PC="
          ++ word_text pc
          ++ codes "]"
        else 0xe2 ∷ 0x97 ∷ 0x8b ∷ codes " vxdbg")
    ++ codes "> "
    ++ ansi_rst
prompt_text connected wid tid pc =
    ansi_grn
    ++ (if connected
        then 0xe2 ∷ 0x97 ∷ 0x8f ∷ codes " vxdbg"
        else 0xe2 ∷ 0x97 ∷ 0x8b ∷ codes " vxdbg")
    ++ codes "> "
    ++ ansi_rst
