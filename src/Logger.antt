-- ===== src/Logger.antt =====
-- The logger, lib/logger.h and lib/logger.cpp: its settings, which messages it prints and how. The
-- mutex is left out.
pub mod Colors
use vxdebug.Base.{
  ℕ, zero, ◌+◌, ◌≤◌, Bool, true, false, ◌&&◌, List, [], ◌∷◌, ◌++◌, Option, none, some,
  if◌then◌else◌, leb,
}
use vxdebug.Base.Int.{ℤ, pos, negsuc, is_negative}
use vxdebug.Text.{Str, codes}

pub data LogLevel : Type 0 where
  log_error log_warn log_info log_debug log_debug1 log_debug2 log_debug3 : LogLevel
  log_debug4 log_debug5 log_debug6 : LogLevel

unfoldable pub level_number : LogLevel → ℕ
level_number log_error = 0
level_number log_warn = 1
level_number log_info = 2
level_number log_debug = 3
level_number log_debug1 = 4
level_number log_debug2 = 5
level_number log_debug3 = 6
level_number log_debug4 = 7
level_number log_debug5 = 8
level_number log_debug6 = 9

-- The texts of the `ANSI_*` macros.
abbrev pub ansi : Str → Str
ansi code = 27 ∷ (b'[' ∷ code ++ b'm' ∷ [])

abbrev pub ansi_rst : Str
ansi_rst = ansi (codes "0")

abbrev pub ansi_gry : Str
ansi_gry = ansi (codes "90")

abbrev pub ansi_cyn : Str
ansi_cyn = ansi (codes "36")

abbrev pub ansi_blu : Str
ansi_blu = ansi (codes "34")

abbrev pub ansi_ylw : Str
ansi_ylw = ansi (codes "33")

abbrev pub ansi_red : Str
ansi_red = ansi (codes "31")

abbrev pub ansi_grn : Str
ansi_grn = ansi (codes "32")

-- `tag_clr_tab`
unfoldable pub tag_clr : LogLevel → Str
tag_clr log_error = ansi_red
tag_clr log_warn = ansi_ylw
tag_clr log_info = ansi_cyn
tag_clr other = ansi_gry

-- `tag_tab`
unfoldable pub tag : LogLevel → Str
tag log_error = codes "[ERROR] "
tag log_warn = codes "[!] "
tag log_info = codes "[+] "
tag other = codes "[>] "

-- `msg_clr_tab`
unfoldable pub msg_clr : LogLevel → Str
msg_clr log_error = []
msg_clr log_warn = []
msg_clr log_info = []
msg_clr other = ansi_gry

-- The settings that all loggers share, and what was written: to the console and to files by their
-- paths. `g_level_` is cast from any number.
pub record Globals : Type 0 where
  pub prefix : Str
  pub level : ℤ
  pub debug_threshold : ℤ
  pub color_enabled : Bool
  pub file : Option Str
  pub written : List (Option Str × Str)

abbrev pub initial_globals : Globals
initial_globals = record {
  prefix = [];
  level = pos 2;
  debug_threshold = pos 3;
  color_enabled = true;
  file = none;
  written = [];
}

-- The members of a `Logger` that are read.
pub record Logger : Type 0 where
  pub prefix : Str
  pub debug_threshold : ℤ

-- `Logger::Logger`
abbrev pub logger : Str → ℤ → Globals → Logger
logger prefix debug_thr g = record {
  prefix = prefix;
  debug_threshold = if is_negative debug_thr then g.debug_threshold else debug_thr;
}

infix 50 ◌≤ℤ◌
abbrev pub ◌≤ℤ◌ : ℤ → ℤ → Bool
◌≤ℤ◌ (pos m) (pos n) = leb m n
◌≤ℤ◌ (pos m) (negsuc n) = false
◌≤ℤ◌ (negsuc m) (pos n) = true
◌≤ℤ◌ (negsuc m) (negsuc n) = leb n m

-- The instance's threshold stands where none is given.
unfoldable pub effective : ℤ → ℤ → ℤ
effective debug_thr (negsuc zero) = debug_thr
effective debug_thr threshold = threshold

unfoldable pub should_print : ℤ → LogLevel → ℤ → Bool
unfolding level_number
should_print level lvl threshold =
    if leb 3 (level_number lvl)
    then pos (level_number lvl) ≤ℤ level && threshold ≤ℤ level
    else pos (level_number lvl) ≤ℤ level

abbrev pub or_default : Str → Str → Str
or_default [] g_prefix = g_prefix
or_default (c ∷ s) g_prefix = c ∷ s

abbrev pub prefix_text : Bool → Str → Str
prefix_text colors [] = []
prefix_text true (c ∷ s) = ansi_gry ++ (b'(' ∷ (c ∷ s) ++ (b')' ∷ ansi_rst ++ codes " "))
prefix_text false (c ∷ s) = b'(' ∷ (c ∷ s) ++ codes ") "

unfoldable pub rendered : Bool → Str → LogLevel → Str → Str
unfolding tag_clr tag msg_clr
rendered true prefix lvl msg =
    prefix_text true prefix
    ++ ((tag_clr lvl ++ (tag lvl ++ ansi_rst)) ++ (msg_clr lvl ++ (msg ++ (ansi_rst ++ 10 ∷ []))))
rendered false prefix lvl msg = prefix_text false prefix ++ (tag lvl ++ (msg ++ 10 ∷ []))

-- `log_internal`; `none` for the null pointer of the global methods.
unfoldable pub log_internal : Option Logger → LogLevel → Str → ℤ → Globals → Globals
unfolding should_print effective rendered
log_internal self lvl msg threshold g =
    let debug_thr : ℤ = elim self [ none ↦ g.debug_threshold | some l ↦ l.debug_threshold ] in
    let prefix : Str = elim self [ none ↦ g.prefix | some l ↦ or_default l.prefix g.prefix ] in
    if should_print g.level lvl (effective debug_thr threshold)
    then record g { written = g.written ++ (g.file, rendered g.color_enabled prefix lvl msg) ∷ [] }
    else g

unfoldable pub set_global_level : ℤ → Globals → Globals
set_global_level level g = record g { level = level }

unfoldable pub set_global_debug_threshold : ℤ → Globals → Globals
set_global_debug_threshold thr g = record g { debug_threshold = thr }

unfoldable pub set_color_enabled : Bool → Globals → Globals
set_color_enabled enable g = record g { color_enabled = enable }

-- `opens` tells whether the file can be opened; if not, messages go to the console. The warning
-- about it goes to `std::cerr`.
unfoldable pub set_output_file : (Str → Bool) → Str → Globals → Globals
set_output_file opens path g = record g { file = if opens path then some path else none }

unfoldable pub close_output_file : Globals → Globals
close_output_file g = record g { file = none }

-- The global methods.
unfoldable pub gerror : Str → Globals → Globals
unfolding log_internal
gerror msg = log_internal none log_error msg (pos 3)

unfoldable pub gwarn : Str → Globals → Globals
unfolding log_internal
gwarn msg = log_internal none log_warn msg (pos 3)

unfoldable pub ginfo : Str → Globals → Globals
unfolding log_internal
ginfo msg = log_internal none log_info msg (pos 3)

unfoldable pub gdebug : Str → ℤ → Globals → Globals
unfolding log_internal
gdebug msg threshold = log_internal none log_debug msg threshold

-- The methods of one logger.
unfoldable pub error : Logger → Str → Globals → Globals
unfolding log_internal
error self msg = log_internal (some self) log_error msg (pos 3)

unfoldable pub warn : Logger → Str → Globals → Globals
unfolding log_internal
warn self msg = log_internal (some self) log_warn msg (pos 3)

unfoldable pub info : Logger → Str → Globals → Globals
unfolding log_internal
info self msg = log_internal (some self) log_info msg (pos 3)

unfoldable pub debug : Logger → Str → ℤ → Globals → Globals
unfolding log_internal
debug self msg threshold = log_internal (some self) log_debug msg threshold
