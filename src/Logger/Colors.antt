-- ===== src/Logger/Colors.antt =====
-- Colored and plain messages (lib/logger.cpp, `log_internal`).
use vxdebug.Base.{
  ◌≡◌, refl, sym, ap, ◌∙◌, arith, Bool, true, false, not, List, [], ◌∷◌, ◌++◌, map, Option, none,
  some, ◌==◌, if◌then◌else◌, append_assoc,
}
use vxdebug.Base.Int.{ℤ}
use vxdebug.Text.{Str, codes}
use vxdebug.Util.Split.{Avoids}
use vxdebug.Logger.{
  LogLevel, log_error, log_warn, log_info, tag_clr, tag, msg_clr, Globals, Logger, prefix_text,
  rendered, log_internal, or_default, should_print, effective, ansi_rst,
}

-- A text without its escape sequences, each from an escape character to the next `m`; the flag tells
-- whether it begins within one.
unfoldable pub without_escapes : Bool → Str → Str
without_escapes within [] = []
without_escapes true (c ∷ s) = without_escapes (not (c == b'm')) s
without_escapes false (c ∷ s) = elim (c == 27) [
  | true ↦ without_escapes true s
  | false ↦ c ∷ without_escapes false s
]

-- A text with no escape character stays.
escapes-plain :
    (s t : Str) → Avoids 27 s → without_escapes false (s ++ t) ≡ s ++ without_escapes false t
unfolding without_escapes Avoids
escapes-plain [] t h = refl
escapes-plain (c ∷ s) t (ne, h) = ground (arith, escapes-plain s t h)

escapes-tag_clr :
    (lvl : LogLevel) (t : Str) → without_escapes false (tag_clr lvl ++ t) ≡ without_escapes false t
unfolding without_escapes tag_clr
escapes-tag_clr log_error t = refl
escapes-tag_clr log_warn t = refl
escapes-tag_clr log_info t = refl
escapes-tag_clr other t = refl

escapes-msg_clr :
    (lvl : LogLevel) (t : Str) → without_escapes false (msg_clr lvl ++ t) ≡ without_escapes false t
unfolding without_escapes msg_clr
escapes-msg_clr log_error t = refl
escapes-msg_clr log_warn t = refl
escapes-msg_clr log_info t = refl
escapes-msg_clr other t = refl

escapes-tag :
    (lvl : LogLevel) (t : Str)
    → without_escapes false (tag lvl ++ t) ≡ tag lvl ++ without_escapes false t
unfolding without_escapes tag
escapes-tag log_error t = refl
escapes-tag log_warn t = refl
escapes-tag log_info t = refl
escapes-tag other t = refl

escapes-prefix_text :
    (prefix t : Str)
    → Avoids 27 prefix
    → without_escapes false (prefix_text true prefix ++ t)
      ≡ prefix_text false prefix ++ without_escapes false t
unfolding without_escapes Avoids
escapes-prefix_text [] t h = refl
escapes-prefix_text (c ∷ s) t (ne, h) =
    ap (λ u. b'(' ∷ u)
      (ap (without_escapes false) (append_assoc (c ∷ s) (b')' ∷ ansi_rst ++ codes " ") t)
        ∙ escapes-plain (c ∷ s) ((b')' ∷ ansi_rst ++ codes " ") ++ t) (ne, h)
        ∙ sym (append_assoc (c ∷ s) (codes ") ") (without_escapes false t)))

escapes-rendered :
    (prefix : Str) (lvl : LogLevel) (msg : Str)
    → Avoids 27 prefix
    → Avoids 27 msg
    → without_escapes false (rendered true prefix lvl msg) ≡ rendered false prefix lvl msg
unfolding rendered without_escapes
escapes-rendered prefix lvl msg hp hm =
    escapes-prefix_text prefix _ hp
    ∙ ap (λ u. prefix_text false prefix ++ u)
        (ap (without_escapes false) (append_assoc (tag_clr lvl) (tag lvl ++ ansi_rst) _)
          ∙ escapes-tag_clr lvl _
          ∙ ap (without_escapes false) (append_assoc (tag lvl) ansi_rst _)
          ∙ escapes-tag lvl _
          ∙ ap (λ u. tag lvl ++ u)
              (escapes-msg_clr lvl (msg ++ (ansi_rst ++ 10 ∷ []))
                ∙ escapes-plain msg (ansi_rst ++ 10 ∷ []) hm))

Avoids-or_default :
    (prefix g_prefix : Str)
    → Avoids 27 prefix
    → Avoids 27 g_prefix
    → Avoids 27 (or_default prefix g_prefix)
Avoids-or_default [] g_prefix h k = k
Avoids-or_default (c ∷ s) g_prefix h k = h

-- The prefix of a message: the logger's own, or the global one.
abbrev prefix_of : Option Logger → Globals → Str
prefix_of self g = elim self [ none ↦ g.prefix | some l ↦ or_default l.prefix g.prefix ]

unfoldable pub PlainPrefixes : Option Logger → Globals → Type 0
PlainPrefixes none g = Avoids 27 g.prefix
PlainPrefixes (some l) g = Avoids 27 l.prefix × Avoids 27 g.prefix

Avoids-prefix_of :
    (self : Option Logger) (g : Globals) → PlainPrefixes self g → Avoids 27 (prefix_of self g)
unfolding PlainPrefixes
Avoids-prefix_of none g h = h
Avoids-prefix_of (some l) g (h, k) = Avoids-or_default l.prefix g.prefix h k

-- Where texts are written, and the texts without their escape sequences.
abbrev pub plain_texts : List (Option Str × Str) → List (Option Str × Str)
plain_texts = map λ w. (w.0, without_escapes false w.1)

by_printed :
    (printed : Bool) (g : Globals) (colored plain : Str)
    → g.written ≡ []
    → without_escapes false colored ≡ plain
    → plain_texts
        (if printed
          then record g { color_enabled = true; written = g.written ++ (g.file, colored) ∷ [] }
          else record g { color_enabled = true }).written
      ≡ (if printed
          then record g { color_enabled = false; written = g.written ++ (g.file, plain) ∷ [] }
          else record g { color_enabled = false }).written
by_printed true g colored plain empty e = rw (empty, e) refl
by_printed false g colored plain empty e = rw empty refl

-- With colors a message goes where it goes without, and without its escape sequences is the same
-- text, if neither the message nor the prefixes have an escape character. What is not printed with
-- colors is not printed without.
pub log_internal-colors :
    (self : Option Logger) (lvl : LogLevel) (msg : Str) (threshold : ℤ) (g : Globals)
    → PlainPrefixes self g
    → Avoids 27 msg
    → g.written ≡ []
    → plain_texts (log_internal self lvl msg threshold (record g { color_enabled = true })).written
      ≡ (log_internal self lvl msg threshold (record g { color_enabled = false })).written
unfolding log_internal
log_internal-colors self lvl msg threshold g hp hm empty =
    let debug_thr : ℤ = elim self [ none ↦ g.debug_threshold | some l ↦ l.debug_threshold ] in
    by_printed (should_print g.level lvl (effective debug_thr threshold)) g
      (rendered true (prefix_of self g) lvl msg) (rendered false (prefix_of self g) lvl msg) empty
      (escapes-rendered (prefix_of self g) lvl msg (Avoids-prefix_of self g hp) hm)
