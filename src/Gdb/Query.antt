-- ===== src/Gdb/Query.antt =====
-- The queries that GDB asks of the stub itself (src/gdbstub.cpp).
pub mod Document
use vxdebug.Base.{
  ℕ, ◌+◌, ◌%◌, Bool, true, false, ◌||◌, List, [], ◌∷◌, ◌++◌, ltb, leb, if◌then◌else◌, Option, none,
  some, length, take, drop,
}
use vxdebug.Text.{Str, codes, str_eq}
use vxdebug.Text.Number.{hex_u32, dec}
use vxdebug.Util.{split_at, substr_from, tokenize}
use vxdebug.Base.Int.{ℤ, pos, negsuc}
use vxdebug.Run.{Run, ok, err, throws, waits, Cmd, pure, need, ◌>>=◌, ◌>>◌}
use vxdebug.Backend.State.{Backend}
use vxdebug.Gdb.State.{Stub, send_packet, with_backend, on_backend}
use vxdebug.Gdb.Access.{hex_bytes, bytes_hex}

unfoldable pub has_token : Str → List Str → Bool
has_token s [] = false
has_token s (u ∷ us) = str_eq u s || has_token s us

-- The marker and the part of the document for a request.
unfoldable pub xfer_reply : Str → ℕ → ℕ → Str
xfer_reply document offset count =
    if leb (length document) offset
    then codes "l"
    else (if ltb (offset + length (take count (drop offset document))) (length document)
        then b'm'
        else b'l')
      ∷ take count (drop offset document)

-- `%d`
abbrev dec_int : ℤ → Str
dec_int (pos n) = dec n
dec_int (negsuc n) = b'-' ∷ dec (1 + n)

module _ {D I : Type 0} where
  unfoldable pub cmd_supported : Str → Cmd (Stub D I) (Unit {0})
  unfolding has_token tokenize
  cmd_supported cmdstr = do
    args ← need (substr_from 11 cmdstr)
    send_packet (
        codes "PacketSize=4096;qXfer:features:read+;"
        ++ (if has_token (codes "swbreak+") (tokenize b';' args) then codes "swbreak+;" else []))

  unfoldable pub cmd_attached : Cmd (Stub D I) (Unit {0})
  cmd_attached = do send_packet (codes "1"); (λ g. ok tt (record g { is_attached = true }))

  unfoldable pub cmd_halted : Cmd (Stub D I) (Unit {0})
  cmd_halted = send_packet (codes "S05")

  unfoldable pub cmd_notfound : Cmd (Stub D I) (Unit {0})
  cmd_notfound = send_packet []

  -- The prefix has been seen by the dispatch; `document` is `target_xml`.
  unfoldable pub cmd_qxfer_features_read : Str → Str → Cmd (Stub D I) (Unit {0})
  unfolding xfer_reply
  cmd_qxfer_features_read document cmdstr = do
    range ← need (substr_from 31 cmdstr)
    elim (split_at b',' range) [
      | none ↦ send_packet (codes "E01")
      | some (offset_s, count_s) ↦
          send_packet (xfer_reply document (hex_u32 offset_s) (hex_u32 count_s))
    ]

  -- `execute_line` is `VortexDebugger::__execute_line`, which gives a code.
  unfoldable pub cmd_monitor : (Str → Cmd (Backend D) ℤ) → Str → Cmd (Stub D I) (Unit {0})
  cmd_monitor execute_line cmdstr = do
    args ← need (substr_from 6 cmdstr)
    rc ← on_backend (execute_line (bytes_hex args))
    send_packet (hex_bytes (codes "Monitor cmd executed with rc=" ++ (dec_int rc ++ 10 ∷ [])))
