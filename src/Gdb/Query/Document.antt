-- ===== src/Gdb/Query/Document.antt =====
-- A client that asks for the document part by part gets all of it.
use vxdebug.Base.{
  ℕ, zero, suc, ◌+◌, Bool, false, [], ◌∷◌, ◌++◌, length, take, drop, if◌then◌else◌, ◌==◌,
}
use vxdebug.Text.{Str}
use vxdebug.Gdb.Query.{xfer_reply}

-- What GDB does with a reply: the part, and whether more is to come.
abbrev pub more_of : Str → Bool
more_of [] = false
more_of (c ∷ part) = c == b'm'

abbrev pub part_of : Str → Str
part_of [] = []
part_of (c ∷ part) = part

-- The requests of a client that reads `count` bytes at a time, from `offset` on.
unfoldable pub read_document : Str → ℕ → ℕ → ℕ → Str
read_document document count zero offset = []
read_document document count (suc fuel) offset =
    let reply = xfer_reply document offset count in
    let rest = read_document document count fuel (offset + length (part_of reply)) in
    if more_of reply then part_of reply ++ rest else part_of reply

module _ (document : Str) (count : ℕ) where
  -- How far a part reaches.
  abbrev end_of : ℕ → ℕ
  end_of offset = offset + length (take count (drop offset document))
