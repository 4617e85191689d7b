-- ===== src/Gdb/State.antt =====
-- The members of `GDBStub` (src/gdbstub.h), and how its handlers reach the backend and the client.
use vxdebug.Base.{ℕ, ◌+◌, ◌%◌, Bool, List, [], ◌∷◌, ◌++◌, ◌==◌, if◌then◌else◌}
use vxdebug.Text.{Str, codes}
use vxdebug.Text.Number.{hex_padded}
use vxdebug.Run.{Run, ok, err, throws, waits, Cmd}
use vxdebug.Backend.State.{Backend}

-- `sent` is what was given to `TCPServer::send_data`, in order; when that throws, the stub logs it
-- and goes on.
pub record Stub (D I : Type 0) : Type 0 where
  pub backend : Backend D
  pub client : I
  pub sent : List Str
  pub is_attached : Bool
  pub thread_map : List (ℕ × (ℕ × ℕ))
  pub thread_enum_cursor : ℕ

-- The sum of the bytes, a `char` being signed; modulo 256 its sign makes no difference.
unfoldable pub byte_sum : Str → ℕ
byte_sum [] = 0
byte_sum (c ∷ s) = (c + byte_sum s) % 256

unfoldable pub checksum_str : Str → Str
unfolding byte_sum
checksum_str msg = hex_padded 2 (byte_sum msg)

-- What `%s` prints of `msg.c_str()`: the text up to its first NUL.
unfoldable pub until_nul : Str → Str
until_nul [] = []
until_nul (c ∷ s) = if c == 0 then [] else c ∷ until_nul s

unfoldable pub packetify : Str → Str
unfolding checksum_str until_nul
packetify msg = b'$' ∷ until_nul msg ++ b'#' ∷ checksum_str msg

module _ {D I : Type 0} where
  unfoldable pub send_data : Str → Cmd (Stub D I) (Unit {0})
  send_data bytes g = ok tt (record g { sent = g.sent ++ bytes ∷ [] })

  unfoldable pub send_packet : Str → Cmd (Stub D I) (Unit {0})
  unfolding packetify send_data
  send_packet msg = send_data (packetify msg)

  unfoldable pub send_ack : Cmd (Stub D I) (Unit {0})
  unfolding send_data
  send_ack = send_data (codes "+")

  -- A call of the backend.
  abbrev pub with_backend : {A : Type 0} → Stub D I → Run (Backend D) A → Run (Stub D I) A
  with_backend g (ok a b) = ok a (record g { backend = b })
  with_backend g (err c b) = err c (record g { backend = b })
  with_backend g (throws b) = throws (record g { backend = b })
  with_backend g (waits b) = waits (record g { backend = b })

  abbrev pub on_backend : {A : Type 0} → Cmd (Backend D) A → Cmd (Stub D I) A
  on_backend m g = with_backend g (m g.backend)

  -- A call whose code is not looked at; on failure its out-parameter holds what it held before.
  abbrev pub ignoring : {A : Type 0} → A → Run (Stub D I) A → Run (Stub D I) A
  ignoring before (ok a g) = ok a g
  ignoring before (err c g) = ok before g
  ignoring before (throws g) = throws g
  ignoring before (waits g) = waits g

  abbrev pub ignored : {A : Type 0} → A → Cmd (Backend D) A → Cmd (Stub D I) A
  ignored before m g = ignoring before (on_backend m g)

  -- `send_packet(rc == RCODE_OK ? good : bad)`
  abbrev pub after : Str → Str → Run (Stub D I) (Unit {0}) → Run (Stub D I) (Unit {0})
  after good bad (ok a g) = send_packet good g
  after good bad (err c g) = send_packet bad g
  after good bad (throws g) = throws g
  after good bad (waits g) = waits g

  abbrev pub reply_rc : Str → Str → Cmd (Backend D) (Unit {0}) → Cmd (Stub D I) (Unit {0})
  reply_rc good bad m g = after good bad (on_backend m g)
