-- ===== src/Gdb/Packet.antt =====
-- `recv_packet` of src/gdbstub.cpp. What the client sends comes through `TCPServer::recv_data`
-- (lib/tcputils.cpp), a parameter.
pub mod Framing
use vxdebug.Base.{
  ℕ, zero, suc, ◌+◌, ◌-◌, ◌%◌, ◌^◌, Bool, true, false, List, [], ◌∷◌, ◌++◌, ◌==◌, leb,
  if◌then◌else◌, take, ltb,
}
use vxdebug.Text.{Str, codes}
use vxdebug.Text.Number.{hex_u8}
use vxdebug.Run.{
  Run, ok, err, throws, waits, error, transport_err, Cmd, fail, pure, ◌>>=◌, ◌>>◌, catching,
}
use vxdebug.Gdb.State.{Stub, byte_sum, send_packet}

-- `I` is the state of the client's connection.
pub record Socket (I : Type 0) : Type 0 where
  -- `recv_data` of at most so many bytes: `err` where the source gets 0 or less.
  pub recv_data : ℕ → Cmd I Str
  -- What stands in memory behind the two bytes of `checksum_buf`, where `strtol` reads on.
  pub behind : I → Str

-- The running sum has `#` in it, which is taken off again in 8 bits.
unfoldable calculated_checksum : Str → ℕ
unfolding byte_sum
calculated_checksum buf = (byte_sum buf + 256 - b'#') % 256

-- A short read leaves the second byte of `checksum_buf` as it was.
abbrev pub checksum_buf : {I : Type 0} ⦃socket : Socket I⦄ → Str → I → Str
checksum_buf ⦃socket = socket⦄ bytes i = bytes ++ socket.behind i

module _ {D I : Type 0} ⦃socket : Socket I⦄ where
  abbrev with_client : {A : Type 0} → Stub D I → Run I A → Run (Stub D I) A
  with_client g (ok a i) = ok a (record g { client = i })
  with_client g (err c i) = err c (record g { client = i })
  with_client g (throws i) = throws (record g { client = i })
  with_client g (waits i) = waits (record g { client = i })

  unfoldable pub recv_data : ℕ → Cmd (Stub D I) Str
  recv_data n g = with_client g (socket.recv_data n g.client)

  -- One `char`; a read of one byte gives one.
  unfoldable pub recv_char : Cmd (Stub D I) ℕ
  unfolding recv_data
  recv_char = do bytes ← recv_data 1; (λ g. elim bytes [ [] ↦ err error g | c ∷ rest ↦ ok c g ])

  -- The bytes up to and with `#`, put behind those already in the buffer, of which there are fewer
  -- than `RECV_BUFSZ`: a byte for which there is no room ends the packet.
  unfoldable pub recv_body : ℕ → Str → Cmd (Stub D I) Str
  unfolding recv_char
  recv_body zero buf = do _ ← recv_char; fail error
  recv_body (suc room) buf = do
    c ← recv_char
    (λ g. elim (c == b'#') [
      | true ↦ ok (buf ++ c ∷ []) g
      | false ↦ recv_body room (buf ++ c ∷ []) g
    ])

  unfoldable verified : Str → Str → Cmd (Stub D I) Str
  unfolding calculated_checksum
  verified buf [] = fail error
  verified buf (x ∷ xs) = λ g.
      if calculated_checksum buf == hex_u8 (checksum_buf (x ∷ xs) g.client)
      then ok (b'$' ∷ buf ++ take 2 (checksum_buf (x ∷ xs) g.client)) g
      else err error g

  unfoldable recv_framed : Cmd (Stub D I) Str
  unfolding recv_body verified
  recv_framed = do buf ← recv_body 4095 []; bytes ← recv_data 2; verified buf bytes

  -- An acknowledgement gives the empty packet, and so does Ctrl-C, after its reply.
  unfoldable recv_first : ℕ → Cmd (Stub D I) Str
  unfolding recv_framed
  recv_first c =
      if c == b'+'
      then pure []
      else if c == b'-'
      then fail error
      else if c == 3
      then (do send_packet (codes "S05"); pure [])
      else if c == b'$'
      then recv_framed
      else fail error

  unfoldable pub recv_packet : Cmd (Stub D I) Str
  unfolding recv_char recv_first
  recv_packet g = catching transport_err ((do c ← recv_char; recv_first c) g)
