-- ===== src/Wire/Peer.antt =====
-- The debug server at the other end, a parameter that keeps to the formats of commands and responses
-- in the comments of src/transport.cpp, and what single register accesses then do.
use vxdebug.Base.{
  ℕ, ◌^◌, ◌<◌, ◌≤◌, inl, ◌≡◌, refl, sym, ap, ◌∙◌, arith, List, [], ◌∷◌, ◌++◌, map, length,
  append-nil, length-append,
}
use vxdebug.Text.{Str, codes}
use vxdebug.Text.Number.{hex_padded, hex_u32}
use vxdebug.Text.Digits.{Stops-nil, length-hex_padded, short-hex_padded}
use vxdebug.Text.Hex.{hex_u32-hex_padded}
use vxdebug.Util.{join}
use vxdebug.Util.Split.{Avoids, Avoids-append, Avoids-hex_padded}
use vxdebug.Run.{Run, ok, and_then}
use vxdebug.Wire.{
  Line, address_text, value_text, read_command, write_command, is_ack, exchange, read_reg,
  write_reg,
}

-- 32-bit words.
unfoldable pub AllWords : List ℕ → Type 0
AllWords [] = Unit {0}
AllWords (a ∷ more) = (a < 2 ^ 32) × AllWords more

-- Reading registers one after the other.
unfoldable pub read_each : {S : Type 0} → (ℕ → S → ℕ × S) → List ℕ → S → List ℕ × S
read_each reading [] s = ([], s)
read_each reading (a ∷ l) s =
    let one = reading a s in let rest = read_each reading l one.1 in (one.0 ∷ rest.0, rest.1)

-- A server for registers: what reading and writing them does, whatever that is, and its responses to
-- commands. The laws are the formats that the comments of `Transport` give: `rXXXX` for a read,
-- `wXXXX:XXXXXXXX` for a write and `RXXXX,XXXX` for a batch of reads, numbers in hexadecimal, with
-- the responses `+XXXXXXXX`, `+` and, the registers read in order, `+XXXXXXXX,XXXXXXXX`. Of batch writes they give another format
-- than the code sends, and nothing is assumed of these.
pub record Server (S : Type 0) : Type 0 where
  pub reading : ℕ → S → ℕ × S
  pub writing : ℕ → ℕ → S → S
  pub answer : S → Str → Str × S
  pub is_word : (a : ℕ) (s : S) → (reading a s).0 < 2 ^ 32
  pub answers_read :
      (s : S) (a : ℕ)
      → a < 2 ^ 32
      → answer s (b'r' ∷ hex_padded 4 a) ≡ (b'+' ∷ hex_padded 8 (reading a s).0, (reading a s).1)
  pub answers_write :
      (s : S) (a v : ℕ)
      → a < 2 ^ 32
      → v < 2 ^ 32
      → answer s (b'w' ∷ (hex_padded 4 a ++ b':' ∷ hex_padded 8 v)) ≡ (codes "+", writing a v s)
  pub answers_batch :
      (s : S) (a : ℕ) (l : List ℕ)
      → AllWords (a ∷ l)
      → answer s (b'R' ∷ join b',' (map (hex_padded 4) (a ∷ l))) ≡ (
        b'+' ∷ join b',' (map (hex_padded 8) (read_each reading (a ∷ l) s).0),
        (read_each reading (a ∷ l) s).1,
      )

-- One line each way, of fewer than `room` bytes.
pub record Fits (room : ℕ) (cmd reply : Str) : Type 0 where
  pub sends_line : Avoids 10 cmd
  pub not_empty : 0 < length cmd
  pub sends_short : length cmd < room
  pub gets_line : Avoids 10 reply
  pub gets_short : length reply < room

-- The connection leads to the server, and loses nothing of lines of fewer than `room` bytes.
pub record Peer {S W : Type 0} (server : Server S) (line : Line W) : Type 1 where
  pub Holds : S → W → Type 0
  pub room : ℕ
  pub roomy : 200 ≤ room
  pub answers :
      {m : S} {w : W} (cmd : Str) {reply : Str × S}
      → server.answer m cmd ≡ reply
      → Fits room cmd reply.0
      → Holds m w
      → (w' : W) × (and_then (line.send_buf cmd w) (λ _. line.recv_buf) ≡ ok reply.0 w')
        × Holds reply.1 w'

pub hex_u32-text : (w n : ℕ) → 2 ≤ w → n < 2 ^ 32 → hex_u32 (hex_padded w n) ≡ n
hex_u32-text w n wide lt =
    ap hex_u32 (sym (append-nil (hex_padded w n))) ∙ hex_u32-hex_padded w n [] wide Stops-nil lt

length-value_text : (v : ℕ) → v < 2 ^ 32 → length (value_text v) ≡ 8
length-value_text v h = length-hex_padded 7 v h

Fits-read :
    (room addr v : ℕ)
    → 200 ≤ room
    → addr < 2 ^ 32
    → v < 2 ^ 32
    → Fits room (read_command addr) (b'+' ∷ value_text v)
unfolding Avoids
Fits-read room addr v roomy lt vlt = record {
  sends_line = ((λ e. omega (arith, e)), Avoids-hex_padded 10 4 addr (inl (omega arith)));
  not_empty = omega arith;
  sends_short = omega (arith, short-hex_padded 4 addr (omega arith) lt);
  gets_line = ((λ e. omega (arith, e)), Avoids-hex_padded 10 8 v (inl (omega arith)));
  gets_short = omega (arith, length-value_text v vlt);
}

pub Avoids-plus : Avoids 10 (codes "+")
unfolding Avoids
Avoids-plus = ((λ e. omega (arith, e)), tt)

Fits-write :
    (room addr v : ℕ)
    → 200 ≤ room
    → addr < 2 ^ 32
    → v < 2 ^ 32
    → Fits room (write_command addr v) (codes "+")
unfolding Avoids
Fits-write room addr v roomy lt vlt = record {
  sends_line = (
    (λ e. omega (arith, e)),
    Avoids-append 10 (address_text addr) (b':' ∷ value_text v)
        (Avoids-hex_padded 10 4 addr (inl (omega arith)))
        ((λ e. omega (arith, e)), Avoids-hex_padded 10 8 v (inl (omega arith))),
  );
  not_empty = omega arith;
  sends_short = omega (
    arith,
    length-append (address_text addr) (b':' ∷ value_text v),
    short-hex_padded 4 addr (omega arith) lt,
    length-value_text v vlt,
  );
  gets_line = Avoids-plus;
  gets_short = omega arith;
}

module _ {S W : Type 0} {server : Server S} ⦃line : Line W⦄ (peer : Peer server line) where
  -- The call returns `a`, with the server then in state `m`.
  abbrev pub Serves : {A : Type 0} → Run W A → A → S → Type 0
  Serves run a m = (w : W) × (run ≡ ok a w) × peer.Holds m w

  -- Reading a register gives what the server's reading of it gives.
  pub read_reg_lem :
      {m : S} {w : W} (addr : ℕ)
      → addr < 2 ^ 32
      → peer.Holds m w
      → Serves (read_reg addr w) (server.reading addr m).0 (server.reading addr m).1
  unfolding read_reg exchange and_then is_ack
  read_reg_lem {m} {w} addr lt h =
      let (w', e, k) =
        peer.answers (read_command addr) (server.answers_read m addr lt)
          (Fits-read peer.room addr (server.reading addr m).0 peer.roomy lt (server.is_word addr m))
          h in
      (
        w',
        rw
            (
              e,
              length-value_text (server.reading addr m).0 (server.is_word addr m),
              hex_u32-text 8 (server.reading addr m).0 (omega arith) (server.is_word addr m),
            )
            refl,
        k,
      )

  -- Writing a 32-bit value is the server's writing of it.
  pub write_reg_lem :
      {m : S} {w : W} (addr v : ℕ)
      → addr < 2 ^ 32
      → v < 2 ^ 32
      → peer.Holds m w
      → Serves (write_reg addr v w) tt (server.writing addr v m)
  unfolding write_reg exchange and_then is_ack
  write_reg_lem {m} {w} addr v lt vlt h =
      let (w', e, k) =
        peer.answers (write_command addr v) (server.answers_write m addr v lt vlt)
          (Fits-write peer.room addr v peer.roomy lt vlt) h in
      (w', rw e refl, k)
