-- ===== src/Wire.antt =====
-- The text protocol of src/transport.cpp: `Transport` over the virtual `_send_buf` and `_recv_buf`
-- of its subclasses. Wire/Tcp is `TCPTransport`.
pub mod Peer
pub mod Batch
pub mod Link
pub mod Delivery
pub mod Access
use vxdebug.Base.{
  ℕ, zero, suc, ◌%◌, ◌^◌, Bool, true, false, ◌&&◌, List, [], ◌∷◌, ◌++◌, map, ◌==◌, ltb,
  if◌then◌else◌, length,
}
use vxdebug.Text.{Str, codes, str_eq}
use vxdebug.Text.Number.{hex_padded, hex_u32}
use vxdebug.Util.{tokenize, join}
use vxdebug.Run.{
  Run, ok, err, throws, waits, error, invalid_arg, buffer_ovrflw, Cmd, pure, fail, ◌>>=◌, ◌>>◌,
  failing_as,
}

-- The virtual methods; `W` is the state of the connection.
pub record Line (W : Type 0) : Type 0 where
  pub send_buf : Str → Cmd W (Unit {0})
  pub recv_buf : Cmd W Str

-- The numbers of a command, `%04x` and `%08x`.
abbrev pub address_text : ℕ → Str
address_text addr = hex_padded 4 addr

abbrev pub value_text : ℕ → Str
value_text v = hex_padded 8 v

-- A response by its first character, which is 0 in the empty text.
unfoldable pub is_ack : Str → Bool
is_ack [] = false
is_ack (c ∷ s) = c == b'+'

abbrev pub tail : Str → Str
tail [] = []
tail (c ∷ s) = s

-- `MAX_BATCH_SZ`
abbrev pub max_batch : ℕ
max_batch = 8

abbrev pub read_command : ℕ → Str
read_command addr = b'r' ∷ address_text addr

abbrev pub write_command : ℕ → ℕ → Str
write_command addr v = b'w' ∷ (address_text addr ++ b':' ∷ value_text v)

abbrev pub batch_read_command : List ℕ → Str
batch_read_command addrs = b'R' ∷ join b',' (map address_text addrs)

abbrev pub batch_write_command : List ℕ → List ℕ → Str
batch_write_command addrs values =
    b'W' ∷ (join b',' (map address_text addrs) ++ b';' ∷ join b',' (map value_text values))

-- The values of a batch, as many as there are addresses.
unfoldable pub batch_values : {W : Type 0} → ℕ → Str → Cmd W (List ℕ)
unfolding tokenize is_ack
batch_values n rbuf =
    if is_ack rbuf
    then (if length (tokenize b',' (tail rbuf)) == n
        then pure (map hex_u32 (tokenize b',' (tail rbuf)))
        else fail invalid_arg)
    else fail error

module _ {W : Type 0} ⦃line : Line W⦄ where
  -- A command and its response.
  unfoldable pub exchange : Str → Cmd W Str
  exchange cmd = do line.send_buf cmd; line.recv_buf

  unfoldable pub handshake : Cmd W (Unit {0})
  unfolding exchange
  handshake = do
    rbuf ← exchange (codes "p")
    (if str_eq rbuf (codes "+P") then pure tt else fail error)

  unfoldable pub send_cmd : Str → Cmd W Str
  unfolding exchange is_ack
  send_cmd cmd = do response ← exchange cmd; (if is_ack response then pure response else fail error)

  -- Any other response than an acknowledgement of 9 characters is an error.
  unfoldable pub read_reg : ℕ → Cmd W ℕ
  unfolding exchange is_ack
  read_reg addr = do
    rbuf ← exchange (read_command addr)
    (if is_ack rbuf && (length rbuf == 9) then pure (hex_u32 (tail rbuf)) else fail error)

  unfoldable pub write_reg : ℕ → ℕ → Cmd W (Unit {0})
  unfolding exchange is_ack
  write_reg addr v = do
    rbuf ← exchange (write_command addr v)
    (if is_ack rbuf then pure tt else fail error)

  -- With no address, `data` stays as it is; every caller passes an empty one.
  unfoldable pub read_regs : List ℕ → Cmd W (List ℕ)
  unfolding exchange batch_values
  read_regs [] = pure []
  read_regs (a ∷ more) = if ltb max_batch (length (a ∷ more)) then fail buffer_ovrflw else (do
    rbuf ← exchange (batch_read_command (a ∷ more))
    batch_values (length (a ∷ more)) rbuf)

  -- Failures of the connection all become `RCODE_ERROR`.
  unfoldable pub write_regs : List ℕ → List ℕ → Cmd W (Unit {0})
  unfolding is_ack
  write_regs [] values = pure tt
  write_regs (a ∷ more) values =
      if length (a ∷ more) == length values
      then (if ltb max_batch (length (a ∷ more)) then fail buffer_ovrflw else (do
        (λ w. failing_as error (line.send_buf (batch_write_command (a ∷ more) values) w))
        rbuf ← (λ w. failing_as error (line.recv_buf w))
        (if is_ack rbuf then pure tt else fail error)))
      else fail invalid_arg
