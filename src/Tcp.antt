-- ===== src/Tcp.antt =====
-- The socket classes of lib/tcputils.cpp: `TCPClient` here, `TCPServer` in Tcp/Server. The
-- system calls are the parameter `Sockets`, over the state `K` of the network; the texts of the
-- exceptions are left out.
pub mod Server
pub mod State
use vxdebug.Base.{
  ℕ, zero, suc, Bool, true, false, not, ◌==◌, ltb, if◌then◌else◌, List, [], ◌∷◌, Option, none, some,
  length, drop,
}
use vxdebug.Base.Int.{ℤ, pos, negsuc, is_negative, is_positive}
use vxdebug.Text.{Str}
use vxdebug.Run.{Run, ok, throws, waits, Cmd, pure, throw, and_then, ◌>>=◌, ◌>>◌, get_state, when}

-- `send` took some bytes, or would block, or failed.
pub data Sent : Type 0 where
  took : ℕ → Sent
  send_blocks send_fails : Sent

-- `recv` gave bytes (none where the peer has closed), or would block, or failed.
pub data Received : Type 0 where
  gave : Str → Received
  recv_blocks recv_fails : Received

pub data Connecting : Type 0 where
  established in_progress refused : Connecting

pub record Sockets (K : Type 0) : Type 0 where
  pub socket : K → ℤ × K
  pub get_flags : ℤ → K → ℤ × K
  pub set_flags : ℤ → ℤ → K → ℤ × K
  -- `flags | O_NONBLOCK`
  pub nonblocking : ℤ → ℤ
  -- `inet_pton(…) > 0`
  pub is_address : Str → Bool
  pub connect : ℤ → Str → ℕ → K → Connecting × K
  -- `select` until the socket can be written, or read, at most so many milliseconds.
  pub select_write : ℤ → Option ℕ → K → ℤ × K
  pub select_read : ℤ → Option ℕ → K → ℤ × K
  -- `SO_ERROR`, `none` where `getsockopt` fails.
  pub so_error : ℤ → K → Option ℕ × K
  pub reuse_address : ℤ → K → ℤ × K
  pub bind : ℤ → ℕ → K → ℤ × K
  pub listen : ℤ → ℕ → K → ℤ × K
  pub accept : ℤ → K → ℤ × K
  pub close : ℤ → K → K
  pub send : ℤ → Str → K → Sent × K
  pub recv : ℤ → ℕ → K → Received × K

pub record TcpClient (K : Type 0) : Type 0 where
  pub ip : Str
  pub port : ℕ
  pub sockfd : ℤ
  pub connected : Bool
  pub net : K

abbrev pub tcp_client : {K : Type 0} → K → TcpClient K
tcp_client n = record { ip = []; port = 0; sockfd = negsuc 0; connected = false; net = n }

-- A system call.
abbrev pub calling : {K A : Type 0} → (K → A × K) → Cmd (TcpClient K) A
calling f c = ok (f c.net).0 (record c { net = (f c.net).1 })

abbrev pub set_sockfd : {K : Type 0} → ℤ → Cmd (TcpClient K) (Unit {0})
set_sockfd fd c = ok tt (record c { sockfd = fd })

-- After `send`: once more, or on with the bytes that it did not take, or an exception.
abbrev pub after_send :
    {S : Type 0} → Sent → Cmd S (Unit {0}) → (ℕ → Cmd S (Unit {0})) → Cmd S (Unit {0})
after_send send_blocks again next = again
after_send send_fails again next = throw
after_send (took zero) again next = throw
after_send (took (suc n)) again next = next (suc n)

-- `timeout_ms`, where 0 waits for as long as it takes.
abbrev pub time_limit : ℕ → Option ℕ
time_limit zero = none
time_limit (suc n) = some (suc n)

module _ {K : Type 0} ⦃sockets : Sockets K⦄ where
  -- `close(sockfd_); throw …;`
  unfoldable pub close_throw : {A : Type 0} → ℤ → Cmd (TcpClient K) A
  close_throw fd c = throws (record c { net = sockets.close fd c.net })

  -- `close(sockfd_); sockfd_ = -1; throw …;`
  unfoldable pub drop_throw : {A : Type 0} → ℤ → Cmd (TcpClient K) A
  drop_throw fd c = throws (record c { sockfd = negsuc 0; net = sockets.close fd c.net })

  -- `SO_ERROR` after the wait.
  unfoldable pub check_so_error : ℤ → Option ℕ → Cmd (TcpClient K) (Unit {0})
  unfolding drop_throw
  check_so_error fd none = drop_throw fd
  check_so_error fd (some e) = when (not (e == 0)) (drop_throw fd)

  -- Waits for a connection that is in progress.
  unfoldable pub await_connect : ℤ → ℕ → Connecting → Cmd (TcpClient K) (Unit {0})
  unfolding drop_throw check_so_error
  await_connect fd timeout_ms established = pure tt
  await_connect fd timeout_ms refused = drop_throw fd
  await_connect fd timeout_ms in_progress = do
    ready ← calling (sockets.select_write fd (time_limit timeout_ms))
    when (not (is_positive ready)) (drop_throw fd)
    e ← calling (sockets.so_error fd)
    check_so_error fd e

  -- From the new socket `fd` to the connection.
  unfoldable pub connect_socket : ℤ → Str → ℕ → ℕ → Cmd (TcpClient K) (Unit {0})
  unfolding close_throw drop_throw await_connect
  connect_socket fd ip port timeout_ms = do
    when (is_negative fd) throw
    flags ← calling (sockets.get_flags fd)
    when (is_negative flags) (close_throw fd)
    set ← calling (sockets.set_flags fd (sockets.nonblocking flags))
    when (is_negative set) (close_throw fd)
    when (not (sockets.is_address ip)) (close_throw fd)
    how ← calling (sockets.connect fd ip port)
    await_connect fd timeout_ms how
    restored ← calling (sockets.set_flags fd flags)
    when (is_negative restored) (drop_throw fd)
    (λ c. ok tt (record c { connected = true }))

  unfoldable pub connect : Str → ℕ → ℕ → Cmd (TcpClient K) (Unit {0})
  unfolding connect_socket
  connect ip port timeout_ms c =
      if c.connected
      then ok tt c
      else (do fd ← calling sockets.socket; set_sockfd fd; connect_socket fd ip port timeout_ms)
          (record c { ip = ip; port = port })

  unfoldable pub disconnect : Cmd (TcpClient K) (Unit {0})
  disconnect c =
      if c.connected
      then ok tt
          (record c { sockfd = negsuc 0; connected = false; net = sockets.close c.sockfd c.net })
      else ok tt c

  -- The loop of `send_data` on the bytes that remain, in at most so many rounds.
  unfoldable pub send_loop : ℕ → Str → Cmd (TcpClient K) (Unit {0})
  send_loop rounds [] = pure tt
  send_loop zero (x ∷ s) = λ c. waits c
  send_loop (suc rounds) (x ∷ s) = do
    c ← get_state
    sent ← calling (sockets.send c.sockfd (x ∷ s))
    after_send sent (send_loop rounds (x ∷ s)) (λ n. send_loop rounds (drop n (x ∷ s)))

  unfoldable pub send_data : ℕ → Str → Cmd (TcpClient K) ℕ
  unfolding send_loop
  send_data rounds buf = do
    c ← get_state
    when (not c.connected) throw
    send_loop rounds buf
    pure (length buf)

  -- No bytes where none have arrived; so too where the peer has closed, which ends the connection.
  unfoldable pub received : Received → Cmd (TcpClient K) Str
  received recv_blocks c = ok [] c
  received recv_fails c = throws c
  received (gave []) c = ok [] (record c { connected = false })
  received (gave (x ∷ s)) c = ok (x ∷ s) c

  unfoldable pub recv_data : ℕ → Cmd (TcpClient K) Str
  unfolding received
  recv_data zero = do c ← get_state; when (not c.connected) throw; pure []
  recv_data (suc maxlen) = do
    c ← get_state
    when (not c.connected) throw
    got ← calling (sockets.recv c.sockfd (suc maxlen))
    received got
