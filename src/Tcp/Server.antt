-- ===== src/Tcp/Server.antt =====
-- `TCPServer` of lib/tcputils.cpp.
use vxdebug.Base.{
  ℕ, zero, suc, Bool, true, false, not, if◌then◌else◌, [], ◌∷◌, Option, none, some, length, drop,
}
use vxdebug.Base.Int.{ℤ, negsuc, is_negative, is_zero}
use vxdebug.Text.{Str}
use vxdebug.Run.{ok, throws, waits, Cmd, pure, throw, ◌>>=◌, ◌>>◌, get_state, when}
use vxdebug.Tcp.{after_send, Sockets, Received, gave, recv_blocks, recv_fails, time_limit}

pub record TcpServer (K : Type 0) : Type 0 where
  pub port : ℕ
  pub server_fd : ℤ
  pub client_fd : ℤ
  pub running : Bool
  pub net : K

abbrev pub tcp_server : {K : Type 0} → K → TcpServer K
tcp_server n = record {
  port = 0;
  server_fd = negsuc 0;
  client_fd = negsuc 0;
  running = false;
  net = n;
}

abbrev asking : {K A : Type 0} → (K → A × K) → Cmd (TcpServer K) A
asking f c = ok (f c.net).0 (record c { net = (f c.net).1 })

module _ {K : Type 0} ⦃sockets : Sockets K⦄ where
  -- `close(server_fd_); throw …;`
  server_throw : ℤ → Cmd (TcpServer K) (Unit {0})
  server_throw fd c = throws (record c { net = sockets.close fd c.net })

  -- From the new socket `fd` to the listening server.
  start_socket : ℤ → ℕ → Cmd (TcpServer K) (Unit {0})
  unfolding server_throw
  start_socket fd port = do
    when (is_negative fd) throw
    set ← asking (sockets.reuse_address fd)
    when (is_negative set) (server_throw fd)
    bound ← asking (sockets.bind fd port)
    when (is_negative bound) (server_throw fd)
    listening ← asking (sockets.listen fd 5)
    when (is_negative listening) (server_throw fd)
    (λ c. ok tt (record c { running = true }))

  unfoldable pub start : ℕ → Cmd (TcpServer K) (Unit {0})
  unfolding start_socket
  start port c =
      if c.running
      then ok tt c
      else (do
        fd ← asking sockets.socket
        (λ d. ok tt (record d { server_fd = fd }))
        start_socket fd port)
          (record c { port = port })

  -- The wait before `accept`, for a limit that is not 0.
  await_client : Option ℕ → Cmd (TcpServer K) (Unit {0})
  await_client none = pure tt
  await_client (some ms) = do
    c ← get_state
    ready ← asking (sockets.select_read c.server_fd (some ms))
    when (is_negative ready) throw
    when (is_zero ready) throw

  unfoldable pub accept_client : ℕ → Cmd (TcpServer K) (Unit {0})
  unfolding await_client
  accept_client timeout_ms = do
    c ← get_state
    when (not c.running) throw
    await_client (time_limit timeout_ms)
    fd ← asking (sockets.accept c.server_fd)
    (λ d. ok tt (record d { client_fd = fd }))
    when (is_negative fd) throw

  -- `if (fd >= 0) close(fd);`
  close_open : ℤ → K → K
  close_open fd k = if is_negative fd then k else sockets.close fd k

  unfoldable pub stop : Cmd (TcpServer K) (Unit {0})
  unfolding close_open
  stop c = ok tt (record c {
    server_fd = if is_negative c.server_fd then c.server_fd else negsuc 0;
    client_fd = if is_negative c.client_fd then c.client_fd else negsuc 0;
    running = false;
    net = close_open c.server_fd (close_open c.client_fd c.net);
  })

  -- The loop of `send_data` on the bytes that remain, in at most so many rounds.
  unfoldable pub send_loop : ℕ → Str → Cmd (TcpServer K) (Unit {0})
  send_loop rounds [] = pure tt
  send_loop zero (x ∷ s) = λ c. waits c
  send_loop (suc rounds) (x ∷ s) = do
    c ← get_state
    sent ← asking (sockets.send c.client_fd (x ∷ s))
    after_send sent (send_loop rounds (x ∷ s)) (λ n. send_loop rounds (drop n (x ∷ s)))

  unfoldable pub send_data : ℕ → Str → Cmd (TcpServer K) ℕ
  unfolding send_loop
  send_data rounds buf = do
    c ← get_state
    when (not c.running) throw
    send_loop rounds buf
    pure (length buf)

  -- Nothing from the peer means that it has closed.
  received : Received → Cmd (TcpServer K) Str
  received recv_blocks c = ok [] c
  received recv_fails c = throws c
  received (gave []) c =
      ok [] (record c { client_fd = negsuc 0; net = sockets.close c.client_fd c.net })
  received (gave (x ∷ s)) c = ok (x ∷ s) c

  unfoldable pub recv_data : ℕ → Cmd (TcpServer K) Str
  unfolding received
  recv_data zero = do c ← get_state; when (not c.running) throw; pure []
  recv_data (suc maxlen) = do
    c ← get_state
    when (not c.running) throw
    got ← asking (sockets.recv c.client_fd (suc maxlen))
    received got
