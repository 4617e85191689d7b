-- ===== src/Tcp/State.antt =====
-- The state of a `TCPClient` (lib/tcputils.cpp): when it counts as connected.
use mathlib.Core.Path.{subst}
use vxdebug.Base.{ℕ, zero, suc, Bool, true, false, ◌≡◌, refl, sym, arith, [], ◌∷◌, drop}
use vxdebug.Base.Int.{ℤ, is_negative}
use vxdebug.Text.{Str}
use vxdebug.Run.{Run, ok, err, throws, waits, Cmd, and_then}
use vxdebug.Tcp.{
  after_send, Sockets, TcpClient, tcp_client, Sent, took, send_blocks, send_fails, close_throw,
  drop_throw, check_so_error, await_connect, connect_socket, connect, disconnect, send_loop,
  send_data, received, recv_data,
}

-- The state that a call leaves, however it ends.
unfoldable pub left : {S A : Type 0} → Run S A → S
left (ok a s) = s
left (err c s) = s
left (throws s) = s
left (waits s) = s

unfoldable pub has_returned : {S A : Type 0} → Run S A → Bool
has_returned (ok a s) = true
has_returned (err c s) = false
has_returned (throws s) = false
has_returned (waits s) = false

-- A client that counts as connected has a socket.
unfoldable pub IsLinked : {K : Type 0} → TcpClient K → Type 0
IsLinked c = c.connected ≡ true → is_negative c.sockfd ≡ false

-- Neither the socket nor whether the client counts as connected has changed.
unfoldable Keeps : {K A : Type 0} → TcpClient K → Run (TcpClient K) A → Type 0
unfolding left
Keeps c r = ((left r).connected ≡ c.connected) × ((left r).sockfd ≡ c.sockfd)

module _ {K : Type 0} ⦃sockets : Sockets K⦄ where
  -- Opening the socket `fd` ends with a connection exactly where it returns.
  connect_socket-opened :
      (fd : ℤ) (ip : Str) (port timeout_ms : ℕ) (c : TcpClient K)
      → c.connected ≡ false
      → (left (connect_socket fd ip port timeout_ms c)).connected
        ≡ has_returned (connect_socket fd ip port timeout_ms c)
  unfolding connect_socket await_connect check_so_error drop_throw close_throw and_then left
      has_returned
  connect_socket-opened fd ip port t c down = ground arith

  connect_socket-IsLinked :
      (fd : ℤ) (ip : Str) (port timeout_ms : ℕ) (c : TcpClient K)
      → c.connected ≡ false
      → c.sockfd ≡ fd
      → IsLinked (left (connect_socket fd ip port timeout_ms c))
  unfolding connect_socket await_connect check_so_error drop_throw close_throw and_then left
      IsLinked
  connect_socket-IsLinked fd ip port t c down at = λ up. ground arith

  -- Calling `connect` on a client that is not connected leaves it connected if the call returns,
  -- and not connected if it throws.
  pub connect_lem :
      (ip : Str) (port timeout_ms : ℕ) (c : TcpClient K)
      → c.connected ≡ false
      → (left (connect ip port timeout_ms c)).connected
        ≡ has_returned (connect ip port timeout_ms c)
  unfolding connect and_then
  connect_lem ip port t c down = ground (
    arith,
    connect_socket-opened (sockets.socket c.net).0 ip port t
        (record c {
          ip = ip;
          port = port;
          sockfd = (sockets.socket c.net).0;
          net = (sockets.socket c.net).1;
        })
        down,
  )

  connect-IsLinked :
      (ip : Str) (port timeout_ms : ℕ) (c : TcpClient K)
      → IsLinked c
      → IsLinked (left (connect ip port timeout_ms c))
  unfolding connect connect_socket await_connect check_so_error drop_throw close_throw and_then left
      IsLinked
  connect-IsLinked ip port t c h = λ up. ground arith

  disconnect-IsLinked : (c : TcpClient K) → IsLinked c → IsLinked (left (disconnect c))
  unfolding disconnect left IsLinked
  disconnect-IsLinked c h = λ up. ground arith

  after_send-Keeps :
      (r : Sent) (again : Cmd (TcpClient K) (Unit {0})) (next : ℕ → Cmd (TcpClient K) (Unit {0}))
      (c : TcpClient K)
      → Keeps c (again c)
      → ((n : ℕ) → Keeps c (next n c))
      → Keeps c (after_send r again next c)
  unfolding Keeps left
  after_send-Keeps send_blocks again next c h k = h
  after_send-Keeps send_fails again next c h k = (refl, refl)
  after_send-Keeps (took zero) again next c h k = (refl, refl)
  after_send-Keeps (took (suc n)) again next c h k = k (suc n)

  send_loop-Keeps : (rounds : ℕ) (buf : Str) (c : TcpClient K) → Keeps c (send_loop rounds buf c)
  unfolding send_loop and_then left Keeps
  send_loop-Keeps rounds [] c = (refl, refl)
  send_loop-Keeps zero (x ∷ s) c = (refl, refl)
  send_loop-Keeps (suc rounds) (x ∷ s) c =
      let sent = sockets.send c.sockfd (x ∷ s) c.net in
      after_send-Keeps sent.0 (send_loop rounds (x ∷ s)) (λ n. send_loop rounds (drop n (x ∷ s)))
        (record c { net = sent.1 }) (send_loop-Keeps rounds (x ∷ s) (record c { net = sent.1 }))
        (λ n. send_loop-Keeps rounds (drop n (x ∷ s)) (record c { net = sent.1 }))

  send_data-IsLinked :
      (rounds : ℕ) (buf : Str) (c : TcpClient K)
      → IsLinked c
      → IsLinked (left (send_data rounds buf c))
  unfolding send_data and_then left IsLinked Keeps
  send_data-IsLinked rounds buf c h = λ up. ground (arith, send_loop-Keeps rounds buf c)

  recv_data-IsLinked :
      (maxlen : ℕ) (c : TcpClient K) → IsLinked c → IsLinked (left (recv_data maxlen c))
  unfolding recv_data received and_then left IsLinked
  recv_data-IsLinked zero c h = λ up. ground arith
  recv_data-IsLinked (suc n) c h = λ up. ground arith

  -- One call on the client, however it ends.
  pub data Step : TcpClient K → TcpClient K → Type 0 where
    connecting :
        {c d : TcpClient K} (ip : Str) (port timeout_ms : ℕ)
        → d ≡ left (connect ip port timeout_ms c)
        → Step c d
    disconnecting : {c d : TcpClient K} → d ≡ left (disconnect c) → Step c d
    sending :
        {c d : TcpClient K} (rounds : ℕ) (buf : Str) → d ≡ left (send_data rounds buf c) → Step c d
    receiving : {c d : TcpClient K} (maxlen : ℕ) → d ≡ left (recv_data maxlen c) → Step c d

  -- What a new client becomes by such calls.
  pub data Reached : TcpClient K → Type 0 where
    new : (n : K) → Reached (tcp_client n)
    later : {c d : TcpClient K} → Reached c → Step c d → Reached d

  Step-IsLinked : {c d : TcpClient K} → Step c d → IsLinked c → IsLinked d
  Step-IsLinked {c} (connecting ip port t e) h =
      subst IsLinked (sym e) (connect-IsLinked ip port t c h)
  Step-IsLinked {c} (disconnecting e) h = subst IsLinked (sym e) (disconnect-IsLinked c h)
  Step-IsLinked {c} (sending rounds buf e) h =
      subst IsLinked (sym e) (send_data-IsLinked rounds buf c h)
  Step-IsLinked {c} (receiving n e) h = subst IsLinked (sym e) (recv_data-IsLinked n c h)

  -- Whatever calls were made on a client and however they ended, a client that counts as connected
  -- holds a socket.
  pub Reached-IsLinked : {c : TcpClient K} → Reached c → IsLinked c
  unfolding IsLinked
  Reached-IsLinked (new n) = λ up. ground arith
  Reached-IsLinked (later r s) = Step-IsLinked s (Reached-IsLinked r)
