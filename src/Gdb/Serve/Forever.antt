-- ===== src/Gdb/Serve/Forever.antt =====
-- `GDBStub::serve_forever` (src/gdbstub.cpp) over `TCPServer` (lib/tcputils.cpp).
use vxdebug.Base.{ℕ, zero, suc, Bool, true, false, some, [], ◌∷◌, ◌≡◌, refl}
use vxdebug.Base.Int.{ℤ, pos, negsuc}
use vxdebug.Text.{Str}
use vxdebug.Run.{Run, ok, err, throws, waits, error, transport_err, Cmd, and_then, ◌>>◌, catching}
use vxdebug.Target.{Target}
use vxdebug.Tcp.{Sockets, gave, recv_fails}
use vxdebug.Tcp.Server.{TcpServer, start, accept_client}
use vxdebug.Tcp.Server
use vxdebug.Wire.Link.{as_u16}
use vxdebug.Gdb.State.{Stub}
use vxdebug.Gdb.Packet.{Socket, recv_packet, recv_data, recv_char}
use vxdebug.Gdb.Serve.{Surroundings, serve_client, serve_packet}

-- `recv_data(…) <= 0`: nothing has arrived.
abbrev pub some_bytes : {S : Type 0} → Run S Str → Run S Str
some_bytes (ok [] c) = err error c
some_bytes (ok (x ∷ s) c) = ok (x ∷ s) c
some_bytes (err e c) = err e c
some_bytes (throws c) = throws c
some_bytes (waits c) = waits c

-- The stub's server; `behind` is what stands behind the buffer of the checksum.
abbrev pub tcp_socket :
    {K : Type 0} ⦃sockets : Sockets K⦄ → (TcpServer K → Str) → Socket (TcpServer K)
tcp_socket behind = record { recv_data = λ n c. some_bytes (Server.recv_data n c); behind = behind }

-- `TCPSERVER_TIMEOUT_MS`
abbrev pub server_timeout_ms : ℕ
server_timeout_ms = 5000

module _ {D K : Type 0} ⦃t : Target D⦄ ⦃sockets : Sockets K⦄ (behind : TcpServer K → Str)
    (env : Surroundings D) where
  on_server :
      {A : Type 0} → Stub D (TcpServer K) → Run (TcpServer K) A → Run (Stub D (TcpServer K)) A
  on_server g (ok a c) = ok a (record g { client = c })
  on_server g (err e c) = err e (record g { client = c })
  on_server g (throws c) = throws (record g { client = c })
  on_server g (waits c) = waits (record g { client = c })

  -- The endless loop, for so many clients and so many packets of each.
  unfoldable pub serve_clients : ℕ → ℕ → Bool → Cmd (Stub D (TcpServer K)) (Unit {0})
  unfolding on_server
  serve_clients zero packets allow_reconnect = λ g. waits g
  serve_clients (suc clients) packets allow_reconnect = do
    (λ g. on_server g (accept_client server_timeout_ms g.client))
    serve_client env ⦃socket = tcp_socket behind⦄ packets
    (λ g. elim allow_reconnect [ false ↦ ok tt g | true ↦ serve_clients clients packets true g ])

  unfoldable pub serve_forever : ℕ → ℕ → ℤ → Bool → Cmd (Stub D (TcpServer K)) (Unit {0})
  unfolding serve_clients
  serve_forever clients packets port allow_reconnect = do
    (λ g. catching error (on_server g (start (as_u16 port) g.client)))
    serve_clients clients packets allow_reconnect

-- Receiving from a client at `fd`.
module _ {K : Type 0} ⦃sockets : Sockets K⦄ (c : TcpServer K) (k : K) (up : c.running ≡ true) where
  recv_data-closed :
      sockets.recv c.client_fd 1 c.net ≡ (gave [], k)
      → Server.recv_data 1 c
        ≡ ok [] (record c { client_fd = negsuc 0; net = sockets.close c.client_fd k })
  unfolding Server.recv_data and_then
  recv_data-closed e = rw (up, e) refl

  recv_data-gone :
      sockets.recv c.client_fd 1 c.net ≡ (recv_fails, k)
      → Server.recv_data 1 c ≡ throws (record c { net = k })
  unfolding Server.recv_data and_then
  recv_data-gone e = rw (up, e) refl

module _ {D K : Type 0} ⦃t : Target D⦄ ⦃sockets : Sockets K⦄ (behind : TcpServer K → Str)
    (env : Surroundings D) (g : Stub D (TcpServer K)) (k : K) (up : g.client.running ≡ true) where
  recv_packet-closed :
      sockets.recv g.client.client_fd 1 g.client.net ≡ (gave [], k)
      → recv_packet ⦃socket = tcp_socket behind⦄ g
        ≡ err error (record g {
          client = record (g.client) {
            client_fd = negsuc 0;
            net = sockets.close g.client.client_fd k;
          };
        })
  unfolding recv_packet recv_char recv_data and_then
  recv_packet-closed e = rw (recv_data-closed g.client k up e) refl

  recv_packet-gone :
      sockets.recv g.client.client_fd 1 g.client.net ≡ (recv_fails, k)
      → recv_packet ⦃socket = tcp_socket behind⦄ g
        ≡ err transport_err (record g { client = record (g.client) { net = k } })
  unfolding recv_packet recv_char recv_data and_then
  recv_packet-gone e = rw (recv_data-gone g.client k up e) refl

module _ {D K : Type 0} ⦃t : Target D⦄ ⦃sockets : Sockets K⦄ (behind : TcpServer K → Str)
    (env : Surroundings D) (g : Stub D (TcpServer K)) (c d : TcpServer K) (k k' : K) (port : ℤ)
    (clients packets : ℕ) (started : start (as_u16 port) g.client ≡ ok tt c)
    (accepted : accept_client server_timeout_ms c ≡ ok tt d) (up : d.running ≡ true)
    (closed : sockets.recv d.client_fd 1 d.net ≡ (gave [], k))
    (gone : sockets.recv (negsuc 0) 1 (sockets.close d.client_fd k) ≡ (recv_fails, k')) where
  -- The stub once its client has gone.
  abbrev pub alone : Stub D (TcpServer K)
  alone = record g { client = record d { client_fd = negsuc 0; net = k' } }

  serve_client-closed :
      serve_client env ⦃socket = tcp_socket behind⦄ (suc (suc packets)) (record g { client = d })
      ≡ ok tt alone
  unfolding serve_client serve_packet and_then
  serve_client-closed =
      rw
        (
          recv_packet-closed behind env (record g { client = d }) k up closed,
          recv_packet-gone behind env
              (record g {
                client = record d { client_fd = negsuc 0; net = sockets.close d.client_fd k };
              })
              k' up gone,
        )
        refl

  -- Let the server open its port and accept a client, let `recv` find that this client has closed
  -- the connection, and let it fail on no socket. Without reconnection the server then returns with
  -- success; the client's socket is closed and given up, and the server's is as it was.
  pub serve_forever-closed :
      serve_forever behind env (suc clients) (suc (suc packets)) port false g ≡ ok tt alone
  unfolding serve_forever serve_clients and_then
  serve_forever-closed = rw (started, accepted, serve_client-closed) refl

  -- Let the server open its port and accept a client, let `recv` find that this client has closed
  -- the connection, and let it fail on no socket. With reconnection, if then no other client
  -- connects within five seconds, the server does not go on waiting: it ends with an exception.
  pub serve_forever-idle :
      (k'' : K)
      → sockets.select_read d.server_fd (some server_timeout_ms) k' ≡ (pos 0, k'')
      → serve_forever behind env (suc (suc clients)) (suc (suc packets)) port true g
        ≡ throws (record alone { client = record d { client_fd = negsuc 0; net = k'' } })
  unfolding serve_forever serve_clients accept_client and_then
  serve_forever-idle k'' idle = rw (started, accepted, serve_client-closed, up, idle) refl
