-- ===== src/Tests/Server.antt =====
-- The GDB server with a client that closes its connection at once.
use vxdebug.Base.{◌≡◌, refl, Bool, true, false, [], some}
use vxdebug.Base.Int.{ℤ, pos, negsuc}
use vxdebug.Run.{ok, throws, and_then}
use vxdebug.Tcp.{Sockets, took, Received, gave, recv_fails, established}
use vxdebug.Tcp.Server.{TcpServer, tcp_server, start, accept_client}
use vxdebug.Gdb.State.{Stub}
use vxdebug.Gdb.Serve.Forever.{serve_forever, serve_forever-closed, serve_forever-idle}
use vxdebug.Sim.{Sim, sim_target}
use vxdebug.Tests.Hart.{backend}
use vxdebug.Tests.Gdb.{env}

-- Whether one more client comes.
ready_in_time : Bool → ℤ × Bool
ready_in_time true = (pos 1, false)
ready_in_time false = (pos 0, false)

nothing_from : ℤ → Received
nothing_from (pos n) = gave []
nothing_from (negsuc n) = recv_fails

instance abbrev one_client : Sockets Bool
one_client = record {
  socket = λ k. (pos 3, k);
  get_flags = λ fd k. (pos 0, k);
  set_flags = λ fd f k. (pos 0, k);
  nonblocking = λ f. f;
  is_address = λ s. true;
  connect = λ fd ip port k. (established, k);
  select_write = λ fd t k. (pos 1, k);
  select_read = λ fd t k. ready_in_time k;
  so_error = λ fd k. (some 0, k);
  reuse_address = λ fd k. (pos 0, k);
  bind = λ fd port k. (pos 0, k);
  listen = λ fd n k. (pos 0, k);
  accept = λ fd k. (pos 4, k);
  close = λ fd k. k;
  send = λ fd s k. (took 1, k);
  recv = λ fd n k. (nothing_from fd, k);
}

abbrev stub : Stub Sim (TcpServer Bool)
stub = record {
  backend = backend;
  client = tcp_server true;
  sent = [];
  is_attached = true;
  thread_map = [];
  thread_enum_cursor = 0;
}

abbrev listening : TcpServer Bool
listening = record {
  port = 3333;
  server_fd = pos 3;
  client_fd = negsuc 0;
  running = true;
  net = true;
}

abbrev serving : TcpServer Bool
serving = record listening { client_fd = pos 4; net = false }

serve_forever-closed_example :
    serve_forever (λ c. []) env 1 2 (pos 3333) false stub
    ≡ ok tt (record stub { client = record serving { client_fd = negsuc 0 } })
unfolding start accept_client and_then ready_in_time nothing_from
serve_forever-closed_example =
    serve_forever-closed (λ c. []) env stub listening serving false false (pos 3333) 0 0 refl refl
      refl refl refl

serve_forever-idle_example :
    serve_forever (λ c. []) env 2 2 (pos 3333) true stub
    ≡ throws (record stub { client = record serving { client_fd = negsuc 0 } })
unfolding start accept_client and_then ready_in_time nothing_from
serve_forever-idle_example =
    serve_forever-idle (λ c. []) env stub listening serving false false (pos 3333) 0 0 refl refl
      refl refl refl false refl
