-- ===== src/Tests/Wire.antt =====
-- The transport on a network of single bytes.
use vxdebug.Base.{some, ℕ, ◌+◌, ◌%◌, ◌^◌, ◌≡◌, refl, arith, true, []}
use vxdebug.Base.Int.{pos}
use vxdebug.Text.{codes}
use vxdebug.Text.Number.{
  hex_u32, strtoul, skip_spaces, skip_prefix, read_digits, hex_padded, hex, digits,
}
use vxdebug.Util.{split_at, tokenize, join}
use vxdebug.Util.Split.{Avoids}
use vxdebug.Run.{ok, and_then}
use vxdebug.Tcp.{TcpClient, tcp_client, connect, recv_data}
use vxdebug.Tcp.State.{
  left, has_returned, IsLinked, Reached-IsLinked, connect_lem, new, later, connecting, receiving,
}
use vxdebug.Wire.{Line}
use vxdebug.Wire.Peer.{Fits}
use vxdebug.Wire.Link.{TcpTransport, tcp_transport, send_buf, recv_buf, tcp_line}
use vxdebug.Wire.Delivery.{IsIdle, exchange_lem}
use vxdebug.Backend.State.{Backend, initial}
use vxdebug.Backend.Connection.{Slot}
use vxdebug.Sim.Registers.{serve, registers_server}
use vxdebug.Sim.Network.{Net, net, net_sockets, net_clock, net_channel, net_sending}

abbrev registers : ℕ → ℕ
registers a = (a + 7) % 2 ^ 32

-- Connected to socket 3.
abbrev link : TcpTransport Net
link = record (tcp_transport (net registers [] [])) {
  client = record (tcp_client (net registers [] [])) { connected = true; sockfd = pos 3 };
}

link-IsIdle : IsIdle net_channel registers link
unfolding net_channel
link-IsIdle = (refl, refl, net_sending)

fits : Fits 256 (codes "r0010") (codes "+00000017")
unfolding Avoids
fits = record {
  sends_line = ground arith;
  not_empty = omega arith;
  sends_short = omega arith;
  gets_line = ground arith;
  gets_short = omega arith;
}

exchange_lem_example :
    (t : TcpTransport Net) × (and_then (send_buf 256 (codes "r0010") link) (λ _. recv_buf 256)
      ≡ ok (codes "+00000017") t)
    × IsIdle net_channel registers t
unfolding serve registers_server split_at tokenize join hex_u32 strtoul skip_spaces skip_prefix
    read_digits hex_padded hex digits
exchange_lem_example = exchange_lem net_channel 256 link (codes "r0010") refl fits link-IsIdle

instance abbrev line : Line (TcpTransport Net)
line = tcp_line 256

abbrev client : TcpClient Net
client = tcp_client (net registers [] [])

connect_lem_example :
    (left (connect (codes "127.0.0.1") 5555 5000 client)).connected
    ≡ has_returned (connect (codes "127.0.0.1") 5555 5000 client)
connect_lem_example = connect_lem (codes "127.0.0.1") 5555 5000 client refl

Reached-IsLinked_example :
    IsLinked (left (recv_data 256 (left (connect (codes "127.0.0.1") 5555 5000 client))))
Reached-IsLinked_example = Reached-IsLinked (
    later (later (new (net registers [] [])) (connecting (codes "127.0.0.1") 5555 5000 refl))
      (receiving 256 refl))

abbrev backend : Backend (Slot Net)
backend =
    initial
      (record { transport = some link; transport_type = codes "tcp"; net = net registers [] [] })
