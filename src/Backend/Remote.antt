-- ===== src/Backend/Remote.antt =====
-- The backend's register access (src/backend.cpp) over `TCPTransport` and the debug server.
use vxdebug.Base.{ℕ, ◌≤◌, ◌≡◌, Option, some}
use vxdebug.Text.{Str}
use vxdebug.Target.{Target}
use vxdebug.Dm
use vxdebug.Tcp.{Sockets}
use vxdebug.Wire
use vxdebug.Wire.Peer.{Server}
use vxdebug.Wire.Link.{Clock, TcpTransport}
use vxdebug.Wire.Delivery.{Channel, IsIdle}
use vxdebug.Backend.State.{Backend}
use vxdebug.Backend.Connection.{Slot, tcp_target}

module _ {S K : Type 0} {server : Server S} ⦃sockets : Sockets K⦄ ⦃clock : Clock K⦄
    (channel : Channel server sockets clock) where
  -- The backend has a transport connected to the server in state `m`.
  pub record IsLinkedTo (m : S) (b : Backend (Slot K)) : Type 0 where
    pub transport : TcpTransport K
    pub present : b.target.transport ≡ some transport
    pub idle : IsIdle channel m transport

  module _ (rounds : ℕ) (enough : 200 ≤ rounds) (assemble : Str → Option ℕ) where
    -- The backend on that transport.
    abbrev pub remote : Target (Slot K)
    remote = tcp_target rounds assemble
