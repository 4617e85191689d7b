-- ===== src/Backend/Connection.antt =====
-- The transport of the backend (src/backend.cpp): making one, connecting it, and the calls of the
-- backend that go through it.
use vxdebug.Base.{ℕ, Bool, false, List, Option, none, some, if◌then◌else◌}
use vxdebug.Text.{Str, codes, str_eq}
use vxdebug.Run.{Run, ok, err, throws, waits, invalid_arg, transport_err, Cmd, pure, ◌>>=◌, ◌>>◌}
use vxdebug.Target.{Target}
use vxdebug.Tcp.{Sockets}
use vxdebug.Wire
use vxdebug.Wire.Link.{Clock, TcpTransport, tcp_transport, tcp_line}
use vxdebug.Wire.Link

-- `transport_` and `transport_type_`; `net` is the network while there is no transport.
pub record Slot (K : Type 0) : Type 0 where
  pub transport : Option (TcpTransport K)
  pub transport_type : Str
  pub net : K

module _ {K : Type 0} where
  abbrev pub slotted : {A : Type 0} → Slot K → Run (TcpTransport K) A → Run (Slot K) A
  slotted p (ok a t) = ok a (record p { transport = some t })
  slotted p (err c t) = err c (record p { transport = some t })
  slotted p (throws t) = throws (record p { transport = some t })
  slotted p (waits t) = waits (record p { transport = some t })

  -- `RCODE_TRANSPORT_ERR` where `transport_` is null.
  abbrev pub on_transport : {A : Type 0} → Cmd (TcpTransport K) A → Cmd (Slot K) A
  on_transport m p = elim p.transport [ none ↦ err transport_err p | some t ↦ slotted p (m t) ]

  unfoldable pub transport_connected : Slot K → Bool
  transport_connected p = elim p.transport [ none ↦ false | some t ↦ t.client.connected ]

  abbrev pub net_of : {A : Type 0} → Run (TcpTransport K) A → K
  net_of (ok a t) = t.client.net
  net_of (err c t) = t.client.net
  net_of (throws t) = t.client.net
  net_of (waits t) = t.client.net

module _ {K : Type 0} ⦃sockets : Sockets K⦄ ⦃clock : Clock K⦄ where
  -- The network after the old transport's destructor, which disconnects it.
  unfoldable pub released : Slot K → K
  unfolding Wire.Link.disconnect
  released p = elim p.transport [ none ↦ p.net | some t ↦ net_of (Wire.Link.disconnect t) ]

  unfoldable pub transport_setup : Str → Cmd (Slot K) (Unit {0})
  unfolding released str_eq
  transport_setup type p =
      if str_eq type (codes "tcp")
      then ok tt (record p {
        transport = some (tcp_transport (released p));
        transport_type = type;
        net = released p;
      })
      else err invalid_arg (record p { transport = none; transport_type = type; net = released p })

  -- Connecting, the handshake, and the command that starts execution.
  unfoldable pub connect_tcp : ℕ → List (Str × Str) → Cmd (TcpTransport K) (Unit {0})
  unfolding Wire.Link.connect Wire.handshake Wire.send_cmd
  connect_tcp rounds args = do
    Wire.Link.connect args
    Wire.handshake ⦃line = tcp_line rounds⦄
    resp ← Wire.send_cmd ⦃line = tcp_line rounds⦄ (codes "s")
    pure tt

  unfoldable pub transport_connect : ℕ → List (Str × Str) → Cmd (Slot K) (Unit {0})
  unfolding connect_tcp str_eq
  transport_connect rounds args p = elim p.transport [
    | none ↦ err transport_err p
    | some t ↦
        if str_eq p.transport_type (codes "tcp")
        then slotted p (connect_tcp rounds args t)
        else err invalid_arg p
  ]

  unfoldable pub transport_disconnect : Cmd (Slot K) (Unit {0})
  unfolding Wire.Link.disconnect
  transport_disconnect p = elim p.transport [
    | none ↦ ok tt p
    | some t ↦ slotted p (Wire.Link.disconnect t)
  ]

  -- The backend's target over TCP, with the assembler that `rv_asm` runs.
  abbrev pub tcp_target : ℕ → (Str → Option ℕ) → Target (Slot K)
  tcp_target rounds assemble = record {
    connected = transport_connected;
    read_reg = λ addr. on_transport (Wire.read_reg ⦃line = tcp_line rounds⦄ addr);
    write_reg = λ addr v. on_transport (Wire.write_reg ⦃line = tcp_line rounds⦄ addr v);
    assemble = assemble;
  }
