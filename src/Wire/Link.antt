-- ===== src/Wire/Link.antt =====
-- `TCPTransport` of src/transport.cpp, over `TCPClient` and a clock.
use vxdebug.Base.{
  ℕ, zero, suc, ◌-◌, ◌%◌, ◌^◌, Bool, not, List, [], ◌∷◌, ◌++◌, ◌==◌, ltb, if◌then◌else◌, Option,
  none, some,
}
use vxdebug.Base.Int.{ℤ, pos, negsuc}
use vxdebug.Text.{Str, codes, str_eq}
use vxdebug.Text.Parse.{stoi}
use vxdebug.Util.{split_at}
use vxdebug.Run.{
  Run, ok, err, throws, waits, error, invalid_arg, timeout, transport_err, Cmd, fail, and_then,
  ◌>>=◌, get_state, catching, need,
}
use vxdebug.Tcp.{Sockets, TcpClient, tcp_client, send_data, recv_data}
use vxdebug.Tcp
use vxdebug.Wire.{Line}

-- `steady_clock::now` in milliseconds, and `sleep_for`.
pub record Clock (K : Type 0) : Type 0 where
  pub now : K → ℕ × K
  pub sleep_for : ℕ → K → K

pub record TcpTransport (K : Type 0) : Type 0 where
  pub client : TcpClient K
  pub recv_buf : Str
  pub timeout_ms : ℕ

abbrev pub tcp_transport : {K : Type 0} → K → TcpTransport K
tcp_transport n = record { client = tcp_client n; recv_buf = []; timeout_ms = 1000 }

unfoldable pub set_timeout : {K : Type 0} → ℕ → Cmd (TcpTransport K) (Unit {0})
set_timeout timeout_ms t = ok tt (record t { timeout_ms = timeout_ms })

abbrev pub with_client :
    {K A : Type 0} → TcpTransport K → Run (TcpClient K) A → Run (TcpTransport K) A
with_client t (ok a c) = ok a (record t { client = c })
with_client t (err e c) = err e (record t { client = c })
with_client t (throws c) = throws (record t { client = c })
with_client t (waits c) = waits (record t { client = c })

abbrev pub on_client : {K A : Type 0} → Cmd (TcpClient K) A → Cmd (TcpTransport K) A
on_client m t = with_client t (m t.client)

abbrev pub on_clock : {K A : Type 0} → (K → A × K) → Cmd (TcpTransport K) A
on_clock f t =
    ok (f t.client.net).0 (record t { client = record (t.client) { net = (f t.client.net).1 } })

-- The value of an entry of the arguments' map.
unfoldable pub argument : Str → List (Str × Str) → Option Str
unfolding str_eq
argument key [] = none
argument key ((k, v) ∷ more) = if str_eq k key then some v else argument key more

-- `static_cast<uint16_t>`
abbrev pub as_u16 : ℤ → ℕ
as_u16 (pos n) = n % 2 ^ 16
as_u16 (negsuc n) = 2 ^ 16 - 1 - n % 2 ^ 16

-- The line with its newline.
unfoldable pub terminated : Str → Str
terminated [] = 10 ∷ []
terminated (c ∷ []) = if c == 10 then c ∷ [] else c ∷ 10 ∷ []
terminated (c ∷ d ∷ s) = c ∷ terminated (d ∷ s)

module _ {K : Type 0} ⦃sockets : Sockets K⦄ ⦃clock : Clock K⦄ where
  connect_to : Str → Str → Cmd (TcpTransport K) (Unit {0})
  connect_to ip port = do n ← need (stoi port); on_client (Tcp.connect ip (as_u16 n) 5000)

  unfoldable pub connect : List (Str × Str) → Cmd (TcpTransport K) (Unit {0})
  unfolding argument connect_to
  connect args t = elim (argument (codes "ip") args) [
    | none ↦ err invalid_arg t
    | some ip ↦ elim (argument (codes "port") args) [
      | none ↦ err invalid_arg t
      | some port ↦ catching error (connect_to ip port t)
    ]
  ]

  unfoldable pub disconnect : Cmd (TcpTransport K) (Unit {0})
  disconnect = on_client Tcp.disconnect

  abbrev pub is_connected : TcpTransport K → Bool
  is_connected t = t.client.connected

  -- At most so many calls of `send`.
  unfoldable pub send_buf : ℕ → Str → Cmd (TcpTransport K) (Unit {0})
  unfolding terminated
  send_buf rounds line t =
      if is_connected t
      then elim line [
        | [] ↦ ok tt t
        | c ∷ s ↦
            catching error
              (and_then (on_client (send_data rounds (terminated (c ∷ s))) t) (λ _ u. ok tt u))
      ]
      else err error t

  -- Waiting goes on, with `true`, or a whole line is there.
  give_up : ℕ → Cmd (TcpTransport K) (Unit {0})
  give_up start = do
    time ← on_clock clock.now
    t ← get_state
    (if ltb t.timeout_ms (time - start)
        then fail timeout
        else if not (is_connected t)
        then fail transport_err
        else on_clock (λ k. (tt, clock.sleep_for 10 k)))

  unfoldable pub more_data : ℕ → Cmd (TcpTransport K) (Unit {0})
  unfolding give_up
  more_data start = do
    tmp ← (λ t. catching error (on_client (recv_data 256) t))
    (elim tmp [
      | [] ↦ give_up start
      | c ∷ s ↦ (λ t. ok tt (record t { recv_buf = t.recv_buf ++ c ∷ s }))
    ])

  -- The loop that waits for a line, at most so many rounds.
  unfoldable pub recv_loop : ℕ → ℕ → Cmd (TcpTransport K) Str
  unfolding split_at more_data
  recv_loop zero start t = elim (split_at 10 t.recv_buf) [
    | some (line, rest) ↦ ok line (record t { recv_buf = rest })
    | none ↦ waits t
  ]
  recv_loop (suc rounds) start t = elim (split_at 10 t.recv_buf) [
    | some (line, rest) ↦ ok line (record t { recv_buf = rest })
    | none ↦ and_then (more_data start t) (λ _ u. recv_loop rounds start u)
  ]

  unfoldable pub recv_buf : ℕ → Cmd (TcpTransport K) Str
  unfolding recv_loop
  recv_buf rounds t =
      if is_connected t
      then (do start ← on_clock clock.now; recv_loop rounds start) t
      else err error t

  -- `TCPTransport` as the line of a `Transport`.
  abbrev pub tcp_line : ℕ → Line (TcpTransport K)
  tcp_line rounds = record { send_buf = send_buf rounds; recv_buf = recv_buf rounds }
