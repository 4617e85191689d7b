-- ===== src/Wire/Delivery.antt =====
-- `TCPTransport` (src/transport.cpp) over a byte stream that may be cut anywhere: it carries whole
-- lines, so a debug server behind it is a `Peer`.
use mathlib.Core.Path.{subst, subst⁻¹}
use vxdebug.Base.{
  ℕ, zero, suc, ◌<◌, ◌≤◌, ◌≡◌, ◌≢◌, refl, sym, ap, ◌∙◌, arith, true, [], ◌∷◌, ◌++◌, append-nil,
  append_assoc, none, some, ==_false, if_true, length, length-append, length-drop, take, drop,
  take-append-drop,
}
use vxdebug.Base.Int.{ℤ}
use vxdebug.Text.{Str}
use vxdebug.Util.{split_at}
use vxdebug.Util.Split.{Avoids, split_at-append}
use vxdebug.Run.{ok, and_then}
use vxdebug.Tcp.{Sockets, TcpClient, took, gave, send_loop, send_data, received, recv_data}
use vxdebug.Wire.Peer.{Server, Fits, Peer}
use vxdebug.Wire.Link.{
  Clock, TcpTransport, terminated, is_connected, send_buf, recv_loop, recv_buf, more_data, tcp_line,
}

-- A blocking socket whose other end is the debug server: `send` takes some bytes of a command, and
-- `recv` waits for some bytes of the response; the server answers when a line is complete.
pub record Channel {S K : Type 0} (server : Server S) (sockets : Sockets K) (clock : Clock K)
    : Type 1 where
  -- These bytes of a command are sent, with the server's state.
  pub Sending : S → Str → ℤ → K → Type 0
  -- These bytes of a response are not yet received.
  pub Replying : S → Str → ℤ → K → Type 0
  pub sends :
      {m : S} {done : Str} {fd : ℤ} {k : K} (x : ℕ) (s : Str)
      → Sending m done fd k
      → (j : ℕ) × (k' : K) × (sockets.send fd (x ∷ s) k ≡ (took (suc j), k'))
        × Sending m (done ++ take (suc j) (x ∷ s)) fd k'
  pub receives :
      {m : S} {fd : ℤ} {k : K} (x : ℕ) (s : Str) (n : ℕ)
      → Replying m (x ∷ s) fd k
      → (y : ℕ) × (u rest : Str) × (k' : K) × (x ∷ s ≡ (y ∷ u) ++ rest)
        × (sockets.recv fd (suc n) k ≡ (gave (y ∷ u), k'))
        × Replying m rest fd k'
  pub responds :
      {m : S} {fd : ℤ} {k : K} (cmd : Str) {reply : Str × S}
      → server.answer m cmd ≡ reply
      → Avoids 10 cmd
      → Sending m (cmd ++ 10 ∷ []) fd k
      → Replying reply.1 (reply.0 ++ 10 ∷ []) fd k
  pub rests : {m : S} {fd : ℤ} {k : K} → Replying m [] fd k → Sending m [] fd k
  pub looks :
      {m : S} {s : Str} {fd : ℤ} {k : K} → Replying m s fd k → Replying m s fd (clock.now k).1

terminated-line : (s : Str) → Avoids 10 s → 0 < length s → terminated s ≡ s ++ 10 ∷ []
unfolding terminated Avoids
terminated-line [] h lt = absurd (omega arith)
terminated-line (c ∷ []) (ne, h) lt = rw (==_false c 10 ne) refl
terminated-line (c ∷ d ∷ s) (ne, h) lt =
    ap (λ (u : Str). c ∷ u) (terminated-line (d ∷ s) h (omega arith))

split_at-none : (c : ℕ) (s : Str) → Avoids c s → split_at c s ≡ none
unfolding split_at Avoids
split_at-none c [] h = refl
split_at-none c (x ∷ s) (ne, h) = rw (==_false x c ne, split_at-none c s h) refl

-- What has arrived before the end of the line has no newline.
Avoids-begun :
    (u : Str) (x : ℕ) (s line : Str) → u ++ x ∷ s ≡ line ++ 10 ∷ [] → Avoids 10 line → Avoids 10 u
unfolding Avoids
Avoids-begun [] x s line e h = tt
Avoids-begun (y ∷ u) x s [] e h = absurd (not_more u x s (tail_eq e))
  where
    tail_eq : {a b : ℕ} {v w : Str} → ◌≡◌ {A = Str} (a ∷ v) (b ∷ w) → v ≡ w
    tail_eq e = cc

    not_more : (u : Str) (x : ℕ) (s : Str) → u ++ x ∷ s ≢ []
    not_more [] x s e = cc
    not_more (y ∷ u) x s e = cc
Avoids-begun (y ∷ u) x s (z ∷ line) e (ne, h) =
    ((λ k. ne (sym (head_eq e) ∙ k)), Avoids-begun u x s line (tail_eq e) h)
  where
    head_eq : {a b : ℕ} {v w : Str} → ◌≡◌ {A = Str} (a ∷ v) (b ∷ w) → a ≡ b
    head_eq e = cc

    tail_eq : {a b : ℕ} {v w : Str} → ◌≡◌ {A = Str} (a ∷ v) (b ∷ w) → v ≡ w
    tail_eq e = cc

arrived :
    {K : Type 0} (line : Str) (t : TcpTransport K)
    → t.recv_buf ++ [] ≡ line ++ 10 ∷ []
    → Avoids 10 line
    → split_at 10 t.recv_buf ≡ some (line, [])
arrived line t e h =
    ap (split_at 10) (sym (append-nil t.recv_buf) ∙ e) ∙ split_at-append 10 line [] h

module _ {S K : Type 0} {server : Server S} ⦃sockets : Sockets K⦄ ⦃clock : Clock K⦄
    (channel : Channel server sockets clock) where
  -- A round for each byte is enough to send them all, in order.
  send_loop_lem :
      (rounds : ℕ) {m : S} (done buf : Str) (c : TcpClient K)
      → length buf ≤ rounds
      → channel.Sending m done c.sockfd c.net
      → (k : K) × (send_loop rounds buf c ≡ ok tt (record c { net = k }))
        × channel.Sending m (done ++ buf) c.sockfd k
  unfolding send_loop and_then
  send_loop_lem rounds {m} done [] c le h =
      (c.net, refl, subst⁻¹ (λ s. channel.Sending m s c.sockfd c.net) (append-nil done) h)
  send_loop_lem zero done (x ∷ s) c le h = absurd (omega arith)
  send_loop_lem (suc rounds) {m} done (x ∷ s) c le h =
      let (j, k, e, g) = channel.sends x s h in
      let (k', e', g') =
        send_loop_lem rounds (done ++ take (suc j) (x ∷ s)) (drop j s) (record c { net = k })
          (omega (arith, length-drop j s)) g in
      (
        k',
        rw e e',
        subst (λ u. channel.Sending m u c.sockfd k')
            (append_assoc done (x ∷ take j s) (drop j s)
              ∙ ap (λ u. done ++ x ∷ u) (take-append-drop j s))
            g',
      )

  more_data_lem :
      (start y : ℕ) (u : Str) (k : K) (t : TcpTransport K)
      → is_connected t ≡ true
      → sockets.recv t.client.sockfd 256 t.client.net ≡ (gave (y ∷ u), k)
      → more_data start t
        ≡ ok tt
            (record t { client = record (t.client) { net = k }; recv_buf = t.recv_buf ++ y ∷ u })
  unfolding more_data recv_data received and_then
  more_data_lem start y u k t up got = rw (up, got) refl

  -- A round for each byte that is to come is enough to receive the line.
  recv_loop_lem :
      (rounds start : ℕ) {m : S} (todo line : Str) (t : TcpTransport K)
      → length todo ≤ rounds
      → is_connected t ≡ true
      → t.recv_buf ++ todo ≡ line ++ 10 ∷ []
      → Avoids 10 line
      → channel.Replying m todo t.client.sockfd t.client.net
      → (k : K) × (recv_loop rounds start t
          ≡ ok line (record t { client = record (t.client) { net = k }; recv_buf = [] }))
        × channel.Replying m [] t.client.sockfd k
  unfolding recv_loop and_then
  recv_loop_lem zero start [] line t le up e h k =
      (t.client.net, rw (arrived line t e h, recv_loop) refl, k)
  recv_loop_lem (suc rounds) start [] line t le up e h k =
      (t.client.net, rw (arrived line t e h, recv_loop) refl, k)
  recv_loop_lem zero start (x ∷ s) line t le up e h k = absurd (omega arith)
  recv_loop_lem (suc rounds) start (x ∷ s) line t le up e h k =
      let (y, u, rest, k', cut, got, next) = channel.receives x s 255 k in
      let (k'', e', done) =
        recv_loop_lem rounds start rest line
          (record t { client = record (t.client) { net = k' }; recv_buf = t.recv_buf ++ y ∷ u })
          (omega (arith, ap length cut, length-append (y ∷ u) rest)) up
          (append_assoc t.recv_buf (y ∷ u) rest ∙ ap (λ v. t.recv_buf ++ v) (sym cut) ∙ e) h next in
      (
        k'',
        rw
            (
              split_at-none 10 t.recv_buf (Avoids-begun t.recv_buf x s line e h),
              more_data_lem start y u k' t up got,
              recv_loop,
            )
            e',
        done,
      )

  abbrev stored : TcpTransport K → K → TcpTransport K
  stored t k = record t { client = record (t.client) { net = k }; recv_buf = [] }

  sent_line :
      (rounds x : ℕ) (s : Str) (k : K) (t : TcpTransport K)
      → terminated (x ∷ s) ≡ (x ∷ s) ++ 10 ∷ []
      → is_connected t ≡ true
      → t.recv_buf ≡ []
      → send_loop rounds ((x ∷ s) ++ 10 ∷ []) t.client ≡ ok tt (record (t.client) { net = k })
      → send_buf rounds (x ∷ s) t ≡ ok tt (stored t k)
  unfolding send_buf send_data and_then
  sent_line rounds x s k t line up clean e = simp (line, up, e, clean)

  send_buf_lem :
      (rounds : ℕ) {m : S} (cmd : Str) (t : TcpTransport K)
      → length cmd < rounds
      → 0 < length cmd
      → Avoids 10 cmd
      → is_connected t ≡ true
      → t.recv_buf ≡ []
      → channel.Sending m [] t.client.sockfd t.client.net
      → (k : K) × (send_buf rounds cmd t ≡ ok tt (stored t k))
        × channel.Sending m (cmd ++ 10 ∷ []) t.client.sockfd k
  unfolding send_buf send_data and_then
  send_buf_lem rounds [] t lt some_text h up clean idle = absurd (omega arith)
  send_buf_lem rounds (x ∷ s) t lt some_text h up clean idle =
      let (k, e, g) =
        send_loop_lem rounds [] (x ∷ s ++ 10 ∷ []) t.client
          (omega (arith, length-append (x ∷ s) (10 ∷ []))) idle in
      (k, sent_line rounds x s k t (terminated-line (x ∷ s) h some_text) up clean e, g)

  recv_buf_lem :
      (rounds : ℕ) {m : S} (line : Str) (t : TcpTransport K)
      → length line < rounds
      → Avoids 10 line
      → is_connected t ≡ true
      → t.recv_buf ≡ []
      → channel.Replying m (line ++ 10 ∷ []) t.client.sockfd t.client.net
      → (k : K) × (recv_buf rounds t ≡ ok line (stored t k))
        × channel.Replying m [] t.client.sockfd k
  unfolding recv_buf and_then
  recv_buf_lem rounds line t lt h up clean coming =
      let start = clock.now t.client.net in
      let (k, e, g) =
        recv_loop_lem rounds start.0 (line ++ 10 ∷ []) line
          (record t { client = record (t.client) { net = start.1 } })
          (omega (arith, length-append line (10 ∷ []))) up (ap (λ u. u ++ (line ++ 10 ∷ [])) clean)
          h (channel.looks coming) in
      (k, if_true _ _ up ∙ e, g)

  -- Connected, with nothing under way, to a server in state `m`.
  abbrev pub IsIdle : S → TcpTransport K → Type 0
  IsIdle m t =
      (is_connected t ≡ true)
      × (t.recv_buf ≡ [])
      × channel.Sending m [] t.client.sockfd t.client.net

  -- On a connection with nothing under way, sending a line and receiving one gives the server's
  -- response to it, however the network cuts the two lines into pieces; the connection then has
  -- nothing under way again. More rounds than either line has bytes are enough.
  pub exchange_lem :
      (rounds : ℕ) {m : S} (t : TcpTransport K) (cmd : Str) {reply : Str × S}
      → server.answer m cmd ≡ reply
      → Fits rounds cmd reply.0
      → IsIdle m t
      → (t' : TcpTransport K) × (and_then (send_buf rounds cmd t) (λ _. recv_buf rounds)
          ≡ ok reply.0 t')
        × IsIdle reply.1 t'
  unfolding and_then
  exchange_lem rounds {m} t cmd {reply} answer fits (up, clean, idle) =
      let (k, e, g) =
        send_buf_lem rounds cmd t fits.sends_short fits.not_empty fits.sends_line up clean idle in
      let (k', e', g') =
        recv_buf_lem rounds reply.0 (stored t k) fits.gets_short fits.gets_line up refl
          (channel.responds cmd answer fits.sends_line g) in
      (stored t k', rw (e, e') refl, (up, refl, channel.rests g'))

  abbrev pub tcp_peer : (rounds : ℕ) → 200 ≤ rounds → Peer server (tcp_line {K = K} rounds)
  tcp_peer rounds enough = record {
    Holds = IsIdle;
    room = rounds;
    roomy = enough;
    answers = λ {m} {w} cmd answer fits h. exchange_lem rounds w cmd answer fits h;
  }
