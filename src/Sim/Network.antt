-- ===== src/Sim/Network.antt =====
-- A network of the tests: a debug server behind a socket that takes and gives one byte at a time. It
-- stands for no code of the repository.
use vxdebug.Base.{ℕ, ◌≡◌, ◌≢◌, refl, ap, ◌∙◌, true, [], ◌∷◌, ◌++◌, some}
use vxdebug.Base.Int.{ℤ, pos}
use vxdebug.Text.{Str}
use vxdebug.Tcp.{Sockets, Sent, took, Received, gave, recv_blocks, established}
use vxdebug.Sim.Registers.{serve, registers_server}
use vxdebug.Wire.Link.{Clock}
use vxdebug.Wire.Delivery.{Channel}

pub record Net : Type 0 where
  pub regs : ℕ → ℕ
  pub got : Str
  pub coming : Str

abbrev pub net : (ℕ → ℕ) → Str → Str → Net
net m g c = record { regs = m; got = g; coming = c }

-- The text without its last character.
unfoldable pub but_last : Str → Str
but_last [] = []
but_last (x ∷ []) = []
but_last (x ∷ y ∷ s) = x ∷ but_last (y ∷ s)

unfoldable pub net_send : Str → Net → Sent × Net
net_send [] k = (took 0, k)
net_send (x ∷ s) k = (took 1, record k { got = k.got ++ x ∷ [] })

-- One byte of the text, with what the server has become.
deliver : Str → (ℕ → ℕ) → Net → Received × Net
deliver [] m k = (recv_blocks, k)
deliver (x ∷ s) m k = (gave (x ∷ []), net m [] s)

unfoldable pub net_recv : Net → Received × Net
unfolding but_last deliver serve
net_recv k = elim k.coming [
  | x ∷ s ↦ deliver (x ∷ s) k.regs k
  | [] ↦ deliver ((serve k.regs (but_last k.got)).0 ++ 10 ∷ []) (serve k.regs (but_last k.got)).1 k
]

instance abbrev pub net_sockets : Sockets Net
net_sockets = record {
  socket = λ k. (pos 3, k);
  get_flags = λ fd k. (pos 0, k);
  set_flags = λ fd f k. (pos 0, k);
  nonblocking = λ f. f;
  is_address = λ s. true;
  connect = λ fd ip port k. (established, k);
  select_write = λ fd t k. (pos 1, k);
  select_read = λ fd t k. (pos 1, k);
  so_error = λ fd k. (some 0, k);
  reuse_address = λ fd k. (pos 0, k);
  bind = λ fd port k. (pos 0, k);
  listen = λ fd n k. (pos 0, k);
  accept = λ fd k. (pos 4, k);
  close = λ fd k. k;
  send = λ fd s k. net_send s k;
  recv = λ fd n k. net_recv k;
}

instance abbrev pub net_clock : Clock Net
net_clock = record { now = λ k. (0, k); sleep_for = λ ms k. k }

pub data NetSending : (ℕ → ℕ) → Str → ℤ → Net → Type 0 where
  net_sending : {m : ℕ → ℕ} {done : Str} {fd : ℤ} → NetSending m done fd (net m done [])

-- A response under way, or one that the complete command at the server asks for.
pub data NetReplying : (ℕ → ℕ) → Str → ℤ → Net → Type 0 where
  net_replying : {m : ℕ → ℕ} {todo : Str} {fd : ℤ} → NetReplying m todo fd (net m [] todo)
  net_asked :
      {m : ℕ → ℕ} (cmd : Str) {todo : Str} {after : ℕ → ℕ} {fd : ℤ}
      → (serve m cmd).0 ++ 10 ∷ [] ≡ todo
      → (serve m cmd).1 ≡ after
      → NetReplying after todo fd (net m (cmd ++ 10 ∷ []) [])

but_last-line : (s : Str) (x : ℕ) → but_last (s ++ x ∷ []) ≡ s
unfolding but_last
but_last-line [] x = refl
but_last-line (y ∷ []) x = refl
but_last-line (y ∷ z ∷ s) x = ap (λ (u : Str). y ∷ u) (but_last-line (z ∷ s) x)

pub net_receives :
    {m : ℕ → ℕ} {fd : ℤ} {k : Net} (x : ℕ) (s : Str)
    → NetReplying m (x ∷ s) fd k
    → (net_recv k ≡ (gave (x ∷ []), net m [] s))
unfolding net_recv deliver
net_receives x s net_replying = refl
net_receives x s (net_asked {m} cmd e f) = rw (but_last-line cmd 10, e, f) refl

not_empty : (s : Str) (x : ℕ) → s ++ x ∷ [] ≢ []
not_empty [] x e = cc
not_empty (y ∷ s) x e = cc

pub net_rests :
    {m : ℕ → ℕ} {fd : ℤ} {k : Net} {todo : Str}
    → todo ≡ []
    → NetReplying m todo fd k
    → NetSending m [] fd k
net_rests {k} e net_replying = rw e net_sending
net_rests e (net_asked {m} cmd f g) = absurd (not_empty (serve m cmd).0 10 (f ∙ e))

pub net_sends :
    {m : ℕ → ℕ} {done : Str} {fd : ℤ} {k : Net} (x : ℕ) (s : Str)
    → NetSending m done fd k
    → (net_send (x ∷ s) k ≡ (took 1, net m (done ++ x ∷ []) []))
unfolding net_send
net_sends x s net_sending = refl

pub net_responds :
    {m : ℕ → ℕ} {fd : ℤ} {k : Net} (cmd sent : Str) {reply : Str × (ℕ → ℕ)}
    → sent ≡ cmd ++ 10 ∷ []
    → serve m cmd ≡ reply
    → NetSending m sent fd k
    → NetReplying reply.1 (reply.0 ++ 10 ∷ []) fd k
net_responds {m} cmd sent e f net_sending = rw e (
    net_asked cmd (ap (λ (r : Str × (ℕ → ℕ)). r.0 ++ 10 ∷ []) f)
      (ap (λ (r : Str × (ℕ → ℕ)). r.1) f))

unfoldable pub net_channel : Channel registers_server net_sockets net_clock
unfolding serve registers_server
net_channel = record {
  Sending = NetSending;
  Replying = NetReplying;
  sends = λ {m} {done} x s h. (0, net m (done ++ x ∷ []) [], net_sends x s h, net_sending);
  receives = λ {m} x s n h. (x, [], s, net m [] s, refl, net_receives x s h, net_replying);
  responds = λ cmd answer line h. net_responds cmd _ refl answer h;
  rests = λ h. net_rests refl h;
  looks = λ h. h;
}
