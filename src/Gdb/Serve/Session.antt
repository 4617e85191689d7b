-- ===== src/Gdb/Serve/Session.antt =====
-- Packets that arrive one after the other (`serve_forever` of src/gdbstub.cpp): each is received
-- whole and handled as a command.
use vxdebug.Base.{
  ℕ, suc, ◌-◌, ◌<◌, Bool, true, false, not, ◌&&◌, Bool-cases, inl, inr, List, [], ◌∷◌, ◌++◌, ◌≡◌,
  refl, ap, ◌∙◌, arith, length, take, length-append,
}
use vxdebug.Text.{Str, codes}
use vxdebug.Text.Number.{hex_padded}
use vxdebug.Text.Digits.{length-hex_padded}
use vxdebug.Run.{ok, pure, and_then}
use vxdebug.Target.{Target}
use vxdebug.Gdb.State.{Stub, packetify, byte_sum, send_data, send_ack}
use vxdebug.Gdb.Packet.{Socket}
use vxdebug.Gdb.Packet.Framing.{Delivers, NoHash, packetify-plain, byte_sum-lt, recv-packetify}
use vxdebug.Util.{starts_with}
use vxdebug.Util.Split.{Avoids}
use vxdebug.Gdb.Serve.{
  Handler, Surroundings, cmd_map, dispatch, dispatch_loop, run_handler, if_not_found, answer,
  serve_packet, serve_client,
}

take_front : (s t : Str) → take (length s) (s ++ t) ≡ s
take_front [] t = refl
take_front (c ∷ s) t = ap (λ u. c ∷ u) (take_front s t)

-- What stands between the first character and the last three is the message.
stripped :
    (s : Str)
    → take
        (length (s ++ b'#' ∷ hex_padded 2 (byte_sum s)) - 3)
        (s ++ b'#' ∷ hex_padded 2 (byte_sum s))
      ≡ s
stripped s =
    ap (λ n. take n (s ++ b'#' ∷ hex_padded 2 (byte_sum s)))
      (omega (
        arith,
        length-append s (b'#' ∷ hex_padded 2 (byte_sum s)),
        length-hex_padded 1 (byte_sum s) (omega (arith, byte_sum-lt s)),
      ))
    ∙ take_front s (b'#' ∷ hex_padded 2 (byte_sum s))

-- No entry of the table fits the command.
unfoldable pub misses : List (Str × Handler) → Str → Bool
misses [] s = true
misses ((p, fn) ∷ m) s = not (starts_with p s) && misses m s

module _ {D I : Type 0} ⦃t : Target D⦄ (env : Surroundings D) where
  dispatch_loop-misses :
      (m : List (Str × Handler)) (s : Str) (g : Stub D I)
      → misses m s ≡ true
      → dispatch_loop env m s g ≡ ok false g
  unfolding dispatch_loop misses
  dispatch_loop-misses [] s g h = refl
  dispatch_loop-misses ((p, fn) ∷ m) s g h = elim (Bool-cases (starts_with p s)) [
    | inl e ↦ absurd (ground arith)
    | inr e ↦ rw (dispatch_loop, e) (dispatch_loop-misses m s g (ground arith))
  ]

  dispatch_loop-one :
      (before after : List (Str × Handler)) (p : Str) (fn : Handler) (s : Str) (g : Stub D I)
      {h : Stub D I}
      → misses before s ≡ true
      → misses after s ≡ true
      → starts_with p s ≡ true
      → run_handler env fn s (record g { sent = g.sent ++ codes "+" ∷ [] }) ≡ ok tt h
      → dispatch_loop env (before ++ (p, fn) ∷ after) s g ≡ ok true h
  unfolding dispatch_loop misses send_ack send_data and_then
  dispatch_loop-one [] after p fn s g {h} hb ha e run =
      rw (dispatch_loop, e, run)
        (ap (λ r. and_then r (λ _. pure true)) (dispatch_loop-misses after s h ha))
  dispatch_loop-one ((q, fn') ∷ before) after p fn s g hb ha e run =
      elim (Bool-cases (starts_with q s)) [
        | inl k ↦ absurd (ground arith)
        | inr k ↦
            rw (dispatch_loop, k) (dispatch_loop-one before after p fn s g (ground arith) ha e run)
      ]

  -- A command that only one entry of the table fits.
  pub dispatch-one :
      (s : Str) (g : Stub D I) (before after : List (Str × Handler)) (p : Str) (fn : Handler)
      {h : Stub D I}
      → misses before s ≡ true
      → misses after s ≡ true
      → starts_with p s ≡ true
      → run_handler env fn s (record g { sent = g.sent ++ codes "+" ∷ [] }) ≡ ok tt h
      → dispatch env (before ++ (p, fn) ∷ after) s g ≡ ok tt h
  unfolding dispatch if_not_found and_then
  dispatch-one s g before after p fn hb ha e run =
      rw (dispatch_loop-one before after p fn s g hb ha e run) refl

  answer-packetify :
      (s : Str) (g : Stub D I) → Avoids 0 s → answer env (packetify s) g ≡ dispatch env cmd_map s g
  unfolding answer
  answer-packetify s g z =
      ap (λ p. answer env p g) (packetify-plain s z)
      ∙ ap (λ u. dispatch env cmd_map u g) (stripped s)

module _ {D I : Type 0} ⦃t : Target D⦄ (env : Surroundings D) ⦃socket : Socket I⦄ where
  -- A framed message without `#` and without NUL is taken off the connection, and carried out as a command if that returns.
  pub serve_client-packet :
      (net : Delivers socket) (packets : ℕ) (g : Stub D I) (s rest : Str)
      → NoHash s
      → Avoids 0 s
      → length s < 4095
      → net.Waiting (packetify s ++ rest) g.client
      → (j : I) × net.Waiting rest j
        × ((h : Stub D I)
            → dispatch env cmd_map s (record g { client = j }) ≡ ok tt h
            → serve_client env (suc packets) g ≡ serve_client env packets h)
  unfolding serve_client serve_packet and_then
  serve_client-packet net packets g s rest n z r w =
      let (j, (e, k)) = recv-packetify net g s rest n z r w in
      (j, k, λ h run. rw (e, answer-packetify env s (record g { client = j }) z, run) refl)
