-- ===== src/Gdb/Packet/Framing.antt =====
-- A packet that arrives as `packetify` makes it is received as it is.
use mathlib.Core.Path.{subst}
use vxdebug.Base.{
  ℕ, zero, suc, ◌+◌, ◌/◌, ◌%◌, ◌<◌, true, false, [], ◌∷◌, ◌++◌, ◌≡◌, ◌≢◌, refl, ap, ◌∙◌, arith, sym,
  ◌==◌, ==_false, if◌then◌else◌, if_true, if_false, length, append_assoc,
}
use vxdebug.Text.{Str}
use vxdebug.Text.Number.{hex_padded, hex_u8, digit_char}
use vxdebug.Text.Digits.{Stops, hex_two}
use vxdebug.Util.Split.{Avoids}
use vxdebug.Text.Hex.{hex_u8-hex_padded}
use vxdebug.Run.{Run, ok, err, error, transport_err, catching, and_then}
use vxdebug.Gdb.State.{Stub, byte_sum, packetify, checksum_str, until_nul}
use vxdebug.Gdb.Packet.{
  Socket, recv_data, recv_char, recv_body, calculated_checksum, verified, recv_framed, recv_first,
  recv_packet,
}

-- The client's bytes wait in the connection: a read takes as many as it asks for from their front.
-- Behind the buffer of the checksum stands no digit.
pub record Delivers {I : Type 0} (socket : Socket I) : Type 1 where
  pub Waiting : Str → I → Type 0
  pub take_one :
      (c : ℕ) (rest : Str) (i : I)
      → Waiting (c ∷ rest) i
      → (j : I) × ((socket.recv_data 1 i ≡ ok (c ∷ []) j) × Waiting rest j)
  pub take_two :
      (c d : ℕ) (rest : Str) (i : I)
      → Waiting (c ∷ d ∷ rest) i
      → (j : I) × ((socket.recv_data 2 i ≡ ok (c ∷ d ∷ []) j) × Waiting rest j)
  pub stops : (i : I) → Stops (socket.behind i)

-- No byte is `#`.
unfoldable pub NoHash : Str → Type 0
NoHash [] = Unit {0}
NoHash (c ∷ s) = (c ≢ b'#') × NoHash s

-- A text without a NUL is printed whole.
until_nul-plain : (s : Str) → Avoids 0 s → until_nul s ≡ s
unfolding until_nul Avoids
until_nul-plain [] h = refl
until_nul-plain (c ∷ s) (ne, h) = rw (==_false c 0 ne) (ap (λ t. c ∷ t) (until_nul-plain s h))

pub packetify-plain :
    (s : Str) → Avoids 0 s → packetify s ≡ b'$' ∷ s ++ b'#' ∷ hex_padded 2 (byte_sum s)
unfolding packetify checksum_str
packetify-plain s h = ap (λ t. b'$' ∷ t ++ b'#' ∷ hex_padded 2 (byte_sum s)) (until_nul-plain s h)

pub byte_sum-lt : (s : Str) → byte_sum s < 256
unfolding byte_sum
byte_sum-lt [] = omega arith
byte_sum-lt (c ∷ s) = omega arith

byte_sum-append : (s : Str) (c : ℕ) → byte_sum (s ++ c ∷ []) ≡ (byte_sum s + c) % 256
unfolding byte_sum
byte_sum-append [] c = omega arith
byte_sum-append (d ∷ s) c = omega (arith, byte_sum-append s c)

calculated_checksum_lem : (s : Str) → calculated_checksum (s ++ b'#' ∷ []) ≡ byte_sum s
unfolding calculated_checksum
calculated_checksum_lem s = omega (arith, byte_sum-append s b'#', byte_sum-lt s)

==_self : (a : ℕ) → (a == a) ≡ true
==_self a = ground arith

module _ {D I : Type 0} ⦃socket : Socket I⦄ where
  recv_body-step :
      (g : Stub D I) {g' : Stub D I} {c : ℕ} (room : ℕ) (buf : Str)
      → recv_char g ≡ ok c g'
      → (c == b'#') ≡ false
      → recv_body (suc room) buf g ≡ recv_body room (buf ++ c ∷ []) g'
  unfolding recv_body and_then
  recv_body-step g room buf e n = rw (e, and_then, n) refl

  -- What becomes of a packet, by its two sums.
  abbrev Outcome : Str → ℕ → Stub D I → Run (Stub D I) Str
  Outcome s sum g =
      if byte_sum s == sum then ok (b'$' ∷ s ++ b'#' ∷ hex_padded 2 sum) g else err error g

  verified-two :
      (buf : Str) (x y : ℕ) (g : Stub D I)
      → verified buf (x ∷ y ∷ []) g ≡ (
          if calculated_checksum buf == hex_u8 (x ∷ y ∷ socket.behind g.client)
          then ok (b'$' ∷ buf ++ x ∷ y ∷ []) g
          else err error g)
  unfolding verified
  verified-two buf x y g = refl

  verified_lem :
      (net : Delivers socket) (s : Str) (sum : ℕ) (g : Stub D I)
      → sum < 256
      → verified (s ++ b'#' ∷ []) (digit_char (sum / 16) ∷ digit_char (sum % 16) ∷ []) g
        ≡ Outcome s sum g
  verified_lem net s sum g l =
      rw
        (
          verified-two (s ++ b'#' ∷ []) (digit_char (sum / 16)) (digit_char (sum % 16)) g,
          calculated_checksum_lem s,
          ap (λ t. hex_u8 (t ++ socket.behind g.client)) (sym (hex_two sum l))
              ∙ hex_u8-hex_padded 2 sum (socket.behind g.client) (omega arith) (net.stops g.client)
                  l,
          append_assoc s (b'#' ∷ []) (digit_char (sum / 16) ∷ digit_char (sum % 16) ∷ []),
          hex_two sum l,
        )
        refl

module _ {D I : Type 0} ⦃socket : Socket I⦄ (net : Delivers socket) where
  -- A call that returns `a` and changes nothing of the stub but its connection, where `rest` waits.
  abbrev pub Gives : {A : Type 0} → Stub D I → Run (Stub D I) A → A → Str → Type 0
  Gives g run a rest = (j : I) × ((run ≡ ok a (record g { client = j })) × net.Waiting rest j)

  recv_char_lem :
      (g : Stub D I) (c : ℕ) (rest : Str)
      → net.Waiting (c ∷ rest) g.client
      → Gives g (recv_char g) c rest
  unfolding recv_char recv_data and_then
  recv_char_lem g c rest h = let (j, (e, k)) = net.take_one c rest g.client h in (j, (rw e refl, k))

  recv_body_lem :
      (room : ℕ) (g : Stub D I) (buf s rest : Str)
      → NoHash s
      → length s < room
      → net.Waiting (s ++ b'#' ∷ rest) g.client
      → Gives g (recv_body room buf g) (buf ++ (s ++ b'#' ∷ [])) rest
  unfolding recv_body NoHash and_then
  recv_body_lem zero g buf s rest n l h = absurd (omega arith)
  recv_body_lem (suc room) g buf [] rest n l h =
      let (j, (e, k)) = recv_char_lem g b'#' rest h in (j, (rw e refl, k))
  recv_body_lem (suc room) g buf (c ∷ s) rest (ne, n) l h =
      let (j, (e, k)) = recv_char_lem g c (s ++ b'#' ∷ rest) h in
      let (j', (e', k')) =
        recv_body_lem room (record g { client = j }) (buf ++ c ∷ []) s rest n (omega arith) k in
      (
        j',
        (
          recv_body-step g room buf e (==_false c b'#' ne)
              ∙ e'
              ∙ ap (λ x. ok x (record g { client = j' }))
                  (append_assoc buf (c ∷ []) (s ++ b'#' ∷ [])),
          k',
        ),
      )

  -- The connection after a framed packet whose last two characters are those of `sum`.
  abbrev Reads : Stub D I → Run (Stub D I) Str → Str → ℕ → Str → Type 0
  Reads g run s sum rest =
      (j : I) × ((run ≡ Outcome s sum (record g { client = j })) × net.Waiting rest j)

  recv_checked_lem :
      (g : Stub D I) (s rest : Str) (sum : ℕ)
      → sum < 256
      → net.Waiting (hex_padded 2 sum ++ rest) g.client
      → Reads g (and_then (recv_data 2 g) (verified (s ++ b'#' ∷ []))) s sum rest
  unfolding recv_data and_then
  recv_checked_lem g s rest sum l h =
      let (j, (e, k)) =
        net.take_two (digit_char (sum / 16)) (digit_char (sum % 16)) rest g.client
          (subst (λ x. net.Waiting (x ++ rest) g.client) (hex_two sum l) h) in
      (j, (rw e (verified_lem net s sum (record g { client = j }) l), k))

  recv_framed_lem :
      (g : Stub D I) (s rest : Str) (sum : ℕ)
      → NoHash s
      → length s < 4095
      → sum < 256
      → net.Waiting (s ++ b'#' ∷ (hex_padded 2 sum ++ rest)) g.client
      → Reads g (recv_framed g) s sum rest
  unfolding recv_framed and_then
  recv_framed_lem g s rest sum n r l h =
      let (j, (e, k)) = recv_body_lem 4095 g [] s (hex_padded 2 sum ++ rest) n r h in
      let (j', (e', k')) = recv_checked_lem (record g { client = j }) s rest sum l k in
      (j', (rw e e', k'))

  -- `catch` sees no exception here.
  catching-Outcome :
      (s : Str) (sum : ℕ) (g : Stub D I)
      → catching transport_err (Outcome s sum g) ≡ Outcome s sum g
  catching-Outcome s sum g = ground arith

  recv_packet_outcome :
      (g : Stub D I) (s rest : Str) (sum : ℕ)
      → NoHash s
      → length s < 4095
      → sum < 256
      → net.Waiting (b'$' ∷ s ++ b'#' ∷ (hex_padded 2 sum ++ rest)) g.client
      → Reads g (recv_packet g) s sum rest
  unfolding recv_packet recv_first and_then
  recv_packet_outcome g s rest sum n r l h =
      let (j, (e, k)) = recv_char_lem g b'$' (s ++ b'#' ∷ (hex_padded 2 sum ++ rest)) h in
      let (j', (e', k')) = recv_framed_lem (record g { client = j }) s rest sum n r l k in
      (
        j',
        (
          rw e (ap (catching transport_err) e' ∙ catching-Outcome s sum (record g { client = j' })),
          k',
        ),
      )

  -- Let the connection deliver what the client sent, with no digit behind the buffer of the
  -- checksum. A message without `#` and without NUL, of less than 4095 bytes, that arrives as
  -- `packetify` frames it is received whole; the stub is changed only in its connection, where the
  -- bytes behind the packet wait.
  pub recv-packetify :
      (g : Stub D I) (s rest : Str)
      → NoHash s
      → Avoids 0 s
      → length s < 4095
      → net.Waiting (packetify s ++ rest) g.client
      → Gives g (recv_packet g) (packetify s) rest
  recv-packetify g s rest n z r h =
      let (j, (e, k)) = recv_packet_outcome g s rest (byte_sum s) n r (byte_sum-lt s) (
        subst (λ x. net.Waiting x g.client)
          (ap (λ p. p ++ rest) (packetify-plain s z)
            ∙ ap (λ x. b'$' ∷ x) (append_assoc s (b'#' ∷ hex_padded 2 (byte_sum s)) rest))
          h) in
      (
        j,
        (
          e
              ∙ if_true _ _ (==_self (byte_sum s))
              ∙ ap (λ p. ok p (record g { client = j })) (sym (packetify-plain s z)),
          k,
        ),
      )

  -- Let the connection deliver what the client sent, with no digit behind the buffer of the
  -- checksum. A framed message without `#`, of less than 4095 bytes, whose two digits of checksum
  -- are those of another byte than the sum of the message, is refused with an error; the stub is
  -- changed only in its connection, from which the packet is gone.
  pub recv_corrupted :
      (g : Stub D I) (s rest : Str) (sum : ℕ)
      → NoHash s
      → length s < 4095
      → sum < 256
      → sum ≢ byte_sum s
      → net.Waiting (b'$' ∷ s ++ b'#' ∷ (hex_padded 2 sum ++ rest)) g.client
      → (j : I) × ((recv_packet g ≡ err error (record g { client = j })) × net.Waiting rest j)
  recv_corrupted g s rest sum n r l ne h =
      let (j, (e, k)) = recv_packet_outcome g s rest sum n r l h in
      (j, (e ∙ if_false _ _ (==_false (byte_sum s) sum (λ q. ne (sym q))), k))
