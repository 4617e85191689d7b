-- ===== src/Gdb/Serve/Memory.antt =====
-- A client that writes and reads memory through the stub (`M` and `m` of src/gdbstub.cpp).
use vxdebug.Base.{
  ℕ, ◌*◌, ◌^◌, ◌<◌, ◌≤◌, List, [], ◌∷◌, ◌++◌, some, ◌≡◌, ◌≢◌, refl, arith, length, length-append,
  take, drop, inl, inr, ==_self,
}
use vxdebug.Base.Lists.{AreByteValues}
use vxdebug.Text.{Str, codes}
use vxdebug.Text.Number.{hex, hex_padded}
use vxdebug.Text.Plain.{hex_u32-hex, length-hex}
use vxdebug.Text.Digits.{length-hex_padded}
use vxdebug.Util.{substr_from, starts_with}
use vxdebug.Util.Split.{Avoids, Avoids-append, split_at-append, Avoids-hex, Avoids-hex_padded}
use vxdebug.Run.{ok, and_then}
use vxdebug.Target.{Target}
use vxdebug.Backend.State.{Backend}
use vxdebug.Backend.Memory as Memory
use vxdebug.Gdb.State.{Stub, packetify, send_data, send_packet}
use vxdebug.Gdb.Access.{hex_bytes, cmd_read_mem, cmd_write_mem}
use vxdebug.Gdb.Packet.Framing.{NoHash}
use vxdebug.Gdb.Values.{bytes-hex_bytes}
use vxdebug.Gdb.Serve.{Surroundings, cmd_map, dispatch, run_handler, read_mem, write_mem}
use vxdebug.Gdb.Serve.Session.{misses, dispatch-one}

-- What the client sends.
abbrev pub read_message : ℕ → ℕ → Str
read_message addr n = b'm' ∷ (hex addr ++ b',' ∷ hex n)

abbrev pub write_message : ℕ → List ℕ → Str
write_message addr bytes =
    b'M' ∷ ((hex addr ++ b',' ∷ hex (length bytes)) ++ b':' ∷ hex_bytes bytes)

-- The stub after a command that was acknowledged and answered.
abbrev pub answered : {D I : Type 0} → Stub D I → Backend D → Str → Stub D I
answered g b reply = record g {
  backend = b;
  sent = (g.sent ++ codes "+" ∷ []) ++ packetify reply ∷ [];
}

substr_from-one : (c : ℕ) (s : Str) → substr_from 1 (c ∷ s) ≡ some s
substr_from-one c s = ground arith

module _ {D I : Type 0} ⦃t : Target D⦄ (env : Surroundings D) (g : Stub D I) where
  dispatch-read :
      (args : Str) {h : Stub D I}
      → cmd_read_mem (b'm' ∷ args) (record g { sent = g.sent ++ codes "+" ∷ [] }) ≡ ok tt h
      → dispatch env cmd_map (b'm' ∷ args) g ≡ ok tt h
  unfolding run_handler starts_with misses
  dispatch-read args =
      dispatch-one env (b'm' ∷ args) g (take 6 cmd_map) (drop 7 cmd_map) (codes "m") read_mem refl
        refl refl

  dispatch-write :
      (args : Str) {h : Stub D I}
      → cmd_write_mem (b'M' ∷ args) (record g { sent = g.sent ++ codes "+" ∷ [] }) ≡ ok tt h
      → dispatch env cmd_map (b'M' ∷ args) g ≡ ok tt h
  unfolding run_handler starts_with misses
  dispatch-write args =
      dispatch-one env (b'M' ∷ args) g (take 7 cmd_map) (drop 8 cmd_map) (codes "M") write_mem refl
        refl refl

  -- Reading memory answers with the bytes that the backend reads.
  pub dispatch-read_message :
      (addr n : ℕ) {bytes : List ℕ} {b : Backend D}
      → addr < 2 ^ 32
      → n < 2 ^ 32
      → Memory.read_mem addr n g.backend ≡ ok bytes b
      → dispatch env cmd_map (read_message addr n) g ≡ ok tt (answered g b (hex_bytes bytes))
  unfolding cmd_read_mem send_packet send_data and_then
  dispatch-read_message addr n la ln run = dispatch-read (hex addr ++ b',' ∷ hex n) (
      rw
        (
          substr_from-one b'm' (hex addr ++ b',' ∷ hex n),
          and_then,
          split_at-append b',' (hex addr) (hex n) (Avoids-hex b',' addr (inl (omega arith))),
          hex_u32-hex addr la,
          hex_u32-hex n ln,
          run,
        )
        refl)

  pub dispatch-write_message :
      (addr : ℕ) (bytes : List ℕ) {b : Backend D}
      → addr < 2 ^ 32
      → length bytes < 2 ^ 32
      → AreByteValues bytes
      → Memory.write_mem addr bytes g.backend ≡ ok tt b
      → dispatch env cmd_map (write_message addr bytes) g ≡ ok tt (answered g b (codes "OK"))
  unfolding cmd_write_mem send_packet send_data and_then Avoids
  dispatch-write_message addr bytes la ln by run =
      let place = hex addr ++ b',' ∷ hex (length bytes) in
      dispatch-write (place ++ b':' ∷ hex_bytes bytes) (
        rw
          (
            substr_from-one b'M' (place ++ b':' ∷ hex_bytes bytes),
            and_then,
            split_at-append b':' place (hex_bytes bytes) (
                Avoids-append b':' (hex addr) (b',' ∷ hex (length bytes))
                  (Avoids-hex b':' addr (inr (omega arith, omega arith)))
                  (comma, Avoids-hex b':' (length bytes) (inr (omega arith, omega arith)))),
            split_at-append b',' (hex addr) (hex (length bytes))
                (Avoids-hex b',' addr (inl (omega arith))),
            hex_u32-hex addr la,
            hex_u32-hex (length bytes) ln,
            bytes-hex_bytes bytes by,
            ==_self (length bytes),
            run,
          )
          refl)
    where
      comma : ◌≢◌ {A = ℕ} b',' b':'
      comma = λ e. omega (arith, e)

NoHash-Avoids : (s : Str) → Avoids b'#' s → NoHash s
unfolding Avoids NoHash
NoHash-Avoids [] h = tt
NoHash-Avoids (c ∷ s) (ne, h) = (ne, NoHash-Avoids s h)

length-hex_bytes :
    (bytes : List ℕ) → AreByteValues bytes → length (hex_bytes bytes) ≡ 2 * length bytes
unfolding hex_bytes AreByteValues
length-hex_bytes [] h = omega arith
length-hex_bytes (x ∷ xs) (lt, h) = omega (
  arith,
  length-append (hex_padded 2 x) (hex_bytes xs),
  length-hex_padded 1 x (omega arith),
  length-hex_bytes xs h,
)

Avoids-hex_bytes : (c : ℕ) (bytes : List ℕ) → c < b',' → Avoids c (hex_bytes bytes)
unfolding hex_bytes Avoids
Avoids-hex_bytes c [] h = tt
Avoids-hex_bytes c (x ∷ xs) h =
    Avoids-append c (hex_padded 2 x) (hex_bytes xs) (Avoids-hex_padded c 2 x (inl (omega arith)))
      (Avoids-hex_bytes c xs h)

-- An address and a number of bytes.
Avoids-place : (c addr n : ℕ) → c < b',' → Avoids c (hex addr ++ b',' ∷ hex n)
unfolding Avoids
Avoids-place c addr n h =
    Avoids-append c (hex addr) (b',' ∷ hex n) (Avoids-hex c addr (inl (omega arith)))
      ((λ e. omega (arith, h, e)), Avoids-hex c n (inl (omega arith)))

pub length-place :
    (addr n : ℕ) → addr < 2 ^ 32 → n < 2 ^ 32 → length (hex addr ++ b',' ∷ hex n) ≤ 17
length-place addr n la ln =
    omega (arith, length-append (hex addr) (b',' ∷ hex n), length-hex addr la, length-hex n ln)

pub Avoids-read_message : (c addr n : ℕ) → c < b',' → Avoids c (read_message addr n)
unfolding Avoids
Avoids-read_message c addr n h = ((λ e. omega (arith, h, e)), Avoids-place c addr n h)

pub Avoids-write_message :
    (c addr : ℕ) (bytes : List ℕ) → c < b',' → Avoids c (write_message addr bytes)
unfolding Avoids
Avoids-write_message c addr bytes h = (
  (λ e. omega (arith, h, e)),
  Avoids-append c (hex addr ++ b',' ∷ hex (length bytes)) (b':' ∷ hex_bytes bytes)
      (Avoids-place c addr (length bytes) h)
      ((λ e. omega (arith, h, e)), Avoids-hex_bytes c bytes h),
)

pub read_message-NoHash : (addr n : ℕ) → NoHash (read_message addr n)
read_message-NoHash addr n =
    NoHash-Avoids (read_message addr n) (Avoids-read_message b'#' addr n (omega arith))

pub write_message-NoHash : (addr : ℕ) (bytes : List ℕ) → NoHash (write_message addr bytes)
write_message-NoHash addr bytes =
    NoHash-Avoids (write_message addr bytes) (Avoids-write_message b'#' addr bytes (omega arith))

pub length-write_message :
    (addr : ℕ) (bytes : List ℕ)
    → addr < 2 ^ 32
    → AreByteValues bytes
    → length bytes < 2000
    → length (write_message addr bytes) < 4095
length-write_message addr bytes la by ln = omega (
  arith,
  length-append (hex addr ++ b',' ∷ hex (length bytes)) (b':' ∷ hex_bytes bytes),
  length-place addr (length bytes) la (omega arith),
  length-hex_bytes bytes by,
)
