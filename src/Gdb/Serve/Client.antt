-- ===== src/Gdb/Serve/Client.antt =====
-- A GDB client that writes to memory and reads it back, through the stub, the backend and the
-- hardware (src/gdbstub.cpp over src/backend.cpp).
use vxdebug.Base.{
  ℕ, suc, ◌+◌, ◌%◌, ◌^◌, ◌<◌, List, [], ◌∷◌, ◌++◌, ◌≡◌, refl, ap, ap₂, ◌∙◌, arith, length,
}
use vxdebug.Base.Lists.{AreByteValues}
use vxdebug.Text.{Str, codes}
use vxdebug.Run.{ok}
use vxdebug.Target.{Target}
use vxdebug.Backend.State.{Backend}
use vxdebug.Hart.{Arch, Hart, update}
use vxdebug.Hart.Ends.{at}
use vxdebug.Hart.Checked.{Selects}
use vxdebug.Hart.Temps.{Lines}
use vxdebug.Hart.Bytes.{mem_bytes, AreBytes}
use vxdebug.Hart.Store.{store_bytes}
use vxdebug.Hart.ReadMem.{read_mem_lem}
use vxdebug.Hart.WriteMem.{write_mem_lem}
use vxdebug.Hart.Breakpoints.{Ends-view, AreBytes-store_bytes}
use vxdebug.Gdb.State.{Stub, packetify}
use vxdebug.Gdb.Packet.{Socket}
use vxdebug.Gdb.Packet.Framing.{Delivers}
use vxdebug.Gdb.Access.{hex_bytes}
use vxdebug.Gdb.Serve.{Surroundings, serve_client}
use vxdebug.Gdb.Serve.Session.{serve_client-packet}
use vxdebug.Gdb.Serve.Memory.{
  read_message, write_message, answered, dispatch-read_message, dispatch-write_message,
  read_message-NoHash, write_message-NoHash, Avoids-read_message, Avoids-write_message,
  length-place, length-write_message,
}

-- Storing touches nothing below.
store_bytes-below :
    (m : ℕ → ℕ) (a j : ℕ) (xs : List ℕ)
    → j < a
    → a + length xs < 2 ^ 32
    → store_bytes m a xs j ≡ m j
unfolding store_bytes
store_bytes-below m a j [] lt fits = refl
store_bytes-below m a j (x ∷ xs) lt fits =
    store_bytes-below (update m a x) ((a + 1) % 2 ^ 32) j xs (omega arith) (omega arith)
    ∙ ground arith

mem_bytes-store_bytes :
    (m : ℕ → ℕ) (a : ℕ) (xs : List ℕ)
    → a + length xs < 2 ^ 32
    → mem_bytes (store_bytes m a xs) a (length xs) ≡ xs
unfolding store_bytes mem_bytes
mem_bytes-store_bytes m a [] fits = refl
mem_bytes-store_bytes m a (x ∷ xs) fits =
    ap₂ (λ (y : ℕ) (ys : List ℕ). y ∷ ys)
      (store_bytes-below (update m a x) ((a + 1) % 2 ^ 32) a xs (omega arith) (omega arith)
        ∙ ground arith)
      (mem_bytes-store_bytes (update m a x) ((a + 1) % 2 ^ 32) xs (omega arith))

module _ {D I : Type 0} ⦃t : Target D⦄ (env : Surroundings D) ⦃socket : Socket I⦄
    (net : Delivers socket) {wid tid : ℕ} (h : Hart t wid tid) (b : Backend D) where
  -- Let the connection deliver what the client sent, with no digit behind the buffer of the
  -- checksum, let a warp of the platform, below 32768, be selected, active and halted, let there be
  -- more poll retries than an injection takes polls, lines assemble to their instructions, and
  -- memory hold bytes. When two packets arrive, one that writes fewer than 2000 bytes, not reaching
  -- the end of the address space, and one that reads as many from the same address, the stub
  -- acknowledges the first and answers it with `OK`, acknowledges the second and answers it with
  -- just the bytes written, and goes on serving. They are then in the target's memory, where all
  -- else, like registers and CSRs, is as before but DSCRATCH, and of the stub and the backend
  -- nothing else has changed.
  pub serve_client-write_read :
      (packets : ℕ) (g : Stub D I) (addr : ℕ) (bytes : List ℕ) (rest : Str) (a : Arch) {d : D}
      → addr + length bytes < 2 ^ 32
      → length bytes < 2000
      → AreByteValues bytes
      → AreBytes a.mem
      → Lines t h.code
      → Selects t wid tid h.latency b
      → h.At a d
      → net.Waiting
          (packetify (write_message addr bytes)
            ++ (packetify (read_message addr (length bytes)) ++ rest))
          g.client
      → (j : I) × (d' : D) × (s : ℕ) × net.Waiting rest j
        × h.At (record a { mem = store_bytes a.mem addr bytes; scratch = s }) d'
        × (serve_client env (suc (suc packets)) (record g { backend = at b d })
            ≡ serve_client env packets (
                answered
                  (answered (record g { client = j }) (at b d') (codes "OK"))
                  (at b d')
                  (hex_bytes bytes)))
  serve_client-write_read packets g addr bytes rest a {d} fits short by mem l sel p w =
      let written = write_message addr bytes in
      let read = read_message addr (length bytes) in
      let (j1, k1, go1) =
        serve_client-packet env net (suc packets) (record g { backend = at b d }) written
          (packetify read ++ rest) (write_message-NoHash addr bytes)
          (Avoids-write_message 0 addr bytes (omega arith))
          (length-write_message addr bytes (omega arith) by short) w in
      let (u, d1, e1, (s1, p1)) = Ends-view (write_mem_lem h b addr bytes a fits by mem l sel p) in
      let g1 = answered (record g { client = j1 }) (at b d1) (codes "OK") in
      let (j2, k2, go2) =
        serve_client-packet env net packets g1 read rest (read_message-NoHash addr (length bytes))
          (Avoids-read_message 0 addr (length bytes) (omega arith))
          (omega (arith, length-place addr (length bytes) (omega arith) (omega arith))) k1 in
      let stored = record a { mem = store_bytes a.mem addr bytes; scratch = s1 } in
      let (v, d2, e2, (same, (s2, p2))) = Ends-view (
        read_mem_lem h b addr (length bytes) stored (omega arith) (omega arith)
          (AreBytes-store_bytes a.mem addr bytes mem by) l sel p1) in
      (
        j2,
        d2,
        s2,
        k2,
        p2,
        go1 g1 (
              dispatch-write_message env (record g { client = j1; backend = at b d }) addr bytes
                (omega arith) (omega arith) by e1)
            ∙ go2 (answered (record g1 { client = j2 }) (at b d2) (hex_bytes bytes)) (
                dispatch-read_message env (record g1 { client = j2 }) addr (length bytes)
                  (omega arith) (omega arith)
                  (e2
                    ∙ ap (λ x. ok x (at b d2))
                        (same ∙ mem_bytes-store_bytes a.mem addr bytes fits))),
      )
