-- ===== src/Wire/Access.antt =====
-- What the register accesses of `Transport` (src/transport.cpp) promise: a sequence of accesses over
-- the connection is the same sequence at the server.
use vxdebug.Base.{ℕ, ◌^◌, ◌<◌, ◌≤◌, List, [], ◌∷◌, length}
use vxdebug.Run.{Cmd, pure, ◌>>=◌, ◌>>◌}
use vxdebug.Wire.{Line, read_reg, write_reg, read_regs, max_batch}
use vxdebug.Wire.Peer.{Server, read_each, AllWords, Peer}

pub data Access : Type 0 where
  read_one : ℕ → Access
  write_one : ℕ → ℕ → Access
  read_batch : List ℕ → Access

-- 32-bit addresses and values, and batches of a size that the transport takes.
unfoldable pub Allowed : Access → Type 0
Allowed (read_one a) = a < 2 ^ 32
Allowed (write_one a v) = (a < 2 ^ 32) × (v < 2 ^ 32)
Allowed (read_batch addrs) = AllWords addrs × (length addrs ≤ max_batch)

unfoldable pub AllAllowed : List Access → Type 0
unfolding Allowed
AllAllowed [] = Unit {0}
AllAllowed (x ∷ l) = Allowed x × AllAllowed l

module _ {S : Type 0} (server : Server S) where
  -- The values read, none for a write, and the server's state afterwards.
  unfoldable pub spec_access : S → Access → List ℕ × S
  spec_access m (read_one a) = ((server.reading a m).0 ∷ [], (server.reading a m).1)
  spec_access m (write_one a v) = ([], server.writing a v m)
  spec_access m (read_batch addrs) = read_each server.reading addrs m

  unfoldable pub spec_all : S → List Access → List (List ℕ) × S
  unfolding spec_access
  spec_all m [] = ([], m)
  spec_all m (x ∷ l) =
      let one = spec_access m x in let rest = spec_all one.1 l in (one.0 ∷ rest.0, rest.1)

module _ {W : Type 0} ⦃line : Line W⦄ where
  unfoldable pub access : Access → Cmd W (List ℕ)
  unfolding read_reg write_reg read_regs
  access (read_one a) = do v ← read_reg a; pure (v ∷ [])
  access (write_one a v) = do write_reg a v; pure []
  access (read_batch addrs) = read_regs addrs

  unfoldable pub access_all : List Access → Cmd W (List (List ℕ))
  unfolding access
  access_all [] = pure []
  access_all (x ∷ l) = do one ← access x; rest ← access_all l; pure (one ∷ rest)
