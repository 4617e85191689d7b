-- ===== src/Tests/Gdb.antt =====
-- The GDB stub at concrete inputs.
use vxdebug.Base.{true, false, ◌≢◌, ◌≡◌, ℕ, refl, arith, [], ◌∷◌, ◌++◌, some, take, drop, ap}
use vxdebug.Base.Lists.{AreByteValues}
use vxdebug.Text.{Str, codes}
use vxdebug.Text.Number.{hex_padded}
use vxdebug.Text.Digits.{Stops-nil}
use vxdebug.Run.{Run, ok, err, error}
use vxdebug.Backend.State.{initial}
use vxdebug.Util.{
  swap_endianess32, tokenize, strip, split_at, preprocess_commandline, lstrip, rstrip,
}
use vxdebug.Util.Split.{Avoids}
use vxdebug.Util.Swap.{swap-swap}
use vxdebug.Gdb.State.{Stub, packetify, until_nul, checksum_str, byte_sum}
use vxdebug.Gdb.Packet.{Socket, recv_packet}
use vxdebug.Gdb.Packet.Framing.{Delivers, Gives, NoHash, recv-packetify, recv_corrupted}
use vxdebug.Gdb.Access.{value_hex, hex_value, hex_bytes, bytes_hex}
use vxdebug.Gdb.Values.{value-hex_value, bytes-hex_bytes}
use vxdebug.Gdb.Threads.{ThreadMap, find_thread, all_threads, numbered_threads, build_thread_map}
use vxdebug.Gdb.Threads.Numbering.{find_thread_lem}
use vxdebug.Gdb.Threads.Batches.{list_threads}
use vxdebug.Gdb.Threads.Listing.{list_threads_lem}
use vxdebug.Count.{count_from}
use vxdebug.Gdb.Serve.{Surroundings, dispatch, cmd_map, detach, halted}
use vxdebug.Gdb.Serve.Order.{dispatch-order}
use vxdebug.Sim.{Sim, sim_target}
use vxdebug.Base.Int.{pos}
use mathlib.Core.List.{Permᴰ}

-- A connection whose bytes have all arrived.
abbrev pub flat : Socket Str
flat = record { recv_data = receive; behind = λ i. [] }
  where
    receive : ℕ → Str → Run Str Str
    receive n [] = err error []
    receive n (c ∷ s) = ok (take n (c ∷ s)) (drop n (c ∷ s))

abbrev pub flat_delivers : Delivers flat
flat_delivers = record {
  Waiting = λ xs i. i ≡ xs;
  take_one = λ c rest i h. (rest, (ap (λ x. flat.recv_data 1 x) h, refl));
  take_two = λ c d rest i h. (rest, (ap (λ x. flat.recv_data 2 x) h, refl));
  stops = λ i. Stops-nil;
}

abbrev stub : Str → Stub (Unit {0}) Str
stub bytes = record {
  backend = initial tt;
  client = bytes;
  sent = [];
  is_attached = true;
  thread_map = [];
  thread_enum_cursor = 0;
}

packetify_ok : packetify (codes "OK") ≡ codes "$OK#9a"
unfolding packetify until_nul checksum_str byte_sum hex_padded
packetify_ok = refl

NoHash-ok : NoHash (codes "OK")
unfolding NoHash
NoHash-ok = (ground arith, (ground arith, tt))

Avoids-ok : Avoids 0 (codes "OK")
unfolding Avoids
Avoids-ok = (ground arith, (ground arith, tt))

-- A NUL ends the framed text, and the checksum counts what follows.
packetify_nul : packetify (b'O' ∷ 0 ∷ b'K' ∷ []) ≡ codes "$O#9a"
unfolding packetify until_nul checksum_str byte_sum hex_padded
packetify_nul = refl

recv-packetify_example :
    Gives ⦃socket = flat⦄ flat_delivers
      (stub (packetify (codes "OK") ++ codes "+"))
      (recv_packet ⦃socket = flat⦄ (stub (packetify (codes "OK") ++ codes "+")))
      (packetify (codes "OK"))
      (codes "+")
recv-packetify_example =
    recv-packetify ⦃socket = flat⦄ flat_delivers (stub (packetify (codes "OK") ++ codes "+"))
      (codes "OK") (codes "+") NoHash-ok Avoids-ok (ground arith) refl

value-hex_value_example :
    (hex_value 0x1234_5678 ≡ hex_bytes (0x78 ∷ 0x56 ∷ 0x34 ∷ 0x12 ∷ []))
    × (value_hex (hex_value 0x1234_5678) ≡ 0x1234_5678)
value-hex_value_example = value-hex_value 0x1234_5678 (ground arith)

swap-swap_example : swap_endianess32 (swap_endianess32 0x1234_5678) ≡ 0x1234_5678
swap-swap_example = swap-swap 0x1234_5678 (ground arith)

AreByteValues-two : AreByteValues (0 ∷ 255 ∷ [])
unfolding AreByteValues
AreByteValues-two = (ground arith, (ground arith, tt))

bytes-hex_bytes_example : bytes_hex (hex_bytes (0 ∷ 255 ∷ [])) ≡ 0 ∷ 255 ∷ []
bytes-hex_bytes_example = bytes-hex_bytes (0 ∷ 255 ∷ []) AreByteValues-two

find_thread_lem_example :
    (m : ThreadMap) × (build_thread_map 8 4 ≡ some m) × (find_thread 15 m ≡ some (3, 2))
find_thread_lem_example = find_thread_lem 8 4 15 (omega arith) (omega arith) (omega arith)

map_16_8 : build_thread_map 16 8 ≡ some (all_threads 8 0 16)
unfolding build_thread_map numbered_threads
map_16_8 = refl

list_threads_lem_example :
    list_threads 2 (record (stub []) { thread_map = all_threads 8 0 16 }) ≡ some (count_from 1 128)
list_threads_lem_example =
    list_threads_lem 16 8 2 (record (stub []) { thread_map = all_threads 8 0 16 }) (omega arith)
      (omega arith) (omega arith) map_16_8 (omega arith)

tokenize_swbreak : tokenize b';' (codes "a;;b") ≡ codes "a" ∷ [] ∷ codes "b" ∷ []
unfolding tokenize
tokenize_swbreak = refl

strip_blanks : preprocess_commandline (codes "  halt # all ") ≡ codes "halt"
unfolding preprocess_commandline strip split_at lstrip rstrip
strip_blanks = refl

-- `$OK#9b`
abbrev corrupted : Stub (Unit {0}) Str
corrupted = stub (b'$' ∷ codes "OK" ++ b'#' ∷ (hex_padded 2 0x9b ++ []))

byte_sum_ok : 0x9b ≢ byte_sum (codes "OK")
unfolding byte_sum
byte_sum_ok = ground arith

recv_corrupted_example :
    (j : Str) × ((recv_packet ⦃socket = flat⦄ corrupted
        ≡ err error (record corrupted { client = j }))
      × flat_delivers.Waiting [] j)
recv_corrupted_example =
    recv_corrupted ⦃socket = flat⦄ flat_delivers corrupted (codes "OK") [] 0x9b NoHash-ok
      (ground arith) (ground arith) byte_sum_ok refl

abbrev pub env : Surroundings Sim
env = record {
  unset = 0;
  unset_flag = false;
  unset_id = pos 0;
  rounds = 1;
  execute_line = λ line b. ok (pos 0) b;
}

dispatch-order_example :
    dispatch {I = Str} env ((codes "D", detach) ∷ (codes "?", halted) ∷ drop 2 cmd_map) (codes "D")
    ≡ dispatch env cmd_map (codes "D")
dispatch-order_example =
    dispatch-order Str env (codes "D") (Permᴰ.swap {l = drop 2 cmd_map} refl refl)
