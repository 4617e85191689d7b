-- ===== src/Gdb/Threads.antt =====
-- The threads as GDB numbers them, and the handlers about them (src/gdbstub.cpp).
pub mod Numbering
pub mod Batches
pub mod Listing
use vxdebug.Base.{
  ℕ, zero, suc, ◌+◌, ◌-◌, ◌*◌, ◌%◌, ◌^◌, Bool, true, false, List, [], ◌∷◌, ◌++◌, map, ◌==◌, ltb,
  leb, if◌then◌else◌, Option, none, some, length, take, drop,
}
use vxdebug.Base.Int.{ℤ, pos, to_u32, to_int, to_ℕ}
use vxdebug.Text.{Str, codes}
use vxdebug.Text.Number.{hex_u32, hex, dec}
use vxdebug.Util.{substr_from}
use vxdebug.Run.{Run, ok, err, throws, waits, Cmd, pure, need, ◌>>=◌, ◌>>◌, get_state, put_state}
use vxdebug.Target.{Target}
use vxdebug.Backend.State.{Backend}
use vxdebug.Backend.Warps.{get_warp_state, get_selected_warp_thread, select_warp_thread}
use vxdebug.Gdb.State.{
  Stub, send_packet, with_backend, on_backend, ignoring, ignored, after, reply_rc,
}
use vxdebug.Gdb.Access.{hex_bytes}

abbrev pub ThreadMap : Type 0
ThreadMap = List (ℕ × (ℕ × ℕ))

-- The threads of warp `wid` from `l_tid` on, `left` of them.
unfoldable pub warp_threads : ℕ → ℕ → ℕ → ℕ → ThreadMap
warp_threads num_threads wid l_tid zero = []
warp_threads num_threads wid l_tid (suc left) =
    (1 + wid * num_threads + l_tid, (wid, l_tid)) ∷ warp_threads num_threads wid (suc l_tid) left

unfoldable pub all_threads : ℕ → ℕ → ℕ → ThreadMap
unfolding warp_threads
all_threads num_threads wid zero = []
all_threads num_threads wid (suc left) =
    warp_threads num_threads wid 0 num_threads ++ all_threads num_threads (suc wid) left

-- The entries for so many warps of so many threads, by ascending key. Where the last identifier is no
-- `int`, its computation overflows, which is undefined behaviour: `none`.
unfoldable pub numbered_threads : ℕ → ℕ → Option ThreadMap
unfolding all_threads
numbered_threads num_warps num_threads =
    if ltb (num_warps * num_threads) (2 ^ 31)
    then some (all_threads num_threads 0 num_warps)
    else none

-- The map that the constructor builds; its loops compare with `int`s, and do nothing for negative
-- ones.
unfoldable pub build_thread_map : ℕ → ℕ → Option ThreadMap
unfolding numbered_threads
build_thread_map num_warps num_threads =
    numbered_threads (to_ℕ (to_int num_warps)) (to_ℕ (to_int num_threads))

unfoldable pub find_thread : ℕ → ThreadMap → Option (ℕ × ℕ)
find_thread tid [] = none
find_thread tid ((k, v) ∷ m) = if k == tid then some v else find_thread tid m

-- `m` and up to `MAX_THREADS_PER_REPLY` identifiers, separated by commas.
unfoldable pub join_ids : List ℕ → Str
join_ids [] = []
join_ids (i ∷ []) = hex i
join_ids (i ∷ j ∷ is) = hex i ++ b',' ∷ join_ids (j ∷ is)

abbrev pub next_ids : ThreadMap → ℕ → List ℕ
next_ids m cursor = map (λ (e : ℕ × (ℕ × ℕ)). e.0) (take 64 (drop cursor m))

status_text : Bool → Bool → Str
status_text active halted =
    (if active then codes "active" else codes "inactive")
    ++ b'-' ∷ (if halted then codes "halted" else codes "unhalted")

thread_text : ℕ → ℕ → Bool → Bool → Str
unfolding status_text
thread_text g_wid l_tid active halted =
    codes "g_wid:"
    ++ (dec g_wid
        ++ (codes ",tid:" ++ (dec l_tid ++ (codes ",status: " ++ status_text active halted))))

module _ {D I : Type 0} where
  unfoldable pub cmd_thread_list_next : Cmd (Stub D I) (Unit {0})
  unfolding join_ids
  cmd_thread_list_next g =
      if leb (length g.thread_map) g.thread_enum_cursor
      then send_packet (codes "l") g
      else send_packet (b'm' ∷ join_ids (next_ids g.thread_map g.thread_enum_cursor)) (record g {
        thread_enum_cursor =
            g.thread_enum_cursor + length (next_ids g.thread_map g.thread_enum_cursor);
      })

  unfoldable pub cmd_thread_list_first : Cmd (Stub D I) (Unit {0})
  unfolding cmd_thread_list_next
  cmd_thread_list_first g = cmd_thread_list_next (record g { thread_enum_cursor = 0 })

  module _ ⦃t : Target D⦄ where
    -- The state of a thread's warp; on failure both flags are `unset`.
    state_of : Bool → ℕ → Cmd (Stub D I) (Bool × Bool)
    state_of unset g_wid = ignored (unset, unset) (get_warp_state (pos g_wid))

    unfoldable pub cmd_thread_info : Bool → Str → Cmd (Stub D I) (Unit {0})
    unfolding state_of thread_text find_thread
    cmd_thread_info unset cmdstr = do
      args ← need (substr_from 17 cmdstr)
      g ← get_state
      elim (find_thread (hex_u32 args) g.thread_map) [
        | none ↦ send_packet []
        | some (g_wid, l_tid) ↦ do
          (active, halted) ← state_of unset g_wid
          send_packet (hex_bytes (thread_text g_wid l_tid active halted))
      ]

    -- The handler of `qC`, which is in no table; on failure the identifiers are `unset`.
    unfoldable pub cmd_curr_thread : ℤ × ℤ → Cmd (Stub D I) (Unit {0})
    cmd_curr_thread unset = do
      (wid, tid) ← ignored unset (get_selected_warp_thread true)
      g ← get_state
      send_packet
          (codes "QC" ++ hex ((to_u32 wid * g.backend.platinfo.num_threads + to_u32 tid) % 2 ^ 32))

    unfoldable pub cmd_thread_select : Str → Cmd (Stub D I) (Unit {0})
    unfolding find_thread
    cmd_thread_select cmdstr = do
      args ← need (substr_from 2 cmdstr)
      g ← get_state
      elim (find_thread (hex_u32 args) g.thread_map) [
        | none ↦ send_packet (codes "E01")
        | some (g_wid, l_tid) ↦
            reply_rc (codes "OK") (codes "E02") (select_warp_thread (pos g_wid) (pos l_tid))
      ]

    unfoldable pub cmd_thread_alive : Bool → Str → Cmd (Stub D I) (Unit {0})
    unfolding state_of find_thread
    cmd_thread_alive unset cmdstr = do
      args ← need (substr_from 1 cmdstr)
      g ← get_state
      elim (find_thread (hex_u32 args) g.thread_map) [
        | none ↦ send_packet (codes "E01")
        | some (g_wid, l_tid) ↦ do
          (active, halted) ← state_of unset g_wid
          send_packet (if active then codes "OK" else codes "E01")
      ]
