-- ===== src/Gdb/Threads/Listing.antt =====
-- A client that asks for the list of threads in batches (`qfThreadInfo`, `qsThreadInfo`).
use vxdebug.Base.{
  some_inj, ℕ, zero, suc, ◌+◌, ◌-◌, ◌*◌, ◌^◌, ◌<◌, ◌≤◌, false, List, [], ◌∷◌, ◌++◌, ◌≡◌, refl, ap,
  sym, ◌∙◌, arith, map, some, length, take, drop, leb, ◌⊎◌, inl, inr, ap₂,
}
use vxdebug.Base.Lists.{length-map}
use vxdebug.Text.{codes}
use vxdebug.Util.Split.{Avoids}
use vxdebug.Gdb.State.{Stub, packetify, send_packet}
use vxdebug.Gdb.Threads.Numbering.{mul_suc, built}
use vxdebug.Gdb.Threads.{
  ThreadMap, warp_threads, all_threads, build_thread_map, join_ids, next_ids, cmd_thread_list_first,
  cmd_thread_list_next,
}
use vxdebug.Count.{
  count_from, count-append, count-take, count-take_all, count-drop, length-count, map-take,
  map-drop, map-append,
}
use vxdebug.Gdb.Threads.Batches.{
  answered, next_threads, list_threads, stop, answered-send, answered-batch,
}

-- The identifiers of a map.
abbrev ids_of : ThreadMap → List ℕ
ids_of m = map (λ (e : ℕ × (ℕ × ℕ)). e.0) m

module _ (num_threads : ℕ) where
  ids-warp_threads :
      (wid left l_tid : ℕ)
      → ids_of (warp_threads num_threads wid l_tid left)
        ≡ count_from (1 + wid * num_threads + l_tid) left
  unfolding warp_threads
  ids-warp_threads wid zero l_tid = refl
  ids-warp_threads wid (suc left) l_tid =
      ap (λ l. (1 + wid * num_threads + l_tid) ∷ l)
        (ids-warp_threads wid left (suc l_tid)
          ∙ ap (λ x. count_from x left) {x = 1 + wid * num_threads + suc l_tid}
              {y = suc (1 + wid * num_threads + l_tid)} (omega arith))

  ids-all_threads :
      (left wid : ℕ)
      → ids_of (all_threads num_threads wid left)
        ≡ count_from (1 + wid * num_threads) (left * num_threads)
  unfolding all_threads
  ids-all_threads zero wid =
      ap (count_from (1 + wid * num_threads)) {x = 0} {y = 0 * num_threads} (omega arith)
  ids-all_threads (suc left) wid =
      map-append (λ (e : ℕ × (ℕ × ℕ)). e.0) (warp_threads num_threads wid 0 num_threads)
        (all_threads num_threads (suc wid) left)
      ∙ ap₂ (λ a b. a ++ b) (ids-warp_threads wid num_threads 0) (ids-all_threads left (suc wid))
      ∙ ap₂ (λ a b. count_from a num_threads ++ count_from b (left * num_threads))
          {x = 1 + wid * num_threads + 0} {y = 1 + wid * num_threads} (omega arith)
          (omega (arith, mul_suc wid num_threads))
      ∙ count-append (1 + wid * num_threads) num_threads (left * num_threads)
      ∙ ap (count_from (1 + wid * num_threads)) (omega (arith, mul_suc left num_threads))

-- The identifiers of the map that is built are the numbers from 1 on.
ids-build :
    (num_warps num_threads : ℕ)
    → ids_of (all_threads num_threads 0 num_warps) ≡ count_from 1 (num_warps * num_threads)
ids-build num_warps num_threads =
    ids-all_threads num_threads num_warps 0
    ∙ ap (λ x. count_from x (num_warps * num_threads)) {x = 1 + 0 * num_threads} {y = 1}
        (omega arith)

-- The batch behind the cursor, of `size` identifiers.
module _ {D I : Type 0} (g : Stub D I) (total : ℕ)
    (numbered : ids_of g.thread_map ≡ count_from 1 total) where
  length-map_ids : length g.thread_map ≡ total
  length-map_ids =
      sym (length-map g.thread_map (λ (e : ℕ × (ℕ × ℕ)). e.0))
      ∙ ap length numbered
      ∙ length-count 1 total

  next_ids-count :
      (left size : ℕ)
      → g.thread_enum_cursor + left ≡ total
      → take 64 (count_from (1 + g.thread_enum_cursor) left)
        ≡ count_from (1 + g.thread_enum_cursor) size
      → next_ids g.thread_map g.thread_enum_cursor ≡ count_from (1 + g.thread_enum_cursor) size
  next_ids-count left size e h =
      map-take (λ (e : ℕ × (ℕ × ℕ)). e.0) 64 (drop g.thread_enum_cursor g.thread_map)
      ∙ ap (take 64) (
          map-drop (λ (e : ℕ × (ℕ × ℕ)). e.0) g.thread_enum_cursor g.thread_map
          ∙ ap (drop g.thread_enum_cursor) (numbered ∙ ap (count_from 1) (sym e))
          ∙ count-drop g.thread_enum_cursor 1 left)
      ∙ h

  -- At the end.
  ended : total ≤ g.thread_enum_cursor → cmd_thread_list_next g ≡ send_packet (codes "l") g
  unfolding cmd_thread_list_next
  ended h = ground (arith, length-map_ids)

  -- A batch.
  batch :
      (left size : ℕ)
      → 0 < left
      → g.thread_enum_cursor + left ≡ total
      → take 64 (count_from (1 + g.thread_enum_cursor) left)
        ≡ count_from (1 + g.thread_enum_cursor) size
      → cmd_thread_list_next g
        ≡ send_packet
            (b'm' ∷ join_ids (count_from (1 + g.thread_enum_cursor) size))
            (record g { thread_enum_cursor = g.thread_enum_cursor + size })
  unfolding cmd_thread_list_next
  batch left size h e k =
      rw
        (before_end h e, next_ids-count left size e k, length-count (1 + g.thread_enum_cursor) size)
        refl
    where
      before_end :
          0 < left
          → g.thread_enum_cursor + left ≡ total
          → leb (length g.thread_map) g.thread_enum_cursor ≡ false
      before_end h e = ground (arith, length-map_ids)

-- How many identifiers the next batch has, of those left.
batch_size :
    (a left : ℕ)
    → ((left ≤ 64) × (take 64 (count_from a left) ≡ count_from a left))
      ⊎ ((64 < left) × (take 64 (count_from a left) ≡ count_from a 64))
batch_size a left = elim (fits left) [
  | inl h ↦ inl (h, count-take_all 64 a left h)
  | inr h ↦ inr (h, count-take 64 a left (omega arith))
]
  where
    fits : (n : ℕ) → (n ≤ 64) ⊎ (64 < n)
    fits n = ground arith

module _ {D I : Type 0} where
  next_threads-batch :
      (n left total size rest : ℕ) (g : Stub D I)
      → ids_of g.thread_map ≡ count_from 1 total
      → total < 2 ^ 32
      → g.thread_enum_cursor + left ≡ total
      → take 64 (count_from (1 + g.thread_enum_cursor) left)
        ≡ count_from (1 + g.thread_enum_cursor) size
      → 0 < size
      → size + rest ≡ left
      → next_threads n (record g {
        sent =
            g.sent ++ packetify (b'm' ∷ join_ids (count_from (1 + g.thread_enum_cursor) size)) ∷ [];
        thread_enum_cursor = g.thread_enum_cursor + size;
      })
        ≡ some (count_from (1 + (g.thread_enum_cursor + size)) rest)
      → next_threads (suc n) g ≡ some (count_from (1 + g.thread_enum_cursor) left)
  unfolding next_threads
  next_threads-batch n left total size rest g numbered small e k pos parts ih =
      ap (answered (next_threads n)) (batch g total numbered left size (omega arith) e k)
      ∙ answered-batch (next_threads n) (1 + g.thread_enum_cursor) size
          (record g { thread_enum_cursor = g.thread_enum_cursor + size })
          (count_from (1 + (g.thread_enum_cursor + size)) rest) pos (omega arith) ih
      ∙ ap some (
          ap (λ a. count_from (1 + g.thread_enum_cursor) size ++ count_from a rest)
            {x = 1 + (g.thread_enum_cursor + size)} {y = 1 + g.thread_enum_cursor + size}
            (omega arith)
          ∙ count-append (1 + g.thread_enum_cursor) size rest
          ∙ ap (count_from (1 + g.thread_enum_cursor)) parts)

  next_threads_lem :
      (n left total : ℕ) (g : Stub D I)
      → ids_of g.thread_map ≡ count_from 1 total
      → total < 2 ^ 32
      → g.thread_enum_cursor + left ≡ total
      → left ≤ 64 * n
      → next_threads (suc n) g ≡ some (count_from (1 + g.thread_enum_cursor) left)
  unfolding next_threads Avoids
  next_threads_lem n zero total g numbered small e h =
      ap (answered (next_threads n)) (ended g total numbered (omega arith))
      ∙ answered-send (next_threads n) (codes "l") g ((omega arith), tt) ((omega arith), tt)
      ∙ stop (next_threads n (record g { sent = g.sent ++ packetify (codes "l") ∷ [] }))
  next_threads_lem zero (suc left) total g numbered small e h = absurd (omega arith)
  next_threads_lem (suc n) (suc left) total g numbered small e h =
      elim (batch_size (1 + g.thread_enum_cursor) (suc left)) [
        | inl (all, k) ↦
            next_threads-batch (suc n) (suc left) total (suc left) 0 g numbered small e k
              (omega arith) (omega arith)
              (next_threads_lem n 0 total (behind (suc left)) numbered small (omega arith)
                (omega arith))
        | inr (more, k) ↦
            next_threads-batch (suc n) (suc left) total 64 (suc left - 64) g numbered small e k
              (omega arith) (omega arith)
              (next_threads_lem n (suc left - 64) total (behind 64) numbered small (omega arith)
                (omega arith))
      ]
    where
      behind : ℕ → Stub D I
      behind size = record g {
        sent =
            g.sent ++ packetify (b'm' ∷ join_ids (count_from (1 + g.thread_enum_cursor) size)) ∷ [];
        thread_enum_cursor = g.thread_enum_cursor + size;
      }

-- A client that asks a stub with the map that its constructor builds for the first threads, and then
-- up to n times for the next ones until the list ends, where n batches of 64 would hold all threads
-- and the numbers of warps, of threads in a warp and of all threads are below 2 ^ 31, reads the
-- numbers from 1 to the number of threads, in order and each once.
pub list_threads_lem :
    {D I : Type 0} (num_warps num_threads n : ℕ) (g : Stub D I)
    → num_warps < 2 ^ 31
    → num_threads < 2 ^ 31
    → num_warps * num_threads < 2 ^ 31
    → build_thread_map num_warps num_threads ≡ some g.thread_map
    → num_warps * num_threads ≤ 64 * n
    → list_threads n g ≡ some (count_from 1 (num_warps * num_threads))
unfolding list_threads cmd_thread_list_first
list_threads_lem num_warps num_threads n g h k l made enough =
    next_threads_lem n (num_warps * num_threads) (num_warps * num_threads)
      (record g { thread_enum_cursor = 0 })
      (ap ids_of (some_inj (sym made ∙ built num_warps num_threads h k l))
        ∙ ids-build num_warps num_threads)
      (omega arith) (omega arith) enough
    ∙ ap (λ x. some (count_from x (num_warps * num_threads))) {x = 1 + 0} {y = 1} (omega arith)
