-- ===== src/Gdb/Threads/Batches.antt =====
-- How a client reads the batches of the thread list (src/gdbstub.cpp), and what it finds in one.
use vxdebug.Base.{
  ℕ, zero, suc, ◌+◌, ◌^◌, ◌<◌, ◌≤◌, List, [], ◌∷◌, ◌++◌, ◌≡◌, refl, ap, ◌∙◌, arith, map, ◌==◌,
  if◌then◌else◌, Option, none, some, inl, ap₂,
}
use vxdebug.Text.{Str, codes}
use vxdebug.Text.Number.{hex_u32, hex}
use vxdebug.Text.Plain.{hex_u32-hex}
use vxdebug.Util.{split_at, tokenize, join}
use vxdebug.Util.Split.{Avoids, AllAvoid, Avoids-append, Avoids-hex, split_at-append, tokenize-join}
use vxdebug.Run.{Run, ok, err, throws, waits}
use vxdebug.Text.Number.{hex_padded}
use vxdebug.Gdb.State.{byte_sum}
use vxdebug.Gdb.Packet.Framing.{packetify-plain}
use vxdebug.Gdb.State.{Stub, packetify, send_data, send_packet}
use vxdebug.Gdb.Threads.{join_ids, cmd_thread_list_first, cmd_thread_list_next}
use vxdebug.Count.{count_from}

-- What stands between `$` and `#`.
abbrev pub payload : Str → Str
payload [] = []
payload (c ∷ s) = elim (split_at b'#' s) [ none ↦ [] | some (msg, checksum) ↦ msg ]

abbrev pub last_of : List Str → Str
last_of [] = []
last_of (s ∷ []) = s
last_of (s ∷ t ∷ ts) = last_of (t ∷ ts)

-- What GDB takes from a reply: the end of the list, or identifiers before those still to come.
abbrev pub with_ids : Str → Option (List ℕ) → Option (List ℕ)
with_ids [] rest = none
with_ids (c ∷ s) none = if c == b'l' then some [] else none
with_ids (c ∷ s) (some is) =
    if c == b'l'
    then some []
    else if c == b'm'
    then some (map hex_u32 (tokenize b',' s) ++ is)
    else none

module _ {D I : Type 0} where
  abbrev pub answered : (Stub D I → Option (List ℕ)) → Run (Stub D I) (Unit {0}) → Option (List ℕ)
  answered more (ok x h) = with_ids (payload (last_of h.sent)) (more h)
  answered more (err c h) = none
  answered more (throws h) = none
  answered more (waits h) = none

  -- The identifiers that up to so many `qsThreadInfo` give; `none` when the end has not come.
  unfoldable pub next_threads : ℕ → Stub D I → Option (List ℕ)
  next_threads zero g = none
  next_threads (suc n) g = answered (next_threads n) (cmd_thread_list_next g)

  -- A `qfThreadInfo`, and up to so many `qsThreadInfo` after it.
  unfoldable pub list_threads : ℕ → Stub D I → Option (List ℕ)
  unfolding next_threads
  list_threads n g = answered (next_threads n) (cmd_thread_list_first g)

join_ids-join : (is : List ℕ) → join_ids is ≡ join b',' (map hex is)
unfolding join_ids join
join_ids-join [] = refl
join_ids-join (i ∷ []) = refl
join_ids-join (i ∷ j ∷ is) = ap (λ s. hex i ++ b',' ∷ s) (join_ids-join (j ∷ is))

AllAvoid-hex : (is : List ℕ) → AllAvoid b',' (map hex is)
unfolding AllAvoid
AllAvoid-hex [] = tt
AllAvoid-hex (i ∷ is) = (Avoids-hex b',' i (inl (omega arith)), AllAvoid-hex is)

hex_u32-count : (a k : ℕ) → a + k ≤ 2 ^ 32 → map hex_u32 (map hex (count_from a k)) ≡ count_from a k
hex_u32-count a zero h = refl
hex_u32-count a (suc k) h =
    ap₂ (λ (x : ℕ) (l : List ℕ). x ∷ l) (hex_u32-hex a (omega arith))
      (hex_u32-count (suc a) k (omega arith))

-- A batch is read back.
pub read-batch :
    (a k : ℕ)
    → suc (a + k) ≤ 2 ^ 32
    → map hex_u32 (tokenize b',' (join_ids (count_from a (suc k)))) ≡ count_from a (suc k)
read-batch a k h =
    ap (λ s. map hex_u32 (tokenize b',' s)) (join_ids-join (count_from a (suc k)))
    ∙ ap (map hex_u32) (
        tokenize-join b',' (hex a) (map hex (count_from (suc a) k))
          (Avoids-hex b',' a (inl (omega arith))) (AllAvoid-hex (count_from (suc a) k)))
    ∙ hex_u32-count a (suc k) (omega arith)

pub Avoids-join_ids : (c : ℕ) (is : List ℕ) → c < b',' → Avoids c (join_ids is)
unfolding join_ids Avoids
Avoids-join_ids c [] h = tt
Avoids-join_ids c (i ∷ []) h = Avoids-hex c i (inl (omega arith))
Avoids-join_ids c (i ∷ j ∷ is) h =
    Avoids-append c (hex i) (b',' ∷ join_ids (j ∷ is)) (Avoids-hex c i (inl (omega arith)))
      ((λ e. omega (arith, h, e)), Avoids-join_ids c (j ∷ is) h)

pub payload-packetify : (msg : Str) → Avoids b'#' msg → Avoids 0 msg → payload (packetify msg) ≡ msg
payload-packetify msg h z =
    ap payload (packetify-plain msg z)
    ∙ rw (split_at-append b'#' msg (hex_padded 2 (byte_sum msg)) h, payload) refl

pub last-append : (ss : List Str) (s : Str) → last_of (ss ++ s ∷ []) ≡ s
last-append [] s = refl
last-append (t ∷ []) s = refl
last-append (t ∷ u ∷ ss) s = last-append (u ∷ ss) s

pub stop : (rest : Option (List ℕ)) → with_ids (codes "l") rest ≡ some []
stop none = refl
stop (some is) = refl

module _ {D I : Type 0} where
  -- What the client takes from a packet.
  pub answered-send :
      (more : Stub D I → Option (List ℕ)) (msg : Str) (g : Stub D I)
      → Avoids b'#' msg
      → Avoids 0 msg
      → answered more (send_packet msg g)
        ≡ with_ids msg (more (record g { sent = g.sent ++ packetify msg ∷ [] }))
  unfolding send_packet send_data
  answered-send more msg g h z =
      rw (last-append g.sent (packetify msg), payload-packetify msg h z) refl

  pub answered-batch :
      (more : Stub D I → Option (List ℕ)) (a size : ℕ) (g : Stub D I) (is : List ℕ)
      → 0 < size
      → a + size ≤ 2 ^ 32
      → more (record g { sent = g.sent ++ packetify (b'm' ∷ join_ids (count_from a size)) ∷ [] })
        ≡ some is
      → answered more (send_packet (b'm' ∷ join_ids (count_from a size)) g)
        ≡ some (count_from a size ++ is)
  unfolding Avoids
  answered-batch more a zero g is h k e = absurd (omega arith)
  answered-batch more a (suc size) g is h k e =
      answered-send more (b'm' ∷ join_ids (count_from a (suc size))) g
        ((omega arith), Avoids-join_ids b'#' (count_from a (suc size)) (omega arith))
        ((omega arith), Avoids-join_ids 0 (count_from a (suc size)) (omega arith))
      ∙ ap (with_ids (b'm' ∷ join_ids (count_from a (suc size)))) e
      ∙ ap (λ l. some (l ++ is)) (read-batch a size (omega arith))
