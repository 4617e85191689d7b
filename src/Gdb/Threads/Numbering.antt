-- ===== src/Gdb/Threads/Numbering.antt =====
-- The identifiers of the thread map and the threads they stand for.
use mathlib.Core.Path.{subst}
use native.Mathlib.Nat.{mod-lt, div-lt_iff_lt-mul, div-add-mod'}
use vxdebug.Base.{
  ℕ, ◌-◌, ◌/◌, ◌%◌, ◌==◌, ◌||◌, ltb, lt→ltb, ap₂, ◌^◌, sym, if_true, if_false, true, false,
  if◌then◌else◌, zero, suc, ◌+◌, ◌*◌, ◌<◌, ◌≤◌, [], ◌∷◌, ◌++◌, ◌≡◌, ◌≢◌, refl, ap, ◌∙◌, arith, none,
  some, ==_false, ◌⊎◌, inl, inr,
}
use vxdebug.Gdb.Threads.{
  ThreadMap, warp_threads, all_threads, numbered_threads, build_thread_map, find_thread,
}
use vxdebug.Base.Int.{to_ℕ, to_int}

find-hit : (tid k : ℕ) (v : ℕ × ℕ) (m : ThreadMap) → k ≡ tid → find_thread tid ((k, v) ∷ m) ≡ some v
unfolding find_thread
find-hit tid k v m e = ground arith

find-miss :
    (tid k : ℕ) (v : ℕ × ℕ) (m : ThreadMap)
    → k ≢ tid
    → find_thread tid ((k, v) ∷ m) ≡ find_thread tid m
unfolding find_thread
find-miss tid k v m ne = rw (==_false k tid ne, find_thread) refl

find-append_hit :
    (tid : ℕ) (v : ℕ × ℕ) (m n : ThreadMap)
    → find_thread tid m ≡ some v
    → find_thread tid (m ++ n) ≡ some v
unfolding find_thread
find-append_hit tid v [] n e = ground arith
find-append_hit tid v ((k, u) ∷ m) n e = ground (arith, find-append_hit tid v m n)

find-append_miss :
    (tid : ℕ) (m n : ThreadMap)
    → find_thread tid m ≡ none
    → find_thread tid (m ++ n) ≡ find_thread tid n
unfolding find_thread
find-append_miss tid [] n e = refl
find-append_miss tid ((k, u) ∷ m) n e = ground (arith, find-append_miss tid m n)

module _ (num_threads wid : ℕ) where
  find-warp_threads :
      (left from l_tid : ℕ)
      → from ≤ l_tid
      → l_tid < from + left
      → find_thread (1 + wid * num_threads + l_tid) (warp_threads num_threads wid from left)
        ≡ some (wid, l_tid)
  unfolding warp_threads
  find-warp_threads zero from l_tid h k = absurd (omega arith)
  find-warp_threads (suc left) from l_tid h k = elim (from_or_above from l_tid h) [
    | inl e ↦
        find-hit (1 + wid * num_threads + l_tid) (1 + wid * num_threads + from) (wid, from)
          (warp_threads num_threads wid (suc from) left) (omega arith)
        ∙ ap (λ x. some (wid, x)) e
    | inr l ↦
        find-miss (1 + wid * num_threads + l_tid) (1 + wid * num_threads + from) (wid, from)
          (warp_threads num_threads wid (suc from) left) (omega arith)
        ∙ find-warp_threads left (suc from) l_tid (omega arith) (omega arith)
  ]
    where
      from_or_above : (a b : ℕ) → a ≤ b → (a ≡ b) ⊎ (a < b)
      from_or_above a b h = ground arith

  -- A warp's identifiers lie between those of the warps around it.
  warp_threads-outside :
      (left from tid : ℕ)
      → (tid ≤ wid * num_threads + from) ⊎ (wid * num_threads + from + left < tid)
      → find_thread tid (warp_threads num_threads wid from left) ≡ none
  unfolding warp_threads find_thread
  warp_threads-outside zero from tid h = refl
  warp_threads-outside (suc left) from tid h =
      find-miss tid (1 + wid * num_threads + from) (wid, from)
        (warp_threads num_threads wid (suc from) left) (ground arith)
      ∙ warp_threads-outside left (suc from) tid (ground arith)

-- The warps before another take their threads' share of identifiers.
pub mul_suc : (a b : ℕ) → suc a * b ≡ a * b + b
mul_suc a b = grind arith

mul_lt : (a b n : ℕ) → a < b → a * n + n ≤ b * n
mul_lt a zero n h = absurd (omega arith)
mul_lt a (suc b) n h = elim (below a b h) [
  | inl e ↦ rw e (omega (arith, mul_suc b n))
  | inr l ↦ omega (arith, mul_suc b n, mul_lt a b n l)
]
  where
    below : (a b : ℕ) → a < suc b → (a ≡ b) ⊎ (a < b)
    below a b h = ground arith

module _ (num_threads : ℕ) where
  find-all_threads :
      (left from wid l_tid : ℕ)
      → from ≤ wid
      → wid < from + left
      → l_tid < num_threads
      → find_thread (1 + wid * num_threads + l_tid) (all_threads num_threads from left)
        ≡ some (wid, l_tid)
  unfolding all_threads
  find-all_threads zero from wid l_tid h k l = absurd (omega arith)
  find-all_threads (suc left) from wid l_tid h k l = elim (here_or_above from wid h) [
    | inl e ↦
        find-append_hit (1 + wid * num_threads + l_tid) (wid, l_tid)
          (warp_threads num_threads from 0 num_threads) (all_threads num_threads (suc from) left)
          (rw e (find-warp_threads num_threads wid num_threads 0 l_tid (omega arith) (omega arith)))
    | inr a ↦
        find-append_miss (1 + wid * num_threads + l_tid)
          (warp_threads num_threads from 0 num_threads) (all_threads num_threads (suc from) left)
          (warp_threads-outside num_threads from num_threads 0 (1 + wid * num_threads + l_tid)
            (inr (omega (arith, mul_lt from wid num_threads a))))
        ∙ find-all_threads left (suc from) wid l_tid (omega arith) (omega arith) l
  ]
    where
      here_or_above : (a b : ℕ) → a ≤ b → (a ≡ b) ⊎ (a < b)
      here_or_above a b h = ground arith

  all_threads-outside :
      (left from tid : ℕ)
      → (tid ≤ from * num_threads) ⊎ ((from + left) * num_threads < tid)
      → find_thread tid (all_threads num_threads from left) ≡ none
  unfolding all_threads find_thread
  all_threads-outside zero from tid h = refl
  all_threads-outside (suc left) from tid h =
      find-append_miss tid (warp_threads num_threads from 0 num_threads)
        (all_threads num_threads (suc from) left)
        (warp_threads-outside num_threads from num_threads 0 tid (around h))
      ∙ all_threads-outside left (suc from) tid (others h)
    where
      around :
          (tid ≤ from * num_threads) ⊎ ((from + suc left) * num_threads < tid)
          → (tid ≤ from * num_threads + 0) ⊎ (from * num_threads + 0 + num_threads < tid)
      around (inl a) = inl (omega arith)
      around (inr b) = inr (omega (arith, mul_lt from (from + suc left) num_threads (omega arith)))

      others :
          (tid ≤ from * num_threads) ⊎ ((from + suc left) * num_threads < tid)
          → (tid ≤ suc from * num_threads) ⊎ ((suc from + left) * num_threads < tid)
      others (inl a) = inl (omega (arith, mul_suc from num_threads))
      others (inr b) = inr (
          subst (λ x. x * num_threads < tid) {x = from + suc left} {y = suc from + left}
            (omega arith) b)

-- Thread `l_tid` of warp `wid` has the identifier 1 + wid * num_threads + l_tid, and the map gives
-- the thread back.
find-threads :
    (num_warps num_threads wid l_tid : ℕ)
    → wid < num_warps
    → l_tid < num_threads
    → find_thread (1 + wid * num_threads + l_tid) (all_threads num_threads 0 num_warps)
      ≡ some (wid, l_tid)
find-threads num_warps num_threads wid l_tid h k =
    find-all_threads num_threads num_warps 0 wid l_tid (omega arith) (omega arith) k

-- An identifier that is 0, or larger than the number of threads, is in no entry of the map.
find-outside :
    (num_warps num_threads tid : ℕ)
    → (tid ≡ 0) ⊎ (num_warps * num_threads < tid)
    → find_thread tid (all_threads num_threads 0 num_warps) ≡ none
find-outside num_warps num_threads tid h = all_threads-outside num_threads num_warps 0 tid (apart h)
  where
    apart :
        (tid ≡ 0) ⊎ (num_warps * num_threads < tid)
        → (tid ≤ 0 * num_threads) ⊎ ((0 + num_warps) * num_threads < tid)
    apart (inl e) = inl (omega arith)
    apart (inr l) =
        inr (subst (λ x. x * num_threads < tid) {x = num_warps} {y = 0 + num_warps} (omega arith) l)

-- A number between 1 and that of all threads belongs to the thread that division gives.
find-between :
    (num_warps num_threads tid : ℕ)
    → 0 < num_threads
    → 0 < tid
    → tid ≤ num_warps * num_threads
    → find_thread tid (all_threads num_threads 0 num_warps)
      ≡ some ((tid - 1) / num_threads, (tid - 1) % num_threads)
find-between num_warps num_threads tid some_threads h k =
    ap (λ i. find_thread i (all_threads num_threads 0 num_warps)) {x = tid}
      {y = 1 + (tid - 1) / num_threads * num_threads + (tid - 1) % num_threads}
      (omega (arith, div-add-mod' (tid - 1) num_threads))
    ∙ find-threads num_warps num_threads ((tid - 1) / num_threads) ((tid - 1) % num_threads)
        ((div-lt_iff_lt-mul some_threads).1 (omega arith)) (mod-lt (tid - 1) some_threads)

find-all :
    (num_warps num_threads tid : ℕ)
    → find_thread tid (all_threads num_threads 0 num_warps) ≡ (
        if tid == 0 || ltb (num_warps * num_threads) tid
        then none
        else some ((tid - 1) / num_threads, (tid - 1) % num_threads))
find-all num_warps num_threads tid = elim (where_it_is tid (num_warps * num_threads)) [
  | inl outside ↦
      find-outside num_warps num_threads tid outside
      ∙ sym (
          if_true none (some ((tid - 1) / num_threads, (tid - 1) % num_threads))
            (is_outside tid (num_warps * num_threads) outside))
  | inr (h, k) ↦
      find-between num_warps num_threads tid (some_threads num_threads h k) h k
      ∙ sym (
          if_false none (some ((tid - 1) / num_threads, (tid - 1) % num_threads))
            (is_inside tid (num_warps * num_threads) h k))
]
  where
    where_it_is : (i n : ℕ) → ((i ≡ 0) ⊎ (n < i)) ⊎ ((0 < i) × (i ≤ n))
    where_it_is i n = ground arith

    is_outside : (i n : ℕ) → (i ≡ 0) ⊎ (n < i) → (i == 0 || ltb n i) ≡ true
    is_outside i n h = ground arith

    is_inside : (i n : ℕ) → 0 < i → i ≤ n → (i == 0 || ltb n i) ≡ false
    is_inside i n h k = ground arith

    some_threads : (m : ℕ) → 0 < tid → tid ≤ num_warps * m → 0 < m
    some_threads zero h k = absurd (omega arith)
    some_threads (suc m) h k = omega arith

-- The map that is built when the numbers of warps, of threads in a warp and of all threads are below
-- 2 ^ 31.
pub built :
    (num_warps num_threads : ℕ)
    → num_warps < 2 ^ 31
    → num_threads < 2 ^ 31
    → num_warps * num_threads < 2 ^ 31
    → build_thread_map num_warps num_threads ≡ some (all_threads num_threads 0 num_warps)
unfolding build_thread_map numbered_threads
built num_warps num_threads h k l =
    ap₂ numbered_threads (as_int num_warps h) (as_int num_threads k)
    ∙ if_true (some (all_threads num_threads 0 num_warps)) none
        (lt→ltb (num_warps * num_threads) (2 ^ 31) l)
  where
    as_int : (n : ℕ) → n < 2 ^ 31 → to_ℕ (to_int n) ≡ n
    as_int n h = ground arith

-- Where the numbers of warps, of threads in a warp and of all threads are below 2 ^ 31, the map is
-- built without overflow, and in it the identifiers from 1 to the number of all threads are those of
-- the threads, warp after warp: identifier `tid` stands for thread (tid - 1) % num_threads of warp
-- (tid - 1) / num_threads. No other identifier is in it.
pub find_thread_lem :
    (num_warps num_threads tid : ℕ)
    → num_warps < 2 ^ 31
    → num_threads < 2 ^ 31
    → num_warps * num_threads < 2 ^ 31
    → (m : ThreadMap) × (build_thread_map num_warps num_threads ≡ some m)
      × (find_thread tid m ≡ (
          if tid == 0 || ltb (num_warps * num_threads) tid
          then none
          else some ((tid - 1) / num_threads, (tid - 1) % num_threads)))
find_thread_lem num_warps num_threads tid h k l = (
  all_threads num_threads 0 num_warps,
  built num_warps num_threads h k l,
  find-all num_warps num_threads tid,
)
