-- ===== src/Hart/WriteParts.antt =====
-- The head, the whole words and the tail that `write_mem` writes (src/backend.cpp).
use mathlib.Core.Path.{subst}
use vxdebug.Base.{
  ℕ, suc, ◌+◌, ◌-◌, ◌%◌, ◌^◌, ◌<◌, ◌≡◌, refl, sym, ap, arith, ◌∙◌, List, [], ◌∷◌, take, drop,
  length, length-take, length-drop, ◌⊎◌, inl, inr, min, ◌==◌, leb, ltb, true, false, Bool-cases,
}
use vxdebug.Target.{Target}
use vxdebug.Backend.State.{Backend}
use vxdebug.Backend.Dmreg.{retries_of}
use vxdebug.Backend.Memory.{word_base, write_head, write_middle, write_tail}
use vxdebug.Hart.{Arch, csrr_scratch, Hart}
use vxdebug.Hart.Ends.{at, Ends, ends, bind, mono}
use vxdebug.Hart.Inject.{Ends-write_scratch}
use vxdebug.Hart.Temps.{exec-csrr_t0, Ends-step}
use vxdebug.Hart.Bytes.{word_base_lem}
use vxdebug.Hart.Store.{store_bytes}
use vxdebug.Hart.Progress.{Progress, Progress-advance, AreByteValues-take}
use vxdebug.Hart.WriteWords.{with_mem, words, Shows, Ends-write_partial, Ends-write_words}

take_all : (xs : List ℕ) → take (length xs) xs ≡ xs
take_all [] = refl
take_all (x ∷ xs) = ap (λ ys. x ∷ ys) (take_all xs)

store_bytes-empty : (m : ℕ → ℕ) (i : ℕ) (xs : List ℕ) → length xs ≡ 0 → store_bytes m i xs ≡ m
unfolding store_bytes
store_bytes-empty m i [] e = refl
store_bytes-empty m i (x ∷ xs) e = absurd (omega arith)

module _ {D : Type 0} ⦃t : Target D⦄ {wid tid : ℕ} (h : Hart t wid tid) (b : Backend D) (a : Arch)
    (patient : h.latency < retries_of b.poll_retries) where
  -- The three parts in turn.
  pub Ends-write_head :
      (goal : ℕ → ℕ) (finish : ℕ) (m : ℕ → ℕ) (cur : ℕ) (rest : List ℕ) {d : D}
      → Progress goal finish m cur rest
      → Shows h b a patient m d
      → Ends b
          (λ v e.
            (n : ℕ → ℕ) × Progress goal finish n v.0 v.1
            × ((length v.1 ≡ 0) ⊎ (v.0 % 4 ≡ 0))
            × Shows h b a patient n e)
          (write_head (words h.code) cur rest (at b d))
  unfolding write_head
  Ends-write_head goal finish m cur rest g p = elim (Bool-cases (cur % 4 == 0)) [
    | inl zero_offset ↦ rw (zero_offset, write_head) (ends (m, g, inr (ground arith), p))
    | inr offset ↦
        let e = g.ends_at in
        let w = g.no_wrap in
        rw (offset, write_head)
          (bind _
            (Ends-write_partial h b a patient m (word_base cur) (cur % 4) (take (taken cur) rest)
              (omega (arith, word_base_lem cur (omega arith)))
              (omega (arith, length-take (taken cur) rest))
              (AreByteValues-take (taken cur) rest g.values) g.memory p)
            λ _ d1 q. ends (
              store_bytes m cur (take (taken cur) rest),
              Progress-advance m cur rest (taken cur) (omega arith) g,
              settled e w,
              subst (λ i. Shows h b a patient (store_bytes m i (take (taken cur) rest)) d1)
                  (omega (arith, word_base_lem cur (omega arith))) q,
            ))
  ]
    where
      taken : ℕ → ℕ
      taken cur = min (4 - cur % 4) (length rest)

      settled :
          cur + length rest ≡ finish
          → finish < 2 ^ 32
          → (length (drop (taken cur) rest) ≡ 0) ⊎ ((cur + taken cur) % 2 ^ 32 % 4 ≡ 0)
      settled e w = ground (arith, length-drop (taken cur) rest)

  pub Ends-write_middle :
      (goal : ℕ → ℕ) (finish : ℕ) (m : ℕ → ℕ) (cur : ℕ) (rest : List ℕ) {d : D}
      → Progress goal finish m cur rest
      → (length rest ≡ 0) ⊎ (cur % 4 ≡ 0)
      → Shows h b a patient m d
      → Ends b
          (λ v e.
            (n : ℕ → ℕ) × Progress goal finish n v.0 v.1
            × (length v.1 < 4)
            × ((length v.1 ≡ 0) ⊎ (v.0 % 4 ≡ 0))
            × Shows h b a patient n e)
          (write_middle (words h.code) finish cur rest (at b d))
  unfolding write_middle
  Ends-write_middle goal finish m cur rest g al (x, y, s, p) =
      let e = g.ends_at in
      let w = g.no_wrap in
      elim (Bool-cases (leb 4 ((finish + 2 ^ 32 - cur) % 2 ^ 32))) [
        | inr few ↦ rw (few, write_middle) (ends (m, g, less e w few, al, (x, y, s, p)))
        | inl many ↦
            rw (many, write_middle)
              (bind _ (Ends-write_scratch h b cur (omega arith) p) λ _ d1 p1.
                bind _
                  (Ends-step h b (csrr_scratch 5) (exec-csrr_t0 (with_mem a m) x y cur) patient p1)
                  λ _ d2 p2.
                    mono
                      (Ends-write_words h b a patient goal finish (suc (length rest)) m cur y cur
                        rest (omega arith) g p2)
                      λ v d3 q. (q.0, q.1, q.2, inr (q.3 ∙ on_word e w many), q.4))
      ]
    where
      less :
          cur + length rest ≡ finish
          → finish < 2 ^ 32
          → leb 4 ((finish + 2 ^ 32 - cur) % 2 ^ 32) ≡ false
          → length rest < 4
      less e w few = ground arith

      on_word :
          cur + length rest ≡ finish
          → finish < 2 ^ 32
          → leb 4 ((finish + 2 ^ 32 - cur) % 2 ^ 32) ≡ true
          → cur % 4 ≡ 0
      on_word e w many = ground arith

  pub Ends-write_tail :
      (goal : ℕ → ℕ) (finish : ℕ) (m : ℕ → ℕ) (cur : ℕ) (rest : List ℕ) {d : D}
      → Progress goal finish m cur rest
      → length rest < 4
      → (length rest ≡ 0) ⊎ (cur % 4 ≡ 0)
      → Shows h b a patient m d
      → Ends b
          (λ _ e. Shows h b a patient goal e)
          (write_tail (words h.code) finish cur rest (at b d))
  unfolding write_tail
  Ends-write_tail goal finish m cur rest {d} g short al p =
      let e = g.ends_at in
      let w = g.no_wrap in
      elim (Bool-cases (ltb cur finish)) [
        | inr done ↦
            rw (done, write_tail)
              (ends (
                subst (λ n. Shows h b a patient n d)
                  (sym (store_bytes-empty m cur rest (empty e done)) ∙ g.stored) p))
        | inl more ↦
            rw (more, write_tail, whole e)
              (mono
                (Ends-write_partial h b a patient m (word_base cur) 0 rest
                  (omega (arith, word_base_lem cur (omega arith))) (omega arith) g.values g.memory
                  p)
                λ _ d1 q.
                  subst (λ n. Shows h b a patient n d1)
                    (ap (λ i. store_bytes m i rest) (start e w more) ∙ g.stored) q)
      ]
    where
      empty : cur + length rest ≡ finish → ltb cur finish ≡ false → length rest ≡ 0
      empty e done = ground arith

      whole : cur + length rest ≡ finish → take (finish - cur) rest ≡ rest
      whole e =
          ap (λ k. take k rest) {x = finish - cur} {y = length rest} (omega arith) ∙ take_all rest

      start :
          cur + length rest ≡ finish
          → finish < 2 ^ 32
          → ltb cur finish ≡ true
          → (word_base cur + 0) % 2 ^ 32 ≡ cur
      start e w more = ground (arith, word_base_lem cur)
