-- ===== src/Hart/Breakpoints/Edits.antt =====
-- Requests that set and remove breakpoints (src/backend.cpp, "Breakpoint Management"), one after
-- the other.
use mathlib.Core.Path.{subst}
use vxdebug.Base.{
  ℕ, ◌≡◌, refl, sym, ◌∙◌, arith, false, List, [], ◌∷◌, some, Bool-cases, inl, inr, if_true,
  if_false,
}
use vxdebug.Text.{codes}
use vxdebug.Run.{Run, ok, Cmd, pure, and_then, ◌>>◌}
use vxdebug.Target.{Target}
use vxdebug.Backend.State.{Backend}
use vxdebug.Backend.Memory.{bytes_word}
use vxdebug.Backend.Breakpoints.{
  Table, erase, insert, lookup, enabled_at, new_breakpoint, set_breakpoint, remove_breakpoint,
}
use vxdebug.Hart.{Arch, Hart}
use vxdebug.Hart.Ends.{at}
use vxdebug.Hart.Checked.{Selects}
use vxdebug.Hart.Temps.{Lines}
use vxdebug.Hart.Bytes.{mem_bytes, AreBytes}
use vxdebug.Hart.Breakpoints.{set_breakpoint_lem, remove_breakpoint_lem}
use vxdebug.Hart.Breakpoints.Marks.{
  Edit, put, remove, address, IsPlace, ArePlaces, Marks, after, after_all, overlay, Lists,
  enabled_at-erase, enabled_at-put, after-put_self, after-remove_self, overlay-put, overlay-remove,
  AreBytes-overlay, mem_bytes-overlay,
}

-- A new entry for a word that no breakpoint has patched.
Lists-put :
    (m : ℕ → ℕ) (w k : ℕ) (marks : Marks) (u : Table)
    → IsPlace k
    → marks k ≡ false
    → Lists m marks u
    → Lists m
        (after (put k) marks)
        (insert k (new_breakpoint k (bytes_word (mem_bytes (overlay m w marks) k 4))) u)
unfolding after
Lists-put m w k marks u place free listed = λ j.
    enabled_at-put k j (bytes_word (mem_bytes (overlay m w marks) k 4)) u
    ∙ ground (arith, listed j, mem_bytes-overlay m w k marks place free)

Lists-remove :
    (m : ℕ → ℕ) (k : ℕ) (marks : Marks) (u : Table)
    → Lists m marks u
    → Lists m (after (remove k) marks) (erase k u)
unfolding after
Lists-remove m k marks u listed = λ j. enabled_at-erase k j u ∙ ground (arith, listed j)

module _ {D : Type 0} ⦃t : Target D⦄ where
  -- Each request in turn.
  unfoldable pub edit : Edit → Cmd (Backend D) (Unit {0})
  edit (put a) = set_breakpoint a
  edit (remove a) = remove_breakpoint a

  unfoldable pub edit_all : List Edit → Cmd (Backend D) (Unit {0})
  unfolding edit
  edit_all [] = pure tt
  edit_all (e ∷ es) = do edit e; edit_all es

module _ {D : Type 0} ⦃t : Target D⦄ {wid tid : ℕ} (h : Hart t wid tid) (b : Backend D) where
  -- The backend with another table.
  abbrev with_table : Table → Backend D
  with_table u = record b { breakpoints = u }

  with_table-Selects :
      (u : Table) → Selects t wid tid h.latency b → Selects t wid tid h.latency (with_table u)
  with_table-Selects u s = record {
    warp = s.warp;
    thread = s.thread;
    exists = s.exists;
    in_windows = s.in_windows;
    patient = s.patient;
  }

  -- The run has ended well: its table lists the marks, and memory is that of `a` with `w` at them.
  abbrev pub Marked : Arch → ℕ → Marks → Run (Backend D) (Unit {0}) → Type 0
  Marked a w marks r =
      (u : Table) × (d : D) × (s : ℕ) × (r ≡ ok tt (at (with_table u) d))
      × Lists a.mem marks u
      × h.At (record a { mem = overlay a.mem w marks; scratch = s }) d

  module _ (a : Arch) (w : ℕ) (by : AreBytes a.mem) (l : Lines t h.code)
      (line : t.assemble (codes "ebreak") ≡ some w) (sel : Selects t wid tid h.latency b) where
    edit_lem :
        (e : Edit) (marks : Marks) (u : Table) {s : ℕ} {d : D}
        → IsPlace (address e)
        → Lists a.mem marks u
        → h.At (record a { mem = overlay a.mem w marks; scratch = s }) d
        → Marked a w (after e marks) (edit e (at (with_table u) d))
    unfolding edit set_breakpoint remove_breakpoint
    edit_lem (put k) marks u {s} {d} place listed p = elim (Bool-cases (marks k)) [
      | inl old ↦
          subst (λ n. Marked a w n (edit (put k) (at (with_table u) d)))
            (sym (after-put_self k marks old))
            (u, d, s, rw (set_breakpoint, listed k ∙ if_true _ _ old) refl, listed, p)
      | inr new ↦
          let (d', s', run, p') =
            set_breakpoint_lem h (with_table u) k w
              (record a { mem = overlay a.mem w marks; scratch = s }) place.1
              (AreBytes-overlay a.mem w marks by) l line (with_table-Selects u sel)
              (listed k ∙ if_false _ _ new) p in
          (
            insert k (new_breakpoint k (bytes_word (mem_bytes (overlay a.mem w marks) k 4))) u,
            d',
            s',
            run,
            Lists-put a.mem w k marks u place new listed,
            subst (λ m. h.At (record a { mem = m; scratch = s' }) d')
                (overlay-put a.mem w k marks place) p',
          )
    ]
    edit_lem (remove k) marks u {s} {d} place listed p = elim (Bool-cases (marks k)) [
      | inl old ↦
          let (d', s', run, p') =
            remove_breakpoint_lem h (with_table u) k (bytes_word (mem_bytes a.mem k 4))
              (record a { mem = overlay a.mem w marks; scratch = s }) place.1
              (AreBytes-overlay a.mem w marks by) l (with_table-Selects u sel)
              (listed k ∙ if_true _ _ old) p in
          (
            erase k u,
            d',
            s',
            run,
            Lists-remove a.mem k marks u listed,
            subst (λ m. h.At (record a { mem = m; scratch = s' }) d')
                (overlay-remove a.mem w k marks by place) p',
          )
      | inr new ↦
          subst (λ n. Marked a w n (edit (remove k) (at (with_table u) d)))
            (sym (after-remove_self k marks new))
            (u, d, s, rw (remove_breakpoint, listed k ∙ if_false _ _ new) refl, listed, p)
    ]

    edit_all_lem_from :
        (es : List Edit) (marks : Marks) (u : Table) {s : ℕ} {d : D}
        → ArePlaces es
        → Lists a.mem marks u
        → h.At (record a { mem = overlay a.mem w marks; scratch = s }) d
        → Marked a w (after_all es marks) (edit_all es (at (with_table u) d))
    unfolding edit_all after_all ArePlaces and_then
    edit_all_lem_from [] marks u {s} {d} places listed p = (u, d, s, refl, listed, p)
    edit_all_lem_from (e ∷ es) marks u places listed p =
        let (u1, d1, s1, run, listed1, p1) = edit_lem e marks u places.0 listed p in
        rw run (edit_all_lem_from es (after e marks) u1 places.1 listed1 p1)

  -- With a warp of the platform, below 32768, selected, active and halted, more poll retries than
  -- an injection takes polls, lines that assemble to their instructions, a memory of bytes and no
  -- breakpoint in the table, any sequence of setting and removing breakpoints at words below the
  -- last one succeeds. Memory then has the word of `ebreak` at just the addresses whose last
  -- request was to set, and is else as it was before the first one, like registers and CSRs; only
  -- DSCRATCH may differ. The table has an enabled entry for just these addresses, with the word
  -- that was there at first, and nothing else of the backend changes.
  pub edit_all_lem :
      (a : Arch) (w : ℕ) (es : List Edit) {d : D}
      → ArePlaces es
      → AreBytes a.mem
      → Lines t h.code
      → t.assemble (codes "ebreak") ≡ some w
      → Selects t wid tid h.latency b
      → b.breakpoints ≡ []
      → h.At a d
      → Marked a w (after_all es (λ k. false)) (edit_all es (at b d))
  unfolding overlay enabled_at lookup
  edit_all_lem a w es {d} places by l line sel empty p =
      subst (λ u. Marked a w (after_all es (λ k. false)) (edit_all es (at (with_table u) d)))
        (sym empty) (edit_all_lem_from a w by l line sel es (λ k. false) [] places (λ k. refl) p)
