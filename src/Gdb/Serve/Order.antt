-- ===== src/Gdb/Serve/Order.antt =====
-- The dispatch does not depend on the order in which the hash table is walked.
use mathlib.Core.List.{Permᴰ}
use mathlib.Core.Path.{fun_ext, subst}
use vxdebug.Base.{
  Bool, true, false, ◌&&◌, ◌||◌, not, List, [], ◌∷◌, ◌≡◌, refl, ap, ap₂, ◌∙◌, arith, sym,
  Bool-cases, inl, inr,
}
use vxdebug.Text.{Str}
use vxdebug.Util.{starts_with}
use vxdebug.Run.{Cmd, ◌>>=◌, ◌>>◌, pure}
use vxdebug.Target.{Target}
use vxdebug.Gdb.State.{Stub, send_ack}
use vxdebug.Gdb.Serve.{
  Handler, Surroundings, cmd_map, run_handler, dispatch_loop, dispatch, if_not_found,
}

-- Neither text is a prefix of the other.
abbrev clash : Str → Str → Bool
clash p q = starts_with p q || starts_with q p

-- Two prefixes of one text clash.
clash_of_prefixes :
    (p q s : Str) → starts_with p s ≡ true → starts_with q s ≡ true → clash p q ≡ true
unfolding starts_with
clash_of_prefixes [] q s hp hq = refl
clash_of_prefixes (x ∷ p) [] s hp hq = refl
clash_of_prefixes (x ∷ p) (y ∷ q) [] hp hq = ground arith
clash_of_prefixes (x ∷ p) (y ∷ q) (c ∷ s) hp hq = ground (arith, clash_of_prefixes p q s)

abbrev Entry : Type 0
Entry = Str × Handler

-- No entry has a prefix that clashes with `e`'s; no two entries clash.
unfoldable none_clash : Entry → List Entry → Bool
none_clash e [] = true
none_clash e (f ∷ m) = not (clash e.0 f.0) && none_clash e m

unfoldable prefix_free : List Entry → Bool
unfolding none_clash
prefix_free [] = true
prefix_free (e ∷ m) = none_clash e m && prefix_free m

cmd_map-prefix_free : prefix_free cmd_map ≡ true
unfolding prefix_free none_clash starts_with
cmd_map-prefix_free = refl

module _ (s : Str) where
  -- At most one of two entries takes `s`.
  abbrev Apart : Entry → Entry → Type 0
  Apart e f = starts_with e.0 s && starts_with f.0 s ≡ false

  unfoldable EachApart : Entry → List Entry → Type 0
  EachApart e [] = Unit {0}
  EachApart e (f ∷ m) = Apart e f × EachApart e m

  unfoldable AllApart : List Entry → Type 0
  unfolding EachApart
  AllApart [] = Unit {0}
  AllApart (e ∷ m) = EachApart e m × AllApart m

  Apart-clash : (e f : Entry) → clash e.0 f.0 ≡ false → Apart e f
  Apart-clash e f h = ground (arith, clash_of_prefixes e.0 f.0 s)

  EachApart-none_clash : (e : Entry) (m : List Entry) → none_clash e m ≡ true → EachApart e m
  unfolding EachApart none_clash
  EachApart-none_clash e [] h = tt
  EachApart-none_clash e (f ∷ m) h =
      (Apart-clash e f (ground arith), EachApart-none_clash e m (ground arith))

  AllApart-prefix_free : (m : List Entry) → prefix_free m ≡ true → AllApart m
  unfolding AllApart prefix_free
  AllApart-prefix_free [] h = tt
  AllApart-prefix_free (e ∷ m) h =
      (EachApart-none_clash e m (ground arith), AllApart-prefix_free m (ground arith))

  Apart-symm : (e f : Entry) → Apart e f → Apart f e
  Apart-symm e f h = ground arith

  EachApart-Permᴰ : (e : Entry) {l m : List Entry} → Permᴰ l m → EachApart e l → EachApart e m
  unfolding EachApart
  EachApart-Permᴰ e Permᴰ.nil h = tt
  EachApart-Permᴰ e (Permᴰ.cons {b = b} q p) (h, hs) = (subst (Apart e) q h, EachApart-Permᴰ e p hs)
  EachApart-Permᴰ e (Permᴰ.swap q r) (h, (k, hs)) = (subst (Apart e) r k, (subst (Apart e) q h, hs))
  EachApart-Permᴰ e (Permᴰ.trans p q) h = EachApart-Permᴰ e q (EachApart-Permᴰ e p h)

  AllApart-Permᴰ : {l m : List Entry} → Permᴰ l m → AllApart l → AllApart m
  unfolding AllApart EachApart
  AllApart-Permᴰ Permᴰ.nil h = tt
  AllApart-Permᴰ (Permᴰ.cons {a = a} {l₂ = m} q p) (h, hs) =
      (subst (λ x. EachApart x m) q (EachApart-Permᴰ a p h), AllApart-Permᴰ p hs)
  AllApart-Permᴰ (Permᴰ.swap {a = a} {b = b} {a' = a'} {l = l} q r) ((h, hs), (k, ks)) = (
    (
      subst (λ x. Apart a' x) q (subst (λ x. Apart x a) r (Apart-symm a b h)),
      subst (λ x. EachApart x l) r k,
    ),
    (subst (λ x. EachApart x l) q hs, ks),
  )
  AllApart-Permᴰ (Permᴰ.trans p q) h = AllApart-Permᴰ q (AllApart-Permᴰ p h)

module _ {D : Type 0} (I : Type 0) ⦃t : Target D⦄ (env : Surroundings D) (s : Str) where
  -- One round of the loop before the rest `k`.
  unfoldable try_entry : Entry → Cmd (Stub D I) Bool → Cmd (Stub D I) Bool
  try_entry e k = λ g. elim (starts_with e.0 s) [
    | false ↦ k g
    | true ↦ (do send_ack; run_handler env e.1 s; _ ← k; pure true) g
  ]

  loop-cons :
      (e : Entry) (m : List Entry)
      → dispatch_loop {I = I} env (e ∷ m) s ≡ try_entry e (dispatch_loop {I = I} env m s)
  unfolding dispatch_loop try_entry
  loop-cons (p, f) m = refl

  try-miss : (e : Entry) (k : Cmd (Stub D I) Bool) → starts_with e.0 s ≡ false → try_entry e k ≡ k
  unfolding try_entry
  try-miss e k h = fun_ext (λ g. rw (h, try_entry) refl)

  -- Two entries of which only one takes the text may be tried in either order.
  try_comm :
      (e f : Entry) (k : Cmd (Stub D I) Bool)
      → Apart s e f
      → try_entry e (try_entry f k) ≡ try_entry f (try_entry e k)
  try_comm e f k h = elim (Bool-cases (starts_with e.0 s)) [
    | inr n ↦ try-miss e (try_entry f k) n ∙ ap (try_entry f) (sym (try-miss e k n))
    | inl y ↦
        ap (try_entry e) (try-miss f k (ground arith))
        ∙ sym (try-miss f (try_entry e k) (ground arith))
  ]

  loop-Permᴰ :
      {l m : List Entry}
      → Permᴰ l m
      → AllApart s l
      → dispatch_loop {I = I} env l s ≡ dispatch_loop {I = I} env m s
  unfolding AllApart EachApart
  loop-Permᴰ Permᴰ.nil h = refl
  loop-Permᴰ (Permᴰ.cons {b = b} {l₁ = l} {l₂ = m} q p) (h, hs) =
      ap (λ x. dispatch_loop {I = I} env (x ∷ l) s) q
      ∙ loop-cons b l
      ∙ ap (try_entry b) (loop-Permᴰ p hs)
      ∙ sym (loop-cons b m)
  loop-Permᴰ (Permᴰ.swap {a = a} {b = b} {a' = a'} {b' = b'} {l = l} q r) ((h, hs), k) =
      loop-cons a (b ∷ l)
      ∙ ap (try_entry a) (loop-cons b l)
      ∙ try_comm a b (dispatch_loop {I = I} env l s) h
      ∙ ap (try_entry b) (sym (loop-cons a l))
      ∙ sym (loop-cons b (a ∷ l))
      ∙ ap₂ (λ x y. dispatch_loop {I = I} env (x ∷ y ∷ l) s) r q
  loop-Permᴰ (Permᴰ.trans p q) h = loop-Permᴰ p h ∙ loop-Permᴰ q (AllApart-Permᴰ s p h)

  -- In whatever order `cmd_map_` holds its entries, a command has the same effect: no two prefixes
  -- in the table fit one command.
  pub dispatch-order :
      {m : List Entry} → Permᴰ cmd_map m → dispatch {I = I} env m s ≡ dispatch {I = I} env cmd_map s
  unfolding dispatch
  dispatch-order p =
      ap (λ (k : Cmd (Stub D I) Bool). k >>= if_not_found)
        (sym (loop-Permᴰ p (AllApart-prefix_free s cmd_map cmd_map-prefix_free)))
