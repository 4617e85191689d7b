-- ===== src/Hart/Breakpoints/Marks.antt =====
-- Many breakpoints at once (src/backend.cpp, "Breakpoint Management"): the table and the patched
-- words of memory stand for a set of addresses.
use vxdebug.Base.{
  ℕ, ◌+◌, ◌*◌, ◌/◌, ◌%◌, ◌^◌, ◌<◌, ◌≡◌, refl, ap, ◌∙◌, fun_ext, arith, Bool, true, false, List, [],
  ◌∷◌, none, some, ◌==◌, if◌then◌else◌,
}
use vxdebug.Backend.Memory.{word_bytes, bytes_word}
use vxdebug.Backend.Breakpoints.{Table, lookup, erase, insert, enabled_at, new_breakpoint}
use vxdebug.Hart.Bytes.{mem_bytes, mem_bytes_four, AreBytes}
use vxdebug.Hart.Store.{store_bytes, store_four}
use vxdebug.Hart.Breakpoints.{store_bytes-four}

-- A request of the user or of GDB.
pub data Edit : Type 0 where
  put : ℕ → Edit
  remove : ℕ → Edit

abbrev pub address : Edit → ℕ
address (put a) = a
address (remove a) = a

-- The address of a word below the last one.
abbrev pub IsPlace : ℕ → Type 0
IsPlace a = (a % 4 ≡ 0) × (a + 4 < 2 ^ 32)

unfoldable pub ArePlaces : List Edit → Type 0
ArePlaces [] = Unit {0}
ArePlaces (e ∷ es) = IsPlace (address e) × ArePlaces es

-- What the requests come to: a set of addresses.
abbrev pub Marks : Type 0
Marks = ℕ → Bool

unfoldable pub after : Edit → Marks → Marks
after (put a) marks k = if a == k then true else marks k
after (remove a) marks k = if a == k then false else marks k

unfoldable pub after_all : List Edit → Marks → Marks
unfolding after
after_all [] marks = marks
after_all (e ∷ es) marks = after_all es (after e marks)

abbrev pub word_byte : ℕ → ℕ → ℕ
word_byte w i =
    if i == 0
    then w % 256
    else if i == 1
    then w / 256 % 256
    else if i == 2
    then w / 65536 % 256
    else w / 16777216 % 256

-- The memory `m` with the word `w` at each marked address.
unfoldable pub overlay : (ℕ → ℕ) → ℕ → Marks → ℕ → ℕ
overlay m w marks j = if marks (j / 4 * 4) then word_byte w (j % 4) else m j

-- The table has an enabled breakpoint at just the marked addresses, with the word that `m` has there.
abbrev pub Lists : (ℕ → ℕ) → Marks → Table → Type 0
Lists m marks t =
    (k : ℕ)
    → enabled_at k t
      ≡ (if marks k then some (new_breakpoint k (bytes_word (mem_bytes m k 4))) else none)

lookup-erase : (a k : ℕ) (t : Table) → lookup k (erase a t) ≡ (if a == k then none else lookup k t)
unfolding lookup erase
lookup-erase a k [] = ground arith
lookup-erase a k ((j, v) ∷ t) = ground (arith, lookup-erase a k t)

pub enabled_at-erase :
    (a k : ℕ) (t : Table) → enabled_at k (erase a t) ≡ (if a == k then none else enabled_at k t)
unfolding enabled_at
enabled_at-erase a k t = ground (arith, lookup-erase a k t)

pub enabled_at-put :
    (a k i : ℕ) (t : Table)
    → enabled_at k (insert a (new_breakpoint a i) t)
      ≡ (if a == k then some (new_breakpoint a i) else enabled_at k t)
unfolding enabled_at insert lookup
enabled_at-put a k i t = ground (arith, lookup-erase a k t)

-- A word stored at its address.
store_word_lem :
    (m : ℕ → ℕ) (a w j : ℕ)
    → IsPlace a
    → store_bytes m a (word_bytes w) j ≡ (if a == j / 4 * 4 then word_byte w (j % 4) else m j)
store_word_lem m a w j (even, lt) =
    ap (λ (f : ℕ → ℕ). f j)
      (store_bytes-four m a (w % 256) (w / 256 % 256) (w / 65536 % 256) (w / 16777216 % 256) lt)
    ∙ within
  where
    within :
        store_four m a (w % 256) (w / 256 % 256) (w / 65536 % 256) (w / 16777216 % 256) j
        ≡ (if a == j / 4 * 4 then word_byte w (j % 4) else m j)
    within = ground arith

pub after-put_self : (a : ℕ) (marks : Marks) → marks a ≡ true → after (put a) marks ≡ marks
unfolding after
after-put_self a marks h = fun_ext λ k. ground arith

pub after-remove_self : (a : ℕ) (marks : Marks) → marks a ≡ false → after (remove a) marks ≡ marks
unfolding after
after-remove_self a marks h = fun_ext λ k. ground arith

pub overlay-put :
    (m : ℕ → ℕ) (w a : ℕ) (marks : Marks)
    → IsPlace a
    → store_bytes (overlay m w marks) a (word_bytes w) ≡ overlay m w (after (put a) marks)
unfolding overlay after
overlay-put m w a marks place =
    fun_ext λ j. store_word_lem (overlay m w marks) a w j place ∙ ground arith

word_byte-bytes_word :
    (p q r s i : ℕ)
    → p < 256
    → q < 256
    → r < 256
    → s < 256
    → word_byte (p + q * 256 + r * 65536 + s * 16777216) i
      ≡ (if i == 0 then p else if i == 1 then q else if i == 2 then r else s)
word_byte-bytes_word p q r s i hp hq hr hs = ground arith

-- The bytes of the word that `m` has at an address.
word_byte-mem :
    (m : ℕ → ℕ) (a j : ℕ)
    → AreBytes m
    → IsPlace a
    → a ≡ j / 4 * 4
    → word_byte (bytes_word (mem_bytes m a 4)) (j % 4) ≡ m j
word_byte-mem m a j by place e =
    ap (λ l. word_byte (bytes_word l) (j % 4)) (mem_bytes_four m a 0)
    ∙ word_byte-bytes_word (m a) (m ((a + 1) % 2 ^ 32)) (m ((a + 2) % 2 ^ 32))
        (m ((a + 3) % 2 ^ 32)) (j % 4) (by a) (by ((a + 1) % 2 ^ 32)) (by ((a + 2) % 2 ^ 32))
        (by ((a + 3) % 2 ^ 32))
    ∙ ground arith

pub overlay-remove :
    (m : ℕ → ℕ) (w a : ℕ) (marks : Marks)
    → AreBytes m
    → IsPlace a
    → store_bytes (overlay m w marks) a (word_bytes (bytes_word (mem_bytes m a 4)))
      ≡ overlay m w (after (remove a) marks)
unfolding overlay after
overlay-remove m w a marks by place = fun_ext λ j.
    store_word_lem (overlay m w marks) a (bytes_word (mem_bytes m a 4)) j place
    ∙ ground (arith, word_byte-mem m a j by place)

pub AreBytes-overlay :
    (m : ℕ → ℕ) (w : ℕ) (marks : Marks) → AreBytes m → AreBytes (overlay m w marks)
unfolding overlay
AreBytes-overlay m w marks by j = ground (arith, by j)

-- Where no mark is, the word is that of `m`.
pub mem_bytes-overlay :
    (m : ℕ → ℕ) (w a : ℕ) (marks : Marks)
    → IsPlace a
    → marks a ≡ false
    → mem_bytes (overlay m w marks) a 4 ≡ mem_bytes m a 4
unfolding mem_bytes
mem_bytes-overlay m w a marks place free =
    rw
      (
        outside a (omega arith),
        outside ((a + 1) % 2 ^ 32) (omega arith),
        outside (((a + 1) % 2 ^ 32 + 1) % 2 ^ 32) (omega arith),
        outside ((((a + 1) % 2 ^ 32 + 1) % 2 ^ 32 + 1) % 2 ^ 32) (omega arith),
      )
      refl
  where
    outside : (j : ℕ) → a ≡ j / 4 * 4 → overlay m w marks j ≡ m j
    outside j e = unfold overlay in ground arith
