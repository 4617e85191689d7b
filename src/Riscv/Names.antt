-- ===== src/Riscv/Names.antt =====
-- The names of the registers lead back to their numbers (src/riscv.cpp).
use vxdebug.Base.{
  ℕ, zero, suc, ◌+◌, ◌≡◌, refl, ap, ◌∙◌, arith, Bool, true, false, ◌&&◌, List, [], ◌∷◌, Option,
  none, some, some_inj, ◌==◌, get_elem?,
}
use mathlib.Core.Path.{subst}
use vxdebug.Text.{Str}
use vxdebug.Riscv.{
  RegInfo, rv_gprs, rv_csr_names, rvgpr_num2name, rvgpr_name2num, rvcsr_num2name, rvcsr_name2addr,
  find_csr_name,
}

-- Whether a lookup found this number.
unfoldable found : Option ℕ → ℕ → Bool
found none n = false
found (some m) n = m == n

found-some : (o : Option ℕ) (n : ℕ) → found o n ≡ true → o ≡ some n
unfolding found
found-some none n h = ground arith
found-some (some m) n h = ap some (ground arith)

-- Whether each entry's name leads to the entry's address.
unfoldable csrs_lead_back : List (ℕ × Str) → Bool
unfolding found
csrs_lead_back [] = true
csrs_lead_back ((k, n) ∷ cs) = found (rvcsr_name2addr n) k && csrs_lead_back cs

rv_csr_names-lead_back : csrs_lead_back rv_csr_names ≡ true
unfolding csrs_lead_back found rvcsr_name2addr
rv_csr_names-lead_back = refl

csr_from :
    (k : ℕ) (name : Str) (cs : List (ℕ × Str))
    → csrs_lead_back cs ≡ true
    → find_csr_name k cs ≡ some name
    → rvcsr_name2addr name ≡ some k
unfolding csrs_lead_back find_csr_name
csr_from k name [] h e = ground arith
csr_from k name ((a, n) ∷ cs) h e =
    ground (arith, csr_from k name cs, found-some (rvcsr_name2addr n) a)

-- The name that `rvcsr_num2name` gives for a CSR leads `rvcsr_name2addr` back to that CSR.
pub name2addr-num2name :
    (k : ℕ) (name : Str) → rvcsr_num2name k ≡ some name → rvcsr_name2addr name ≡ some k
unfolding rvcsr_num2name
name2addr-num2name k name e = csr_from k name rv_csr_names rv_csr_names-lead_back e

-- Whether each name of the registers from `i` on leads to its place.
unfoldable gprs_lead_back : ℕ → List RegInfo → Bool
unfolding found
gprs_lead_back i [] = true
gprs_lead_back i (r ∷ rs) =
    found (rvgpr_name2num r.abi_name) i
    && (found (rvgpr_name2num r.name) i && gprs_lead_back (1 + i) rs)

rv_gprs-lead_back : gprs_lead_back 0 rv_gprs ≡ true
unfolding gprs_lead_back found rvgpr_name2num
rv_gprs-lead_back = refl

abbrev both_found : RegInfo → ℕ → Bool
both_found r n = found (rvgpr_name2num r.abi_name) n && found (rvgpr_name2num r.name) n

gpr_from :
    (i j : ℕ) (r : RegInfo) (rs : List RegInfo)
    → gprs_lead_back i rs ≡ true
    → get_elem? rs j ≡ some r
    → both_found r (i + j) ≡ true
unfolding gprs_lead_back
gpr_from i j r [] h e = ground arith
gpr_from i zero r (q ∷ rs) h e =
    subst (λ x. both_found x (i + 0) ≡ true) (some_inj e)
      (ap (both_found q) {x = i + 0} {y = i} (omega arith) ∙ ground arith)
gpr_from i (suc j) r (q ∷ rs) h e =
    ap (both_found r) {x = i + suc j} {y = 1 + i + j} (omega arith)
    ∙ gpr_from (1 + i) j r rs (ground arith) e

and_left : (p q : Bool) → p && q ≡ true → p ≡ true
and_left p q h = ground arith

and_right : (p q : Bool) → p && q ≡ true → q ≡ true
and_right p q h = ground arith

here : (n : ℕ) (r : RegInfo) → both_found r (0 + n) ≡ true → both_found r n ≡ true
here n r k = ap (both_found r) {x = n} {y = 0 + n} (omega arith) ∙ k

-- Where the table has an entry at `n`, both of its names lead `rvgpr_name2num` to `n`, and one of
-- them is the name that `rvgpr_num2name` gives.
pub name2num-gprs :
    (n : ℕ) (r : RegInfo)
    → get_elem? rv_gprs n ≡ some r
    → (rvgpr_num2name n ≡ some r.abi_name)
      × (rvgpr_name2num r.abi_name ≡ some n)
      × (rvgpr_name2num r.name ≡ some n)
unfolding rvgpr_num2name
name2num-gprs n r e =
    let k = gpr_from 0 n r rv_gprs rv_gprs-lead_back e in
    (
      rw (e, rvgpr_num2name) refl,
      found-some (rvgpr_name2num r.abi_name) n (and_left _ _ (here n r k)),
      found-some (rvgpr_name2num r.name) n (and_right _ _ (here n r k)),
    )
