-- ===== src/Cli/Selection.antt =====
-- Which warps `--except` leaves (src/vxdebug.cpp, `cmd_halt` and `cmd_continue`).
use vxdebug.Base.{
  ℕ, zero, suc, ◌+◌, ◌≡◌, ◌<◌, ◌^◌, refl, ◌∙◌, ap, arith, Bool, true, false, ◌&&◌, not, List, [],
  ◌∷◌, ◌==◌, ltb, leb, if◌then◌else◌,
}
use vxdebug.Base.Int.{ℤ, pos}
use vxdebug.Text.{Str, codes}
use vxdebug.Target.{Target}
use vxdebug.Backend.Control.{halt_warps}
use vxdebug.Cli.{Console, Arguments, options, Outside}
use vxdebug.Cli.Warps.{warp_ids, read_wids, has_wid, others, all_except, for_warps, done, cmd_halt}

-- A list without warp `wid` has none of the warps that it had not.
unlisted :
    (b : Bool) (wid w : ℕ) (rest : List ℤ)
    → has_wid (pos w) (if b then rest else pos wid ∷ rest)
      ≡ (if not b && (wid == w) then true else has_wid (pos w) rest)
unfolding has_wid
unlisted true wid w rest = refl
unlisted false wid w rest = refl

same_listed : (wid w : ℕ) (l : List ℤ) → wid ≡ w → has_wid (pos wid) l ≡ has_wid (pos w) l
same_listed wid w l e = ap (λ x. has_wid (pos x) l) e

-- Of the warps from `wid` on, so many of them, those that are not listed.
has_wid-others :
    (listed : List ℤ) (wid n w : ℕ)
    → has_wid (pos w) (others listed wid n)
      ≡ ((leb wid w && ltb w (wid + n)) && not (has_wid (pos w) listed))
unfolding others
has_wid-others listed wid zero w = ground arith
has_wid-others listed wid (suc n) w =
    unlisted (has_wid (pos wid) listed) wid w (others listed (suc wid) n)
    ∙ grind (arith, has_wid-others listed (suc wid) n w, same_listed wid w listed)

has_wid-all_except :
    (listed : List ℤ) (total w : ℕ)
    → has_wid (pos w) (all_except total listed) ≡ (ltb w total && not (has_wid (pos w) listed))
unfolding all_except
has_wid-all_except listed total w = has_wid-others listed 0 total w ∙ ground arith

-- The options of `--except` with some warps, and neither `--all` nor `--wid`.
pub record Excepts (a : Arguments) : Type 0 where
  pub first : Str
  pub more : List Str
  pub not_all : a.flag (codes "all") ≡ false
  pub none_listed : a.texts (codes "wid") ≡ []
  pub listed : a.texts (codes "except") ≡ first ∷ more

module _ {D : Type 0} ⦃t : Target D⦄ (out : Outside D) where
  -- With `--except` and a list of warps that exist, neither `--all` nor `--wid`, and fewer than
  -- 2 ^ 31 warps, `halt` halts just the warps that exist and are not in the list, and returns 0
  -- unless the halting throws, whatever its code.
  pub cmd_halt-except :
      (args : List Str) (a : Arguments) (l : List ℤ) (g : Console D) (x : Excepts a)
      → out.parse_args (codes "halt") args ≡ options a
      → g.backend.platinfo.num_total_warps < 2 ^ 31
      → read_wids g.backend.platinfo.num_total_warps (x.first ∷ x.more) ≡ warp_ids l
      → (ws : List ℤ) × (cmd_halt out args g ≡ done (halt_warps ws) g)
        × ((w : ℕ)
            → has_wid (pos w) ws
              ≡ (ltb w g.backend.platinfo.num_total_warps && not (has_wid (pos w) l)))
  unfolding cmd_halt for_warps all_except
  cmd_halt-except args a l g x accepted few valid = (
    all_except g.backend.platinfo.num_total_warps l,
    rw (accepted, x.not_all, x.none_listed, x.listed, for_warps, valid) refl,
    (λ w. has_wid-all_except l g.backend.platinfo.num_total_warps w),
  )
