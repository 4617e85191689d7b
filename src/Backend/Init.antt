-- ===== src/Backend/Init.antt =====
-- Waking, setting up and identifying the platform (src/backend.cpp, "Initialization" and
-- `wake_dm` to `fetch_platform_info`).
use vxdebug.Base.{
  ℕ, zero, suc, ◌*◌, ◌%◌, ◌^◌, Bool, true, false, not, ◌&&◌, [], ◌∷◌, ◌==◌, if◌then◌else◌,
}
use vxdebug.Base.Int.{pos, is_negative}
use vxdebug.Text.{codes}
use vxdebug.Run.{
  error, warp_not_active, ok, Cmd, pure, fail, need, ◌>>=◌, ◌>>◌, get_state, put_state, when,
}
use vxdebug.Target.{Target}
use vxdebug.Dm.{dctrl, dconfig, dselect, platform, extract_dmreg_field}
use vxdebug.Backend.State.{Backend}
use vxdebug.Backend.Dmreg.{
  check_transport, dmreg_rd, dmreg_wr, dmreg_rdfield, dmreg_wrfield, dmreg_pollfield,
}
use vxdebug.Backend.Warps.{select_all_warps, select_warp_thread, get_warp_state, get_warp_summary}
use vxdebug.Backend.Control.{halt_warps, resume_warps}
use vxdebug.Backend.Registers.{read_csr}

module _ {D : Type 0} ⦃t : Target D⦄ where
  -- `while (!dmactive && dmwake_attempt_retries-- > 0) { … }`; gives the last `dmactive`.
  wake_loop : ℕ → ℕ → Cmd (Backend D) ℕ
  wake_loop zero dmactive b = ok dmactive b
  wake_loop (suc retries) dmactive b = elim (dmactive == 0) [
    | false ↦ ok dmactive b
    | true ↦
        (do
          dmreg_wrfield dctrl (codes "dmactive") 1
          v ← dmreg_pollfield dctrl (codes "dmactive") 1
          wake_loop retries v)
          b
  ]

  unfoldable pub wake_dm : Cmd (Backend D) (Unit {0})
  unfolding wake_loop
  wake_dm = do
    ndmreset ← dmreg_rdfield dctrl (codes "ndmreset")
    when (not (ndmreset == 0)) (do _ ← dmreg_pollfield dctrl (codes "ndmreset") 0; pure tt)
    dmactive ← dmreg_rdfield dctrl (codes "dmactive")
    awake ← wake_loop 3 dmactive
    (if awake == 0 then fail error else pure tt)

  unfoldable pub setup_dm : Cmd (Backend D) (Unit {0})
  setup_dm = do
    dmreg_wrfield dconfig (codes "ebreakh") 1
    dmreg_wr dselect 0
    b ← get_state
    put_state (record b { selected_wid = pos 0; selected_tid = pos 0 })

  -- The fields of the PLATFORM register and the products of them; `num_threads` is a power of two.
  unfoldable pub store_platform : ℕ → Cmd (Backend D) (Unit {0})
  store_platform v = do
    id ← need (extract_dmreg_field platform (codes "platformid") v)
    clusters ← need (extract_dmreg_field platform (codes "numclusters") v)
    cores ← need (extract_dmreg_field platform (codes "numcores") v)
    warps ← need (extract_dmreg_field platform (codes "numwarps") v)
    threads ← need (extract_dmreg_field platform (codes "numthreads") v)
    b ← get_state
    let total_cores = clusters * cores % 2 ^ 32
    let total_warps = total_cores * warps % 2 ^ 32
    put_state (record b {
      platinfo = record {
        platform_id = id;
        platform_name = if id == 1 then codes "Vortex" else codes "Unknown";
        num_clusters = clusters;
        num_cores = cores;
        num_warps = warps;
        num_threads = 2 ^ threads;
        num_total_cores = total_cores;
        num_total_warps = total_warps;
        num_total_threads = total_warps * 2 ^ threads % 2 ^ 32;
        misa = b.platinfo.misa;
      };
    })

  -- Reads MISA on warp 0, which is halted for it if it runs.
  read_misa : Bool → Cmd (Backend D) (Unit {0})
  read_misa halted = do
    when (not halted) (halt_warps (pos 0 ∷ []))
    misa ← read_csr 0x301
    b ← get_state
    put_state (record b { platinfo = record (b.platinfo) { misa = misa } })
    when (not halted) (resume_warps (pos 0 ∷ []))

  fetch_isa : Cmd (Backend D) (Unit {0})
  unfolding read_misa
  fetch_isa = do
    b ← get_state
    select_warp_thread (pos 0) (pos 0)
    (active, halted) ← get_warp_state (pos 0)
    (if active then read_misa halted else fail warp_not_active)
    when (not (is_negative b.selected_wid) && not (is_negative b.selected_tid))
        (select_warp_thread b.selected_wid b.selected_tid)

  unfoldable pub fetch_platform_info : Cmd (Backend D) (Unit {0})
  unfolding store_platform fetch_isa
  fetch_platform_info = do
    v ← dmreg_rd platform
    store_platform v
    s ← get_warp_summary
    (if s.allunavail then pure tt else fetch_isa)

  -- Printing the platform information is left out.
  unfoldable pub initialize : Cmd (Backend D) (Unit {0})
  unfolding check_transport wake_dm setup_dm fetch_platform_info
  initialize = do check_transport; wake_dm; setup_dm; fetch_platform_info

  unfoldable pub reset_platform : Bool → Cmd (Backend D) (Unit {0})
  unfolding initialize
  reset_platform halt = do
    when halt (do select_all_warps true; dmreg_wrfield dctrl (codes "resethaltreq") 1)
    dmreg_wrfield dctrl (codes "ndmreset") 1
    _ ← dmreg_pollfield dctrl (codes "ndmreset") 0
    when halt (do _ ← get_warp_summary; pure tt)
    initialize
