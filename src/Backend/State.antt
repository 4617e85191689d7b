-- ===== src/Backend/State.antt =====
-- The members of `Backend` (src/backend.h).
use vxdebug.Base.{ℕ, Bool, List, []}
use vxdebug.Base.Int.{ℤ, negsuc}
use vxdebug.Text.{Str, codes}
use vxdebug.Run.{Run, ok, err, throws, waits, Cmd}

pub record BreakPointInfo : Type 0 where
  pub enabled : Bool
  pub addr : ℕ
  pub replaced_instr : ℕ
  pub hit_count : ℕ

pub record WarpStatus : Type 0 where
  pub wid : ℕ
  pub active : Bool
  pub halted : Bool
  pub pc : ℕ
  pub hacause : ℕ

pub record WarpSummary : Type 0 where
  pub allhalted : Bool
  pub anyhalted : Bool
  pub allrunning : Bool
  pub anyrunning : Bool
  pub allunavail : Bool
  pub anyunavail : Bool

pub record PlatformInfo : Type 0 where
  pub platform_id : ℕ
  pub platform_name : Str
  pub num_clusters : ℕ
  pub num_cores : ℕ
  pub num_warps : ℕ
  pub num_threads : ℕ
  pub num_total_cores : ℕ
  pub num_total_warps : ℕ
  pub num_total_threads : ℕ
  pub misa : ℕ

-- The backend's members and, in `target`, the connection with all that is behind it.
pub record Backend (D : Type 0) : Type 0 where
  pub target : D
  pub poll_retries : ℕ
  pub poll_delay_ms : ℕ
  pub selected_wid : ℤ
  pub selected_tid : ℤ
  pub selected_warp_pc : ℕ
  pub platinfo : PlatformInfo
  pub breakpoints : List (ℕ × BreakPointInfo)

abbrev pub no_platinfo : PlatformInfo
no_platinfo = record {
  platform_id = 0;
  platform_name = codes "Unknown";
  num_clusters = 0;
  num_cores = 0;
  num_warps = 0;
  num_threads = 0;
  num_total_cores = 0;
  num_total_warps = 0;
  num_total_threads = 0;
  misa = 0;
}

abbrev pub initial : {D : Type 0} → D → Backend D
initial d = record {
  target = d;
  poll_retries = 10;
  poll_delay_ms = 100;
  selected_wid = negsuc 0;
  selected_tid = negsuc 0;
  selected_warp_pc = 0;
  platinfo = no_platinfo;
  breakpoints = [];
}

-- A call into the target leaves the backend's own members alone.
abbrev pub with_target : {D A : Type 0} → Backend D → Run D A → Run (Backend D) A
with_target b (ok a d) = ok a (record b { target = d })
with_target b (err c d) = err c (record b { target = d })
with_target b (throws d) = throws (record b { target = d })
with_target b (waits d) = waits (record b { target = d })

abbrev pub on_target : {D A : Type 0} → Cmd D A → Cmd (Backend D) A
on_target m b = with_target b (m b.target)
