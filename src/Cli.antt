-- ===== src/Cli.antt =====
-- The command interpreter, src/vxdebug.cpp and src/vxdebug.h: its state, and how its handlers reach
-- the backend. Messages are left out but for the values that commands show.
pub mod Warps
pub mod Help
pub mod Status
pub mod Inspect
pub mod Session
pub mod Table
pub mod Execute
pub mod Selection
pub mod Masks
pub mod Scripts
use vxdebug.Base.{ℕ, Bool, List, [], ◌∷◌, ◌++◌, Option, none, some, if◌then◌else◌}
use vxdebug.Base.Int.{ℤ, pos, negsuc}
use vxdebug.Text.{Str}
use vxdebug.Run.{
  Rcode, error, timeout, not_impl, invalid_arg, buffer_ovrflw, comm_err, transport_err,
  noneselected_err, warp_not_halted, warp_not_active, Run, ok, err, throws, waits, Cmd,
}
use vxdebug.Backend.State.{Backend}

-- `VxDbgState_t`
pub data DbgState : Type 0 where
  stopped running exited : DbgState

-- `VortexDebugger`; `shown` is what the commands have shown.
pub record Console (D : Type 0) : Type 0 where
  pub backend : Backend D
  pub state : DbgState
  pub shown : List Str

-- What `get` and `get_list` of the argument parser give for an option's name.
pub record Arguments : Type 0 where
  pub text : Str → Str
  pub texts : Str → List Str
  pub flag : Str → Bool
  pub number : Str → ℤ

-- How `parse_args` ends: with a code that is not 0, or with the options.
pub data Parsed : Type 0 where
  refused : ℤ → Parsed
  options : Arguments → Parsed

-- What lies outside: the argument parser (a submodule) for a command's declared options, files, the
-- transport's making and connecting (Backend/Connection), the GDB stub's server, whose model takes
-- this interpreter in turn, and the values of variables without initializer.
pub record Outside (D : Type 0) : Type 0 where
  pub parse_args : Str → List Str → Parsed
  pub read_lines : Str → Option (List Str)
  pub read_file : Str → Option (List ℕ)
  pub transport_setup : Str → Cmd (Backend D) (Unit {0})
  pub transport_connect : List (Str × Str) → Cmd (Backend D) (Unit {0})
  pub serve_forever : ℤ → Cmd (Console D) ℤ
  pub unset_wid : ℤ
  pub unset_tid : ℤ
  pub unset_pc : ℕ
  -- The rounds that `until_breakpoint` may poll for.
  pub rounds : ℕ

-- The `RCODE_*` values.
unfoldable pub rcode : Rcode → ℤ
rcode error = negsuc 0
rcode timeout = negsuc 1
rcode not_impl = negsuc 2
rcode invalid_arg = negsuc 3
rcode buffer_ovrflw = negsuc 4
rcode comm_err = negsuc 5
rcode transport_err = negsuc 6
rcode noneselected_err = negsuc 7
rcode warp_not_halted = negsuc 8
rcode warp_not_active = negsuc 9

module _ {D : Type 0} where
  abbrev pub returning : ℤ → Cmd (Console D) ℤ
  returning rc g = ok rc g

  abbrev pub show : Str → Cmd (Console D) (Unit {0})
  show s g = ok tt (record g { shown = g.shown ++ s ∷ [] })

  abbrev pub continue_with :
      {A : Type 0} → Console D → Run (Backend D) A → (A → Cmd (Console D) ℤ) → Run (Console D) ℤ
  continue_with g (ok a b) k = k a (record g { backend = b })
  continue_with g (err c b) k = ok (rcode c) (record g { backend = b })
  continue_with g (throws b) k = throws (record g { backend = b })
  continue_with g (waits b) k = waits (record g { backend = b })

  -- `CHECK_ERRS(…)`, and what follows.
  abbrev pub check_errs :
      {A : Type 0} → Cmd (Backend D) A → (A → Cmd (Console D) ℤ) → Cmd (Console D) ℤ
  check_errs m k g = continue_with g (m g.backend) k

  abbrev pub regardless : {A : Type 0} → Console D → A → Run (Backend D) A → Run (Console D) A
  regardless g before (ok a b) = ok a (record g { backend = b })
  regardless g before (err c b) = ok before (record g { backend = b })
  regardless g before (throws b) = throws (record g { backend = b })
  regardless g before (waits b) = waits (record g { backend = b })

  -- A call whose code is not looked at; on failure its out-parameter holds what it held before.
  abbrev pub ignored : {A : Type 0} → A → Cmd (Backend D) A → Cmd (Console D) A
  ignored before m g = regardless g before (m g.backend)

  -- `int rc = parser.parse_args(args); if (rc != 0) return rc;`, and what follows.
  abbrev pub parsed : Parsed → (Arguments → Cmd (Console D) ℤ) → Cmd (Console D) ℤ
  parsed (refused rc) k = returning rc
  parsed (options a) k = k a
