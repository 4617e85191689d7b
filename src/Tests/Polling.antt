-- ===== src/Tests/Polling.antt =====
-- Polling on the simulated target.
use vxdebug.Base.{ℕ, ◌⊎◌, zero, suc, ◌≡◌, ◌≢◌, ◌<◌, refl, arith}
use vxdebug.Text.{codes, str_eq}
use vxdebug.Run.{ok, err, timeout}
use vxdebug.Dm.{FieldInfo, dctrl, get_dmreg_addr, get_dmreg_field}
use vxdebug.Backend.State.{Backend}
use vxdebug.Backend.Dmreg.{dmreg_pollfield}
use vxdebug.Backend.Dmreg.Polling.{after_reads, field_of, dmreg_pollfield_lem}
use vxdebug.Sim.{Sim, sim, sim_read, read_control, sim_target}
use vxdebug.Tests.Hart.{arch, backend}

-- Two polls of a running injection before the one that finds it done.
abbrev busy : Backend Sim
busy = record backend { target = sim arch 0 0 2 }

-- What DCTRL reads with so many polls to go.
abbrev control_with : ℕ → ℕ
control_with zero = 0x8000_0000
control_with (suc n) = 0x8000_0080

abbrev one_less : ℕ → ℕ
one_less zero = 0
one_less (suc n) = n

abbrev control : Sim → ℕ
control d = control_with d.polls

abbrev polled : Sim → Sim
polled d = record d { polls = one_less d.polls }

abbrev inject_state : FieldInfo
inject_state = record { name = codes "injectstate"; msb = 8; lsb = 7 }

control_reads : (d : Sim) → sim_target.read_reg (get_dmreg_addr dctrl) d ≡ ok (control d) (polled d)
unfolding sim_read read_control get_dmreg_addr
control_reads d = reads d.polls
  where
    reads :
        (n : ℕ)
        → sim_target.read_reg (get_dmreg_addr dctrl) (record d { polls = n })
          ≡ ok (control (record d { polls = n })) (polled (record d { polls = n }))
    reads zero = refl
    reads (suc n) = refl

dmreg_pollfield_lem_example :
    ((k : ℕ) × (k < 10)
      × ((j : ℕ) → j < k → field_of inject_state control (after_reads polled j busy.target) ≢ 0)
      × (field_of inject_state control (after_reads polled k busy.target) ≡ 0)
      × (dmreg_pollfield ⦃t = sim_target⦄ dctrl (codes "injectstate") 0 busy
          ≡ ok 0 (record busy { target = after_reads polled (suc k) busy.target })))
    ⊎ (((j : ℕ) → j < 10 → field_of inject_state control (after_reads polled j busy.target) ≢ 0)
        × (dmreg_pollfield ⦃t = sim_target⦄ dctrl (codes "injectstate") 0 busy
            ≡ err timeout (record busy { target = after_reads polled 10 busy.target })))
unfolding get_dmreg_field str_eq
dmreg_pollfield_lem_example =
    dmreg_pollfield_lem ⦃t = sim_target⦄ dctrl inject_state 0 control polled control_reads
      (codes "injectstate") busy refl refl (omega arith)
