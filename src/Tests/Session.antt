-- ===== src/Tests/Session.antt =====
-- GDB sessions on the simulated target.
use vxdebug.Base.{ℕ, ◌+◌, ◌*◌, ◌≡◌, refl, arith, true, [], ◌∷◌, ◌++◌}
use vxdebug.Base.Lists.{AreByteValues}
use vxdebug.Text.{Str, codes}
use vxdebug.Sim.{Sim, sim, sim_read, sim_target}
use vxdebug.Base.Int.{pos}
use vxdebug.Run.{ok, and_then}
use vxdebug.Dm.{get_dmreg_addr, extract_dmreg_field, get_dmreg_field, extract_field}
use vxdebug.Text.Number.{hex}
use vxdebug.Backend.Dmreg.{dmreg_rd}
use vxdebug.Backend.Warps.{get_selected_warp_thread}
use vxdebug.Gdb.Threads.{cmd_curr_thread}
use vxdebug.Sim.Laws.{SimAt}
use vxdebug.Sim.Instance.{sim_hart}
use vxdebug.Hart.Ends.{at}
use vxdebug.Hart.Store.{store_bytes}
use vxdebug.Gdb.State.{Stub, packetify, until_nul, checksum_str, byte_sum, send_packet, send_data}
use vxdebug.Gdb.Access.{hex_bytes}
use vxdebug.Gdb.Serve.{serve_client}
use vxdebug.Gdb.Serve.Memory.{read_message, write_message, answered}
use vxdebug.Gdb.Serve.Client.{serve_client-write_read}
use vxdebug.Tests.Hart.{
  arch, target, backend, backend-Selects, target-SimAt, sim-Lines, arch-AreBytes,
}
use vxdebug.Tests.Gdb.{flat, flat_delivers, env}

abbrev two_packets : Str
two_packets =
    packetify (write_message 0x8000_0013 (1 ∷ 2 ∷ 255 ∷ []))
    ++ (packetify (read_message 0x8000_0013 3) ++ codes "+")

abbrev stub : Stub Sim Str
stub = record {
  backend = backend;
  client = two_packets;
  sent = [];
  is_attached = true;
  thread_map = [];
  thread_enum_cursor = 0;
}

AreByteValues-three : AreByteValues (1 ∷ 2 ∷ 255 ∷ [])
unfolding AreByteValues
AreByteValues-three = (omega arith, (omega arith, (omega arith, tt)))

serve_client-write_read_example :
    (j : Str) × (d : Sim) × (s : ℕ) × (j ≡ codes "+")
    × SimAt
        (record arch { mem = store_bytes arch.mem 0x8000_0013 (1 ∷ 2 ∷ 255 ∷ []); scratch = s })
        d
    × (serve_client env ⦃socket = flat⦄ 7 (record stub { backend = at backend target })
        ≡ serve_client env ⦃socket = flat⦄ 5 (
            answered
              (answered (record stub { client = j }) (at backend d) (codes "OK"))
              (at backend d)
              (hex_bytes (1 ∷ 2 ∷ 255 ∷ []))))
serve_client-write_read_example =
    serve_client-write_read env ⦃socket = flat⦄ flat_delivers sim_hart backend 5 stub 0x8000_0013
      (1 ∷ 2 ∷ 255 ∷ []) (codes "+") arch (omega arith) (omega arith) AreByteValues-three
      arch-AreBytes sim-Lines backend-Selects target-SimAt refl

-- `qC` gives the selected thread, here thread 1 of warp 2 with four threads a warp.
abbrev two_one : Stub Sim Str
two_one = record stub { backend = record backend { target = sim arch 0 (2 * 128 + 1) 0 } }

curr_thread :
    cmd_curr_thread ⦃t = sim_target⦄ (pos 0, pos 0) two_one
    ≡ ok tt (record two_one {
      backend = record two_one.backend { selected_wid = pos 2; selected_tid = pos 1 };
      sent = packetify (codes "QC9") ∷ [];
    })
unfolding cmd_curr_thread get_selected_warp_thread packetify until_nul checksum_str byte_sum
    send_packet send_data dmreg_rd sim_read and_then get_dmreg_addr extract_dmreg_field
    get_dmreg_field extract_field hex
curr_thread = refl
