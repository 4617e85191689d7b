-- ===== src/Cli/Session.antt =====
-- The commands that begin, reset and end a session (src/vxdebug.cpp).
use vxdebug.Base.{ℕ, zero, suc, List, [], ◌∷◌}
use vxdebug.Base.Int.{ℤ, pos}
use vxdebug.Text.{Str, codes}
use vxdebug.Text.Number.{dec}
use vxdebug.Util.Parse.{host_port, malformed, not_a_number, HostPort, parse_tcp_hostportstr}
use vxdebug.Run.{ok, Cmd, throw, ◌>>◌}
use vxdebug.Target.{Target}
use vxdebug.Backend.Init.{initialize, reset_platform}
use vxdebug.Cli.{Console, exited, Outside, returning, check_errs, ignored, parsed}

-- `DEFAULT_TCP_IP` and `DEFAULT_TCP_PORT` in place of an address or a port that is left out.
abbrev pub ip_or_default : Str → Str
ip_or_default [] = codes "127.0.0.1"
ip_or_default (c ∷ s) = c ∷ s

abbrev pub port_or_default : ℕ → ℕ
port_or_default zero = 5555
port_or_default (suc n) = suc n

module _ {D : Type 0} where
  unfoldable pub connect_tcp : Outside D → HostPort → Cmd (Console D) ℤ
  connect_tcp out malformed = returning (pos 1)
  connect_tcp out not_a_number = throw
  connect_tcp out (host_port ip port) = check_errs (out.transport_setup (codes "tcp")) (λ _.
      check_errs
        (out.transport_connect
          ((codes "ip", ip_or_default ip) ∷ (codes "port", dec (port_or_default port)) ∷ []))
        (λ _. returning (pos 0)))

  unfoldable pub cmd_transport : Outside D → List Str → Cmd (Console D) ℤ
  unfolding connect_tcp parse_tcp_hostportstr
  cmd_transport out args = parsed (out.parse_args (codes "transport") args) (λ a.
      elim (a.text (codes "tcp")) [
        | [] ↦ returning (pos 1)
        | c ∷ s ↦ connect_tcp out (parse_tcp_hostportstr (c ∷ s))
      ])

  unfoldable pub cmd_exit : Cmd (Console D) ℤ
  cmd_exit g = ok (pos 0) (record g { state = exited })

  -- The code of `serve_forever` is this command's.
  unfoldable pub cmd_gdbserver : Outside D → List Str → Cmd (Console D) ℤ
  cmd_gdbserver out args =
      parsed (out.parse_args (codes "gdbserver") args)
        (λ a. out.serve_forever (a.number (codes "port")))

module _ {D : Type 0} ⦃t : Target D⦄ where
  unfoldable pub cmd_init : Outside D → List Str → Cmd (Console D) ℤ
  cmd_init out args =
      parsed (out.parse_args (codes "init") args)
        (λ a. check_errs initialize (λ _. returning (pos 0)))

  unfoldable pub cmd_reset : Outside D → List Str → Cmd (Console D) ℤ
  cmd_reset out args =
      parsed (out.parse_args (codes "reset") args)
        (λ a. do ignored tt (reset_platform (a.flag (codes "halt"))); returning (pos 0))
