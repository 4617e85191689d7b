-- ===== src/Backend/Params.antt =====
-- The debugger's parameters (src/backend.cpp).
use vxdebug.Base.{◌%◌, ◌^◌, if◌then◌else◌}
use vxdebug.Text.{Str, codes, str_eq}
use vxdebug.Text.Number.{dec}
use vxdebug.Text.Parse.{stoul}
use vxdebug.Run.{ok, Cmd, need, ◌>>=◌}
use vxdebug.Backend.State.{Backend}

module _ {D : Type 0} where
  -- `std::stoul` throws on a text that is no number; the members have 32 bits.
  unfoldable pub set_param : Str → Str → Cmd (Backend D) (Unit {0})
  unfolding str_eq stoul
  set_param param value =
      if str_eq param (codes "poll_retries")
      then (do n ← need (stoul 10 value); (λ b. ok tt (record b { poll_retries = n % 2 ^ 32 })))
      else if str_eq param (codes "poll_delay_ms")
      then (do n ← need (stoul 10 value); (λ b. ok tt (record b { poll_delay_ms = n % 2 ^ 32 })))
      else (λ b. ok tt b)

  unfoldable pub get_param : Str → Backend D → Str
  unfolding str_eq dec
  get_param param b =
      if str_eq param (codes "poll_retries")
      then dec b.poll_retries
      else if str_eq param (codes "poll_delay_ms")
      then dec b.poll_delay_ms
      else codes "?"
