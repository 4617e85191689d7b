-- ===== src/Tests/Util.antt =====
-- Reading texts.
use vxdebug.Base.{◌≡◌, refl, arith, some}
use vxdebug.Text.{codes}
use vxdebug.Text.Number.{hex, digits}
use vxdebug.Util.Parse.{parse_uint, basename, has_separator}
use vxdebug.Util.Reading.{parse_uint-hex, basename_lem}

parse_uint-hex_example : parse_uint (codes "0x1f") ≡ some 31
unfolding hex digits
parse_uint-hex_example = parse_uint-hex 31 (omega arith)

basename_run :
    (basename (codes "scripts/run.vx") ≡ codes "run.vx")
    × (basename (codes "run.vx") ≡ codes "run.vx")
unfolding has_separator
basename_run = basename_lem (codes "scripts") (codes "run.vx") b'/' refl refl
