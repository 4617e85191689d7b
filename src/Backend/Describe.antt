-- ===== src/Backend/Describe.antt =====
-- The description of the platform (src/backend.cpp, `_get_platform_info_str`).
use vxdebug.Base.{ℕ, true, false, [], ◌∷◌, ◌++◌, ◌==◌, if◌then◌else◌}
use vxdebug.Text.{Str, codes}
use vxdebug.Text.Number.{dec}
use vxdebug.Util.Dump.{hex_upper}
use vxdebug.Riscv.Isa.{rv_isa_string}
use vxdebug.Backend.State.{PlatformInfo}

abbrev pub line_of : Str → Str → Str
line_of label value = label ++ value ++ 10 ∷ []

unfoldable pub isa_text : ℕ → Str
unfolding rv_isa_string
isa_text misa =
    if misa == 0
    then codes "Unknown"
    else rv_isa_string misa false ++ codes " (" ++ rv_isa_string misa true ++ codes ")"

unfoldable pub get_platform_info_str : PlatformInfo → Str
unfolding isa_text dec
get_platform_info_str p =
    line_of (codes "  Platform ID   : 0x") (hex_upper 8 p.platform_id)
    ++ line_of (codes "  Platform Name : ") p.platform_name
    ++ line_of (codes "  ISA           : ") (isa_text p.misa)
    ++ line_of (codes "  Clusters      : ") (dec p.num_clusters)
    ++ line_of (codes "  Cores/Cluster : ") (dec p.num_cores)
    ++ line_of (codes "  Warps/Core    : ") (dec p.num_warps)
    ++ line_of (codes "  Threads/Warp  : ") (dec p.num_threads)
    ++ line_of (codes "  Total Cores   : ") (dec p.num_total_cores)
    ++ line_of (codes "  Total Warps   : ") (dec p.num_total_warps)
    ++ line_of (codes "  Total Threads : ") (dec p.num_total_threads)
