-- ===== src/Gdb/Xml.antt =====
-- The target description that GDB reads (`target_xml` of src/gdbstub.cpp).
use vxdebug.Base.{ℕ, zero, suc, List, [], ◌∷◌, ◌++◌}
use vxdebug.Text.{Str, codes}
use vxdebug.Text.Number.{dec}

-- A line with the indentation that the source gives it.
abbrev line : Str → Str
line s = s ++ 10 ∷ []

abbrev reg_line : Str → Str → Str → Str
reg_line name type group = line (
    codes "            <reg name=\""
    ++ name
    ++ codes "\" bitsize=\"32\" type=\""
    ++ type
    ++ codes "\" group=\""
    ++ group
    ++ codes "\"/>")

-- The general registers from x`i` on.
gpr_lines : ℕ → ℕ → Str
unfolding dec
gpr_lines i zero = []
gpr_lines i (suc left) =
    reg_line (b'x' ∷ dec i) (codes "int") (codes "general") ++ gpr_lines (suc i) left

csr_lines : List Str → Str
csr_lines [] = []
csr_lines (name ∷ more) = reg_line name (codes "int") (codes "vortex") ++ csr_lines more

unfoldable pub target_xml : Str
unfolding gpr_lines csr_lines
target_xml =
    line (codes "<?xml version=\"1.0\"?>")
    ++ line (codes "    <!DOCTYPE target SYSTEM \"gdb-target.dtd\">")
    ++ line (codes "    <target>")
    ++ line (codes "        <architecture>riscv:rv32</architecture>")
    ++ line (codes "        <feature name=\"org.gnu.gdb.riscv.cpu\">")
    ++ gpr_lines 0 32
    ++ reg_line (codes "pc") (codes "code_ptr") (codes "general")
    ++ line (codes "        </feature>")
    ++ line (codes "        <feature name=\"org.vortex.debug.csr\">")
    ++ csr_lines (
        codes "vx_num_cores"
        ∷ codes "vx_num_warps"
        ∷ codes "vx_num_threads"
        ∷ codes "vx_core_id"
        ∷ codes "vx_warp_id"
        ∷ codes "vx_thread_id"
        ∷ codes "vx_active_warps"
        ∷ codes "vx_active_threads"
        ∷ codes "vx_local_mem_base"
        ∷ [])
    ++ line (codes "        </feature>")
    ++ line (codes "    </target>")
