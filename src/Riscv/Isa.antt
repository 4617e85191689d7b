-- ===== src/Riscv/Isa.antt =====
-- The description of an instruction set from MISA (src/riscv.cpp, `rv_isa_string`).
use vxdebug.Base.{ℕ, ◌/◌, ◌%◌, ◌^◌, Bool, ◌++◌, [], ◌==◌, if◌then◌else◌}
use vxdebug.Text.{Str, codes}

-- `get_bit`
abbrev pub get_bit : ℕ → ℕ → Bool
get_bit val pos = val / 2 ^ pos % 2 == 1

-- `std::string isa_str` with a part added under a condition.
abbrev pub part : Bool → Bool → Str → Str → Str
part has verbose long short = if has then (if verbose then long else short) else []

unfoldable pub xlen_text : ℕ → Str
xlen_text xlen =
    if xlen == 1
    then codes "32"
    else if xlen == 2
    then codes "64"
    else if xlen == 3
    then codes "128"
    else codes "?"

unfoldable pub rv_isa_string : ℕ → Bool → Str
unfolding xlen_text
rv_isa_string misa verbose =
    codes "RV"
    ++ xlen_text (misa / 2 ^ 30)
    ++ (if get_bit misa 8 then codes "I" else if get_bit misa 4 then codes "E" else codes "?")
    ++ part (get_bit misa 12) verbose (codes ", MulDiv") (codes "M")
    ++ part (get_bit misa 0) verbose (codes ", Atomic") (codes "A")
    ++ part (get_bit misa 5) verbose (codes ", SinglePrecisionFloat") (codes "F")
    ++ part (get_bit misa 3) verbose (codes ", DoublePrecisionFloat") (codes "D")
    ++ part (get_bit misa 16) verbose (codes ", QuadPrecisionFloat") (codes "Q")
    ++ part (get_bit misa 2) verbose (codes ", Compressed") (codes "C")
    ++ part (get_bit misa 1) verbose (codes ", Bitmanip") (codes "B")
    ++ part (get_bit misa 15) verbose (codes ", PackedSIMD") (codes "P")
    ++ part (get_bit misa 21) verbose (codes ", Vector") (codes "V")
    ++ (if verbose then codes ", CSR" else codes "_Zicsr")
    ++ part (get_bit misa 20) verbose (codes ", UserMode") []
    ++ part (get_bit misa 23) verbose (codes ", NonStdExtensionVortex") []
