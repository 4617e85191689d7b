-- ===== src/Riscv.antt =====
-- RISC-V registers by name and number, src/riscv.h and src/riscv.cpp. A lookup that throws in the
-- source is `none` here.
pub mod Names
pub mod Isa
pub mod Asm
pub mod Caching
use vxdebug.Base.{ℕ, ◌==◌, ◌||◌, List, [], ◌∷◌, Option, none, some, if◌then◌else◌, get_elem?}
use vxdebug.Text.{Str, codes, str_eq}

pub data RegType : Type 0 where
  no_reg gpr csr : RegType

pub record RegInfo : Type 0 where
  pub name : Str
  pub abi_name : Str
  pub addr : ℕ

abbrev reg : Str → Str → ℕ → RegInfo
reg n a k = record { name = n; abi_name = a; addr = k }

abbrev pub rv_gprs : List RegInfo
rv_gprs =
    reg (codes "x0") (codes "zero") 0
    ∷ reg (codes "x1") (codes "ra") 1
    ∷ reg (codes "x2") (codes "sp") 2
    ∷ reg (codes "x3") (codes "gp") 3
    ∷ reg (codes "x4") (codes "tp") 4
    ∷ reg (codes "x5") (codes "t0") 5
    ∷ reg (codes "x6") (codes "t1") 6
    ∷ reg (codes "x7") (codes "t2") 7
    ∷ reg (codes "x8") (codes "s0") 8
    ∷ reg (codes "x9") (codes "s1") 9
    ∷ reg (codes "x10") (codes "a0") 10
    ∷ reg (codes "x11") (codes "a1") 11
    ∷ reg (codes "x12") (codes "a2") 12
    ∷ reg (codes "x13") (codes "a3") 13
    ∷ reg (codes "x14") (codes "a4") 14
    ∷ reg (codes "x15") (codes "a5") 15
    ∷ reg (codes "x16") (codes "a6") 16
    ∷ reg (codes "x17") (codes "a7") 17
    ∷ reg (codes "x18") (codes "s2") 18
    ∷ reg (codes "x19") (codes "s3") 19
    ∷ reg (codes "x20") (codes "s4") 20
    ∷ reg (codes "x21") (codes "s5") 21
    ∷ reg (codes "x22") (codes "s6") 22
    ∷ reg (codes "x23") (codes "s7") 23
    ∷ reg (codes "x24") (codes "s8") 24
    ∷ reg (codes "x25") (codes "s9") 25
    ∷ reg (codes "x26") (codes "s10") 26
    ∷ reg (codes "x27") (codes "s11") 27
    ∷ reg (codes "x28") (codes "t3") 28
    ∷ reg (codes "x29") (codes "t4") 29
    ∷ reg (codes "x30") (codes "t5") 30
    ∷ reg (codes "x31") (codes "t6") 31
    ∷ []

-- `RV_CSR_NAMES`; its keys and its names are distinct, so the order of the hash table is not seen.
abbrev pub rv_csr_names : List (ℕ × Str)
rv_csr_names =
    (0x001, codes "fflags")
    ∷ (0x002, codes "frm")
    ∷ (0x003, codes "fcsr")
    ∷ (0x301, codes "misa")
    ∷ (0x340, codes "mscratch")
    ∷ (0xb00, codes "mcycle")
    ∷ (0xb80, codes "mcycleh")
    ∷ (0xb02, codes "minstret")
    ∷ (0xb82, codes "minstreth")
    ∷ (0xf11, codes "mvendorid")
    ∷ (0xf12, codes "marchid")
    ∷ (0xf13, codes "mimpid")
    ∷ (0xcc1, codes "vx_warp_id")
    ∷ (0xcc2, codes "vx_core_id")
    ∷ (0xcc3, codes "vx_active_warps")
    ∷ (0xcc4, codes "vx_active_threads")
    ∷ (0xfc0, codes "vx_num_threads")
    ∷ (0xfc1, codes "vx_num_warps")
    ∷ (0xfc2, codes "vx_num_cores")
    ∷ (0xfc3, codes "vx_local_mem_base")
    ∷ (0x7b2, codes "vx_dscratch")
    ∷ []

unfoldable pub rvgpr_num2name : ℕ → Option Str
rvgpr_num2name regnum = elim (get_elem? rv_gprs regnum) [ none ↦ none | some r ↦ some r.abi_name ]

unfoldable pub find_gpr : Str → List RegInfo → Option ℕ
unfolding str_eq
find_gpr n [] = none
find_gpr n (r ∷ rs) = if str_eq n r.name || str_eq n r.abi_name then some r.addr else find_gpr n rs

unfoldable pub rvgpr_name2num : Str → Option ℕ
unfolding find_gpr
rvgpr_name2num n = find_gpr n rv_gprs

unfoldable pub find_csr_name : ℕ → List (ℕ × Str) → Option Str
find_csr_name k [] = none
find_csr_name k ((a, n) ∷ cs) = if k == a then some n else find_csr_name k cs

unfoldable pub rvcsr_num2name : ℕ → Option Str
unfolding find_csr_name
rvcsr_num2name k = find_csr_name k rv_csr_names

unfoldable pub find_csr_addr : Str → List (ℕ × Str) → Option ℕ
unfolding str_eq
find_csr_addr n [] = none
find_csr_addr n ((a, m) ∷ cs) = if str_eq n m then some a else find_csr_addr n cs

unfoldable pub rvcsr_name2addr : Str → Option ℕ
unfolding find_csr_addr
rvcsr_name2addr n = find_csr_addr n rv_csr_names

unfoldable pub rvreg_gettype : Str → RegType
unfolding rvgpr_name2num rvcsr_name2addr
rvreg_gettype n = elim (rvgpr_name2num n) [
  | some _ ↦ gpr
  | none ↦ elim (rvcsr_name2addr n) [ some _ ↦ csr | none ↦ no_reg ]
]
