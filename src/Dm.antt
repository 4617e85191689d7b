-- ===== src/Dm.antt =====
-- The debug module's register map, src/dmdefs.h: the tables of registers and fields, lookup by
-- name, and reading and replacing one field of a register's value. A failed lookup throws in the
-- source and is `none` here.
pub mod Window
pub mod Table
pub mod Fields
use vxdebug.Base.{
  ℕ, ◌+◌, ◌-◌, ◌*◌, ◌/◌, ◌%◌, ◌^◌, Bool, Option, none, some, List, [], ◌∷◌, ◌==◌, if◌then◌else◌,
  bit_and, bit_or,
}
use vxdebug.Text.{Str, codes, str_eq}

pub record FieldInfo : Type 0 where
  pub name : Str
  pub msb : ℕ
  pub lsb : ℕ

unfoldable pub width : FieldInfo → ℕ
width f = f.msb - f.lsb + 1

-- `((1u << width) - 1) << lsb` in 32 bits.
unfoldable pub mask : FieldInfo → ℕ
mask f =
    let w = f.msb - f.lsb + 1 in if w == 32 then 0xffff_ffff else (2 ^ w - 1) * 2 ^ f.lsb % 2 ^ 32

pub data DmReg : Type 0 where
  platform dconfig dselect wmask wactive wstatus dctrl dpc dinject dscratch : DmReg

pub record DmRegInfo : Type 0 where
  pub id : DmReg
  pub name : Str
  pub addr : ℕ
  pub fields : List FieldInfo

abbrev field : Str → ℕ → ℕ → FieldInfo
field n m l = record { name = n; msb = m; lsb = l }

abbrev platform_fields : List FieldInfo
platform_fields =
    field (codes "platformid") 31 28
    ∷ field (codes "numclusters") 27 21
    ∷ field (codes "numcores") 20 12
    ∷ field (codes "numwarps") 11 3
    ∷ field (codes "numthreads") 2 0
    ∷ []

abbrev dconfig_fields : List FieldInfo
dconfig_fields =
    field (codes "ndmresetcyc") 31 29
    ∷ field (codes "resethaltreqcyc") 28 26
    ∷ field (codes "ebreakh") 0 0
    ∷ []

abbrev dselect_fields : List FieldInfo
dselect_fields =
    field (codes "winsel") 31 22 ∷ field (codes "warpsel") 21 7 ∷ field (codes "threadsel") 6 0 ∷ []

abbrev dctrl_fields : List FieldInfo
dctrl_fields =
    field (codes "dmactive") 31 31
    ∷ field (codes "ndmreset") 30 30
    ∷ field (codes "allhalted") 29 29
    ∷ field (codes "anyhalted") 28 28
    ∷ field (codes "allrunning") 27 27
    ∷ field (codes "anyrunning") 26 26
    ∷ field (codes "allunavail") 25 25
    ∷ field (codes "anyunavail") 24 24
    ∷ field (codes "hacause") 11 9
    ∷ field (codes "injectstate") 8 7
    ∷ field (codes "injectreq") 6 6
    ∷ field (codes "stepstate") 5 4
    ∷ field (codes "stepreq") 3 3
    ∷ field (codes "resethaltreq") 2 2
    ∷ field (codes "resumereq") 1 1
    ∷ field (codes "haltreq") 0 0
    ∷ []

abbrev info : DmReg → Str → ℕ → List FieldInfo → DmRegInfo
info r n a fs = record { id = r; name = n; addr = a; fields = fs }

-- `DM_REGS` indexed by the enumeration.
unfoldable pub get_dmreg : DmReg → DmRegInfo
get_dmreg platform = info platform (codes "platform") 0x00 platform_fields
get_dmreg dconfig = info dconfig (codes "dconfig") 0x01 dconfig_fields
get_dmreg dselect = info dselect (codes "dselect") 0x02 dselect_fields
get_dmreg wmask = info wmask (codes "wmask") 0x03 (field (codes "mask") 31 0 ∷ [])
get_dmreg wactive = info wactive (codes "wactive") 0x04 (field (codes "astatus") 31 0 ∷ [])
get_dmreg wstatus = info wstatus (codes "wstatus") 0x05 (field (codes "status") 31 0 ∷ [])
get_dmreg dctrl = info dctrl (codes "dctrl") 0x06 dctrl_fields
get_dmreg dpc = info dpc (codes "dpc") 0x07 (field (codes "pc") 31 0 ∷ [])
get_dmreg dinject = info dinject (codes "dinject") 0x08 (field (codes "instr") 31 0 ∷ [])
get_dmreg dscratch = info dscratch (codes "dscratch") 0x09 (field (codes "data") 31 0 ∷ [])

unfoldable pub get_dmreg_addr : DmReg → ℕ
unfolding get_dmreg
get_dmreg_addr r = (get_dmreg r).addr

abbrev pub all_dmregs : List DmReg
all_dmregs =
    platform ∷ dconfig ∷ dselect ∷ wmask ∷ wactive ∷ wstatus ∷ dctrl ∷ dpc ∷ dinject ∷ dscratch ∷ []

-- The loop of `get_dmreg_id` over `DM_REGS`.
find_dmreg : Str → List DmReg → Option DmReg
unfolding get_dmreg str_eq
find_dmreg n [] = none
find_dmreg n (r ∷ rs) =
    if str_eq (get_dmreg r).name n then some (get_dmreg r).id else find_dmreg n rs

unfoldable pub get_dmreg_id : Str → Option DmReg
unfolding find_dmreg
get_dmreg_id n = find_dmreg n all_dmregs

unfoldable pub find_field : Str → List FieldInfo → Option FieldInfo
unfolding str_eq
find_field n [] = none
find_field n (f ∷ fs) = if str_eq f.name n then some f else find_field n fs

unfoldable pub get_dmreg_field : DmReg → Str → Option FieldInfo
unfolding get_dmreg find_field
get_dmreg_field r n = find_field n (get_dmreg r).fields

-- `(reg_value & mask) >> lsb`.
unfoldable pub extract_field : FieldInfo → ℕ → ℕ
unfolding mask
extract_field f v = bit_and v (mask f) / 2 ^ f.lsb

-- `(reg_value & ~mask) | ((field_value << lsb) & mask)`.
unfoldable pub set_field : FieldInfo → ℕ → ℕ → ℕ
unfolding mask
set_field f v x =
    bit_or (bit_and v (0xffff_ffff - mask f)) (bit_and (x * 2 ^ f.lsb % 2 ^ 32) (mask f))

unfoldable pub extract_dmreg_field : DmReg → Str → ℕ → Option ℕ
extract_dmreg_field r n v = elim (get_dmreg_field r n) [
  | none ↦ none
  | some finfo ↦ some (extract_field finfo v)
]

unfoldable pub set_dmreg_field : DmReg → Str → ℕ → ℕ → Option ℕ
set_dmreg_field r n v x = elim (get_dmreg_field r n) [
  | none ↦ none
  | some finfo ↦ some (set_field finfo v x)
]
