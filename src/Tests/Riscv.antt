-- ===== src/Tests/Riscv.antt =====
-- Register names.
use vxdebug.Base.{
  ℕ, ◌+◌, ◌*◌, ◌%◌, ◌^◌, ◌≡◌, refl, arith, true, List, [], ◌∷◌, map, length, Option, some,
}
use vxdebug.Text.{Str, codes}
use vxdebug.Riscv.{RegInfo, rvcsr_num2name, rvcsr_name2addr, rvgpr_num2name, rvgpr_name2num}
use vxdebug.Riscv.Asm.{words, Cache, cached, rv_asm}
use vxdebug.Riscv.Caching.{AllValid, Agrees, Assembles, binary, rv_asm_lem}
use vxdebug.Riscv.Names.{name2addr-num2name, name2num-gprs}

mscratch : rvcsr_num2name 0x340 ≡ some (codes "mscratch")
unfolding rvcsr_num2name
mscratch = refl

name2addr-num2name_example : rvcsr_name2addr (codes "mscratch") ≡ some 0x340
name2addr-num2name_example = name2addr-num2name 0x340 (codes "mscratch") mscratch

abbrev sp : RegInfo
sp = record { name = codes "x2"; abi_name = codes "sp"; addr = 2 }

name2num-gprs_example :
    (rvgpr_num2name 2 ≡ some (codes "sp"))
    × (rvgpr_name2num (codes "sp") ≡ some 2)
    × (rvgpr_name2num (codes "x2") ≡ some 2)
name2num-gprs_example = name2num-gprs 2 sp refl

-- A toolchain for lines that are each an `li` of their length.
abbrev line_word : Str → ℕ
line_word line = (length line * 2 ^ 20 + 0x13) % 2 ^ 32

abbrev toolchain : List Str → Option (List ℕ)
toolchain lines = some (binary (map line_word lines))

toolchain-Assembles : Assembles toolchain
toolchain-Assembles = record {
  valid = λ line. true;
  word = line_word;
  in_range = λ line. omega arith;
  each_line = λ lines h. refl;
}

rv_asm_lem_example :
    (after : Cache) × (rv_asm toolchain (codes "nop" ∷ codes "ebreak" ∷ codes "nop" ∷ []) []
      ≡ (words (0x30_0013 ∷ 0x60_0013 ∷ 0x30_0013 ∷ []), after))
    × Agrees line_word after
unfolding AllValid cached toolchain-Assembles
rv_asm_lem_example =
    rv_asm_lem toolchain-Assembles (codes "nop" ∷ codes "ebreak" ∷ codes "nop" ∷ []) []
      (refl, (refl, (refl, tt))) (λ line w e. cc)
