-- ===== src/Tests/Dm.antt =====
-- The register map.
use vxdebug.Base.{◌≡◌, refl, arith, some}
use vxdebug.Text.{codes}
use vxdebug.Dm.{dselect, get_dmreg_field, set_dmreg_field, set_field, get_dmreg_id, DmReg}
use vxdebug.Dm.Table.{IsSetField, set_dmreg_field_lem}

set_warpsel : set_dmreg_field dselect (codes "warpsel") 0xffff_ffff 5 ≡ some 0xffc0_02ff
unfolding set_dmreg_field get_dmreg_field set_field
set_warpsel = refl

set_dmreg_field_lem_example : IsSetField dselect (codes "warpsel") 0xffff_ffff 5 0xffc0_02ff
set_dmreg_field_lem_example =
    set_dmreg_field_lem dselect (codes "warpsel") 0xffff_ffff 5 (omega arith) set_warpsel

get_dmreg_id_dpc : get_dmreg_id (codes "dpc") ≡ some DmReg.dpc
unfolding get_dmreg_id
get_dmreg_id_dpc = refl
