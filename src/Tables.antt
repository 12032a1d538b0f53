-- ===== src/Tables.antt =====
-- Descriptors of the segment and interrupt tables, init/tables.cpp, the page attributes of
-- init/setup_MSRS.cpp and the counts of pages of kernlib/pagerounds.cpp.
--
-- `|<<47`, which has no left operand, is read as `|1<<47`. What the assembly then loads into the
-- processor's registers is not modelled.
pub mod Fields
use best_kernel.Base.{
  ℕ, ◌+◌, ◌-◌, ◌*◌, ◌/◌, ◌%◌, ◌^◌, ◌==◌, ◌!=◌, if◌then◌else◌, bit_or, u32, u64, shl32, shl64, shr,
}
use best_kernel.Paging.{get_multi_from_pagetype}

unfoldable pub tosmallpage : ℕ → ℕ
tosmallpage x = if x % 4096 != 0 then x / 4096 + 1 else x / 4096

unfoldable pub pagetype_roundown : ℕ → ℕ → ℕ
unfolding get_multi_from_pagetype
pagetype_roundown pagetype val = if val == 0 then val else val / get_multi_from_pagetype pagetype

unfoldable pub pagetype_roundup : ℕ → ℕ → ℕ
unfolding get_multi_from_pagetype
pagetype_roundup integer pagetype =
    if integer % get_multi_from_pagetype pagetype != 0
    then integer / get_multi_from_pagetype pagetype
    else integer / get_multi_from_pagetype pagetype + 1

-- The two words of a gate. `ins` is `(ins*)`, the word that stands at the handler's address, `gdt_segsel`, `tss_entry`, `gate_type` and
-- `privilege_level` are of 32 digits.
unfoldable pub idescriptor_insert : (ins gdt_segsel tss_entry gate_type privilege_level : ℕ) → ℕ × ℕ
idescriptor_insert ins gdt_segsel tss_entry gate_type privilege_level = (
  bit_or
      (bit_or
        (bit_or
          (bit_or
            (bit_or (bit_or (shr (shl64 ins 48) 48) (shl64 (shr ins 16) 48)) (shl32 gdt_segsel 16))
            (shl64 tss_entry 32))
          (shl64 gate_type 40))
        (shl64 privilege_level 45))
      (2 ^ 47),
  shl64 (shr ins 32) 32,
)

-- `((ins*)<<48>>32)|((ins*)>>16<<56>>32)|((ins*)>>56<<56)`, or-ed into a template from the left.
unfoldable pub place_base : ℕ → ℕ → ℕ
place_base ins templ =
    bit_or (bit_or (bit_or templ (shr (shl64 ins 48) 32)) (shr (shl64 (shr ins 16) 56) 32))
      (shl64 (shr ins 56) 56)

unfoldable pub generic_segment_insert : ℕ → ℕ → ℕ
unfolding place_base
generic_segment_insert ins exec_bool =
    let templ = bit_or (bit_or (2 ^ 41) (2 ^ 44)) (2 ^ 47) in
    bit_or (place_base ins (if exec_bool == 0 then templ else bit_or templ (2 ^ 63))) 2

-- `limit` is tosmallpage(MAX16BIT).
unfoldable pub gdt_insert : ℕ → ℕ → ℕ → ℕ
unfolding place_base
gdt_insert limit type ins =
    let sysseg_template = bit_or (bit_or (bit_or (shl64 type 40) (2 ^ 47)) (2 ^ 53)) (2 ^ 55) in
    bit_or (place_base ins sysseg_template) limit

-- The mask of setup_PAT, and the two halves that are written.
unfoldable pub setup_pat : ℕ × ℕ
setup_pat =
    let mask =
      bit_or (bit_or (bit_or (bit_or (bit_or 0 (2 ^ 24)) (2 * 2 ^ 40)) (3 * 2 ^ 8)) (4 * 2 ^ 16))
        (5 * 2 ^ 32) in
    (shr (shl64 mask 32) 32, shr mask 32)
