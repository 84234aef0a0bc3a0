-- ===== src/Runtime/Fixup/Examples.antt =====
-- Tables at which the fixups run: three sections, and one export.
use dragonuso.Common.{ℕ, ◌+◌, ◌*◌, ◌^◌, ◌<◌, ◌≡◌, refl, inl, inr, List, [], ◌∷◌, arith}
use mathlib.Core.Path.{subst}
use dragonuso.Bytes.{Bytes, Apart, put}
use dragonuso.Runtime.Ram.{
  load_u16, load_u32, table_length, store_u32, section_entry, section_data, data_align,
}
use dragonuso.Runtime.Fixup.{
  fixup_section_table, fixup_export_syms, fixup_export_ptrs, fixup_symbol_table_names, fixup_names,
  ptr_fixup,
}
use dragonuso.Runtime.Fixup.Exports.{home, HomesApart, FixedExports, fixup_export_syms-FixedExports}
use dragonuso.Runtime.Fixup.Sections.{
  IsLaidOut, AreAlignments, noload_room, fixup_section_table-IsLaidOut,
}

-- The data of section 1 is 0x40 behind the table; section 2 has 16 bytes with alignment 8.
abbrev table_ram : Bytes
table_ram =
    store_u32 (store_u32 (store_u32 (store_u32 (λ x. 0) 0x1014 0x40) 0x1018 4) 0x102C 16) 0x1030 8

abbrev indices : List ℕ
indices = 1 ∷ 2 ∷ []

no_alignment : data_align table_ram 0x1014 ≡ 0
unfolding load_u32 store_u32 put
no_alignment = refl

alignment : data_align table_ram 0x1028 ≡ 2 ^ 3
unfolding load_u32 store_u32 put
alignment = refl

table_ram-AreAlignments : AreAlignments table_ram 0x1000 indices
table_ram-AreAlignments = (inl no_alignment, (inr (3, omega arith, alignment), tt))

table_ram-room : 0x2001 + noload_room table_ram 0x1000 indices < 2 ^ 32
unfolding noload_room load_u32 store_u32 put
table_ram-room = omega arith

fixup_section_table-IsLaidOut_example :
    (section_data (fixup_section_table table_ram 0x1000 0x2001 3) (section_entry 0x1000 0) ≡ 0)
    × IsLaidOut table_ram (fixup_section_table table_ram 0x1000 0x2001 3) 0x1000 0x2001 indices
fixup_section_table-IsLaidOut_example =
    fixup_section_table-IsLaidOut table_ram 0x1000 0x2001 3 table_ram-AreAlignments table_ram-room

-- One export at 0x400, which lies 0x20 bytes behind the start of section 1 at 0x3000.
abbrev exports_ram : Bytes
exports_ram =
    store_u32
      (store_u32 (store_u32 (store_u32 (store_u32 (λ x. 0) 0x400 1) 0x404 0x10) 0x408 0x20) 0x40C
        0x10002)
      0x814 0x3000

one_export : table_length exports_ram 0x400 ≡ 1
unfolding load_u32 store_u32 put
one_export = refl

home_of_first : home exports_ram 0x400 0x800 0 ≡ 0x814
unfolding load_u16 load_u32 store_u32 put
home_of_first = refl

exports_ram-HomesApart : HomesApart exports_ram 0x400 0x800 (table_length exports_ram 0x400)
exports_ram-HomesApart i lt =
    let first : 0 ≡ i = omega (arith, one_export) in
    subst
      (λ (j : ℕ).
        Apart (home exports_ram 0x400 0x800 j) 4 (0x400 + 4) (table_length exports_ram 0x400 * 12))
      first (inr (omega (arith, one_export, home_of_first)))

fixup_export_syms-FixedExports_example :
    FixedExports exports_ram (fixup_export_syms exports_ram 0x400 0x800) 0x400 0x800
fixup_export_syms-FixedExports_example =
    fixup_export_syms-FixedExports exports_ram 0x400 0x800 exports_ram-HomesApart

first_address : load_u32 (fixup_export_syms exports_ram 0x400 0x800) 0x408 ≡ 0x3020
unfolding fixup_export_syms fixup_export_ptrs fixup_symbol_table_names fixup_names ptr_fixup
    load_u16 load_u32 store_u32 put
first_address = refl
