-- ===== src/Format/NoloadSample.antt =====
-- Two sections without data: five bytes, then eight bytes that are aligned to eight.
use dragonuso.Common.{ℕ, ◌+◌, ◌^◌, ◌<◌, refl, inr, none, [], ◌∷◌, arith}
use dragonuso.Bytes.{Bytes, put}
use dragonuso.Elf2uso.State.{SectionInfo}
use dragonuso.Elf2uso.Layout.{uso_get_noload_size}
use dragonuso.Runtime.Ram.{load_u32, store_u32, section_entry, section_data}
use dragonuso.Runtime.Fixup.{fixup_section_table}
use dragonuso.Runtime.Fixup.Sections.{AreAlignments, noload_room}
use dragonuso.Format.Noload.{IsNoload, fixup_section_table-overrun}

abbrev bss : (size align : ℕ) → SectionInfo
bss size align = record {
  reloc_elf_section = 0;
  internal_relocs = [];
  external_relocs = [];
  contents = none;
  size = size;
  align = align;
}

abbrev bss_ram : Bytes
bss_ram = store_u32 (store_u32 (store_u32 (store_u32 (λ x. 0) 0x1018 5) 0x101C 1) 0x102C 8) 0x1030 8

bss_ram-IsNoload : IsNoload bss_ram 0x1000 1 (bss 5 1) × IsNoload bss_ram 0x1000 2 (bss 8 8)
unfolding load_u32 store_u32 put
bss_ram-IsNoload = (
  record { in_file = refl; empty = refl; size = refl; align = refl },
  record { in_file = refl; empty = refl; size = refl; align = refl },
)

bss_ram-AreAlignments : AreAlignments bss_ram 0x1000 (1 ∷ 2 ∷ [])
unfolding load_u32 store_u32 put
bss_ram-AreAlignments = (inr (0, omega arith, refl), (inr (3, omega arith, refl), tt))

bss_ram-room : 0x2000 + noload_room bss_ram 0x1000 (1 ∷ 2 ∷ []) < 2 ^ 32
unfolding noload_room load_u32 store_u32 put
bss_ram-room = omega arith

fixup_section_table-overrun_example :
    0x2000 + uso_get_noload_size (bss 5 1 ∷ bss 8 8 ∷ [])
    < section_data (fixup_section_table bss_ram 0x1000 0x2000 3) (section_entry 0x1000 2) + 8
fixup_section_table-overrun_example =
    fixup_section_table-overrun bss_ram 0x1000 0x2000 (bss 5 1) (bss 8 8) bss_ram-IsNoload.0
      bss_ram-IsNoload.1 0x400 refl (λ c. omega arith) bss_ram-AreAlignments (omega arith)
      bss_ram-room
