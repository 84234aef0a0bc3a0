-- ===== src/Elf2uso/Relocs.antt =====
-- `reloc_build` of tools/elf2uso.cpp.
pub mod Built
mod Examples
use dragonuso.Common.{ℕ, List, [], ◌∷◌, ◌++◌, ◌==◌, bit_and, bit_or, if◌then◌else◌, count_from}
use dragonuso.Common.Words.{u32, ◌<<<◌}
use dragonuso.StdMap.{at, after_at}
use dragonuso.Elfio.{Elfio, ElfReloc, ElfSymbol, shn_undef}
use dragonuso.Elf2uso.State.{Globals, SectionInfo}

-- `(type << 26) | (index & 0x3FFFFFF)`
unfoldable pub reloc_info : ℕ → ℕ → ℕ
reloc_info type index = bit_or (u32 (type <<< 26)) (u32 (bit_and index 0x3FFFFFF))

-- What the loop over the entries carries: the globals, whose maps an access can extend, and the
-- output section that is being filled.
pub record Building : Type 0 where
  pub globals : Globals
  pub section : SectionInfo

-- One relocation, which names the symbol `sym`.
unfoldable pub add_reloc : Building → ElfReloc → ElfSymbol → Building
add_reloc b entry sym =
    let g = b.globals in
    let s = b.section in
    if sym.section_index == shn_undef
    then record {
      globals = record g { import_sym_map = after_at g.import_sym_map entry.symbol };
      section = record s {
        external_relocs =
            s.external_relocs
            ++ (record {
              offset = u32 entry.offset;
              info = reloc_info entry.type (at g.import_sym_map entry.symbol);
              sym_offset = 0;
            }
                ∷ []);
      };
    }
    else record {
      globals = record g { out_section_map = after_at g.out_section_map sym.section_index };
      section = record s {
        internal_relocs =
            s.internal_relocs
            ++ (record {
              offset = u32 entry.offset;
              info = reloc_info entry.type (at g.out_section_map sym.section_index);
              sym_offset = u32 sym.value;
            }
                ∷ []);
      };
    }

unfoldable pub add_relocs : Elfio → ℕ → Building → List ℕ → Building
add_relocs elf rel b [] = b
add_relocs elf rel b (j ∷ js) =
    let entry = elf.get_entry rel j in
    add_relocs elf rel
      (add_reloc b entry (elf.get_symbol b.globals.elf_symbol_sec_index entry.symbol)) js

-- One output section.
unfoldable pub build_section : Elfio → Globals → SectionInfo → Building
build_section elf g s =
    if s.reloc_elf_section == shn_undef
    then record { globals = g; section = s }
    else add_relocs elf s.reloc_elf_section (record { globals = g; section = s })
        (count_from 0 (elf.get_entries_num s.reloc_elf_section))

-- The loop over the output sections: those that are done, and those that are left.
unfoldable pub build_sections : Elfio → Globals → List SectionInfo → List SectionInfo → Globals
build_sections elf g done [] = record g { out_sections = done }
build_sections elf g done (s ∷ ss) =
    let b = build_section elf g s in build_sections elf b.globals (done ++ (b.section ∷ [])) ss

unfoldable pub reloc_build : Elfio → Globals → Globals
reloc_build elf g = build_sections elf g [] g.out_sections
