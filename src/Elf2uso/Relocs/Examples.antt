-- ===== src/Elf2uso/Relocs/Examples.antt =====
-- A section with two relocations: one against the file itself, one against an import.
use dragonuso.Common.{◌≡◌, zero, suc, some, [], ◌∷◌, map, refl}
use dragonuso.StdMap.{assign, no_entries}
use dragonuso.Elfio.{Elfio}
use dragonuso.Elf2uso.State.{Globals, initial}
use dragonuso.Elf2uso.Relocs.{reloc_build, reloc_info}
use dragonuso.Elf2uso.Relocs.Built.{with_relocs, externals, reloc_build-with_relocs}
use dragonuso.Elf2uso.Symbols.Examples.{elf}

-- Symbol 0 is defined in section 1, and symbol 1 is imported.
abbrev calling : Elfio
calling = record elf {
  get_entries_num = λ index. 2;
  get_entry = λ index j. elim j [
    | zero ↦ record { offset = 0; symbol = 0; type = 4; addend = 0 }
    | suc _ ↦ record { offset = 8; symbol = 1; type = 4; addend = 0 }
  ];
}

abbrev collected : Globals
collected = record initial {
  out_section_map = assign (assign no_entries 0 0) 1 1;
  out_sections =
      record {
        reloc_elf_section = 3;
        internal_relocs = [];
        external_relocs = [];
        contents = some (0 ∷ 0 ∷ 0 ∷ 0 ∷ 0 ∷ 0 ∷ 0 ∷ 0 ∷ 0 ∷ 0 ∷ 0 ∷ 0 ∷ []);
        size = 12;
        align = 4;
      }
      ∷ [];
  import_sym_map = assign no_entries 1 0;
  elf_symbol_sec_index = 2;
}

reloc_build-with_relocs_example :
    ((reloc_build calling collected).out_sections
      ≡ map (with_relocs calling collected) collected.out_sections)
    × ((reloc_build calling collected).import_syms ≡ [])
    × ((reloc_build calling collected).export_syms ≡ [])
reloc_build-with_relocs_example = reloc_build-with_relocs calling collected

-- The second entry is external.
second_entry :
    externals calling collected 3 (0 ∷ 1 ∷ [])
    ≡ record { offset = 8; info = reloc_info 4 0; sym_offset = 0 } ∷ []
unfolding externals
second_entry = refl
