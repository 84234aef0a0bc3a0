-- ===== src/Elf2uso/Write/Examples.antt =====
-- An object file without symbols.
use dragonuso.Common.{◌≡◌, ◌↔◌, refl, true, none, some, [], ◌∷◌}
use dragonuso.Swap.{little}
use dragonuso.Elfio.{Elfio}
use dragonuso.Elf2uso.State.{Globals, initial, ok}
use dragonuso.Elf2uso.Check.{
  symtab_name, elf_find_section, elf_valid, common_is_used, check_gp_relative_relocations,
}
use dragonuso.Elf2uso.Symbols.{sym_collect, collect_symbols, collect_symbol, sym_sort, map_imports}
use dragonuso.Elf2uso.Symbols.Examples.{lib}
use dragonuso.Elf2uso.Sections.{section_collect, collect_sections, section_of, is_alloc}
use dragonuso.Elf2uso.Relocs.{reloc_build}
use dragonuso.Elf2uso.Write.{uso_file, uso_write, check_elf, convert, main}
use dragonuso.Elf2uso.Write.Guards.{Written, main-Written}
use dragonuso.Text.{strcmp}
use dragonuso.StdLib.Linear.{linear, insertion_sort}

abbrev object : Elfio
object = record {
  class = 1;
  encoding = 2;
  machine = 8;
  type = 1;
  sections =
      record { name = []; type = 0; flags = 0; size = 0; addr_align = 0; contents = none }
      ∷ record {
        name = symtab_name;
        type = 2;
        flags = 0;
        size = 16;
        addr_align = 4;
        contents = none;
      }
      ∷ [];
  get_symbols_num = λ index. 1;
  get_symbol = λ index i. record {
    name = [];
    value = 0;
    size = 0;
    bind = 0;
    type = 0;
    section_index = 0;
    other = 0;
  };
  get_entries_num = λ index. 0;
  get_entry = λ index j. record { offset = 0; symbol = 0; type = 0; addend = 0 };
}

abbrev object_globals : Globals
object_globals = section_collect object (record initial { elf_symbol_sec_index = 1 })

object_written :
    main lib little 3 (some object) true (b'o' ∷ [])
    ≡ ok (uso_file little object (b'o' ∷ []) (reloc_build object object_globals))
unfolding main convert check_elf elf_valid elf_find_section common_is_used
    check_gp_relative_relocations sym_collect collect_symbols collect_symbol sym_sort map_imports
    section_collect collect_sections section_of is_alloc linear insertion_sort uso_write strcmp
object_written = refl

main-Written_example :
    (main lib little 3 (some object) true (b'o' ∷ [])
      ≡ ok (uso_file little object (b'o' ∷ []) (reloc_build object object_globals)))
    ↔ Written lib little 3
        (some object)
        true
        (b'o' ∷ [])
        (uso_file little object (b'o' ∷ []) (reloc_build object object_globals))
main-Written_example =
    main-Written lib little 3 (some object) true (b'o' ∷ [])
      (uso_file little object (b'o' ∷ []) (reloc_build object object_globals))
