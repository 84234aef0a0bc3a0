-- ===== src/Format/Samples.antt =====
-- Two .uso files, and two relocations.
use dragonuso.Common.{
  ℕ, ◌+◌, ◌-◌, ap, ◌^◌, ◌<◌, ◌≡◌, refl, inl, inr, true, false, none, some, List, [], ◌∷◌, map, All,
  arith,
}
use dragonuso.Bytes.Stdio.{File, empty_file}
use dragonuso.Bytes.Below.{KeepsBelow}
use dragonuso.StdMap.{assign, no_entries, at}
use dragonuso.Swap.{little, big}
use dragonuso.Text.{Str}
use dragonuso.Elf2uso.Relocs
use dragonuso.Elf2uso.Output.{uso_write_relocations}
use dragonuso.Bytes.{Bytes, put}
use dragonuso.Runtime.Ram.{
  load_u32, store_u32, table_length, reloc_info, uso_get_reloc_type, uso_get_reloc_target_index,
}
use dragonuso.Format.Relocs.{
  FitsReloc, SeesRelocs, SeesRelocs-uso_write_relocations, uso_get_reloc_type-reloc_info,
}
use dragonuso.Elf2uso.State.{UsoReloc, Globals, SectionInfo, initial}
use dragonuso.Elf2uso.Symbols.Examples.{elf}
use dragonuso.Elf2uso.Layout.Align.{IsAligned, data_room, relocs_room}
use dragonuso.Elf2uso.Write.{uso_write_sections, uso_file}
use dragonuso.Externs.Read.{ok, uso_read}
use dragonuso.Externs.Generate.{main, extern_lines}
use dragonuso.Externs.Unresolved.{unresolved}
use dragonuso.Externs.Examples.{lib}
use dragonuso.Format.Stored.{names_size}
use dragonuso.Format.Reading.{as_read}
use dragonuso.Format.Table.{table_size}
use dragonuso.Format.Sections.{FitSections, uso_write_sections-KeepsBelow}
use dragonuso.Format.Headed.{FitsFile}
use dragonuso.Format.Whole.{uso_read-uso_file}
use dragonuso.Format.Link.{Converted, IsWritable, info_of, files_of, main-unresolved}
use dragonuso.Format.Examples.{two_symbols, two_symbols-AreSymbols}

-- Code of 8 bytes with one relocation, and 16 bytes that are not in the file.
abbrev pub two_sections : List SectionInfo
two_sections =
    record {
      reloc_elf_section = 1;
      internal_relocs = record { offset = 4; info = 0; sym_offset = 0 } ∷ [];
      external_relocs = [];
      contents = some (1 ∷ 2 ∷ 3 ∷ 4 ∷ 5 ∷ 6 ∷ 7 ∷ 8 ∷ []);
      size = 8;
      align = 4;
    }
    ∷ record {
      reloc_elf_section = 0;
      internal_relocs = [];
      external_relocs = [];
      contents = none;
      size = 16;
      align = 8;
    }
    ∷ []

two_sections-IsAligned : All IsAligned two_sections
two_sections-IsAligned = (inr (2, omega arith, refl), (inl refl, tt))

two_sections-FitSections : FitSections 0x1000 two_sections
unfolding data_room relocs_room
two_sections-FitSections = omega arith

uso_write_sections-KeepsBelow_example :
    KeepsBelow 64 empty_file (uso_write_sections little empty_file 64 two_sections)
uso_write_sections-KeepsBelow_example =
    uso_write_sections-KeepsBelow little empty_file 64 two_sections two_sections-IsAligned
      (omega (arith, two_sections-FitSections))

abbrev pub file_name : Str
file_name = b'a' ∷ []

-- The first file imports both symbols, and the second exports the first of them.
abbrev importing : Globals
importing = record initial {
  out_section_map = assign (assign no_entries 0 0) 1 1;
  out_sections = two_sections;
  import_syms = two_symbols;
}

abbrev pub exporting : Globals
exporting = record importing {
  import_syms = [];
  export_syms =
      record { src_symbol = 3; name = b'g' ∷ b'o' ∷ []; section = 1; weak = false; addr = 0x40 }
      ∷ [];
}

section_id : (k : ℕ) → at importing.out_section_map k < 2 ^ 16
section_id k = ground arith

importing-FitsFile : FitsFile file_name importing
unfolding table_size names_size
importing-FitsFile = record {
  imports = two_symbols-AreSymbols;
  exports = tt;
  aligned = two_sections-IsAligned;
  section_ids = section_id;
  room = omega (arith, two_sections-FitSections);
}

pub exporting-FitsFile : FitsFile file_name exporting
unfolding table_size names_size
exporting-FitsFile = record {
  imports = tt;
  exports = (two_symbols-AreSymbols.0, tt);
  aligned = two_sections-IsAligned;
  section_ids = section_id;
  room = omega (arith, two_sections-FitSections);
}

uso_read-uso_file_example :
    uso_read big (some (uso_file little elf file_name importing)) []
    ≡ ok (record { import_syms = map as_read two_symbols; export_syms = [] } ∷ [])
uso_read-uso_file_example =
    uso_read-uso_file little elf file_name importing importing-FitsFile big []

abbrev both : List Converted
both =
    record { elf = elf; name = file_name; globals = importing }
    ∷ record { elf = elf; name = file_name; globals = exporting }
    ∷ []

both-IsWritable : All IsWritable both
both-IsWritable = (
  record { fits = importing-FitsFile; sorted = tt },
  (record { fits = exporting-FitsFile; sorted = (tt, tt) }, tt),
)

main-unresolved_example :
    main lib big 4 (files_of little both) true
    ≡ ok (extern_lines (unresolved (map info_of both) 0 (map info_of both)))
main-unresolved_example = main-unresolved little big lib both both-IsWritable

abbrev two_relocs : List UsoReloc
two_relocs =
    record { offset = 4; info = Relocs.reloc_info 4 1; sym_offset = 16 }
    ∷ record { offset = 8; info = Relocs.reloc_info 5 2; sym_offset = 0 }
    ∷ []

two_relocs-FitsReloc : All FitsReloc two_relocs
unfolding Relocs.reloc_info
two_relocs-FitsReloc =
    ((omega arith, omega arith, omega arith), ((omega arith, omega arith, omega arith), tt))

-- The file is loaded to 0x1000.
abbrev relocs_file : File
relocs_file = uso_write_relocations little empty_file 32 two_relocs

abbrev relocs_ram : Bytes
relocs_ram x = relocs_file.contents (x - 0x1000)

relocs_ram-same : (j : ℕ) → j < relocs_file.size → relocs_ram (0x1000 + j) ≡ relocs_file.contents j
relocs_ram-same j lt = let e : 0x1000 + j - 0x1000 ≡ j = omega arith in ap relocs_file.contents e

SeesRelocs-uso_write_relocations_example :
    (table_length relocs_ram (0x1000 + 32) ≡ 2) × SeesRelocs relocs_ram (0x1000 + 32) 0 two_relocs
SeesRelocs-uso_write_relocations_example =
    SeesRelocs-uso_write_relocations little empty_file 32 two_relocs relocs_ram 0x1000 (omega arith)
      two_relocs-FitsReloc relocs_ram-same

abbrev reloc_ram : Bytes
reloc_ram = store_u32 (λ x. 0) 0x404 (Relocs.reloc_info 6 300)

reloc_ram-info : reloc_info reloc_ram 0x400 ≡ Relocs.reloc_info 6 300
unfolding load_u32 store_u32 put Relocs.reloc_info
reloc_ram-info = refl

uso_get_reloc_type-reloc_info_example :
    (uso_get_reloc_type reloc_ram 0x400 ≡ 6) × (uso_get_reloc_target_index reloc_ram 0x400 ≡ 300)
uso_get_reloc_type-reloc_info_example =
    uso_get_reloc_type-reloc_info reloc_ram 0x400 6 300 (omega arith) (omega arith) reloc_ram-info
