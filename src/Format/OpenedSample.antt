-- ===== src/Format/OpenedSample.antt =====
-- The exports of a small file that tools/elf2uso.cpp wrote, found by src/uso.c.
use dragonuso.Common.{ℕ, ◌+◌, ◌-◌, ◌^◌, ◌<◌, ◌≡◌, refl, arith}
use dragonuso.Bsearch.{halving-IsBsearch}
use dragonuso.Swap.{little}
use dragonuso.Elf2uso.Symbols.Examples.{elf}
use dragonuso.Elf2uso.Write.{
  uso_file, write_table, uso_write_sections, write_sections, write_section, write_section_data,
  write_section_relocs, section_info_bytes, uso_write_load_info, uso_write_header, header_bytes,
}
use dragonuso.Elf2uso.Layout.{align_val, uso_calc_data_start_alignment, uso_get_reloc_ofs}
use dragonuso.Elf2uso.Output.{
  uso_write_elf_name, uso_write_symbol_table, write_symbols, write_symbol, symbol_bytes,
  swapped_u32, swapped_u16, uso_write_u32, uso_write_relocations, write_relocs, reloc_bytes,
}
use dragonuso.Elf2uso.Symbols.{sym_get_data_size, sum_name_sizes}
use dragonuso.Runtime.Examples.{env, two_files}
use dragonuso.Runtime.Api.{load_file, read_load_info}
use dragonuso.Format.Stored.{names_size}
use dragonuso.Format.Table.{table_size}
use dragonuso.Format.Boot.{file_bytes}
use dragonuso.Format.LoadInfo.{info_of_sections, read_load_info-uso_file}
use dragonuso.Format.Headed.{tables_end}
use dragonuso.Format.Samples.{two_sections, file_name, exporting, exporting-FitsFile}
use dragonuso.Format.Opened.{opened, FindsExports, opened-uso_file}

abbrev size : ℕ
size = (uso_file little elf file_name exporting).size

size_lem : (uso_file little elf file_name exporting).size ≡ 124
unfolding uso_file uso_write_elf_name write_table sym_get_data_size sum_name_sizes align_val
    uso_write_symbol_table write_symbols write_symbol symbol_bytes swapped_u32 swapped_u16
    uso_write_u32 uso_write_sections write_sections write_section write_section_data
    write_section_relocs section_info_bytes uso_write_relocations write_relocs reloc_bytes
    uso_write_load_info uso_write_header header_bytes uso_calc_data_start_alignment
    uso_get_reloc_ofs
size_lem = refl

-- The file is put at 0x2000.
place_lem :
    (opened env two_files file_name 0x3000 (uso_file little elf file_name exporting)).1 ≡ 0x2000
unfolding load_file
place_lem = refl

tables_fit : 0x2000 + tables_end file_name exporting < 2 ^ 32
unfolding table_size names_size
tables_fit = omega arith

opened-uso_file_example :
    FindsExports env exporting
      (opened env two_files file_name 0x3000 (uso_file little elf file_name exporting)).0
      (opened env two_files file_name 0x3000 (uso_file little elf file_name exporting)).1
opened-uso_file_example =
    opened-uso_file env two_files file_name 0x3000 halving-IsBsearch file_name exporting
      exporting-FitsFile (tt, tt) little elf (omega (arith, size_lem))
      (omega (arith, place_lem, tables_fit))

read_load_info-uso_file_example :
    read_load_info (file_bytes (uso_file little elf file_name exporting))
    ≡ info_of_sections ((uso_file little elf file_name exporting).size - 16) two_sections
read_load_info-uso_file_example = read_load_info-uso_file little elf file_name exporting
