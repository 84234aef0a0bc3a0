-- ===== src/Elf2uso/Write.antt =====
-- The functions of tools/elf2uso.cpp that write the sections, the header and the whole file, and
-- `main`.
pub mod Guards
mod Examples
use dragonuso.Common.{
  ℕ, suc, ◌+◌, ◌-◌, ◌*◌, ◌%◌, ◌^◌, Bool, Option, none, some, List, [], ◌∷◌, ◌++◌, ◌==◌, ltb, not,
  if◌then◌else◌, length, take,
}
use dragonuso.Common.Words.{u16, u32}
use dragonuso.Bytes.Stdio.{File, empty_file, seek, seek_end, write}
use dragonuso.StdLib.{Algorithms}
use dragonuso.StdMap.{at}
use dragonuso.Swap.{Endian}
use dragonuso.Text.{Str}
use dragonuso.Elfio.{Elfio}
use dragonuso.Elf2uso.State.{
  Globals, initial, SectionInfo, SymbolInfo, UsoReloc, Result, ok, exit, usage, load_failed,
  invalid_elf, common_used, gp_relative, open_failed, ◌>>=◌,
}
use dragonuso.Elf2uso.Check.{
  elf_find_section, ctors_name, elf_valid, common_is_used, check_gp_relative_relocations,
}
use dragonuso.Elf2uso.Symbols.{sym_compare, sym_collect, sym_get_data_size}
use dragonuso.Elf2uso.Sections.{section_collect}
use dragonuso.Elf2uso.Relocs.{reloc_build}
use dragonuso.Elf2uso.Layout.{
  align_val, uso_get_align, uso_get_noload_align, uso_get_noload_size,
  uso_calc_data_start_alignment, uso_get_reloc_ofs, uso_get_reloc_table_size,
}
use dragonuso.Elf2uso.Output.{
  swapped_u16, swapped_u32, uso_write_elf_name, uso_write_symbol_table, uso_write_relocations,
}

-- `uso_section_info_t`
pub record UsoSectionInfo : Type 0 where
  pub data_ofs : ℕ
  pub data_size : ℕ
  pub data_align : ℕ
  pub internal_relocs_ofs : ℕ
  pub external_relocs_ofs : ℕ

-- `uso_header_t`
pub record UsoHeader : Type 0 where
  pub num_sections : ℕ
  pub eh_frame_section : ℕ
  pub sections_ofs : ℕ
  pub import_sym_table_ofs : ℕ
  pub export_sym_table_ofs : ℕ
  pub ctors_section : ℕ
  pub dtors_section : ℕ

-- The difference of two offsets as a `uint32_t`.
abbrev pub sub_u32 : ℕ → ℕ → ℕ
sub_u32 a b = u32 (a + 2 ^ 32 - b)

-- The file and the two running offsets of the loop of `uso_write_sections`.
pub record Writing : Type 0 where
  pub file : File
  pub data_ofs : ℕ
  pub relocs_ofs : ℕ

-- The data of a section, and its `data_ofs` field.
unfoldable pub write_section_data : ℕ → Writing → SectionInfo → Writing × ℕ
write_section_data sections_ofs w s =
    let write_data : List ℕ → Writing × ℕ = λ bytes.
      let ofs = align_val w.data_ofs (u32 s.align) in
      (
        record w {
          file = write (seek w.file ofs) (take (u32 s.size) bytes);
          data_ofs = u32 (ofs + u32 s.size);
        },
        sub_u32 ofs sections_ofs,
      ) in
    elim s.contents [ some bytes ↦ write_data bytes | none ↦ (w, 0) ]

-- A relocation table, if there is an entry, and the field that locates it.
unfoldable pub write_section_relocs : Endian → ℕ → Writing → List UsoReloc → Writing × ℕ
write_section_relocs e sections_ofs w relocs =
    if ltb 0 (length relocs)
    then (
      record w {
        file = uso_write_relocations e w.file w.relocs_ofs relocs;
        relocs_ofs = u32 (w.relocs_ofs + uso_get_reloc_table_size relocs);
      },
      sub_u32 w.relocs_ofs sections_ofs,
    )
    else (w, 0)

unfoldable pub section_info_bytes : Endian → UsoSectionInfo → List ℕ
section_info_bytes e s =
    swapped_u32 e s.data_ofs
    ++ swapped_u32 e s.data_size
    ++ swapped_u32 e s.data_align
    ++ swapped_u32 e s.internal_relocs_ofs
    ++ swapped_u32 e s.external_relocs_ofs

-- One round of the loop of `uso_write_sections`, at index `i`.
unfoldable pub write_section : Endian → ℕ → Writing → ℕ → SectionInfo → Writing
write_section e sections_ofs w i s =
    let (w₁, data_ofs) = write_section_data sections_ofs w s in
    let (w₂, internal_ofs) = write_section_relocs e sections_ofs w₁ s.internal_relocs in
    let (w₃, external_ofs) = write_section_relocs e sections_ofs w₂ s.external_relocs in
    let info : UsoSectionInfo = record {
      data_ofs = data_ofs;
      data_size = u32 s.size;
      data_align = u32 s.align;
      internal_relocs_ofs = internal_ofs;
      external_relocs_ofs = external_ofs;
    } in
    record w₃ { file = write (seek w₃.file (sections_ofs + i * 20)) (section_info_bytes e info) }

unfoldable pub write_sections : Endian → ℕ → Writing → ℕ → List SectionInfo → Writing
write_sections e sections_ofs w i [] = w
write_sections e sections_ofs w i (s ∷ ss) =
    write_sections e sections_ofs (write_section e sections_ofs w i s) (suc i) ss

unfoldable pub uso_write_sections : Endian → File → ℕ → List SectionInfo → File
uso_write_sections e file sections_ofs sections =
    let data_ofs =
      align_val (u32 (sections_ofs + length sections * 20))
        (uso_calc_data_start_alignment sections) in
    let relocs_ofs = align_val (uso_get_reloc_ofs data_ofs sections) 4 in
    let w : Writing = record { file = file; data_ofs = data_ofs; relocs_ofs = relocs_ofs } in
    (write_sections e sections_ofs w 0 sections).file

-- At the end of the file, behind a zero byte if the size is odd.
unfoldable pub uso_write_load_info : Endian → File → List SectionInfo → File
uso_write_load_info e file sections =
    let end = seek_end file in
    let padded = if not (end.pos % 2 == 0) then write end (0 ∷ []) else end in
    write padded (
      swapped_u32 e (u32 padded.pos)
      ++ swapped_u32 e (uso_get_align sections)
      ++ swapped_u32 e (uso_get_noload_size sections)
      ++ swapped_u32 e (uso_get_noload_align sections))

unfoldable pub header_bytes : Endian → UsoHeader → List ℕ
header_bytes e h =
    swapped_u16 e h.num_sections
    ++ swapped_u16 e h.eh_frame_section
    ++ swapped_u32 e h.sections_ofs
    ++ swapped_u32 e h.import_sym_table_ofs
    ++ swapped_u32 e h.export_sym_table_ofs
    ++ swapped_u16 e h.ctors_section
    ++ swapped_u16 e h.dtors_section

unfoldable pub uso_write_header : Endian → File → UsoHeader → File
uso_write_header e file header = write (seek file 0) (header_bytes e header)

-- ".eh_frame" and ".dtors"
abbrev pub eh_frame_name : Str
eh_frame_name = b'.' ∷ b'e' ∷ b'h' ∷ b'_' ∷ b'f' ∷ b'r' ∷ b'a' ∷ b'm' ∷ b'e' ∷ []

abbrev pub dtors_name : Str
dtors_name = b'.' ∷ b'd' ∷ b't' ∷ b'o' ∷ b'r' ∷ b's' ∷ []

-- A symbol table of `uso_write`, if there is a symbol: the file, its offset or 0, and the next
-- free offset.
unfoldable pub write_table : Endian → File → ℕ → List SymbolInfo → File × ℕ × ℕ
write_table e file data_ofs syms =
    let ofs = align_val data_ofs 4 in
    if not (length syms == 0)
    then (uso_write_symbol_table e file ofs syms, ofs, u32 (ofs + sym_get_data_size syms))
    else (file, 0, data_ofs)

-- The file that `uso_write` leaves when it could be opened.
unfoldable pub uso_file : Endian → Elfio → Str → Globals → File
uso_file e elf src_elf_name g =
    let named = uso_write_elf_name empty_file 20 src_elf_name in
    let (imported, import_ofs, data_ofs) =
      write_table e named (u32 (20 + (length src_elf_name + 1))) g.import_syms in
    let (exported, export_ofs, data_ofs') = write_table e imported data_ofs g.export_syms in
    let sections_ofs = align_val data_ofs' 4 in
    let filled = uso_write_sections e exported sections_ofs g.out_sections in
    let header : UsoHeader = record {
      num_sections = u16 (length g.out_sections);
      eh_frame_section = at g.out_section_map (elf_find_section elf eh_frame_name);
      sections_ofs = sections_ofs;
      import_sym_table_ofs = import_ofs;
      export_sym_table_ofs = export_ofs;
      ctors_section = at g.out_section_map (elf_find_section elf ctors_name);
      dtors_section = at g.out_section_map (elf_find_section elf dtors_name);
    } in
    uso_write_load_info e (uso_write_header e filled header) g.out_sections

unfoldable pub uso_write : Endian → (can_open : Bool) → Elfio → Str → Globals → Result File
uso_write e can_open elf src_elf_name g =
    if can_open then ok (uso_file e elf src_elf_name g) else exit open_failed

-- The checks of `main`, which also set `elf_symbol_sec_index`.
unfoldable pub check_elf : Elfio → Globals → Result Globals
check_elf elf g =
    let (g', valid) = elf_valid elf g in
    if not valid
    then exit invalid_elf
    else if common_is_used elf g'
    then exit common_used
    else if check_gp_relative_relocations elf
    then exit gp_relative
    else ok g'

-- `main`: `loaded` is the ELF file if it could be read, and `can_open` says whether the output
-- could be opened. The result is the output file, or the reason for exit status 1.
module _ (lib : Algorithms SymbolInfo sym_compare) where
  unfoldable pub convert : Elfio → Result Globals
  convert elf = do
    g ← check_elf elf initial
    g' ← sym_collect lib elf (section_collect elf g)
    ok (reloc_build elf g')

  unfoldable pub main : Endian → ℕ → Option Elfio → Bool → Str → Result File
  main e argc loaded can_open input =
      let run : Elfio → Result File = λ elf. do g ← convert elf; uso_write e can_open elf input g
      in if not (argc == 3)
        then exit usage
        else elim loaded [ some elf ↦ run elf | none ↦ exit load_failed ]
