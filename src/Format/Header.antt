-- ===== src/Format/Header.antt =====
-- The header of a .uso file, written by tools/elf2uso.cpp and read by tools/make_uso_externs.cpp.
use dragonuso.Common.{ℕ, ◌^◌, ◌<◌, ◌≡◌, ◌∙◌, List, ◌++◌, arith, get_or}
use dragonuso.Bytes.Files.{Holds}
use dragonuso.Bytes.Stdio.{File}
use dragonuso.Swap.{Endian, be_u16, be_u32, load_u16, load_u32, swap_u16, swap_u32}
use dragonuso.Swap.Laws.{swap_u16-load_u16, swap_u32-load_u32}
use dragonuso.Elf2uso.Write.{UsoHeader, header_bytes}
use dragonuso.Externs.Read.{ok, header_unread, uso_read_header}
use dragonuso.Format.Fields.{swapped_u16_lem, swapped_u32_lem, All-bytes}
use dragonuso.Format.Reading.{file_read-Holds}

-- The fields fit theirs in the file.
pub record FitsHeader (h : UsoHeader) : Type 0 where
  pub num_sections : h.num_sections < 2 ^ 16
  pub eh_frame_section : h.eh_frame_section < 2 ^ 16
  pub sections_ofs : h.sections_ofs < 2 ^ 32
  pub import_sym_table_ofs : h.import_sym_table_ofs < 2 ^ 32
  pub export_sym_table_ofs : h.export_sym_table_ofs < 2 ^ 32
  pub ctors_section : h.ctors_section < 2 ^ 16
  pub dtors_section : h.dtors_section < 2 ^ 16

abbrev pub stored_header : UsoHeader → List ℕ
stored_header h =
    be_u16 h.num_sections
    ++ be_u16 h.eh_frame_section
    ++ be_u32 h.sections_ofs
    ++ be_u32 h.import_sym_table_ofs
    ++ be_u32 h.export_sym_table_ofs
    ++ be_u16 h.ctors_section
    ++ be_u16 h.dtors_section

pub header_bytes_lem : (e : Endian) (h : UsoHeader) → header_bytes e h ≡ stored_header h
unfolding header_bytes
header_bytes_lem e h = rw (
  swapped_u16_lem e h.num_sections,
  swapped_u16_lem e h.eh_frame_section,
  swapped_u32_lem e h.sections_ofs,
  swapped_u32_lem e h.import_sym_table_ofs,
  swapped_u32_lem e h.export_sym_table_ofs,
  swapped_u16_lem e h.ctors_section,
  swapped_u16_lem e h.dtors_section,
)

module _ (e : Endian) (h : UsoHeader) (fits : FitsHeader h) where
  in_bytes : (j : ℕ) → get_or (stored_header h) j 0 < 256
  in_bytes = All-bytes (stored_header h) (omega arith)

  read_num_sections : swap_u16 e (load_u16 e (stored_header h) 0) ≡ h.num_sections
  read_num_sections = swap_u16-load_u16 e (stored_header h) 0 in_bytes ∙ omega arith

  read_eh_frame_section : swap_u16 e (load_u16 e (stored_header h) 2) ≡ h.eh_frame_section
  read_eh_frame_section = swap_u16-load_u16 e (stored_header h) 2 in_bytes ∙ omega arith

  read_sections_ofs : swap_u32 e (load_u32 e (stored_header h) 4) ≡ h.sections_ofs
  read_sections_ofs = swap_u32-load_u32 e (stored_header h) 4 in_bytes ∙ omega arith

  read_import_sym_table_ofs : swap_u32 e (load_u32 e (stored_header h) 8) ≡ h.import_sym_table_ofs
  read_import_sym_table_ofs = swap_u32-load_u32 e (stored_header h) 8 in_bytes ∙ omega arith

  read_export_sym_table_ofs : swap_u32 e (load_u32 e (stored_header h) 12) ≡ h.export_sym_table_ofs
  read_export_sym_table_ofs = swap_u32-load_u32 e (stored_header h) 12 in_bytes ∙ omega arith

  read_ctors_section : swap_u16 e (load_u16 e (stored_header h) 16) ≡ h.ctors_section
  read_ctors_section = swap_u16-load_u16 e (stored_header h) 16 in_bytes ∙ omega arith

  read_dtors_section : swap_u16 e (load_u16 e (stored_header h) 18) ≡ h.dtors_section
  read_dtors_section = swap_u16-load_u16 e (stored_header h) 18 in_bytes ∙ omega arith

  pub uso_read_header-Holds : (f : File) → Holds f 0 (stored_header h) → uso_read_header e f ≡ ok h
  unfolding uso_read_header
  uso_read_header-Holds f held = rw (
    file_read-Holds f 0 (stored_header h) header_unread (omega arith) held,
    read_num_sections,
    read_eh_frame_section,
    read_sections_ofs,
    read_import_sym_table_ofs,
    read_export_sym_table_ofs,
    read_ctors_section,
    read_dtors_section,
  )
