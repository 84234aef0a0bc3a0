-- ===== src/Format/Headed.antt =====
-- The header and the symbol tables of a .uso file that tools/elf2uso.cpp wrote, before the load info
-- is appended.
use dragonuso.Common.{ℕ, ◌+◌, ◌^◌, ◌≤◌, ◌<◌, ◌≡◌, ◌∙◌, inr, List, All, arith, length}
use dragonuso.Common.Words.{u16, u32}
use dragonuso.Bytes.Stdio.{File, empty_file}
use dragonuso.Bytes.Files.{write_at, size-le-write, write_outside, Holds, Holds-write}
use dragonuso.Bytes.Below.{KeepsBelow, KeepsBelow-trans}
use dragonuso.StdMap.{at}
use dragonuso.Swap.{Endian}
use dragonuso.Text.{Str}
use dragonuso.Elfio.{Elfio}
use dragonuso.Elf2uso.State.{Globals, SymbolInfo}
use dragonuso.Elf2uso.Check.{elf_find_section, ctors_name}
use dragonuso.Elf2uso.Layout.{align_val}
use dragonuso.Elf2uso.Layout.Align.{align_val-IsAlignedUp, IsAligned}
use dragonuso.Elf2uso.Output.{uso_write_elf_name}
use dragonuso.Elf2uso.Write.{
  UsoHeader, eh_frame_name, dtors_name, write_table, uso_write_sections, uso_write_load_info,
  uso_write_header, uso_file,
}
use dragonuso.Format.Reading.{AreSymbols}
use dragonuso.Format.Table.{table_size}
use dragonuso.Format.Sections.{FitSections, uso_write_sections-KeepsBelow}
use dragonuso.Format.Header.{FitsHeader, stored_header, header_bytes_lem}
use dragonuso.Format.Placed.{
  HasTable, HasTable-wider, HasTable-frame, WroteTable, write_table-WroteTable,
}

-- The end of the symbol tables in the file, at most.
abbrev pub tables_end : Str → Globals → ℕ
tables_end name g =
    20 + (length name + 1) + 4 + table_size g.import_syms + 4 + table_size g.export_syms + 4

-- The collected data fits a file of less than 4 GB.
pub record FitsFile (name : Str) (g : Globals) : Type 0 where
  pub imports : AreSymbols g.import_syms
  pub exports : AreSymbols g.export_syms
  pub aligned : All IsAligned g.out_sections
  pub section_ids : (k : ℕ) → at g.out_section_map k < 2 ^ 16
  pub room : FitSections (tables_end name g) g.out_sections

-- A file with this header and the symbol tables of the data: the imports end at `mid`, and the
-- exports at `end`.
pub record IsHeaded (name : Str) (g : Globals) (f : File) (h : UsoHeader) (mid end : ℕ)
    : Type 0 where
  pub header_there : Holds f 0 (stored_header h)
  pub header_fits : FitsHeader h
  pub imports : HasTable f h.import_sym_table_ofs 20 mid g.import_syms
  pub exports : HasTable f h.export_sym_table_ofs mid end g.export_syms
  pub mid_above : 20 ≤ mid
  pub end_above : mid ≤ end
  pub sections_above : end ≤ h.sections_ofs
  pub sections_below : h.sections_ofs ≤ tables_end name g

module _ (writer : Endian) (elf : Elfio) (name : Str) (g : Globals) (fits : FitsFile name g) where
  abbrev named : File
  named = uso_write_elf_name empty_file 20 name

  abbrev first_free : ℕ
  first_free = u32 (20 + (length name + 1))

  abbrev imported : File × ℕ × ℕ
  imported = write_table writer named first_free g.import_syms

  abbrev exported : File × ℕ × ℕ
  exported = write_table writer imported.0 imported.2 g.export_syms

  abbrev sections_ofs : ℕ
  sections_ofs = align_val exported.2 4

  abbrev filled : File
  filled = uso_write_sections writer exported.0 sections_ofs g.out_sections

  abbrev header : UsoHeader
  header = record {
    num_sections = u16 (length g.out_sections);
    eh_frame_section = at g.out_section_map (elf_find_section elf eh_frame_name);
    sections_ofs = sections_ofs;
    import_sym_table_ofs = imported.1;
    export_sym_table_ofs = exported.1;
    ctors_section = at g.out_section_map (elf_find_section elf ctors_name);
    dtors_section = at g.out_section_map (elf_find_section elf dtors_name);
  }

  abbrev headed : File
  headed = write_at filled 0 (stored_header header)

  first_free_lem : first_free ≡ 20 + (length name + 1)
  first_free_lem = omega (arith, fits.room)

  imported-WroteTable : WroteTable named first_free g.import_syms imported
  imported-WroteTable =
      write_table-WroteTable writer named first_free g.import_syms
        (omega (arith, first_free_lem, fits.room)) fits.imports

  exported-WroteTable : WroteTable imported.0 imported.2 g.export_syms exported
  exported-WroteTable =
      write_table-WroteTable writer imported.0 imported.2 g.export_syms
        (omega (arith, first_free_lem, imported-WroteTable.below, fits.room)) fits.exports

  -- The sections stand behind the tables.
  sections_bounds : (exported.2 ≤ sections_ofs) × (sections_ofs ≤ tables_end name g)
  sections_bounds =
      let up = align_val-IsAlignedUp 2 exported.2 (omega arith) (
        omega (
          arith, first_free_lem, imported-WroteTable.below, exported-WroteTable.below, fits.room,
        )) in
      (
        up.above,
        omega
            (arith, up.close, first_free_lem, imported-WroteTable.below, exported-WroteTable.below),
      )

  filled-KeepsBelow : KeepsBelow sections_ofs exported.0 filled
  filled-KeepsBelow =
      uso_write_sections-KeepsBelow writer exported.0 sections_ofs g.out_sections fits.aligned
        (omega (arith, sections_bounds.1, fits.room))

  header-FitsHeader : FitsHeader header
  header-FitsHeader = record {
    num_sections = omega arith;
    eh_frame_section = fits.section_ids (elf_find_section elf eh_frame_name);
    sections_ofs = omega (arith, sections_bounds.1, fits.room);
    import_sym_table_ofs =
        omega (
          arith, first_free_lem, imported-WroteTable.ofs_fits, imported-WroteTable.below, fits.room,
        );
    export_sym_table_ofs =
        omega
          (arith, exported-WroteTable.ofs_fits, sections_bounds.0, sections_bounds.1, fits.room);
    ctors_section = fits.section_ids (elf_find_section elf ctors_name);
    dtors_section = fits.section_ids (elf_find_section elf dtors_name);
  }

  -- A table that stands before the sections stands in the file with its header.
  table-headed :
      (f : File) (ofs lo hi : ℕ) (syms : List SymbolInfo)
      → 20 ≤ lo
      → KeepsBelow hi f filled
      → HasTable f ofs lo hi syms
      → HasTable headed ofs lo hi syms
  table-headed f ofs lo hi syms behind keeps table =
      HasTable-frame f headed ofs lo hi syms
        (omega (arith, keeps.0, size-le-write filled 0 (stored_header header)))
        (λ x l h. write_outside filled 0 (stored_header header) x (inr (omega arith)) ∙ keeps.1 x h)
        table

  imports-headed : HasTable headed imported.1 first_free imported.2 g.import_syms
  imports-headed =
      table-headed imported.0 imported.1 first_free imported.2 g.import_syms
        (omega (arith, first_free_lem))
        (KeepsBelow-trans imported.2 imported.0 exported.0 filled exported-WroteTable.keeps (
          filled-KeepsBelow.0,
          λ x lt.
              filled-KeepsBelow.1 x (omega (arith, exported-WroteTable.above, sections_bounds.0)),
        ))
        imported-WroteTable.table

  exports-headed : HasTable headed exported.1 imported.2 exported.2 g.export_syms
  exports-headed =
      table-headed exported.0 exported.1 imported.2 exported.2 g.export_syms
        (omega (arith, first_free_lem, imported-WroteTable.above))
        (filled-KeepsBelow.0, λ x lt. filled-KeepsBelow.1 x (omega (arith, sections_bounds.0)))
        exported-WroteTable.table

  headed-IsHeaded : IsHeaded name g headed header imported.2 exported.2
  headed-IsHeaded = record {
    header_there = Holds-write filled 0 (stored_header header) (omega arith);
    header_fits = header-FitsHeader;
    imports =
        HasTable-wider headed imported.1 first_free 20 imported.2 g.import_syms
          (omega (arith, first_free_lem)) imports-headed;
    exports = exports-headed;
    mid_above = omega (arith, first_free_lem, imported-WroteTable.above);
    end_above = exported-WroteTable.above;
    sections_above = sections_bounds.0;
    sections_below = sections_bounds.1;
  }

  -- elf2uso writes such a file, and appends the load info.
  pub uso_file-IsHeaded :
      (f : File) × (h : UsoHeader) × (mid : ℕ) × (end : ℕ) × (uso_file writer elf name g
        ≡ uso_write_load_info writer f g.out_sections)
      × IsHeaded name g f h mid end
  unfolding uso_file uso_write_header
  uso_file-IsHeaded =
      (headed, header, imported.2, exported.2, rw (header_bytes_lem writer header), headed-IsHeaded)
