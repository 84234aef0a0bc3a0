-- ===== src/Format/Whole.antt =====
-- A whole .uso file: tools/make_uso_externs.cpp reads what tools/elf2uso.cpp wrote.
use dragonuso.Common.{
  ℕ, ◌%◌, ◌≡◌, ap, ◌∙◌, inl, inr, some, List, [], ◌∷◌, ◌++◌, map, arith, ◌==◌, Bool-cases,
}
use dragonuso.Common.Words.{u32}
use dragonuso.Bytes.Stdio.{File, seek_end, write}
use dragonuso.Bytes.Below.{KeepsBelow, KeepsBelow-trans, KeepsBelow-write_here, pos-le-write}
use dragonuso.Swap.{Endian}
use dragonuso.Text.{Str}
use dragonuso.Elfio.{Elfio}
use dragonuso.Elf2uso.State.{Globals, SectionInfo}
use dragonuso.Elf2uso.Layout.{uso_get_align, uso_get_noload_size, uso_get_noload_align}
use dragonuso.Elf2uso.Output.{swapped_u32}
use dragonuso.Elf2uso.Write.{UsoHeader, uso_write_load_info, uso_file}
use dragonuso.Externs.Read.{UsoInfo, ok, uso_read}
use dragonuso.Format.Reading.{as_read}
use dragonuso.Format.Headed.{FitsFile, IsHeaded, uso_file-IsHeaded}
use dragonuso.Format.Header.{stored_header, uso_read_header-Holds}
use dragonuso.Format.Placed.{Holds-extend, HasTable-extend, uso_read_symbol_table-HasTable}

-- The load info that is written where the file stands.
abbrev load_info : Endian → File → List SectionInfo → List ℕ
load_info e f ss =
    swapped_u32 e (u32 f.pos)
    ++ swapped_u32 e (uso_get_align ss)
    ++ swapped_u32 e (uso_get_noload_size ss)
    ++ swapped_u32 e (uso_get_noload_align ss)

pub uso_write_load_info-KeepsBelow :
    (e : Endian) (f : File) (ss : List SectionInfo)
    → KeepsBelow f.size f (uso_write_load_info e f ss)
unfolding uso_write_load_info
uso_write_load_info-KeepsBelow e f ss =
    let end = seek_end f in
    elim (Bool-cases (f.size % 2 == 0)) [
      | inl even ↦ rw even (KeepsBelow-write_here f.size end (load_info e end ss) (omega arith))
      | inr odd ↦
          let padded = write end (0 ∷ []) in
          rw odd (
            KeepsBelow-trans f.size f padded (write padded (load_info e padded ss))
              (KeepsBelow-write_here f.size end (0 ∷ []) (omega arith))
              (KeepsBelow-write_here f.size padded (load_info e padded ss)
                (omega (arith, pos-le-write end (0 ∷ [])))))
    ]

IsHeaded-extend :
    (name : Str) (g : Globals) (f f' : File) (h : UsoHeader) (mid end : ℕ)
    → KeepsBelow f.size f f'
    → IsHeaded name g f h mid end
    → IsHeaded name g f' h mid end
IsHeaded-extend name g f f' h mid end keeps is = record {
  header_there = Holds-extend f f' 0 (stored_header h) keeps is.header_there;
  imports = HasTable-extend f f' h.import_sym_table_ofs 20 mid g.import_syms keeps is.imports;
  exports = HasTable-extend f f' h.export_sym_table_ofs mid end g.export_syms keeps is.exports;
  header_fits = is.header_fits;
  mid_above = is.mid_above;
  end_above = is.end_above;
  sections_above = is.sections_above;
  sections_below = is.sections_below;
}

-- What make_uso_externs reads from a file with a header and symbol tables.
uso_read-IsHeaded :
    (reader : Endian) (uso_list : List UsoInfo) (name : Str) (g : Globals) (f : File)
    (h : UsoHeader) (mid end : ℕ)
    → FitsFile name g
    → IsHeaded name g f h mid end
    → uso_read reader (some f) uso_list
      ≡ ok (
          uso_list
          ++ (record {
            import_syms = map as_read g.import_syms;
            export_syms = map as_read g.export_syms;
          }
              ∷ []))
unfolding uso_read
uso_read-IsHeaded reader uso_list name g f h mid end fits is = rw (
  uso_read_header-Holds reader h is.header_fits f is.header_there,
  uso_read_symbol_table-HasTable reader f h.import_sym_table_ofs 20 mid g.import_syms (omega arith)
      (omega (arith, is.end_above, is.sections_above, is.sections_below, fits.room)) fits.imports
      is.imports,
  uso_read_symbol_table-HasTable reader f h.export_sym_table_ofs mid end g.export_syms
      (omega (arith, is.mid_above)) (omega (arith, is.sections_above, is.sections_below, fits.room))
      fits.exports is.exports,
)

-- `make_uso_externs` reads from the file that elf2uso makes of its collected data exactly the
-- imports and exports of that data, in order, on hosts of any byte orders, if the names are C
-- strings of 1 to 32767 bytes and the other fields fit theirs, the alignments of the sections with
-- data are powers of two, and the whole file ends before 4 GB.
pub uso_read-uso_file :
    (writer : Endian) (elf : Elfio) (name : Str) (g : Globals)
    → FitsFile name g
    → (reader : Endian) (uso_list : List UsoInfo)
    → uso_read reader (some (uso_file writer elf name g)) uso_list
      ≡ ok (
          uso_list
          ++ (record {
            import_syms = map as_read g.import_syms;
            export_syms = map as_read g.export_syms;
          }
              ∷ []))
uso_read-uso_file writer elf name g fits reader uso_list =
    let (f, h, mid, end, e, is) = uso_file-IsHeaded writer elf name g fits in
    let whole = uso_write_load_info writer f g.out_sections in
    ap (λ (u : File). uso_read reader (some u) uso_list) e
    ∙ uso_read-IsHeaded reader uso_list name g whole h mid end fits (
        IsHeaded-extend name g f whole h mid end
          (uso_write_load_info-KeepsBelow writer f g.out_sections) is)
