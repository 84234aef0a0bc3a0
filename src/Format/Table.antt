-- ===== src/Format/Table.antt =====
-- A symbol table in a file: what `uso_write_symbol_table` writes and `uso_read_symbol_table` reads.
use dragonuso.Common.{
  ℕ, ◌+◌, ◌*◌, ◌^◌, ◌≤◌, ◌<◌, ◌≡◌, ◌∙◌, inl, false, List, ◌++◌, map, arith, length, ◌==◌,
}
use dragonuso.Common.Words.{u32}
use dragonuso.Bytes.Files.{write_at, Holds, Holds-frame, Holds-write, size-le-write, write_outside}
use dragonuso.Bytes.Stdio.{File}
use dragonuso.Swap.{Endian, be_u32}
use dragonuso.Elf2uso.State.{SymbolInfo}
use dragonuso.Elf2uso.Output.{uso_write_u32, uso_write_symbol_table}
use dragonuso.Externs.Read.{
  ok, UsoSymbolInfo, table_size_unread, uso_get_sym_table_count, uso_read_symbol_table,
}
use dragonuso.Format.Fields.{read_count, swapped_u32_lem}
use dragonuso.Format.Stored.{Stored, ShortNames, names_size, write_symbols-Table}
use dragonuso.Format.Reading.{as_read, AreSymbols, read_symbol_infos-Stored, file_read-Holds}

-- A table stands in the file at `ofs`.
pub record IsTable (f : File) (ofs : ℕ) (syms : List SymbolInfo) : Type 0 where
  pub count : Holds f ofs (be_u32 (length syms))
  pub stored : Stored f ofs 0 (4 + length syms * 12) syms

-- The bytes of a table with its names.
unfoldable pub table_size : List SymbolInfo → ℕ
table_size syms = 4 + length syms * 12 + names_size syms

uso_get_sym_table_count_lem :
    (e : Endian) (f : File) (ofs n : ℕ)
    → n < 2 ^ 32
    → Holds f ofs (be_u32 n)
    → uso_get_sym_table_count e f ofs ≡ ok n
unfolding uso_get_sym_table_count
uso_get_sym_table_count_lem e f ofs n fits h =
    rw (file_read-Holds f ofs (be_u32 n) table_size_unread (omega arith) h, read_count e n fits)

-- A table that stands in the file is read, on either host.
pub uso_read_symbol_table-IsTable :
    (e : Endian) (f : File) (ofs : ℕ) (list : List UsoSymbolInfo) (syms : List SymbolInfo)
    → 0 < ofs
    → ofs + table_size syms < 2 ^ 32
    → AreSymbols syms
    → IsTable f ofs syms
    → uso_read_symbol_table e f ofs list ≡ ok (list ++ map as_read syms)
unfolding uso_read_symbol_table table_size
uso_read_symbol_table-IsTable e f ofs list syms pos fits are table =
    let here : (ofs == 0) ≡ false = ground arith in
    rw (here, uso_get_sym_table_count_lem e f ofs (length syms) (omega arith) table.count)
      (read_symbol_infos-Stored e f ofs 0 (4 + length syms * 12) list syms are
        (record { entries = omega arith; names = omega arith }) table.stored)

-- Writing a table leaves the other bytes of the file.
pub record Wrote (f g : File) (ofs : ℕ) (syms : List SymbolInfo) : Type 0 where
  pub size : f.size ≤ g.size
  pub same : (x : ℕ) → x < ofs → g.contents x ≡ f.contents x
  pub table : IsTable g ofs syms

pub uso_write_symbol_table-Wrote :
    (e : Endian) (f : File) (ofs : ℕ) (syms : List SymbolInfo)
    → ofs + table_size syms < 2 ^ 32
    → ShortNames syms
    → Wrote f (uso_write_symbol_table e f ofs syms) ofs syms
unfolding uso_write_symbol_table uso_write_u32 table_size
uso_write_symbol_table-Wrote e f ofs syms fits short =
    let start : u32 (4 + length syms * 12) ≡ 4 + length syms * 12 = omega arith in
    let count : u32 (length syms) ≡ length syms = omega arith in
    let counted = write_at f ofs (be_u32 (length syms)) in
    let loop =
      write_symbols-Table e ofs counted 0 (4 + length syms * 12) syms short
        (record { entries = omega arith; names = omega arith }) in
    rw (count, swapped_u32_lem e (length syms), start)
      (record {
        size = omega (arith, loop.size, size-le-write f ofs (be_u32 (length syms)));
        same = λ x below.
            loop.same x (omega arith) (inl (omega arith))
            ∙ write_outside f ofs (be_u32 (length syms)) x (inl (omega arith));
        table = record {
          count =
              Holds-frame counted _ ofs (be_u32 (length syms))
                (Holds-write f ofs (be_u32 (length syms)) (omega arith)) loop.size
                λ x lo hi. loop.same x (omega arith) (inl (omega arith));
          stored = loop.stored;
        };
      })
