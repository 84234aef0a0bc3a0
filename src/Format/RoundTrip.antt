-- ===== src/Format/RoundTrip.antt =====
-- tools/make_uso_externs.cpp reads back the symbols that tools/elf2uso.cpp wrote.
use dragonuso.Common.{ℕ, ◌+◌, ◌^◌, ◌<◌, ◌≡◌, List, [], map}
use dragonuso.Bytes.Stdio.{File}
use dragonuso.Swap.{Endian}
use dragonuso.Elf2uso.State.{SymbolInfo}
use dragonuso.Elf2uso.Output.{uso_write_symbol_table}
use dragonuso.Externs.Read.{ok, uso_read_symbol_table}
use dragonuso.Format.Reading.{as_read, AreSymbols, AreSymbols-ShortNames}
use dragonuso.Format.Table.{table_size, uso_read_symbol_table-IsTable, uso_write_symbol_table-Wrote}

-- A symbol table that elf2uso writes at an offset above 0 of a file is read back by
-- make_uso_externs as the same symbols in the same order, on hosts of any byte orders, if the names
-- are C strings of 1 to 32767 bytes, the other fields fit theirs, and the table ends before 4 GB.
pub uso_read_symbol_table-uso_write_symbol_table :
    (writer reader : Endian) (f : File) (ofs : ℕ) (syms : List SymbolInfo)
    → 0 < ofs
    → ofs + table_size syms < 2 ^ 32
    → AreSymbols syms
    → uso_read_symbol_table reader (uso_write_symbol_table writer f ofs syms) ofs []
      ≡ ok (map as_read syms)
uso_read_symbol_table-uso_write_symbol_table writer reader f ofs syms pos fits are =
    let wrote =
      uso_write_symbol_table-Wrote writer f ofs syms fits (AreSymbols-ShortNames syms are) in
    uso_read_symbol_table-IsTable reader (uso_write_symbol_table writer f ofs syms) ofs [] syms pos
      fits are wrote.table
