-- ===== src/Format/Examples.antt =====
-- A table of two symbols that goes through a file.
use dragonuso.Common.{◌+◌, ◌<◌, ◌^◌, ◌≡◌, true, false, List, [], ◌∷◌, map, arith}
use dragonuso.Bytes.Stdio.{empty_file}
use dragonuso.Swap.{little, big}
use dragonuso.Elf2uso.State.{SymbolInfo}
use dragonuso.Elf2uso.Output.{uso_write_symbol_table}
use dragonuso.Externs.Read.{ok, uso_read_symbol_table}
use dragonuso.Format.Stored.{names_size}
use dragonuso.Format.Reading.{as_read, AreSymbols}
use dragonuso.Format.Table.{table_size}
use dragonuso.Format.RoundTrip.{uso_read_symbol_table-uso_write_symbol_table}

abbrev pub two_symbols : List SymbolInfo
two_symbols =
    record { src_symbol = 3; name = b'g' ∷ b'o' ∷ []; section = 1; weak = false; addr = 0x40 }
    ∷ record { src_symbol = 5; name = b'u' ∷ b's' ∷ b'o' ∷ []; section = 0; weak = true; addr = 0 }
    ∷ []

pub two_symbols-AreSymbols : AreSymbols two_symbols
two_symbols-AreSymbols = (
  record {
    characters = ((omega arith, omega arith), ((omega arith, omega arith), tt));
    nonempty = omega arith;
    short = omega arith;
    addr = omega arith;
    section = omega arith;
  },
  (
    record {
      characters = (
        (omega arith, omega arith),
        ((omega arith, omega arith), ((omega arith, omega arith), tt)),
      );
      nonempty = omega arith;
      short = omega arith;
      addr = omega arith;
      section = omega arith;
    },
    tt,
  ),
)

two_symbols-size : 20 + table_size two_symbols < 2 ^ 32
unfolding table_size names_size
two_symbols-size = omega arith

uso_read_symbol_table-uso_write_symbol_table_example :
    uso_read_symbol_table big (uso_write_symbol_table little empty_file 20 two_symbols) 20 []
    ≡ ok (map as_read two_symbols)
uso_read_symbol_table-uso_write_symbol_table_example =
    uso_read_symbol_table-uso_write_symbol_table little big empty_file 20 two_symbols (omega arith)
      two_symbols-size two_symbols-AreSymbols
