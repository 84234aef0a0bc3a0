-- ===== src/Format/ConsoleSample.antt =====
-- A main program with two symbols, the second of which is exported, in its ELF file and on the console.
use mathlib.Core.Path.{subst}
use dragonuso.Common.{
  zero, suc, ◌+◌, ◌^◌, ◌<◌, ◌≡◌, refl, sym, true, false, none, some, [], ◌∷◌, arith, count_from,
}
use dragonuso.Bytes.Stdio.{File}
use dragonuso.Bsearch.{halving-IsBsearch}
use dragonuso.Swap.{little}
use dragonuso.Text.{strcmp, contains}
use dragonuso.Elfio.{Elfio}
use dragonuso.Elf2uso.Check
use dragonuso.Elf2uso.State.{SymbolInfo}
use dragonuso.Elf2uso.Symbols.Examples.{lib}
use dragonuso.GlobalSyms.{elf_valid, elf_find_section, main}
use dragonuso.GlobalSyms.Collect.{ok, sym_is_exported, sym_collect}
use dragonuso.GlobalSyms.Exported.{exported, first_null, unless_null, sym_collect-exported}
use dragonuso.Runtime.Machine.{Machine, done}
use dragonuso.Runtime.Api.{uso_init}
use dragonuso.Runtime.Examples.{env, two_files}
use dragonuso.Format.Stored.{names_size}
use dragonuso.Format.Reading.{AreSymbols}
use dragonuso.Format.Table.{table_size}
use dragonuso.Format.Ordered.{HasDistinctNames}
use dragonuso.Format.Boot.{file_bytes, Booted}
use dragonuso.Format.Console.{exports_of, IsProgram, uso_init-main}

abbrev program : Elfio
program = record {
  class = 1;
  encoding = 2;
  machine = 8;
  type = 2;
  sections =
      record { name = []; type = 0; flags = 0; size = 0; addr_align = 0; contents = none }
      ∷ record {
        name = Check.symtab_name;
        type = 2;
        flags = 0;
        size = 32;
        addr_align = 4;
        contents = none;
      }
      ∷ [];
  get_symbols_num = λ index. 2;
  get_symbol = λ index i. elim i [
    | zero ↦ record {
      name = [];
      value = 0;
      size = 0;
      bind = 0;
      type = 0;
      section_index = 0;
      other = 0;
    }
    | suc _ ↦ record {
      name = b'g' ∷ b'o' ∷ [];
      value = 0x400;
      size = 4;
      bind = 1;
      type = 2;
      section_index = 1;
      other = 0;
    }
  ];
  get_entries_num = λ index. 0;
  get_entry = λ index j. record { offset = 0; symbol = 0; type = 0; addend = 0 };
}

abbrev go : SymbolInfo
go = record { src_symbol = 1; name = b'g' ∷ b'o' ∷ []; section = 0; weak = false; addr = 0x400 }

program_exports : exports_of program ≡ go ∷ []
unfolding elf_valid elf_find_section Check.elf_find_section exported sym_is_exported contains strcmp
program_exports = refl

go-AreSymbols : AreSymbols (go ∷ [])
go-AreSymbols = (
  record {
    characters = ((omega arith, omega arith), ((omega arith, omega arith), tt));
    nonempty = omega arith;
    short = omega arith;
    addr = omega arith;
    section = omega arith;
  },
  tt,
)

program-valid : (elf_valid program).1 ≡ true
unfolding elf_valid elf_find_section Check.elf_find_section strcmp
program-valid = refl

program-addresses : first_null program (elf_valid program).0 (count_from 0 2) ≡ none
unfolding first_null
program-addresses = refl

program-IsProgram : IsProgram program
program-IsProgram = record {
  valid = program-valid;
  addresses = program-addresses;
  symbols = subst AreSymbols (sym program_exports) go-AreSymbols;
  names = subst HasDistinctNames (sym program_exports) (tt, tt);
}

go-size : 0x1000 + table_size (exports_of program) < 2 ^ 32
unfolding table_size names_size
go-size = rw program_exports (omega arith)

uso_init-main_example :
    (f : File) × (s' : Machine) × (main lib little 3 (some program) true ≡ ok f)
    × (uso_init env two_files (some (file_bytes f)) ≡ done s')
    × Booted env (exports_of program) s'
uso_init-main_example =
    uso_init-main lib little program program-IsProgram env two_files halving-IsBsearch
      ((λ e. absurd (omega (arith, e))), go-size)

sym_collect-exported_example :
    sym_collect lib program 1
    ≡ unless_null
        (first_null program 1 (count_from 0 2))
        (lib.sort (exported program 1 (count_from 0 2)))
sym_collect-exported_example = sym_collect-exported lib program 1
