-- ===== src/Elf2uso/Symbols/Examples.antt =====
-- The symbols of an ELF file with one function.
use dragonuso.Common.{zero, suc, ◌≡◌, refl, [], ◌∷◌, count_from}
use dragonuso.StdLib.{StrictWeak, Algorithms}
use dragonuso.StdLib.Linear.{linear}
use dragonuso.StdMap.{assign, no_entries}
use dragonuso.Text.{strcmp, contains}
use dragonuso.Text.Order.{not-ltb_of_ltb, not-ltb_trans}
use dragonuso.Elfio.{Elfio}
use dragonuso.Elf2uso.State.{Globals, SymbolInfo, initial, ok}
use dragonuso.Elf2uso.Symbols.{sym_compare, sym_collect, sym_is_prohibited_import, sym_is_hideable}
use dragonuso.Elf2uso.Symbols.Collected.{Collected}
use dragonuso.Elf2uso.Symbols.Accepted.{is_accepted, AreAccepted, sym_collect-ok}

pub sym_compare-StrictWeak : StrictWeak sym_compare
unfolding sym_compare
sym_compare-StrictWeak = record {
  asym = λ s t. not-ltb_of_ltb s.name t.name;
  not_less_trans = λ s t u. not-ltb_trans s.name t.name u.name;
}

abbrev pub lib : Algorithms SymbolInfo sym_compare
lib = linear sym_compare sym_compare-StrictWeak

-- The symbol "go" is defined in section 1, and "uso" is imported.
abbrev pub elf : Elfio
elf = record {
  class = 1;
  encoding = 2;
  machine = 8;
  type = 1;
  sections = [];
  get_symbols_num = λ index. 2;
  get_symbol = λ index i. elim i [
    | zero ↦ record {
      name = b'g' ∷ b'o' ∷ [];
      value = 0x40;
      size = 4;
      bind = 1;
      type = 2;
      section_index = 1;
      other = 0;
    }
    | suc _ ↦ record {
      name = b'u' ∷ b's' ∷ b'o' ∷ [];
      value = 0;
      size = 0;
      bind = 1;
      type = 0;
      section_index = 0;
      other = 0;
    }
  ];
  get_entries_num = λ index. 0;
  get_entry = λ index j. record { offset = 0; symbol = 0; type = 0; addend = 0 };
}

abbrev start : Globals
start = record initial {
  out_section_map = assign (assign no_entries 0 0) 1 1;
  elf_symbol_sec_index = 2;
}

start-AreAccepted : AreAccepted elf start (count_from 0 2)
unfolding is_accepted sym_is_prohibited_import sym_is_hideable contains strcmp
start-AreAccepted = (refl, (refl, tt))

sym_collect-ok_example : (g' : Globals) × (sym_collect lib elf start ≡ ok g') × Collected g'
sym_collect-ok_example =
    sym_collect-ok lib elf start (record { imports = tt; exports = tt }) start-AreAccepted
