-- ===== src/GlobalSyms/Collect.antt =====
-- `sym_collect` of tools/make_global_syms.cpp.
use dragonuso.Common.Outcome.{Outcome}
pub use dragonuso.Common.Outcome.{ok, exit, ◌>>=◌}
use dragonuso.Common.{
  ℕ, Bool, false, ◌&&◌, not, List, [], ◌∷◌, ◌++◌, ◌==◌, if◌then◌else◌, count_from,
}
use dragonuso.Common.Words.{u32}
use dragonuso.StdLib.{Algorithms}
use dragonuso.Text.{Str, contains}
use dragonuso.Elfio.{Elfio, ElfSymbol, shn_undef, stb_local}
use dragonuso.Elf2uso.State.{SymbolInfo}
use dragonuso.Elf2uso.Symbols.{sym_compare}
use dragonuso.GlobalSyms.Names.{unexported_symbols}

-- The reasons for which the tool ends with exit status 1.
pub data Failure : Type 0 where
  null_address : Str → Failure
  usage : Failure
  load_failed : Failure
  invalid_elf : Failure
  open_failed : Failure

abbrev pub Result : Type 0 → Type 0
Result = Outcome Failure

unfoldable pub sym_is_exported : Str → Bool
sym_is_exported name = not (contains unexported_symbols name)

-- One round of the loop, on the symbol with index `i`. A name of 32767 characters or more is only
-- reported.
unfoldable pub collect_symbol : List SymbolInfo → ℕ → ElfSymbol → Result (List SymbolInfo)
collect_symbol syms i sym =
    if sym.bind == stb_local
    then ok syms
    else if not (sym.section_index == shn_undef) && sym.value == 0
    then exit (null_address sym.name)
    else if sym.value == 0
    then ok syms
    else if sym_is_exported sym.name
    then ok (
        syms
        ++ (record {
          src_symbol = u32 i;
          name = sym.name;
          section = 0;
          weak = false;
          addr = sym.value;
        }
            ∷ []))
    else ok syms

unfoldable pub collect_symbols : Elfio → ℕ → List SymbolInfo → List ℕ → Result (List SymbolInfo)
collect_symbols elf index syms [] = ok syms
collect_symbols elf index syms (i ∷ is) = do
  syms' ← collect_symbol syms i (elf.get_symbol index i)
  collect_symbols elf index syms' is

-- The symbols, sorted; `index` is that of the symbol table's section.
module _ (lib : Algorithms SymbolInfo sym_compare) where
  unfoldable pub sym_collect : Elfio → ℕ → Result (List SymbolInfo)
  sym_collect elf index = do
    syms ← collect_symbols elf index [] (count_from 0 (elf.get_symbols_num index))
    ok (lib.sort syms)
