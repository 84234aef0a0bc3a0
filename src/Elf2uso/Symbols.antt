-- ===== src/Elf2uso/Symbols.antt =====
-- The symbol tables of tools/elf2uso.cpp.
pub mod Collected
pub mod Accepted
pub mod Examples
use dragonuso.Common.{
  ℕ, suc, ◌+◌, ◌*◌, Bool, false, ◌&&◌, ◌||◌, not, List, [], ◌∷◌, ◌++◌, ◌==◌, leb, if◌then◌else◌,
  count_from, length,
}
use dragonuso.Common.Words.{u32}
use dragonuso.StdLib.{Algorithms}
use dragonuso.StdMap.{Map, assign, has, at}
use dragonuso.Text.{Str, str_ltb, contains}
use dragonuso.Elfio.{Elfio, ElfSymbol, shn_undef, stb_local, stb_weak, stv_default}
use dragonuso.Elf2uso.State.{
  Globals, SymbolInfo, Result, ok, exit, name_too_long, disallowed_import, null_absolute, ◌>>=◌,
}
use dragonuso.Elf2uso.Check.{elf_has_global_constructors}

-- "__dso_handle", "_init", "_fini", "_prolog" and "_epilog"
abbrev pub dso_handle_name : Str
dso_handle_name =
    b'_' ∷ b'_' ∷ b'd' ∷ b's' ∷ b'o' ∷ b'_' ∷ b'h' ∷ b'a' ∷ b'n' ∷ b'd' ∷ b'l' ∷ b'e' ∷ []

abbrev pub init_name : Str
init_name = b'_' ∷ b'i' ∷ b'n' ∷ b'i' ∷ b't' ∷ []

abbrev pub fini_name : Str
fini_name = b'_' ∷ b'f' ∷ b'i' ∷ b'n' ∷ b'i' ∷ []

abbrev pub prolog_name : Str
prolog_name = b'_' ∷ b'p' ∷ b'r' ∷ b'o' ∷ b'l' ∷ b'o' ∷ b'g' ∷ []

abbrev pub epilog_name : Str
epilog_name = b'_' ∷ b'e' ∷ b'p' ∷ b'i' ∷ b'l' ∷ b'o' ∷ b'g' ∷ []

abbrev pub prohibited_import_symbols : List Str
prohibited_import_symbols = dso_handle_name ∷ init_name ∷ fini_name ∷ prolog_name ∷ epilog_name ∷ []

abbrev pub hideable_symbols : List Str
hideable_symbols = dso_handle_name ∷ prolog_name ∷ epilog_name ∷ []

unfoldable pub sym_compare : SymbolInfo → SymbolInfo → Bool
sym_compare first second = str_ltb first.name second.name

unfoldable pub sym_is_prohibited_import : Str → Bool
sym_is_prohibited_import name = contains prohibited_import_symbols name

unfoldable pub sym_is_hideable : Str → Bool
sym_is_hideable name = contains hideable_symbols name

-- An undefined symbol: refused, or added to the imports. The weak flag is set from the type.
collect_import : Globals → ℕ → ElfSymbol → Result Globals
collect_import g i sym =
    if sym_is_prohibited_import sym.name
    then exit (disallowed_import sym.name)
    else ok (record g {
      import_syms =
          g.import_syms
          ++ (record {
            src_symbol = u32 i;
            name = sym.name;
            section = 0;
            weak = sym.type == stb_weak;
            addr = sym.value;
          }
              ∷ []);
    })

-- A defined symbol goes to the exports if it is visible or hideable.
collect_export : Globals → ℕ → ElfSymbol → Result Globals
collect_export g i sym =
    if sym_is_hideable sym.name || sym.other == stv_default
    then if not (has g.out_section_map sym.section_index) && sym.value == 0
      then exit null_absolute
      else ok (record g {
        export_syms =
            g.export_syms
            ++ (record {
              src_symbol = u32 i;
              name = sym.name;
              section = at g.out_section_map sym.section_index;
              weak = false;
              addr = sym.value;
            }
                ∷ []);
      })
    else ok g

-- One round of the loop of `sym_collect`, on the symbol with index `i`.
unfoldable pub collect_symbol : Globals → ℕ → ElfSymbol → Result Globals
unfolding collect_import collect_export
collect_symbol g i sym =
    if sym.bind == stb_local
    then ok g
    else if leb 32767 (length sym.name)
    then exit (name_too_long i)
    else if sym.section_index == shn_undef
    then collect_import g i sym
    else collect_export g i sym

unfoldable pub collect_symbols : Elfio → Globals → List ℕ → Result Globals
collect_symbols elf g [] = ok g
collect_symbols elf g (i ∷ is) = do
  g' ← collect_symbol g i (elf.get_symbol g.elf_symbol_sec_index i)
  collect_symbols elf g' is

-- The loop that fills `import_sym_map`, from index `i` on.
unfoldable pub map_imports : Map → ℕ → List SymbolInfo → Map
map_imports m i [] = m
map_imports m i (s ∷ ss) = map_imports (assign m s.src_symbol i) (suc i) ss

-- The condition of the warning that nothing is exported.
unfoldable pub warns_no_exports : Elfio → Globals → Bool
warns_no_exports elf g = length g.export_syms == 0 && not (elf_has_global_constructors elf)

module _ (lib : Algorithms SymbolInfo sym_compare) where
  unfoldable pub sym_sort : Globals → Globals
  sym_sort g = record g {
    import_syms = lib.sort g.import_syms;
    export_syms = lib.sort g.export_syms;
  }

  unfoldable pub sym_collect : Elfio → Globals → Result Globals
  sym_collect elf g = do
    g₁ ← collect_symbols elf g (count_from 0 (elf.get_symbols_num g.elf_symbol_sec_index))
    let g₂ = sym_sort g₁
    ok (record g₂ { import_sym_map = map_imports g₂.import_sym_map 0 g₂.import_syms })

-- The size of a symbol table with its names, as a `uint32_t`.
unfoldable pub sum_name_sizes : ℕ → List SymbolInfo → ℕ
sum_name_sizes size [] = size
sum_name_sizes size (s ∷ ss) = sum_name_sizes (u32 (size + length s.name + 1)) ss

unfoldable pub sym_get_data_size : List SymbolInfo → ℕ
sym_get_data_size syms = sum_name_sizes (u32 (4 + 12 * length syms)) syms
