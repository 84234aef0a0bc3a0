-- ===== src/Format/Console.antt =====
-- From the ELF file of the main program, through tools/make_global_syms.cpp, to `uso_init` and the
-- symbol search of src/uso.c.
use dragonuso.Common.{◌+◌, ◌^◌, ◌<◌, ◌≡◌, ◌≢◌, ◌∙◌, true, none, some, List, count_from, arith}
use dragonuso.Bytes.Stdio.{File}
use dragonuso.Bsearch.{IsBsearch}
use dragonuso.StdLib.{Algorithms}
use dragonuso.Swap.{Endian}
use dragonuso.Elfio.{Elfio}
use dragonuso.Elf2uso.State.{SymbolInfo}
use dragonuso.Elf2uso.Symbols.{sym_compare}
use dragonuso.GlobalSyms.{elf_valid, main, convert}
use dragonuso.GlobalSyms.Collect.{ok}
use dragonuso.GlobalSyms.Exported.{exported, first_null, sym_collect-exported}
use dragonuso.Runtime.Machine.{Machine, Env, done}
use dragonuso.Runtime.Api.{uso_init}
use dragonuso.Format.Reading.{AreSymbols}
use dragonuso.Format.Table.{table_size}
use dragonuso.Format.Ordered.{
  HasDistinctNames, HasDistinctNames-Permᴰ, IsSorted-Ascending, AreSymbols-Permᴰ, table_size-Permᴰ,
  address_of-Permᴰ,
}
use dragonuso.Format.Boot.{file_bytes, symbols_file, Booted, uso_init-global_sym_write}

-- The symbols that the main program exports.
abbrev pub exports_of : Elfio → List SymbolInfo
exports_of elf =
    let index = (elf_valid elf).0 in exported elf index (count_from 0 (elf.get_symbols_num index))

-- An executable for the console, whose exported symbols have addresses and names of their own.
pub record IsProgram (elf : Elfio) : Type 0 where
  pub valid : (elf_valid elf).1 ≡ true
  pub addresses :
      first_null elf (elf_valid elf).0 (count_from 0 (elf.get_symbols_num (elf_valid elf).0)) ≡ none
  pub symbols : AreSymbols (exports_of elf)
  pub names : HasDistinctNames (exports_of elf)

module _ (lib : Algorithms SymbolInfo sym_compare) (e : Endian) (elf : Elfio)
    (program : IsProgram elf) where
  abbrev sorted : List SymbolInfo
  sorted = lib.sort (exports_of elf)

  convert_lem : convert lib elf ≡ ok sorted
  unfolding convert
  convert_lem =
      rw (program.valid, sym_collect-exported lib elf (elf_valid elf).0, program.addresses)

  -- For an executable ELF file for the console whose exported symbols have addresses other than 0,
  -- names of their own that are C strings, and fields that fit theirs, main of make_global_syms
  -- with two arguments writes a file that uso_init of the library loads, with a bsearch and a sort
  -- that behave as documented and an allocation other than NULL that the table fits: then no file
  -- is loaded, and search_symbol_table on the global table finds for every name the address of the
  -- exported symbol with it, and NULL if there is none.
  pub uso_init-main :
      (env : Env) (s : Machine)
      → IsBsearch env.bsearch
      → (let table = env.malloc s (symbols_file e (lib.sort (exports_of elf))).size in
          (table ≢ 0) × (table + table_size (exports_of elf) < 2 ^ 32))
      → (f : File) × (s' : Machine) × (main lib e 3 (some elf) true ≡ ok f)
        × (uso_init env s (some (file_bytes f)) ≡ done s')
        × Booted env (exports_of elf) s'
  unfolding main
  uso_init-main env s is_bsearch (nonnull, fits) =
      let perm = lib.sort-perm (exports_of elf) in
      let distinct = HasDistinctNames-Permᴰ sorted (exports_of elf) perm program.names in
      let (f, s', written, started, booted) =
        uso_init-global_sym_write e env s sorted
          (AreSymbols-Permᴰ sorted (exports_of elf) perm program.symbols)
          (IsSorted-Ascending sorted (lib.sort-IsSorted (exports_of elf)) distinct) is_bsearch
          (nonnull, omega (arith, table_size-Permᴰ sorted (exports_of elf) perm)) in
      (
        f,
        s',
        rw (convert_lem, written),
        started,
        record {
          initted = booted.initted;
          none_loaded = booted.none_loaded;
          found = λ name.
              booted.found name ∙ address_of-Permᴰ name sorted (exports_of elf) perm program.names;
        },
      )
