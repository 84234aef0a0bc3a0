-- ===== src/Format/Boot.antt =====
-- `uso_init` of src/uso.c with the file that tools/make_global_syms.cpp writes.
use dragonuso.Common.{
  ℕ, ◌+◌, ◌^◌, ◌<◌, ◌≡◌, ◌≢◌, refl, ap, ◌∙◌, inl, true, some, List, [], ◌∷◌, map, arith, length,
  count_from,
}
use mathlib.Core.Path.{subst}
use dragonuso.Bytes.{Bytes, put, get, length-get}
use dragonuso.Bytes.Stdio.{File, empty_file}
use dragonuso.Bsearch.{IsBsearch}
use dragonuso.Swap.{Endian}
use dragonuso.Text.{Str}
use dragonuso.Elf2uso.State.{SymbolInfo}
use dragonuso.Elf2uso.Output
use dragonuso.GlobalSyms.{uso_write_symbol_table, uso_write_symbol_table_count, global_sym_write}
use dragonuso.GlobalSyms.Collect.{ok}
use dragonuso.Runtime.Ram.{table_length, table_entry}
use dragonuso.Runtime.Ram.Laws.{load_u32_ext}
use dragonuso.Runtime.Machine.{Machine, Env, done}
use dragonuso.Runtime.Search.{search_symbol_table}
use dragonuso.Runtime.Fixup.{fixup_names, fixup_symbol_table_names}
use dragonuso.Runtime.Handles.Links.{IsLoaded}
use dragonuso.Runtime.Api.{uso_init}
use dragonuso.Format.Reading.{AreSymbols, AreSymbols-ShortNames}
use dragonuso.Format.Table.{IsTable, table_size, uso_write_symbol_table-Wrote}
use dragonuso.Runtime.Fixup.Names.{FixedNames, fixup_names-FixedNames}
use dragonuso.Format.Memory.{put-get}
use dragonuso.Format.Global.{address_of, Ascending}
use dragonuso.Format.Moved.{moved, MovedTable, table_length-IsTable, search-moved}

-- All bytes of a file.
abbrev pub file_bytes : File → List ℕ
file_bytes f = get f.contents 0 f.size

-- The state that `uso_init` leaves: no file is loaded, and a name is found exactly if it is that of a
-- symbol of the main program.
pub record Booted (env : Env) (syms : List SymbolInfo) (s : Machine) : Type 0 where
  pub initted : s.initted ≡ true
  pub none_loaded : IsLoaded s []
  pub found :
      (name : Str) → search_symbol_table env s.ram s.global_symbol_table name ≡ address_of name syms

module _ (env : Env) (s : Machine) (f : File) (syms : List SymbolInfo) (table_in : IsTable f 0 syms)
    (are : AreSymbols syms) (nonnull : env.malloc s f.size ≢ 0)
    (fits : env.malloc s f.size + table_size syms < 2 ^ 32) where
  abbrev table : ℕ
  table = env.malloc s f.size

  abbrev loaded : Bytes
  loaded = put s.ram table (file_bytes f)

  abbrev total : ℕ
  total = length syms

  abbrev fixed : Bytes
  fixed = fixup_names loaded table (count_from 0 total)

  here : table + 0 ≡ table
  here = omega arith

  same_bytes : (j : ℕ) → j < f.size → loaded (table + j) ≡ f.contents j
  same_bytes j lt =
      subst (λ (t : ℕ). put s.ram t (file_bytes f) (table + j) ≡ f.contents j) here
        (put-get s.ram f.contents table 0 f.size j (omega arith) (omega arith))

  loaded_count : table_length loaded table ≡ total
  loaded_count =
      table_length-IsTable f table 0 table here loaded same_bytes syms table_in (omega arith)

  fixed-FixedNames : FixedNames loaded fixed table 0 total
  fixed-FixedNames = fixup_names-FixedNames table total 0 loaded

  fixed_count : table_length fixed table ≡ total
  fixed_count =
      load_u32_ext fixed loaded table
        (λ x lo hi. fixed-FixedNames.rest x λ i l h. inl (omega arith))
      ∙ loaded_count

  -- The addresses stay where they are.
  fixed-MovedTable : MovedTable loaded fixed table total (λ section addr. addr)
  fixed-MovedTable = record {
    names = λ i lt. fixed-FixedNames.names i (omega arith) (omega arith);
    ptrs = λ i lt.
        load_u32_ext fixed loaded (table_entry table i + 4)
          λ x lo hi. fixed-FixedNames.rest x λ j low high. omega arith;
    behind = λ x lo. fixed-FixedNames.rest x λ i l h. omega arith;
  }

  abbrev booted : Machine
  booted = record s {
    ram = fixed;
    global_symbol_table = table;
    list_head = 0;
    list_tail = 0;
    initted = true;
  }

  uso_init_lem : uso_init env s (some (file_bytes f)) ≡ done booted
  unfolding uso_init fixup_symbol_table_names
  uso_init_lem = rw (length-get f.contents 0 f.size, loaded_count)

  found_lem :
      (name : Str)
      → IsBsearch env.bsearch
      → Ascending syms
      → search_symbol_table env fixed table name ≡ address_of name syms
  found_lem name is_bsearch asc =
      search-moved f table 0 table here loaded same_bytes syms fixed (λ section addr. addr) env name
        table_in are asc nonnull fits fixed-MovedTable fixed_count is_bsearch
      ∙ ap (address_of name) (same syms)
    where
      same : (ss : List SymbolInfo) → map (moved λ section addr. addr) ss ≡ ss
      same [] = refl
      same (t ∷ ts) = ap (λ (us : List SymbolInfo). t ∷ us) (same ts)

  booted-Booted : IsBsearch env.bsearch → Ascending syms → Booted env syms booted
  booted-Booted is_bsearch asc = record {
    initted = refl;
    none_loaded = record { chain = (refl, refl); separate = tt };
    found = λ name. found_lem name is_bsearch asc;
  }

-- The file that the tool writes.
abbrev pub symbols_file : Endian → List SymbolInfo → File
symbols_file e syms = uso_write_symbol_table e empty_file 0 syms

symbols_file-IsTable :
    (e : Endian) (syms : List SymbolInfo)
    → AreSymbols syms
    → table_size syms < 2 ^ 32
    → IsTable (symbols_file e syms) 0 syms
unfolding uso_write_symbol_table uso_write_symbol_table_count Output.uso_write_symbol_table
symbols_file-IsTable e syms are fits =
    (uso_write_symbol_table-Wrote e empty_file 0 syms (omega arith)
      (AreSymbols-ShortNames syms are)).table

-- `make_global_syms` writes a table of symbols with ascending names, whose names are C strings and
-- whose fields fit theirs, and uso_init of the library loads the file that is written, with a
-- bsearch that behaves as documented and an allocation other than NULL that the table fits: then no
-- file is loaded, and search_symbol_table on the global table finds for every name the address of
-- the symbol with it, and NULL if there is none.
pub uso_init-global_sym_write :
    (e : Endian) (env : Env) (s : Machine) (syms : List SymbolInfo)
    → AreSymbols syms
    → Ascending syms
    → IsBsearch env.bsearch
    → (let table = env.malloc s (symbols_file e syms).size in
        (table ≢ 0) × (table + table_size syms < 2 ^ 32))
    → (f : File) × (s' : Machine) × (global_sym_write e true syms ≡ ok f)
      × (uso_init env s (some (file_bytes f)) ≡ done s')
      × Booted env syms s'
unfolding global_sym_write
uso_init-global_sym_write e env s syms are asc is_bsearch (nonnull, fits) =
    let f = symbols_file e syms in
    let there = symbols_file-IsTable e syms are (omega arith) in
    (
      f,
      booted env s f syms there are nonnull fits,
      refl,
      uso_init_lem env s f syms there are nonnull fits,
      booted-Booted env s f syms there are nonnull fits is_bsearch asc,
    )
