-- ===== src/Runtime/Fixup/Resolved.antt =====
-- `fixup_import_syms` of src/uso.c with the search through the loaded files and the main program.
use dragonuso.Common.{
  ℕ, ◌+◌, ◌*◌, ◌<◌, ◌≡◌, refl, ap, ◌∙◌, Bool, true, not, ◌&&◌, List, ◌++◌, arith, ◌==◌, count_from,
  All,
}
use dragonuso.Common.Words.{u32}
use dragonuso.StdLib.{any}
use dragonuso.Bytes.{Bytes, Apart}
use dragonuso.Bsearch.{IsBsearch}
use dragonuso.Text.{Str}
use dragonuso.Runtime.Ram.{
  string_at, table_length, table_entry, symbol_name, symbol_ptr, name_len, uso_is_symbol_weak,
}
use dragonuso.Runtime.Ram.Laws.{IsRam, load_u32_ext, load_u16_ext}
use dragonuso.Runtime.Machine.{Machine, Env, Event, done}
use dragonuso.Runtime.Search.{search_loaded_symbols}
use dragonuso.Runtime.Search.Lookup.{IsSortedTable, lookup_symbol}
use dragonuso.Runtime.Search.Frame.{
  StringApart, TableApart, string_at_same, lookup_symbol_same, IsSortedTable-ext, lookup_symbol-lt,
}
use dragonuso.Runtime.Handles.Chain.{Segment-ext}
use dragonuso.Runtime.Handles.Links.{IsLoaded}
use dragonuso.Runtime.Handles.Resolve.{exports_of, resolve, search_loaded_symbols-resolve}
use dragonuso.Runtime.Handles.Frame.{
  FileApart, SameLinks-files, IsSortedTables_ext, resolve_same, resolve-lt,
}
use dragonuso.Runtime.Fixup.{fixup_names, fixup_symbol_table_names, fixup_import_syms}
use dragonuso.Runtime.Fixup.Names.{FixedNames, fixup_names-FixedNames}
use dragonuso.Runtime.Fixup.Imports.{
  reports, with_ptrs, Filled, Finds, resolve_imports-with_ptrs, with_ptrs-outside, with_ptrs-ptr,
}

module _ (s : Machine) (hs : List ℕ) (table : ℕ) where
  -- The name of import `i`, whose field is an offset from the table.
  abbrev pub import_name : ℕ → Str
  import_name i = string_at s.ram (u32 (table + symbol_name s.ram (table_entry table i)))

  -- What the loaded files and the main program say of it.
  abbrev pub answer : ℕ → ℕ
  answer i =
      let name = import_name i in
      resolve s.ram name (lookup_symbol s.ram s.global_symbol_table name) hs

  abbrev pub unresolved : ℕ → Bool
  unresolved i = not (uso_is_symbol_weak s.ram (table_entry table i)) && answer i == 0

  -- Every import has its name and the address that is found for it, the symbols that are not
  -- found are reported, and nothing else has changed.
  pub record ResolvedImports (s' : Machine) : Type 0 where
    pub names :
        (i : ℕ)
        → i < table_length s.ram table
        → symbol_name s'.ram (table_entry table i)
          ≡ u32 (table + symbol_name s.ram (table_entry table i))
    pub ptrs :
        (i : ℕ) → i < table_length s.ram table → symbol_ptr s'.ram (table_entry table i) ≡ answer i
    pub outside :
        (x : ℕ) → Apart x 1 (table + 4) (table_length s.ram table * 12) → s'.ram x ≡ s.ram x
    pub others : s' ≡ record s {
      ram = s'.ram;
      events = s.events ++ reports import_name unresolved (count_from 0 (table_length s.ram table));
    }

uso_is_symbol_weak_ext :
    (m m' : Bytes) (e : ℕ)
    → name_len m e ≡ name_len m' e
    → uso_is_symbol_weak m e ≡ uso_is_symbol_weak m' e
unfolding uso_is_symbol_weak
uso_is_symbol_weak_ext m m' e same = rw same

module _ (env : Env) (s : Machine) (hs : List ℕ) (table : ℕ) (is_bsearch : IsBsearch env.bsearch)
    (is : IsLoaded s hs) (sorted : All (λ h. IsSortedTable s.ram (exports_of s.ram h)) hs)
    (global_sorted : IsSortedTable s.ram s.global_symbol_table)
    (files : All (FileApart s.ram (table + 4) (table_length s.ram table * 12)) hs)
    (global : TableApart s.ram (table + 4) (table_length s.ram table * 12) s.global_symbol_table)
    (strings : (i : ℕ)
      → i < table_length s.ram table
      → StringApart s.ram
          (u32 (table + symbol_name s.ram (table_entry table i)))
          (table + 4)
          (table_length s.ram table * 12)) where
  abbrev total : ℕ
  total = table_length s.ram table

  abbrev named : Bytes
  named = fixup_names s.ram table (count_from 0 total)

  fixed : FixedNames s.ram named table 0 total
  fixed = fixup_names-FixedNames table total 0 s.ram

  -- A search on a memory that differs in the entries of the imports only.
  search_same :
      (m : Bytes) (events : List Event) (name : Str)
      → ((x : ℕ) → Apart x 1 (table + 4) (total * 12) → m x ≡ s.ram x)
      → search_loaded_symbols env (record s { ram = m; events = events }) name true
        ≡ done (resolve s.ram name (lookup_symbol s.ram s.global_symbol_table name) hs)
  search_same m events name same =
      let lo = table + 4 in
      let n = total * 12 in
      let loaded : IsLoaded (record s { ram = m; events = events }) hs = record {
        chain =
            Segment-ext s.ram m 0 s.list_head s.list_tail 0 hs
              (SameLinks-files s.ram m lo n same hs files) is.chain;
        separate = is.separate;
      } in
      search_loaded_symbols-resolve env (record s { ram = m; events = events }) name is_bsearch hs
        true loaded (IsSortedTables_ext s.ram m lo n same hs files sorted)
        (IsSortedTable-ext s.ram m lo n same s.global_symbol_table global global_sorted)
      ∙ rw (
        lookup_symbol_same s.ram m lo n same s.global_symbol_table global name,
        resolve_same s.ram m lo n same name (lookup_symbol s.ram s.global_symbol_table name) hs
            files,
      )

  module _ (m : Bytes) (filled : Filled table total named m) where
    Filled_same : (x : ℕ) → Apart x 1 (table + 4) (total * 12) → m x ≡ s.ram x
    Filled_same x out = filled x (λ i lt. omega arith) ∙ fixed.rest x (λ i lo hi. omega arith)

    Filled-name :
        (i : ℕ)
        → i < total
        → symbol_name m (table_entry table i)
          ≡ u32 (table + symbol_name s.ram (table_entry table i))
    Filled-name i lt =
        load_u32_ext m named (table_entry table i) (λ x lo hi. filled x λ j l. omega arith)
        ∙ fixed.names i (omega arith) (omega arith)

    Filled-flag :
        (i : ℕ)
        → uso_is_symbol_weak m (table_entry table i)
          ≡ uso_is_symbol_weak s.ram (table_entry table i)
    Filled-flag i = uso_is_symbol_weak_ext m s.ram (table_entry table i) (
        load_u16_ext m named (table_entry table i + 10) (λ x lo hi. filled x λ j l. omega arith)
        ∙ load_u16_ext named s.ram (table_entry table i + 10)
            (λ x lo hi. fixed.rest x λ j l h. omega arith))

    Filled-Finds :
        (events : List Event) (i : ℕ)
        → i < total
        → Finds env s table total named
            (import_name s hs table)
            (λ j. uso_is_symbol_weak s.ram (table_entry table j))
            (answer s hs table)
            m
            events
            i
    Filled-Finds events i lt = record {
      name =
          ap (string_at m) (Filled-name i lt)
          ∙ string_at_same s.ram m (table + 4) (total * 12) Filled_same
              (u32 (table + symbol_name s.ram (table_entry table i))) (strings i lt);
      flag = Filled-flag i;
      search = search_same m events (import_name s hs table i) Filled_same;
    }

  abbrev final : Bytes
  final = with_ptrs table (answer s hs table) named (count_from 0 total)

  final-Filled : Filled table total named final
  final-Filled x out =
      with_ptrs-outside table (answer s hs table) 0 total named x λ i lo hi. out i (omega arith)

  -- `fixup_import_syms`, on a list of loaded files whose export tables are sorted by name, each
  -- name once, as is the table of the main program, none of which meets the entries of the import
  -- table, nor do the names of the imports, returns, and answers that every import that is not weak
  -- was found: each import gets its name and the address of the first loaded file that exports it
  -- with an address other than NULL, else that of the main program, else NULL; exactly the imports
  -- that are missing are reported, in order, and nothing else changes; with a bsearch that behaves
  -- as documented and a memory of bytes.
  pub fixup_import_syms-ResolvedImports :
      IsRam s.ram
      → (s' : Machine) × (fixup_import_syms env s table
          ≡ done (s', not (any (unresolved s hs table) (count_from 0 total))))
        × ResolvedImports s hs table s'
  unfolding fixup_import_syms fixup_symbol_table_names
  fixup_import_syms-ResolvedImports ram =
      let same_total : table_length named table ≡ total =
        load_u32_ext named s.ram table (λ x lo hi. fixed.rest x λ i l h. omega arith) in
      (
        record s {
          ram = final;
          events =
              s.events
              ++ reports (import_name s hs table) (unresolved s hs table) (count_from 0 total);
        },
        rw same_total (
            resolve_imports-with_ptrs env s table total named (import_name s hs table)
              (λ j. uso_is_symbol_weak s.ram (table_entry table j)) (answer s hs table)
              (λ m events filled i lt. Filled-Finds m filled events i lt) 0 total named s.events
              true (omega arith) (λ x out. refl)),
        record {
          names = Filled-name final final-Filled;
          ptrs = λ i lt.
              with_ptrs-ptr table (answer s hs table) 0 total named i (omega arith) (omega arith) (
                resolve-lt s.ram (import_name s hs table i)
                  (lookup_symbol s.ram s.global_symbol_table (import_name s hs table i)) hs ram
                  (lookup_symbol-lt s.ram s.global_symbol_table (import_name s hs table i) ram));
          outside = Filled_same final final-Filled;
          others = refl;
        },
      )
