-- ===== src/Runtime/Api/FixedExample.antt =====
-- The file with one relocation and two imports is fixed up.
use dragonuso.Common.{
  ◌++◌, ℕ, zero, suc, ◌+◌, ◌*◌, ◌≤◌, ◌<◌, ◌≡◌, ◌≢◌, sym, ◌⊎◌, inl, inr, Bool, true, false, [], ◌∷◌,
  arith, not, count_from,
}
use mathlib.Core.Path.{subst}
use dragonuso.StdLib.{any}
use dragonuso.Bytes.{Bytes, Apart}
use dragonuso.Bsearch.{halving-IsBsearch}
use dragonuso.Runtime.Ram.{table_length, handle_uso, import_syms}
use dragonuso.Runtime.Ram.Laws.{IsRam}
use dragonuso.Runtime.Machine.{Machine, done}
use dragonuso.Runtime.Search.Lookup.{IsSortedTable}
use dragonuso.Runtime.Search.Frame.{TableApart}
use dragonuso.Runtime.Handles.Frame.{FileApart}
use dragonuso.Runtime.Handles.Resolve.{exports_of}
use dragonuso.Runtime.Reloc.Memory.{target_at, type_at, IsKnownType}
use dragonuso.Runtime.Reloc.Link.{data_at, relocs_at, KeepsTable, KeepsLinks}
use dragonuso.Runtime.Fixup.Resolved.{unresolved}
use dragonuso.Runtime.Api.{fixup_uso}
use dragonuso.Runtime.Api.Fixed.{before_imports, CanImport, FixedUso, fixup_uso-FixedUso}
use dragonuso.Runtime.Examples.{
  env, symbols_ram, symbols_ram-IsRam, put-IsRam, store-IsRam, words, words-fit,
}
use dragonuso.Runtime.Api.FileSample.{
  file_words, file_name, no_data, no_data-fit, handle_ram, file_machine, files, started_ram,
  started_lem, has_imports, imports_at, lengths, no_files, section_words, file_IsLoaded,
  global_names, import_names, global-IsSortedTable,
}

empty-TableApart : (table n : ℕ) → table ≡ 0 → TableApart started_ram 0x64C n table
empty-TableApart table n e = rw e (record {
  entries = inl (omega (arith, lengths.0));
  names = λ i lt. absurd (omega (arith, lengths.0));
})

empty-IsSortedTable : (table : ℕ) → table ≡ 0 → IsSortedTable started_ram table
empty-IsSortedTable table e = rw e λ i j lt len. absurd (omega (arith, lengths.0))

file-FileApart :
    (h : ℕ)
    → h + 12 ≤ 0x600
    → handle_uso started_ram h ≡ 0
    → exports_of started_ram h ≡ 0
    → FileApart started_ram 0x64C 24 h
file-FileApart h before no_uso no_exports = record {
  links = inl (omega arith);
  header = inl (omega (arith, no_uso));
  exports = empty-TableApart _ 24 no_exports;
}

handle_ram-IsRam : IsRam handle_ram
handle_ram-IsRam = store-IsRam _ 0x708 0x600 (
    put-IsRam symbols_ram 0x728 (file_name ++ 0 ∷ []) symbols_ram-IsRam
      (omega arith, (omega arith, tt)))

started-IsRam : IsRam started_ram
started-IsRam = store-IsRam _ 0x608 0x648 (
    store-IsRam _ 0x620 0 (
      store-IsRam _ 0x640 0x690 (
        store-IsRam _ 0x634 0x680 (
          store-IsRam _ 0x604 0x620 (
            put-IsRam _ 0x600 (words file_words)
              (put-IsRam handle_ram 0x600 no_data handle_ram-IsRam no_data-fit)
              (words-fit file_words))))))

pub file-CanImport : CanImport (record file_machine { ram = started_ram }) files 0x648
file-CanImport = record {
  ram = started-IsRam;
  loaded = file_IsLoaded;
  sorted = (empty-IsSortedTable _ no_files.2, (empty-IsSortedTable _ no_files.3, tt));
  global_sorted = global-IsSortedTable;
  files = rw lengths.3 (
    file-FileApart 0x100 (omega arith) no_files.0 no_files.2,
    (file-FileApart 0x200 (omega arith) no_files.1 no_files.3, tt),
  );
  global = rw lengths.3 (record {
    entries = inl (omega (arith, lengths.1));
    names = λ i lt. global_names i (omega (arith, lengths.1));
  });
  names = rw lengths.3 import_names;
}

-- All but the data and the entries of the imports.
abbrev pub Kept : ℕ → Type 0
Kept x = (x < 0x64C) ⊎ (0x690 ≤ x)

file-KeepsTable : KeepsTable Kept started_ram 0x680 0x690
file-KeepsTable = record {
  inside = λ x lo hi. inr lo;
  known = λ i lt. known_first i (omega (arith, lengths.4));
  apart = λ i lt x at. apart_first i (omega (arith, lengths.4)) x at;
}
  where
    known_first : (i : ℕ) → i < 1 → IsKnownType (type_at started_ram 0x690 i)
    known_first zero lt = inl section_words.5
    known_first (suc i) lt = absurd (omega arith)

    apart_first :
        (i : ℕ) → i < 1 → (x : ℕ) → Kept x → Apart x 1 (target_at started_ram 0x680 0x690 i) 4
    apart_first zero lt x at = omega (arith, section_words.6)
    apart_first (suc i) lt x at = absurd (omega arith)

-- Section 1 is the only one, and has no relocations against imports.
pub file-KeepsLinks : KeepsLinks Kept started_ram 0x600
file-KeepsLinks = record {
  header = λ x lo hi. inl (omega arith);
  entries = λ i above below x lo hi. inl (omega (arith, section_words.0, section_words.1));
  tables = λ i internal above below.
      let first : 1 ≡ i = omega (arith, section_words.0) in
      subst
        (λ (j : ℕ).
          data_at started_ram 0x600 j ≢ 0
          → relocs_at started_ram 0x600 j internal ≢ 0
          → KeepsTable Kept started_ram (data_at started_ram 0x600 j)
              (relocs_at started_ram 0x600 j internal))
        first (first_tables internal);
}
  where
    first_tables :
        (internal : Bool)
        → data_at started_ram 0x600 1 ≢ 0
        → relocs_at started_ram 0x600 1 internal ≢ 0
        → KeepsTable Kept started_ram
            (data_at started_ram 0x600 1)
            (relocs_at started_ram 0x600 1 internal)
    first_tables true filled there = rw (section_words.2, section_words.3) file-KeepsTable
    first_tables false filled there = absurd (there section_words.4)

abbrev pub started : Machine
started = before_imports file_machine 0x600 0x6A0

-- What holds of the memory with its pointers holds of the state in front of the imports.
pub at_start : (P : Bytes → Type 0) → P started_ram → P started.ram
at_start P holds = subst P (sym started_lem) holds

fixup_uso-FixedUso_example :
    (s' : Machine) × (fixup_uso env file_machine 0x600 0x6A0
      ≡ done (
        s',
        not (
            any
              (unresolved started files (import_syms started.ram 0x600))
              (count_from 0 (table_length started.ram (import_syms started.ram 0x600)))),
      ))
    × FixedUso env file_machine files 0x600 0x6A0 Kept halving-IsBsearch s'
fixup_uso-FixedUso_example =
    fixup_uso-FixedUso env file_machine files 0x600 0x6A0 Kept halving-IsBsearch
      (omega (arith, has_imports))
      (at_start
        (λ (m : Bytes). CanImport (record file_machine { ram = m }) files (import_syms m 0x600))
        (rw imports_at file-CanImport))
      (at_start (λ (m : Bytes). KeepsLinks Kept m 0x600) file-KeepsLinks)
      (at_start
        (λ (m : Bytes).
          (x : ℕ)
          → Kept x
          → Apart x 1 (import_syms m 0x600 + 4) (table_length m (import_syms m 0x600) * 12))
        (rw (imports_at, lengths.3) (λ x at. omega arith)))
