-- ===== src/Runtime/Fixup/ImportExamples.antt =====
-- A file with two imports, one of which the main program exports.
use dragonuso.Common.{
  ℕ, zero, suc, ◌+◌, ◌<◌, ◌≡◌, refl, ◌∙◌, inl, inr, List, [], ◌∷◌, arith, All, not, count_from,
}
use dragonuso.Common.Words.{u32}
use dragonuso.Bytes.{Bytes, Apart, put, put_outside}
use dragonuso.Bsearch.{halving-IsBsearch}
use dragonuso.StdLib.{any}
use dragonuso.Runtime.Ram.{
  load_u32, store_u32, string_within, string_at, table_length, table_entry, symbol_name, handle_uso,
}
use dragonuso.Runtime.Ram.Laws.{IsRam}
use dragonuso.Runtime.Machine.{Machine, done}
use dragonuso.Runtime.Search.Lookup.{IsSortedTable}
use dragonuso.Runtime.Search.Frame.{TableApart, StringApart, IsSortedTable-ext}
use dragonuso.Runtime.Handles.Links.{IsLoaded}
use dragonuso.Runtime.Handles.Frame.{FileApart}
use dragonuso.Runtime.Handles.Resolve.{exports_of}
use dragonuso.Runtime.Fixup.{fixup_import_syms}
use dragonuso.Runtime.Fixup.Resolved.{
  unresolved, ResolvedImports, fixup_import_syms-ResolvedImports,
}
use dragonuso.Runtime.Examples.{
  env, two_files, symbols_ram, symbols_ram-IsSortedTable, put-IsRam, words, words-fit,
  symbols_ram-IsRam,
}

-- The imports "b" and "c" at 0x600; the main program exports "a" and "b" at 0x400.
abbrev import_words : List ℕ
import_words = 2 ∷ 0x40 ∷ 0 ∷ 0 ∷ 0x42 ∷ 0 ∷ 0 ∷ []

abbrev import_names_bytes : List ℕ
import_names_bytes = 98 ∷ 0 ∷ 99 ∷ 0 ∷ []

abbrev imports_ram : Bytes
imports_ram = put (put symbols_ram 0x600 (words import_words)) 0x640 import_names_bytes

abbrev importing : Machine
importing = record two_files { ram = imports_ram; global_symbol_table = 0x400 }

abbrev files : List ℕ
files = 0x100 ∷ 0x200 ∷ []

importing-IsLoaded : IsLoaded importing files
unfolding load_u32 store_u32 put
importing-IsLoaded = record {
  chain =
      (refl, omega arith, omega arith, refl, (refl, omega arith, omega arith, refl, (refl, refl)));
  separate = ((inl (omega arith), tt), (tt, tt));
}

-- The words that the search reads.
lengths :
    (table_length imports_ram 0 ≡ 0)
    × (table_length imports_ram 0x400 ≡ 2)
    × (table_length symbols_ram 0x400 ≡ 2)
    × (table_length imports_ram 0x600 ≡ 2)
unfolding load_u32 store_u32 put
lengths = (refl, refl, refl, refl)

no_files :
    (handle_uso imports_ram 0x100 ≡ 0)
    × (handle_uso imports_ram 0x200 ≡ 0)
    × (exports_of imports_ram 0x100 ≡ 0)
    × (exports_of imports_ram 0x200 ≡ 0)
unfolding load_u32 store_u32 put
no_files = (refl, refl, refl, refl)

pub below_two : (P : ℕ → Type 0) → P 0 → P 1 → (i : ℕ) → i < 2 → P i
below_two P first second zero lt = first
below_two P first second (suc zero) lt = second
below_two P first second (suc (suc i)) lt = absurd (omega arith)

global_names :
    (i : ℕ)
    → i < 2
    → StringApart imports_ram (symbol_name imports_ram (table_entry 0x400 i)) 0x604 24
unfolding load_u32 store_u32 put string_within string_at
global_names = below_two _ (inl (omega arith)) (inl (omega arith))

import_names :
    (i : ℕ)
    → i < 2
    → StringApart imports_ram (u32 (0x600 + symbol_name imports_ram (table_entry 0x600 i))) 0x604 24
unfolding load_u32 store_u32 put string_within string_at
import_names = below_two _ (inr (omega arith)) (inr (omega arith))

empty-TableApart : (table n : ℕ) → table ≡ 0 → TableApart imports_ram 0x604 n table
empty-TableApart table n e = rw e (record {
  entries = inl (omega (arith, lengths.0));
  names = λ i lt. absurd (omega (arith, lengths.0));
})

importing-FilesApart : (n : ℕ) → All (FileApart imports_ram 0x604 n) files
importing-FilesApart n = (
  record {
    links = inl (omega arith);
    header = inl (omega (arith, no_files.0));
    exports = empty-TableApart _ n no_files.2;
  },
  (
    record {
      links = inl (omega arith);
      header = inl (omega (arith, no_files.1));
      exports = empty-TableApart _ n no_files.3;
    },
    tt,
  ),
)

global-TableApart : TableApart imports_ram 0x604 24 0x400
global-TableApart = record {
  entries = inl (omega (arith, lengths.1));
  names = λ i lt. global_names i (omega (arith, lengths.1));
}

-- The imports stand behind what "symbols_ram" has.
symbols_same : (x : ℕ) → Apart x 1 0x600 0x44 → imports_ram x ≡ symbols_ram x
symbols_same x out =
    put_outside (put symbols_ram 0x600 (words import_words)) 0x640 import_names_bytes x
      (omega arith)
    ∙ put_outside symbols_ram 0x600 (words import_words) x (omega arith)

global_names_before :
    (i : ℕ)
    → i < 2
    → StringApart symbols_ram (symbol_name symbols_ram (table_entry 0x400 i)) 0x600 0x44
unfolding load_u32 store_u32 put string_within string_at
global_names_before = below_two _ (inl (omega arith)) (inl (omega arith))

global-IsSortedTable : IsSortedTable imports_ram 0x400
global-IsSortedTable =
    IsSortedTable-ext symbols_ram imports_ram 0x600 0x44 symbols_same 0x400
      (record {
        entries = inl (omega (arith, lengths.2));
        names = λ i lt. global_names_before i (omega (arith, lengths.2));
      })
      symbols_ram-IsSortedTable

empty-IsSortedTable : (table : ℕ) → table ≡ 0 → IsSortedTable imports_ram table
empty-IsSortedTable table e = rw e λ i j lt len. absurd (omega (arith, lengths.0))

imports_ram-IsRam : IsRam imports_ram
imports_ram-IsRam =
    put-IsRam _ 0x640 import_names_bytes
      (put-IsRam _ 0x600 (words import_words) symbols_ram-IsRam (words-fit import_words))
      (omega arith, (omega arith, (omega arith, (omega arith, tt))))

fixup_import_syms-ResolvedImports_example :
    (s' : Machine) × (fixup_import_syms env importing 0x600
      ≡ done (
        s',
        not (
            any (unresolved importing files 0x600) (count_from 0 (table_length imports_ram 0x600))),
      ))
    × ResolvedImports importing files 0x600 s'
fixup_import_syms-ResolvedImports_example =
    fixup_import_syms-ResolvedImports env importing files 0x600 halving-IsBsearch importing-IsLoaded
      (empty-IsSortedTable _ no_files.2, (empty-IsSortedTable _ no_files.3, tt))
      global-IsSortedTable (importing-FilesApart _) (rw lengths.3 global-TableApart)
      (rw lengths.3 import_names) imports_ram-IsRam
