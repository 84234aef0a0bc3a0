-- ===== src/Runtime/Api/UseExamples.antt =====
-- Two loaded files, of which the second imports a symbol that the first exports.
use dragonuso.Common.{ℕ, ◌≡◌, ◌⊎◌, refl, true, false, List, [], ◌∷◌, arith, All}
use dragonuso.Bytes.{Bytes, put}
use dragonuso.Bsearch.{halving, halving_from, halving-IsBsearch}
use dragonuso.Text.{strcmp}
use dragonuso.Runtime.Ram.{
  load_u16, load_u32, store_u32, string_within, string_at, handle_uso, export_syms, import_syms,
  table_length,
}
use dragonuso.Runtime.Machine.{Machine, done}
use dragonuso.Runtime.Search.{walk_handles, first_handle, search_symbol_table, symbol_compare}
use dragonuso.Runtime.Search.Lookup.{IsSortedTable}
use dragonuso.Runtime.Handles.{
  blocks_close, imports_from, is_uso_closeable, is_ptr_inside_uso, uso_get_handle_ptr,
}
use dragonuso.Runtime.Handles.Walk.{visit_all, first_handle-visit_all}
use dragonuso.Runtime.Handles.Links.{IsLoaded}
use dragonuso.Runtime.Handles.Pointer.{HoldsPtr, FirstWith, uso_get_handle_ptr-FirstWith}
use dragonuso.Runtime.Api.Closeable.{IsNeeded, is_uso_closeable-IsNeeded}
use dragonuso.Runtime.Examples.{
  env, two_files, two_files-IsLoaded, symbols_ram, symbols_ram-IsRam, words, words-fit, put-IsRam,
  store-IsRam,
}
use dragonuso.Runtime.Ram.Laws.{IsRam}
use dragonuso.Runtime.Api.{uso_close}
use dragonuso.Runtime.Api.Close.{released}
use dragonuso.Runtime.Api.Closed.{Stays, uso_close-Stays}
use dragonuso.Runtime.Api.Examples.{env-KeepsList}

-- The first file is at 0x1000, has a section of 8 bytes at 0x3000, and exports the symbols at 0x400.
abbrev exporting_ram : Bytes
exporting_ram =
    store_u32
      (store_u32
        (store_u32
          (store_u32 (store_u32 (store_u32 symbols_ram 0x108 0x1000) 0x1000 0x20000) 0x1004 0x2000)
          0x100C 0x400)
        0x2014 0x3000)
      0x2018 8

-- The second file is at 0x1800, and imports "b" with the table at 0x600.
abbrev use_ram : Bytes
use_ram =
    put (store_u32 (store_u32 exporting_ram 0x208 0x1800) 0x1808 0x600) 0x600
      (words (1 ∷ 0x502 ∷ 0x9000 ∷ 0 ∷ []))

abbrev use_files : Machine
use_files = record two_files { ram = use_ram }

abbrev handles : List ℕ
handles = 0x100 ∷ 0x200 ∷ []

use_files-IsLoaded : IsLoaded use_files handles
unfolding load_u32 store_u32 put
use_files-IsLoaded = record {
  chain =
      (refl, omega arith, omega arith, refl, (refl, omega arith, omega arith, refl, (refl, refl)));
  separate = two_files-IsLoaded.separate;
}

first_handle-visit_all_example :
    first_handle (λ curr. blocks_close env use_files 0x100 curr) use_files
    ≡ visit_all (λ curr. blocks_close env use_files 0x100 curr) handles
first_handle-visit_all_example =
    first_handle-visit_all (λ curr. blocks_close env use_files 0x100 curr) use_files handles
      use_files-IsLoaded

uso_get_handle_ptr-FirstWith_example :
    (h : ℕ) × (uso_get_handle_ptr use_files 0x3004 ≡ done h)
    × FirstWith (λ k. HoldsPtr use_ram (handle_uso use_ram k) 0x3004) handles h
uso_get_handle_ptr-FirstWith_example =
    uso_get_handle_ptr-FirstWith use_files handles use_files-IsLoaded 0x3004

-- The pointer lies in the first file, and the one behind its last byte in none.
holder_lem :
    (uso_get_handle_ptr use_files 0x3004 ≡ done 0x100)
    × (uso_get_handle_ptr use_files 0x3008 ≡ done 0)
unfolding uso_get_handle_ptr first_handle walk_handles is_ptr_inside_uso load_u16 load_u32 store_u32
    put
holder_lem = (refl, refl)

import_lengths :
    (table_length use_ram (import_syms use_ram (handle_uso use_ram 0x100)) ≡ 0)
    × (table_length use_ram (import_syms use_ram (handle_uso use_ram 0x200)) ≡ 1)
unfolding load_u32 store_u32 put
import_lengths = (refl, refl)

imports-IsSortedTable :
    All (λ h. IsSortedTable use_ram (import_syms use_ram (handle_uso use_ram h))) handles
imports-IsSortedTable = (
  λ i j lt len. absurd (omega (arith, import_lengths.0)),
  (λ i j lt len. absurd (omega (arith, import_lengths.1)), tt),
)

exports_at : export_syms use_ram (handle_uso use_ram 0x100) ≡ 0x400
unfolding load_u32 store_u32 put
exports_at = refl

is_uso_closeable-IsNeeded_example :
    ((is_uso_closeable env use_files 0x100 ≡ done true) × (¬ IsNeeded use_files handles 0x100))
    ⊎ ((is_uso_closeable env use_files 0x100 ≡ done false) × IsNeeded use_files handles 0x100)
is_uso_closeable-IsNeeded_example =
    is_uso_closeable-IsNeeded env use_files 0x100 handles halving-IsBsearch imports-IsSortedTable
      use_files-IsLoaded (omega (arith, exports_at))

-- The first file is needed.
needed_lem : is_uso_closeable env use_files 0x100 ≡ done false
unfolding is_uso_closeable blocks_close imports_from first_handle walk_handles search_symbol_table
    symbol_compare load_u16 load_u32 store_u32 put string_within string_at strcmp halving
    halving_from
needed_lem = refl

use_ram-IsRam : IsRam use_ram
use_ram-IsRam =
    put-IsRam _ 0x600 (words (1 ∷ 0x502 ∷ 0x9000 ∷ 0 ∷ []))
      (store-IsRam _ 0x1808 0x600 (
        store-IsRam _ 0x208 0x1800 (
          store-IsRam _ 0x2018 8 (
            store-IsRam _ 0x2014 0x3000 (
              store-IsRam _ 0x100C 0x400 (
                store-IsRam _ 0x1004 0x2000 (
                  store-IsRam _ 0x1000 0x20000 (store-IsRam _ 0x108 0x1000 symbols_ram-IsRam))))))))
      (words-fit (1 ∷ 0x502 ∷ 0x9000 ∷ 0 ∷ []))

-- The first file after a reference to it is given back.
abbrev one_less : Machine
one_less = released use_files 0x100

released_lengths :
    (table_length one_less.ram (import_syms one_less.ram (handle_uso one_less.ram 0x100)) ≡ 0)
    × (table_length one_less.ram (import_syms one_less.ram (handle_uso one_less.ram 0x200)) ≡ 1)
unfolding load_u32 store_u32 put
released_lengths = (refl, refl)

released-IsSortedTable :
    All
      (λ h. IsSortedTable one_less.ram (import_syms one_less.ram (handle_uso one_less.ram h)))
      handles
released-IsSortedTable = (
  λ i j lt len. absurd (omega (arith, released_lengths.0)),
  (λ i j lt len. absurd (omega (arith, released_lengths.1)), tt),
)

released_exports : export_syms one_less.ram (handle_uso one_less.ram 0x100) ≡ 0x400
unfolding load_u32 store_u32 put
released_exports = refl

uso_close-Stays_example :
    (Stays use_files [] (0x200 ∷ []) 0x100
      × (uso_close env use_files 0x100 ≡ done one_less)
      × IsLoaded one_less handles)
    ⊎ ((¬ Stays use_files [] (0x200 ∷ []) 0x100)
        × (s' : Machine) × (uso_close env use_files 0x100 ≡ done s')
        × IsLoaded s' (0x200 ∷ []))
uso_close-Stays_example =
    uso_close-Stays use_files [] (0x200 ∷ []) 0x100 env halving-IsBsearch use_files-IsLoaded
      use_ram-IsRam (omega (arith, released_exports)) released-IsSortedTable (env-KeepsList handles)
