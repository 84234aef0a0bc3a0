-- ===== src/Runtime/Examples.antt =====
-- Runs of the library of src/uso.c on a small memory.
use Prim.Native.Nat.{Ordering}
use mathlib.Core.Path.{subst}
use dragonuso.Common.{
  ℕ, suc, ◌<◌, ◌≡◌, refl, sym, inl, true, false, none, List, [], ◌∷◌, ◌++◌, arith, ◌==◌, All,
}
use dragonuso.Bytes.{Bytes, put}
use dragonuso.Bsearch.{halving, halving-IsBsearch}
use dragonuso.StdLib.{any}
use dragonuso.Swap.{be_u32}
use dragonuso.Text.{strcmp, str_eq}
use dragonuso.Runtime.Ram.{load_u32, store_u32, string_within, string_at, table_length, handle_name}
use dragonuso.Runtime.Ram.Laws.{IsRam}
use dragonuso.Runtime.Machine.{Machine, Env, done}
use dragonuso.Runtime.Search.{search_symbol_table, search_loaded_symbols}
use dragonuso.Runtime.Handles.Resolve.{exports_of, resolve, search_loaded_symbols-resolve}
use dragonuso.Runtime.Search.Lookup.{IsSortedTable, entry_name, lookup_symbol, search-lookup}
use dragonuso.Runtime.Handles.{uso_is_handle_valid, uso_get_handle}
use dragonuso.Runtime.Handles.Links.{IsLoaded}
use dragonuso.Runtime.Handles.Walk.{first_with, uso_is_handle_valid-any, uso_get_handle-first_with}

abbrev pub zeros : Bytes
zeros x = 0

abbrev pub env : Env
env = record {
  call = λ ptr s. s;
  cxa_finalize = λ ptr s. s;
  malloc = λ s n. 0x1000;
  memalign = λ s align n. 0x2000;
  fopen = λ name. none;
  bsearch = halving;
}

-- Two files are loaded, with their handles at 0x100 and 0x200.
abbrev pub two_files : Machine
two_files = record {
  ram = store_u32 (store_u32 zeros 0x100 0x200) 0x204 0x100;
  list_head = 0x100;
  list_tail = 0x200;
  global_symbol_table = 0;
  initted = true;
  notify_add_func = false;
  notify_remove_func = false;
  events = [];
}

pub two_files-IsLoaded : IsLoaded two_files (0x100 ∷ 0x200 ∷ [])
unfolding load_u32 store_u32 put
two_files-IsLoaded = record {
  chain =
      (refl, omega arith, omega arith, refl, (refl, omega arith, omega arith, refl, (refl, refl)));
  separate = ((inl (omega arith), tt), (tt, tt));
}

uso_is_handle_valid-any_example :
    uso_is_handle_valid two_files 0x200 ≡ done (any (λ h. h == 0x200) (0x100 ∷ 0x200 ∷ []))
uso_is_handle_valid-any_example =
    uso_is_handle_valid-any two_files (0x100 ∷ 0x200 ∷ []) two_files-IsLoaded 0x200

uso_get_handle-first_with_example :
    uso_get_handle two_files []
    ≡ done (first_with (λ h. str_eq (handle_name two_files.ram h) []) (0x100 ∷ 0x200 ∷ []))
uso_get_handle-first_with_example =
    uso_get_handle-first_with two_files (0x100 ∷ 0x200 ∷ []) two_files-IsLoaded []

-- Numbers as they stand in memory.
abbrev pub words : List ℕ → List ℕ
words [] = []
words (v ∷ vs) = be_u32 v ++ words vs

pub words-fit : (vs : List ℕ) → All (λ b. b < 256) (words vs)
words-fit [] = tt
words-fit (v ∷ vs) = (omega arith, (omega arith, (omega arith, (omega arith, words-fit vs))))

abbrev symbol_words : List ℕ
symbol_words = 2 ∷ 0x500 ∷ 0x8000 ∷ 0 ∷ 0x502 ∷ 0x9000 ∷ 0 ∷ []

abbrev two_names : List ℕ
two_names = 97 ∷ 0 ∷ 98 ∷ 0 ∷ []

-- A symbol table at 0x400 with the names "a" and "b".
abbrev pub symbols_ram : Bytes
symbols_ram = put (put two_files.ram 0x400 (words symbol_words)) 0x500 two_names

names_ascend :
    strcmp (entry_name symbols_ram 0x400 0) (entry_name symbols_ram 0x400 1) ≡ Ordering.lt
unfolding load_u32 store_u32 put string_within string_at strcmp
names_ascend = refl

two_symbols : table_length symbols_ram 0x400 ≡ 2
unfolding load_u32 store_u32 put
two_symbols = refl

pub symbols_ram-IsSortedTable : IsSortedTable symbols_ram 0x400
symbols_ram-IsSortedTable i j lt len =
    let first : i ≡ 0 = omega (arith, two_symbols) in
    let second : j ≡ 1 = omega (arith, two_symbols) in
    subst
      (λ (k : ℕ).
        strcmp (entry_name symbols_ram 0x400 k) (entry_name symbols_ram 0x400 j) ≡ Ordering.lt)
      (sym first)
      (subst
        (λ (k : ℕ).
          strcmp (entry_name symbols_ram 0x400 0) (entry_name symbols_ram 0x400 k) ≡ Ordering.lt)
        (sym second) names_ascend)

search-lookup_example :
    search_symbol_table env symbols_ram 0x400 (98 ∷ []) ≡ lookup_symbol symbols_ram 0x400 (98 ∷ [])
search-lookup_example =
    search-lookup symbols_ram 0x400 (98 ∷ []) symbols_ram-IsSortedTable env halving-IsBsearch

pub put-IsRam :
    (m : Bytes) (a : ℕ) (bs : List ℕ) → IsRam m → All (λ b. b < 256) bs → IsRam (put m a bs)
unfolding put
put-IsRam m a [] ram fits x = ram x
put-IsRam m a (b ∷ bs) ram fits x = ground (arith, fits.0, put-IsRam m (suc a) bs ram fits.1 x)

pub store-IsRam : (m : Bytes) (a v : ℕ) → IsRam m → IsRam (store_u32 m a v)
unfolding store_u32
store-IsRam m a v ram = put-IsRam m a (be_u32 v) ram (words-fit (v ∷ []))

pub symbols_ram-IsRam : IsRam symbols_ram
symbols_ram-IsRam =
    put-IsRam _ 0x500 two_names
      (put-IsRam _ 0x400 (words symbol_words)
        (store-IsRam _ 0x204 0x100 (store-IsRam zeros 0x100 0x200 λ x. omega arith))
        (words-fit symbol_words))
      (omega arith, (omega arith, (omega arith, (omega arith, tt))))

-- No file exports anything, and the main program has the two symbols.
abbrev with_globals : Machine
with_globals = record two_files { ram = symbols_ram; global_symbol_table = 0x400 }

with_globals-IsLoaded : IsLoaded with_globals (0x100 ∷ 0x200 ∷ [])
unfolding load_u32 store_u32 put
with_globals-IsLoaded = record {
  chain =
      (refl, omega arith, omega arith, refl, (refl, omega arith, omega arith, refl, (refl, refl)));
  separate = two_files-IsLoaded.separate;
}

no_table : table_length symbols_ram 0 ≡ 0
unfolding load_u32 store_u32 put
no_table = refl

no_exports : (exports_of symbols_ram 0x100 ≡ 0) × (exports_of symbols_ram 0x200 ≡ 0)
unfolding load_u32 store_u32 put
no_exports = (refl, refl)

empty-IsSortedTable : (table : ℕ) → table ≡ 0 → IsSortedTable symbols_ram table
empty-IsSortedTable table e =
    subst (λ (t : ℕ). IsSortedTable symbols_ram t) (sym e)
      λ i j lt len. absurd (omega (arith, no_table))

search_loaded_symbols-resolve_example :
    search_loaded_symbols env with_globals (98 ∷ []) true
    ≡ done (
        resolve symbols_ram
          (98 ∷ [])
          (lookup_symbol symbols_ram 0x400 (98 ∷ []))
          (0x100 ∷ 0x200 ∷ []))
search_loaded_symbols-resolve_example =
    search_loaded_symbols-resolve env with_globals (98 ∷ []) halving-IsBsearch (0x100 ∷ 0x200 ∷ [])
      true with_globals-IsLoaded
      (empty-IsSortedTable _ no_exports.0, (empty-IsSortedTable _ no_exports.1, tt))
      symbols_ram-IsSortedTable
