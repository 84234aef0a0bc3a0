-- ===== src/Runtime/Handles/Resolve.antt =====
-- `search_loaded_symbols` against a look through all tables in the order of loading.
use dragonuso.Common.{
  ℕ, ◌≡◌, refl, ap, inl, inr, Bool, List, [], ◌∷◌, ◌==◌, if◌then◌else◌, All, Bool-cases,
}
use dragonuso.Bytes.{Bytes}
use dragonuso.Bsearch.{IsBsearch}
use dragonuso.Text.{Str}
use dragonuso.Runtime.Ram.{handle_uso, export_syms}
use dragonuso.Runtime.Machine.{Machine, Env, done}
use dragonuso.Runtime.Search.{search_symbol_table, search_loaded_symbols}
use dragonuso.Runtime.Search.Lookup.{IsSortedTable, lookup_symbol, search-lookup}
use dragonuso.Runtime.Handles.Links.{IsLoaded}
use dragonuso.Runtime.Handles.Walk.{visit_all, first_handle-visit_all}

-- The export table of a loaded file.
abbrev pub exports_of : Bytes → ℕ → ℕ
exports_of m h = export_syms m (handle_uso m h)

-- The symbol of the first of these files that defines the name, or `otherwise`.
unfoldable pub resolve : Bytes → Str → (otherwise : ℕ) → List ℕ → ℕ
resolve m name otherwise [] = otherwise
resolve m name otherwise (h ∷ hs) =
    let rest = resolve m name otherwise hs in
    let ptr = lookup_symbol m (exports_of m h) name in if ptr == 0 then rest else ptr

module _ (env : Env) (s : Machine) (name : Str) (is_bsearch : IsBsearch env.bsearch) where
  visit_all-resolve :
      (hs : List ℕ)
      → All (λ h. IsSortedTable s.ram (exports_of s.ram h)) hs
      → visit_all (λ h. done (search_symbol_table env s.ram (exports_of s.ram h) name)) hs
        ≡ done (resolve s.ram name 0 hs)
  unfolding visit_all resolve
  visit_all-resolve [] sorted = refl
  visit_all-resolve (h ∷ hs) sorted =
      let found = search-lookup s.ram (exports_of s.ram h) name sorted.0 env is_bsearch in
      let rest = visit_all-resolve hs sorted.1 in
      elim (Bool-cases (lookup_symbol s.ram (exports_of s.ram h) name == 0)) [
        | inl e ↦ rw (found, e, rest)
        | inr e ↦ rw (found, e)
      ]

  resolve-otherwise :
      (otherwise : ℕ) (hs : List ℕ)
      → (if resolve s.ram name 0 hs == 0 then otherwise else resolve s.ram name 0 hs)
        ≡ resolve s.ram name otherwise hs
  unfolding resolve
  resolve-otherwise otherwise [] = refl
  resolve-otherwise otherwise (h ∷ hs) =
      elim (Bool-cases (lookup_symbol s.ram (exports_of s.ram h) name == 0)) [
        | inl e ↦ rw e (resolve-otherwise otherwise hs)
        | inr e ↦ rw (e, e)
      ]

  -- With a bsearch that behaves as documented, on a list of loaded files whose export tables are
  -- sorted by name, each name once, as is the table of the main program, search_loaded_symbols
  -- answers the symbol of the first file in the order of loading that defines the name with a
  -- pointer other than NULL, else, if the global search is asked for, that of the main program, and
  -- NULL if there is none.
  pub search_loaded_symbols-resolve :
      (hs : List ℕ) (search_global : Bool)
      → IsLoaded s hs
      → All (λ h. IsSortedTable s.ram (exports_of s.ram h)) hs
      → IsSortedTable s.ram s.global_symbol_table
      → search_loaded_symbols env s name search_global
        ≡ done (
            resolve s.ram name
              (if search_global then lookup_symbol s.ram s.global_symbol_table name else 0)
              hs)
  unfolding search_loaded_symbols
  search_loaded_symbols-resolve hs search_global is sorted global_sorted =
      let visited = visit_all-resolve hs sorted in
      let global = search-lookup s.ram s.global_symbol_table name global_sorted env is_bsearch in
      rw
        (
          first_handle-visit_all
              (λ curr. done (search_symbol_table env s.ram (exports_of s.ram curr) name)) s hs is,
          visited,
          global,
        )
        (ap done (
          resolve-otherwise
            (if search_global then lookup_symbol s.ram s.global_symbol_table name else 0) hs))
