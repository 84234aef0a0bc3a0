-- ===== src/Runtime/Api/Closeable.antt =====
-- `is_uso_closeable` of src/uso.c: the files that import from a file.
use dragonuso.Common.{
  ℕ, ◌<◌, ◌≡◌, ◌≢◌, ◌⊎◌, ◌∙◌, ap, inl, inr, Bool, true, false, not, List, arith, ◌==◌, All,
  Bool-cases,
}
use dragonuso.StdLib.{any}
use dragonuso.StdLib.Any.{any-found, any-at, any-member, any-of_member}
use dragonuso.Bytes.{Bytes}
use dragonuso.Bsearch.{IsBsearch}
use dragonuso.Runtime.Ram.{
  handle_uso, export_syms, import_syms, table_length, table_entry, symbol_ptr,
}
use dragonuso.Runtime.Machine.{Machine, Env, done}
use dragonuso.Runtime.Search.{search_symbol_table}
use dragonuso.Runtime.Search.Lookup.{
  IsSortedTable, entry_name, lookup_symbol, search-lookup, entry_of_lookup, lookup_of_entry,
}
use dragonuso.Runtime.Handles.{imports_from, is_uso_closeable}
use dragonuso.Runtime.Handles.Links.{IsLoaded}
use dragonuso.Runtime.Api.Close.{in_use, All-any, is_uso_closeable-in_use}

-- Some entry of the imports has an address other than NULL and the name of an entry of the exports.
pub record SharesName (m : Bytes) (imports exports : ℕ) : Type 0 where
  pub there : imports ≢ 0
  pub export : ℕ
  pub exported : export < table_length m exports
  pub import : ℕ
  pub imported : import < table_length m imports
  pub same_name : entry_name m imports import ≡ entry_name m exports export
  pub resolved : symbol_ptr m (table_entry imports import) ≢ 0

-- A file of the list other than that of `handle` imports a symbol that the latter exports.
pub record IsNeeded (s : Machine) (hs : List ℕ) (handle : ℕ) : Type 0 where
  pub user : ℕ
  pub loaded : any (λ h. h == user) hs ≡ true
  pub other : user ≢ handle
  pub shared :
      SharesName s.ram
        (import_syms s.ram (handle_uso s.ram user))
        (export_syms s.ram (handle_uso s.ram handle))

module _ (env : Env) (is_bsearch : IsBsearch env.bsearch) (m : Bytes) (imports exports : ℕ) where
  SharesName-of_test :
      IsSortedTable m imports
      → imports_from env m imports exports ≡ true
      → SharesName m imports exports
  unfolding imports_from
  SharesName-of_test sorted e =
      let (i, low, high, hit) = any-found _ 0 (table_length m exports) e in
      let name = entry_name m exports i in
      let found : search_symbol_table env m imports name ≢ 0 = ground (arith, hit) in
      let looked : lookup_symbol m imports name ≢ 0 =
        rw (search-lookup m imports name sorted env is_bsearch) at found in
      let (there, j, len, same, some) = entry_of_lookup m imports name looked in
      record {
        there = there;
        export = i;
        exported = omega arith;
        import = j;
        imported = len;
        same_name = same;
        resolved = some;
      }

  SharesName-test :
      IsSortedTable m imports
      → SharesName m imports exports
      → imports_from env m imports exports ≡ true
  unfolding imports_from
  SharesName-test sorted shared =
      let name = entry_name m exports shared.export in
      let e : search_symbol_table env m imports name
          ≡ symbol_ptr m (table_entry imports shared.import) =
        search-lookup m imports name sorted env is_bsearch
        ∙ lookup_of_entry m imports name sorted shared.import shared.there shared.imported
            shared.same_name in
      let some = shared.resolved in
      let hit : not (search_symbol_table env m imports name == 0) ≡ true =
        ground (arith, e, some) in
      any-at _ 0 (table_length m exports) shared.export (omega arith)
        (omega (arith, shared.exported)) hit

module _ (env : Env) (s : Machine) (handle : ℕ) (hs : List ℕ) (is_bsearch : IsBsearch env.bsearch)
    (sorted : All (λ h. IsSortedTable s.ram (import_syms s.ram (handle_uso s.ram h))) hs) where
  pub IsNeeded-of_test : in_use env s handle hs ≡ true → IsNeeded s hs handle
  unfolding in_use
  IsNeeded-of_test e =
      let (h, mem, used) = any-member _ hs e in
      let test : imports_from env s.ram (import_syms s.ram (handle_uso s.ram h))
            (export_syms s.ram (handle_uso s.ram handle))
          ≡ true =
        ground (arith, used) in
      record {
        user = h;
        loaded = mem;
        other = ground (arith, used);
        shared = SharesName-of_test env is_bsearch s.ram _ _ (All-any _ h hs mem sorted) test;
      }

  pub IsNeeded-test : IsNeeded s hs handle → in_use env s handle hs ≡ true
  unfolding in_use
  IsNeeded-test needed =
      let h = needed.user in
      let test =
        SharesName-test env is_bsearch s.ram _ _ (All-any _ h hs needed.loaded sorted)
          needed.shared in
      let differs : (h == handle) ≡ false = ground (arith, needed.other) in
      any-of_member _ hs h needed.loaded (rw (differs, test))

  -- On a list of loaded files whose import tables are sorted by name, each name once, for a file
  -- with an export table, is_uso_closeable returns and answers false exactly if a file of the list
  -- other than it has an entry in its import table with an address other than NULL and the name of
  -- an entry of the export table; with a bsearch that behaves as documented.
  pub is_uso_closeable-IsNeeded :
      IsLoaded s hs
      → export_syms s.ram (handle_uso s.ram handle) ≢ 0
      → ((is_uso_closeable env s handle ≡ done true) × (¬ IsNeeded s hs handle))
        ⊎ ((is_uso_closeable env s handle ≡ done false) × IsNeeded s hs handle)
  is_uso_closeable-IsNeeded is exports =
      let answer = is_uso_closeable-in_use env s handle hs is exports in
      elim (Bool-cases (in_use env s handle hs)) [
        | inl e ↦ inr (answer ∙ ap (λ (b : Bool). done (not b)) e, IsNeeded-of_test e)
        | inr e ↦ inl (
          answer ∙ ap (λ (b : Bool). done (not b)) e,
          λ needed. let used = IsNeeded-test needed in cc,
        )
      ]
