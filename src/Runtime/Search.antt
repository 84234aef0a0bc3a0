-- ===== src/Runtime/Search.antt =====
-- The symbol searches of src/uso.c.
use Prim.Native.Nat.{Ordering}
pub mod Lookup
pub mod Frame
use dragonuso.Common.{
  ℕ, zero, suc, ◌^◌, Bool, true, false, ◌||◌, Option, none, some, ◌==◌, if◌then◌else◌,
}
use dragonuso.Bytes.{Bytes}
use dragonuso.Text.{Str, strcmp}
use dragonuso.Runtime.Ram.{
  string_at, table_length, table_entry, symbol_name, symbol_ptr, export_syms, handle_uso,
  handle_next,
}
use dragonuso.Runtime.Machine.{Machine, Env, Run, done, runs_on, ◌>>=◌}

-- `symbol_compare` of the key and entry `i`.
unfoldable pub symbol_compare : Bytes → Str → ℕ → ℕ → Ordering
symbol_compare m name table i = strcmp name (string_at m (symbol_name m (table_entry table i)))

unfoldable pub search_symbol_table : Env → Bytes → ℕ → Str → ℕ
search_symbol_table env m table name =
    if table == 0 || table_length m table == 0
    then 0
    else elim (env.bsearch (symbol_compare m name table) (table_length m table)) [
      | some i ↦ symbol_ptr m (table_entry table i)
      | none ↦ 0
    ]

-- A walk over the loaded files from `curr` on, up to the first at which `visit` is not 0. A list
-- that does not end within the address space is a cycle.
unfoldable pub walk_handles : (visit : ℕ → Run ℕ) → ℕ → Bytes → ℕ → Run ℕ
walk_handles visit zero m curr = runs_on
walk_handles visit (suc fuel) m curr =
    let rest = walk_handles visit fuel m (handle_next m curr) in
    let visited : Run ℕ = do found ← visit curr; if found == 0 then rest else done found
    in if curr == 0 then done 0 else visited

unfoldable pub first_handle : (visit : ℕ → Run ℕ) → Machine → Run ℕ
first_handle visit s = walk_handles visit (2 ^ 32) s.ram s.list_head

unfoldable pub search_loaded_symbols : Env → Machine → Str → (search_global : Bool) → Run ℕ
search_loaded_symbols env s name search_global = do
  ptr ←
      first_handle
        (λ curr.
          done (search_symbol_table env s.ram (export_syms s.ram (handle_uso s.ram curr)) name))
        s
  done (
      if ptr == 0
      then if search_global then search_symbol_table env s.ram s.global_symbol_table name else 0
      else ptr)
