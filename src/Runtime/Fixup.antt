-- ===== src/Runtime/Fixup.antt =====
-- The functions of src/uso.c that turn the offsets of a loaded file into pointers.
pub mod Round
pub mod Sections
pub mod Names
pub mod Exports
pub mod Imports
pub mod Resolved
mod Examples
pub mod ImportExamples
use dragonuso.Common.{
  ℕ, ◌+◌, ◌-◌, ◌^◌, Bool, true, false, ◌&&◌, not, List, [], ◌∷◌, ◌==◌, bit_and, ltb, if◌then◌else◌,
  count_from,
}
use dragonuso.Common.Words.{u32}
use dragonuso.Bytes.{Bytes}
use dragonuso.Runtime.Ram.{
  load_u32, store_u32, string_at, table_length, table_entry, section_entry, data_align, data_size,
  symbol_section, symbol_name, uso_is_symbol_weak,
}
use dragonuso.Runtime.Machine.{Machine, Env, Run, done, ◌>>=◌, emit, reported_unresolved}
use dragonuso.Runtime.Search.{search_loaded_symbols}

-- `(x + to - 1) & ~(to - 1)` on 32 bits; `to` should be a power of 2.
unfoldable pub roundup_value : ℕ → ℕ → ℕ
roundup_value value to =
    bit_and (u32 (value + to + (2 ^ 32 - 1))) (2 ^ 32 - 1 - u32 (to + (2 ^ 32 - 1)))

unfoldable pub roundup_ptr : ℕ → ℕ → ℕ
roundup_ptr ptr to = bit_and (u32 (ptr + to + (2 ^ 32 - 1))) (2 ^ 32 - 1 - u32 (to + (2 ^ 32 - 1)))

-- `uso_load_info_t`
pub record LoadInfo : Type 0 where
  pub uso_size : ℕ
  pub uso_align : ℕ
  pub noload_size : ℕ
  pub noload_align : ℕ

unfoldable pub get_uso_noload_start_ofs : LoadInfo → ℕ
get_uso_noload_start_ofs info = roundup_value info.uso_size info.noload_align

unfoldable pub get_uso_noload_start : LoadInfo → ℕ → ℕ
get_uso_noload_start info uso_base = u32 (uso_base + get_uso_noload_start_ofs info)

unfoldable pub get_uso_ram_size : LoadInfo → ℕ
get_uso_ram_size info = u32 (get_uso_noload_start_ofs info + info.noload_size)

unfoldable pub get_uso_ram_align : LoadInfo → ℕ
get_uso_ram_align info =
    if ltb info.noload_align info.uso_align then info.uso_align else info.noload_align

-- `PTR_FIXUP` of the pointer that stands at address `a`.
unfoldable pub ptr_fixup : Bytes → ℕ → ℕ → Bytes
ptr_fixup m a base = store_u32 m a (u32 (base + load_u32 m a))

unfoldable pub fixup_names : Bytes → ℕ → List ℕ → Bytes
fixup_names m table [] = m
fixup_names m table (i ∷ is) = fixup_names (ptr_fixup m (table_entry table i) table) table is

unfoldable pub fixup_symbol_table_names : Bytes → ℕ → Bytes
fixup_symbol_table_names m table = fixup_names m table (count_from 0 (table_length m table))

-- A pointer that is adjusted unless it is NULL.
unfoldable pub fixup_nonnull : Bytes → ℕ → ℕ → Bytes
fixup_nonnull m a base = if load_u32 m a == 0 then m else ptr_fixup m a base

-- One round of the loop of `fixup_section_table`, for the entry at `s`: the memory and `noload`.
unfoldable pub fixup_section : Bytes → ℕ → ℕ → ℕ → Bytes × ℕ
unfolding fixup_nonnull
fixup_section m table noload s =
    if not (load_u32 m s == 0)
    then (fixup_nonnull (fixup_nonnull (ptr_fixup m s table) (s + 12) table) (s + 16) table, noload)
    else let aligned =
        if ltb 0 (data_align m s) then roundup_ptr noload (data_align m s) else noload in
      (store_u32 m s aligned, u32 (aligned + data_size m s))

unfoldable pub fixup_sections : Bytes → ℕ → ℕ → List ℕ → Bytes
fixup_sections m table noload [] = m
fixup_sections m table noload (i ∷ is) =
    let (m', noload') = fixup_section m table noload (section_entry table i) in
    fixup_sections m' table noload' is

-- From entry 1 on; the data pointer of entry 0 becomes NULL.
unfoldable pub fixup_section_table : Bytes → ℕ → ℕ → ℕ → Bytes
fixup_section_table m table noload_base num_sections =
    store_u32 (fixup_sections m table noload_base (count_from 1 (num_sections - 1))) table 0

unfoldable pub fixup_export_ptrs : Bytes → ℕ → ℕ → List ℕ → Bytes
fixup_export_ptrs m table sections [] = m
fixup_export_ptrs m table sections (i ∷ is) =
    let entry = table_entry table i in
    fixup_export_ptrs
      (ptr_fixup m (entry + 4) (load_u32 m (section_entry sections (symbol_section m entry)))) table
      sections is

unfoldable pub fixup_export_syms : Bytes → ℕ → ℕ → Bytes
fixup_export_syms m table sections =
    let named = fixup_symbol_table_names m table in
    fixup_export_ptrs named table sections (count_from 0 (table_length named table))

-- One round of the loop of `fixup_import_syms`: an unresolved symbol fails unless it is weak.
unfoldable pub resolve_import : Env → Machine → ℕ → Bool → Run (Machine × Bool)
resolve_import env s entry result = do
  let name = string_at s.ram (symbol_name s.ram entry)
  ptr ← search_loaded_symbols env s name true
  let failed = not (uso_is_symbol_weak s.ram entry) && ptr == 0
  let reported : Machine = if failed then emit s (reported_unresolved name) else s
  done (record reported { ram = store_u32 s.ram (entry + 4) ptr }, if failed then false else result)

unfoldable pub resolve_imports : Env → Machine → ℕ → Bool → List ℕ → Run (Machine × Bool)
resolve_imports env s table result [] = done (s, result)
resolve_imports env s table result (i ∷ is) = do
  (s', result') ← resolve_import env s (table_entry table i) result
  resolve_imports env s' table result' is

unfoldable pub fixup_import_syms : Env → Machine → ℕ → Run (Machine × Bool)
fixup_import_syms env s table =
    let named : Machine = record s { ram = fixup_symbol_table_names s.ram table } in
    resolve_imports env named table true (count_from 0 (table_length named.ram table))
