-- ===== src/Runtime/Handles.antt =====
-- The list of loaded files in src/uso.c: its links, and the functions that look through it.
pub mod Chain
pub mod Links
pub mod Few
pub mod Walk
pub mod Resolve
pub mod Frame
pub mod Remove
pub mod Pointer
use dragonuso.Common.{
  ℕ, zero, suc, ◌+◌, ◌-◌, ◌^◌, Bool, true, false, ◌&&◌, ◌||◌, not, List, [], ◌∷◌, ◌==◌, leb, ltb,
  if◌then◌else◌, count_from,
}
use dragonuso.Common.Words.{u32}
use dragonuso.StdLib.{any}
use dragonuso.Bytes.{Bytes}
use dragonuso.Text.{Str, str_eq}
use dragonuso.Runtime.Ram.{
  store_u32, string_at, num_sections, sections, section_entry, section_data, data_size, import_syms,
  export_syms, table_length, table_entry, symbol_name, handle_next, handle_prev, handle_uso,
  handle_name,
}
use dragonuso.Runtime.Machine.{Machine, Env, Run, done, null_read, ◌>>=◌}
use dragonuso.Runtime.Search.{search_symbol_table, first_handle}

unfoldable pub insert_uso : Machine → ℕ → Machine
insert_uso s handle =
    let prev = s.list_tail in
    let linked : Machine =
      if prev == 0
      then record s { list_head = handle }
      else record s { ram = store_u32 s.ram prev handle } in
    record linked {
      ram = store_u32 (store_u32 linked.ram (handle + 4) prev) handle 0;
      list_tail = handle;
    }

unfoldable pub remove_uso : Machine → ℕ → Machine
remove_uso s handle =
    let next = handle_next s.ram handle in
    let prev = handle_prev s.ram handle in
    let s₁ : Machine =
      if next == 0
      then record s { list_tail = prev }
      else record s { ram = store_u32 s.ram (next + 4) prev } in
    if prev == 0
    then record s₁ { list_head = next }
    else record s₁ { ram = store_u32 s₁.ram prev next }

-- The pointer lies in entry `i` of the section table.
section_holds : Bytes → ℕ → ℕ → ℕ → Bool
section_holds m table ptr i =
    let entry = section_entry table i in
    let base = section_data m entry in
    not (base == 0) && (leb base ptr && ltb ptr (u32 (base + data_size m entry)))

unfoldable pub is_ptr_inside_uso : Bytes → ℕ → ℕ → Bool
unfolding section_holds
is_ptr_inside_uso m uso ptr =
    any (section_holds m (sections m uso) ptr) (count_from 0 (num_sections m uso))

-- Another file imports a symbol that `exports` defines.
unfoldable pub imports_from : Env → Bytes → ℕ → ℕ → Bool
imports_from env m imports exports =
    any
      (λ i. not (
        search_symbol_table env m imports (string_at m (symbol_name m (table_entry exports i)))
        == 0))
      (count_from 0 (table_length m exports))

-- What the loop of `is_uso_closeable` finds at the file `curr`: not 0 if that file is in the way.
-- With no export table, its length is read through a NULL pointer.
unfoldable pub blocks_close : Env → Machine → ℕ → ℕ → Run ℕ
blocks_close env s handle curr =
    let exports = export_syms s.ram (handle_uso s.ram handle) in
    let imports = import_syms s.ram (handle_uso s.ram curr) in
    if curr == handle
    then done 0
    else if exports == 0
    then null_read
    else done (if imports_from env s.ram imports exports then 1 else 0)

unfoldable pub is_uso_closeable : Env → Machine → ℕ → Run Bool
is_uso_closeable env s handle = do
  found ← first_handle (blocks_close env s handle) s
  done (found == 0)

-- 0 is NULL.
unfoldable pub uso_get_handle : Machine → Str → Run ℕ
uso_get_handle s filename =
    first_handle (λ curr. done (if str_eq (handle_name s.ram curr) filename then curr else 0)) s

unfoldable pub uso_get_handle_ptr : Machine → ℕ → Run ℕ
uso_get_handle_ptr s ptr =
    first_handle
      (λ curr. done (if is_ptr_inside_uso s.ram (handle_uso s.ram curr) ptr then curr else 0)) s

unfoldable pub uso_is_handle_valid : Machine → ℕ → Run Bool
uso_is_handle_valid s handle = do
  found ← first_handle (λ curr. done (if curr == handle then 1 else 0)) s
  done (not (found == 0))
