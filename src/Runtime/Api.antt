-- ===== src/Runtime/Api.antt =====
-- The functions of src/uso.h, and `fixup_uso`.
pub mod Close
pub mod Closeable
pub mod Open
pub mod Loaded
pub mod Closed
pub mod Fixed
pub mod New
pub mod Examples
mod UseExamples
pub mod FileSample
pub mod FixedExample
mod NewExample
use dragonuso.Common.{
  ℕ, ◌+◌, ◌-◌, ◌^◌, Bool, true, false, ◌&&◌, Option, none, some, List, [], ◌∷◌, ◌++◌, ◌==◌,
  if◌then◌else◌, length, take, replicate,
}
use dragonuso.Common.Words.{u32}
use dragonuso.Bytes.{Bytes, put}
use dragonuso.Swap.{load_be_u32}
use dragonuso.Text.{Str}
use dragonuso.Runtime.Ram.{
  store_u32, sections, import_syms, export_syms, num_sections, handle_uso, ref_count,
}
use dragonuso.Runtime.Machine.{
  Machine, Env, Run, done, assert_failed, ◌>>=◌, emit, notified_add, notified_remove, freed,
  reported_open_failure, reported_load_failure,
}
use dragonuso.Runtime.Search.{search_symbol_table, search_loaded_symbols}
use dragonuso.Runtime.Fixup.{
  LoadInfo, get_uso_noload_start, get_uso_ram_size, get_uso_ram_align, ptr_fixup,
  fixup_symbol_table_names, fixup_section_table, fixup_export_syms, fixup_import_syms,
}
use dragonuso.Runtime.Reloc.{link_uso, flush_uso}
use dragonuso.Runtime.Handles.{
  insert_uso, remove_uso, is_uso_closeable, uso_get_handle, uso_is_handle_valid,
}
use dragonuso.Runtime.Start.{start_uso, end_uso}

-- The import step of `fixup_uso`, and the link that follows it.
unfoldable pub fixup_imports : Env → Machine → ℕ → Run (Machine × Bool)
fixup_imports env s uso =
    if import_syms s.ram uso == 0
    then done (s, true)
    else let fixed : Machine = record s { ram = ptr_fixup s.ram (uso + 8) uso } in
      fixup_import_syms env fixed (import_syms fixed.ram uso)

unfoldable pub fixup_exports : Bytes → ℕ → Bytes
fixup_exports m uso =
    if export_syms m uso == 0
    then m
    else let fixed = ptr_fixup m (uso + 12) uso in
      fixup_export_syms fixed (export_syms fixed uso) (sections fixed uso)

link_resolved : ℕ → Machine × Bool → Run (Machine × Bool)
link_resolved uso (s, false) = done (s, false)
link_resolved uso (s, true) = do m ← link_uso s.ram uso; done (record s { ram = m }, true)

-- The first steps of `fixup_uso`: the section table, the sections and the exports.
unfoldable pub fixup_tables : Bytes → ℕ → (noload_base : ℕ) → Bytes
fixup_tables m uso noload_base =
    let m₁ = ptr_fixup m (uso + 4) uso in
    fixup_exports (fixup_section_table m₁ (sections m₁ uso) noload_base (num_sections m₁ uso)) uso

unfoldable pub fixup_uso : Env → Machine → ℕ → (noload_base : ℕ) → Run (Machine × Bool)
unfolding link_resolved
fixup_uso env s uso noload_base =
    let exported : Machine = record s { ram = fixup_tables s.ram uso noload_base } in
    do resolved ← fixup_imports env exported uso; link_resolved uso resolved

-- `uso_init` of the file with these bytes; `none` is a file that could not be opened.
unfoldable pub uso_init : Env → Machine → (file : Option (List ℕ)) → Run Machine
uso_init env s file =
    let init : List ℕ → Run Machine = λ bytes.
      let table = env.malloc s (length bytes) in
      done (record s {
        ram = fixup_symbol_table_names (put s.ram table bytes) table;
        global_symbol_table = table;
        list_head = 0;
        list_tail = 0;
        initted = true;
      }) in
    elim file [ some bytes ↦ init bytes | none ↦ assert_failed ]

-- The `uso_load_info_t` in the last 16 bytes of a file.
unfoldable pub read_load_info : List ℕ → LoadInfo
read_load_info bytes =
    let start = length bytes - 16 in
    record {
      uso_size = load_be_u32 bytes start;
      uso_align = load_be_u32 bytes (start + 4);
      noload_size = load_be_u32 bytes (start + 8);
      noload_align = load_be_u32 bytes (start + 12);
    }

-- What `uso_open` does with a file once `fixup_uso` has returned.
unfoldable pub finish_open : Env → Str → (handle : ℕ) → Machine × Bool → Run (Machine × ℕ)
finish_open env filename handle (s, false) = done (
  emit (emit (emit s (reported_load_failure filename)) (freed (handle_uso s.ram handle)))
      (freed handle),
  0,
)
finish_open env filename handle (s, true) =
    let flushed = flush_uso s (handle_uso s.ram handle) in
    let counted : Machine = record flushed { ram = store_u32 flushed.ram (handle + 12) 1 } in
    let inserted = insert_uso counted handle in
    let notified : Machine =
      if inserted.notify_add_func then emit inserted notified_add else inserted in
    done (start_uso env notified (handle_uso notified.ram handle) (handle + 16), handle)

-- The memory for a new file: the handle with its name, and the file's bytes behind zeros.
unfoldable pub load_file : Env → Machine → Str → List ℕ → Machine × ℕ × ℕ
load_file env s filename bytes =
    let info = read_load_info bytes in
    let handle = env.malloc s (40 + length filename + 1) in
    let s₁ : Machine = record s { ram = put s.ram (handle + 40) (filename ++ 0 ∷ []) } in
    let uso = env.memalign s₁ (get_uso_ram_align info) (get_uso_ram_size info) in
    let erased =
      put (store_u32 s₁.ram (handle + 8) uso) uso (replicate (get_uso_ram_size info) 0) in
    (record s₁ { ram = put erased uso (take info.uso_size bytes) }, handle, uso)

unfoldable pub open_new : Env → Machine → Str → List ℕ → Run (Machine × ℕ)
open_new env s filename bytes =
    let (loaded, handle, uso) = load_file env s filename bytes in
    do
      fixed ← fixup_uso env loaded uso (get_uso_noload_start (read_load_info bytes) uso)
      finish_open env filename handle fixed

-- The new state and the handle, 0 if the file could not be opened or loaded.
unfoldable pub uso_open : Env → Machine → Str → Run (Machine × ℕ)
uso_open env s filename =
    let open_file : Run (Machine × ℕ) = elim (env.fopen filename) [
      | some bytes ↦ open_new env s filename bytes
      | none ↦ done (emit s (reported_open_failure filename), 0)
    ] in
    let look : Run (Machine × ℕ) = do
      handle ← uso_get_handle s filename
      (if handle == 0
          then open_file
          else done (
            record s { ram = store_u32 s.ram (handle + 12) (u32 (ref_count s.ram handle + 1)) },
            handle,
          ))
    in if s.initted then look else assert_failed

-- `(uso_handle_t *)(-1)`
abbrev pub uso_handle_any : ℕ
uso_handle_any = 2 ^ 32 - 1

unfoldable pub uso_sym : Env → Machine → ℕ → Str → Run ℕ
uso_sym env s handle name =
    let look : Run ℕ = do
      valid ← uso_is_handle_valid s handle
      (if valid
          then done
              (search_symbol_table env s.ram (export_syms s.ram (handle_uso s.ram handle)) name)
          else assert_failed)
    in if handle == uso_handle_any then search_loaded_symbols env s name false else look

-- The work of `uso_close` on a file that is no longer used.
unfoldable pub unload : Env → Machine → ℕ → Machine
unload env s handle =
    let ended = end_uso env s (handle_uso s.ram handle) in
    let removed = remove_uso ended handle in
    let notified : Machine =
      if removed.notify_remove_func then emit removed notified_remove else removed in
    emit (emit notified (freed (handle_uso notified.ram handle))) (freed handle)

unfoldable pub uso_close : Env → Machine → ℕ → Run Machine
uso_close env s handle =
    let released : Machine =
      if ref_count s.ram handle == 0
      then s
      else record s { ram = store_u32 s.ram (handle + 12) (ref_count s.ram handle - 1) } in
    let close : Run Machine = do
      closeable ← is_uso_closeable env released handle
      done (
          if closeable && ref_count released.ram handle == 0
          then unload env released handle
          else released)
    in do valid ← uso_is_handle_valid s handle; if valid then close else assert_failed
