-- ===== src/Runtime/Start.antt =====
-- The functions of src/uso.c that run the code of a file when it is opened and closed.
pub mod Pointers
pub mod Order
mod Examples
use dragonuso.Common.{
  ℕ, zero, suc, ◌+◌, ◌-◌, ◌/◌, Bool, ◌&&◌, not, List, [], ◌∷◌, ◌==◌, ltb, if◌then◌else◌,
}
use dragonuso.Common.Words.{u32}
use dragonuso.Bytes.{Bytes}
use dragonuso.Elf2uso.Symbols.{dso_handle_name, prolog_name, epilog_name}
use dragonuso.Runtime.Ram.{
  load_u32, sections, section_entry, section_data, data_size, ctors_section, dtors_section,
  eh_frame_section, export_syms,
}
use dragonuso.Runtime.Machine.{
  Machine, Env, emit, called, finalized, frames_registered, frames_deregistered,
}
use dragonuso.Runtime.Search.{search_symbol_table}

unfoldable pub call : Env → Machine → ℕ → Machine
call env s func = env.call func (emit s (called func))

-- The loops over the function pointers at these addresses. The pointer is read when it is called.
unfoldable pub call_each : Env → Machine → List ℕ → Machine
call_each env s [] = s
call_each env s (a ∷ as') = call_each env (call env s (load_u32 s.ram a)) as'

-- The addresses of `n` pointers from `start` on, and of `n` pointers down from in front of `end`.
unfoldable pub pointers_up : ℕ → ℕ → List ℕ
pointers_up start zero = []
pointers_up start (suc n) = start ∷ pointers_up (start + 4) n

unfoldable pub pointers_down : ℕ → ℕ → List ℕ
pointers_down end zero = []
pointers_down end (suc n) = (end - 4) ∷ pointers_down (end - 4) n

-- The loop runs as long as a whole pointer stands between the start and where it is. In both loops,
-- no section begins in the first four bytes of the address space or ends in the last four.
unfoldable pub run_ctors : Env → Machine → ℕ → Machine
run_ctors env s uso =
    let section = section_entry (sections s.ram uso) (ctors_section s.ram uso) in
    let start = section_data s.ram section in
    let size = data_size s.ram section in
    let end = u32 (start + size) in
    if not (start == 0) && ltb 0 size
    then call_each env s (pointers_down end ((end - start) / 4))
    else s

-- `__cxa_finalize` runs first, if the file has a `__dso_handle`. The loop runs as long as a pointer
-- begins in front of the end.
unfoldable pub run_dtors : Env → Machine → ℕ → Machine
run_dtors env s uso =
    let dso_handle = search_symbol_table env s.ram (export_syms s.ram uso) dso_handle_name in
    let s₁ : Machine =
      if dso_handle == 0 then s else env.cxa_finalize dso_handle (emit s (finalized dso_handle)) in
    let section = section_entry (sections s₁.ram uso) (dtors_section s₁.ram uso) in
    let start = section_data s₁.ram section in
    let size = data_size s₁.ram section in
    let end = u32 (start + size) in
    if not (start == 0) && ltb 0 size
    then call_each env s₁ (pointers_up start ((end - start + 3) / 4))
    else s₁

-- The entry of the exception frames, and whether it has any.
abbrev pub ehframe_section : Bytes → ℕ → ℕ
ehframe_section m uso = section_entry (sections m uso) (eh_frame_section m uso)

abbrev pub has_frames : Bytes → ℕ → Bool
has_frames m section = not (section_data m section == 0) && ltb 0 (data_size m section)

unfoldable pub start_uso : Env → Machine → ℕ → (frameobj_data : ℕ) → Machine
start_uso env s uso frameobj_data =
    let section = ehframe_section s.ram uso in
    let s₁ : Machine =
      if has_frames s.ram section
      then emit s (frames_registered (section_data s.ram section) frameobj_data)
      else s in
    let s₂ = run_ctors env s₁ uso in
    let prolog_func = search_symbol_table env s₂.ram (export_syms s₂.ram uso) prolog_name in
    if prolog_func == 0 then s₂ else call env s₂ prolog_func

unfoldable pub end_uso : Env → Machine → ℕ → Machine
end_uso env s uso =
    let section = ehframe_section s.ram uso in
    let epilog_func = search_symbol_table env s.ram (export_syms s.ram uso) epilog_name in
    let s₁ : Machine = if epilog_func == 0 then s else call env s epilog_func in
    let s₂ = run_dtors env s₁ uso in
    if has_frames s₂.ram section
    then emit s₂ (frames_deregistered (section_data s₂.ram section))
    else s₂
