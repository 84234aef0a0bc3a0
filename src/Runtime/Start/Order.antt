-- ===== src/Runtime/Start/Order.antt =====
-- The order in which `start_uso` and `end_uso` run the code of a file.
use mathlib.Core.List.{append-nil, append_assoc}
use dragonuso.Common.{
  ℕ, ◌+◌, ◌-◌, ◌/◌, ◌≡◌, refl, ap, ◌∙◌, inl, inr, Bool, true, false, List, [], ◌∷◌, ◌++◌, map,
  arith, ◌==◌, if◌then◌else◌, Bool-cases,
}
use dragonuso.Common.Words.{u32}
use dragonuso.Bytes.{Bytes}
use dragonuso.Elf2uso.Symbols.{dso_handle_name, prolog_name, epilog_name}
use dragonuso.Text.{Str}
use dragonuso.Runtime.Ram.{
  load_u32, sections, section_entry, section_data, data_size, ctors_section, dtors_section,
  export_syms,
}
use dragonuso.Runtime.Machine.{
  Machine, Env, Event, emit, called, finalized, frames_registered, frames_deregistered,
}
use dragonuso.Runtime.Search.{search_symbol_table}
use dragonuso.Runtime.Start.Pointers.{
  holds_functions, FitsMemory, ctors_of, dtors_of, map-pointers_up, map-pointers_down, not_wrapped,
}
use dragonuso.Runtime.Start.{
  call, call_each, pointers_up, pointers_down, run_ctors, run_dtors, has_frames, ehframe_section,
  start_uso, end_uso,
}

-- The code of the files changes nothing that the library sees.
pub record IsQuiet (env : Env) : Type 0 where
  pub calls : (ptr : ℕ) (s : Machine) → env.call ptr s ≡ s
  pub finalizers : (ptr : ℕ) (s : Machine) → env.cxa_finalize ptr s ≡ s

abbrev pub with_events : Machine → List Event → Machine
with_events s events = record s { events = s.events ++ events }

-- The event of a function that the file exports under a name, if it does.
abbrev pub exported_call : Env → Bytes → ℕ → Str → (ℕ → Event) → List Event
exported_call env m uso name event =
    let func = search_symbol_table env m (export_syms m uso) name in
    if func == 0 then [] else event func ∷ []

-- The event of the exception frames, if the file has any.
abbrev pub frames_event : Bytes → ℕ → (ℕ → Event) → List Event
frames_event m uso event =
    let section = ehframe_section m uso in
    if has_frames m section then event (section_data m section) ∷ [] else []

module _ (env : Env) (quiet : IsQuiet env) where
  call_quiet : (s : Machine) (func : ℕ) → call env s func ≡ with_events s (called func ∷ [])
  unfolding call
  call_quiet s func = quiet.calls func (emit s (called func))

  call_each_quiet :
      (s : Machine) (as' : List ℕ)
      → call_each env s as' ≡ with_events s (map called (map (load_u32 s.ram) as'))
  unfolding call_each
  call_each_quiet s [] = rw append-nil
  call_each_quiet s (a ∷ as') =
      ap (λ (t : Machine). call_each env t as') (call_quiet s (load_u32 s.ram a))
      ∙ call_each_quiet (with_events s (called (load_u32 s.ram a) ∷ [])) as'
      ∙ rw append_assoc

  run_ctors_quiet :
      (s : Machine) (uso : ℕ)
      → FitsMemory s.ram (section_entry (sections s.ram uso) (ctors_section s.ram uso))
      → run_ctors env s uso ≡ with_events s (map called (ctors_of s.ram uso))
  unfolding run_ctors ctors_of
  run_ctors_quiet s uso fits =
      let section = section_entry (sections s.ram uso) (ctors_section s.ram uso) in
      let start = section_data s.ram section in
      let size = data_size s.ram section in
      elim (Bool-cases (holds_functions s.ram section)) [
        | inl filled ↦
            let wraps = not_wrapped s.ram section filled fits in
            let whole : start + size - start ≡ size = omega arith in
            rw (filled, wraps, whole)
              (call_each_quiet s (pointers_down (start + size) (size / 4))
                ∙ ap (λ (fs : List ℕ). with_events s (map called fs))
                    (map-pointers_down (load_u32 s.ram) (start + size) (size / 4)))
        | inr empty ↦ rw (empty, append-nil)
      ]

  if_emitted :
      (b : Bool) (s : Machine) (event : Event)
      → (if b then emit s event else s) ≡ with_events s (if b then event ∷ [] else [])
  if_emitted true s event = refl
  if_emitted false s event = rw append-nil

  exported_call_quiet :
      (s : Machine) (uso : ℕ) (name : Str)
      → (let func = search_symbol_table env s.ram (export_syms s.ram uso) name in
          (if func == 0 then s else call env s func)
          ≡ with_events s (exported_call env s.ram uso name called))
  exported_call_quiet s uso name =
      let func = search_symbol_table env s.ram (export_syms s.ram uso) name in
      elim (Bool-cases (func == 0)) [
        | inl missing ↦ rw (missing, append-nil)
        | inr there ↦ rw (there, call_quiet)
      ]

  with_events_append :
      (s : Machine) (xs ys : List Event)
      → with_events (with_events s xs) ys ≡ with_events s (xs ++ ys)
  with_events_append s xs ys = rw append_assoc

  -- With code of the files that changes nothing the library sees, start_uso registers the exception
  -- frames of the file if it has any, then calls the constructors, from the word that ends where
  -- their section ends down to the first whole word in it, then its _prolog if it exports one, and
  -- does nothing else, if the section of the constructors, where it has an address, neither begins
  -- in the first four bytes of the address space nor ends in the last four.
  pub start_uso-quiet :
      (s : Machine) (uso frameobj_data : ℕ)
      → FitsMemory s.ram (section_entry (sections s.ram uso) (ctors_section s.ram uso))
      → start_uso env s uso frameobj_data
        ≡ with_events s (
            frames_event s.ram uso (λ frames. frames_registered frames frameobj_data)
            ++ (map called (ctors_of s.ram uso) ++ exported_call env s.ram uso prolog_name called))
  unfolding start_uso
  start_uso-quiet s uso frameobj_data fits =
      let section = ehframe_section s.ram uso in
      let registered =
        if_emitted (has_frames s.ram section) s
          (frames_registered (section_data s.ram section) frameobj_data) in
      let frames = frames_event s.ram uso (λ frames. frames_registered frames frameobj_data) in
      let ctors = map called (ctors_of s.ram uso) in
      rw (registered, run_ctors_quiet (with_events s frames) uso fits)
        (exported_call_quiet (with_events (with_events s frames) ctors) uso prolog_name
          ∙ with_events_append (with_events s frames) ctors _
          ∙ with_events_append s frames _)

  -- `__cxa_finalize` of the file, if it has a `__dso_handle`.
  finalized_quiet :
      (s : Machine) (uso : ℕ)
      → (let dso_handle = search_symbol_table env s.ram (export_syms s.ram uso) dso_handle_name in
          (if dso_handle == 0
            then s
            else env.cxa_finalize dso_handle (emit s (finalized dso_handle)))
          ≡ with_events s (exported_call env s.ram uso dso_handle_name finalized))
  finalized_quiet s uso =
      let dso_handle = search_symbol_table env s.ram (export_syms s.ram uso) dso_handle_name in
      elim (Bool-cases (dso_handle == 0)) [
        | inl missing ↦ rw (missing, append-nil)
        | inr there ↦ rw (there, quiet.finalizers)
      ]

  call_dtors_quiet :
      (s : Machine) (uso : ℕ)
      → FitsMemory s.ram (section_entry (sections s.ram uso) (dtors_section s.ram uso))
      → (let section = section_entry (sections s.ram uso) (dtors_section s.ram uso) in
          let start = section_data s.ram section in
          (if holds_functions s.ram section
            then call_each env s
                (pointers_up start ((u32 (start + data_size s.ram section) - start + 3) / 4))
            else s)
          ≡ with_events s (map called (dtors_of s.ram uso)))
  unfolding dtors_of
  call_dtors_quiet s uso fits =
      let section = section_entry (sections s.ram uso) (dtors_section s.ram uso) in
      let start = section_data s.ram section in
      let size = data_size s.ram section in
      elim (Bool-cases (holds_functions s.ram section)) [
        | inl filled ↦
            let wraps = not_wrapped s.ram section filled fits in
            let whole : start + size - start ≡ size = omega arith in
            rw (filled, wraps, whole)
              (call_each_quiet s (pointers_up start ((size + 3) / 4))
                ∙ ap (λ (fs : List ℕ). with_events s (map called fs))
                    (map-pointers_up (load_u32 s.ram) start ((size + 3) / 4)))
        | inr empty ↦ rw (empty, append-nil)
      ]

  run_dtors_quiet :
      (s : Machine) (uso : ℕ)
      → FitsMemory s.ram (section_entry (sections s.ram uso) (dtors_section s.ram uso))
      → run_dtors env s uso
        ≡ with_events s (
            exported_call env s.ram uso dso_handle_name finalized
            ++ map called (dtors_of s.ram uso))
  unfolding run_dtors
  run_dtors_quiet s uso fits =
      let ended = exported_call env s.ram uso dso_handle_name finalized in
      rw (finalized_quiet s uso) (
        call_dtors_quiet (with_events s ended) uso fits
        ∙ with_events_append s ended (map called (dtors_of s.ram uso)))

  -- With code of the files that changes nothing the library sees, end_uso calls the _epilog of the
  -- file if it exports one, then __cxa_finalize for its __dso_handle if it has one, then the
  -- destructors, from the word where their section starts up to the last one that begins in it,
  -- then deregisters the exception frames if it has any, and does nothing else, if the section of
  -- the destructors, where it has an address, neither begins in the first four bytes of the address
  -- space nor ends in the last four.
  pub end_uso-quiet :
      (s : Machine) (uso : ℕ)
      → FitsMemory s.ram (section_entry (sections s.ram uso) (dtors_section s.ram uso))
      → end_uso env s uso
        ≡ with_events s (
            exported_call env s.ram uso epilog_name called
            ++ (exported_call env s.ram uso dso_handle_name finalized
                ++ (map called (dtors_of s.ram uso) ++ frames_event s.ram uso frames_deregistered)))
  unfolding end_uso
  end_uso-quiet s uso fits =
      let section = ehframe_section s.ram uso in
      let epilog = exported_call env s.ram uso epilog_name called in
      let ended = exported_call env s.ram uso dso_handle_name finalized in
      let dtors = map called (dtors_of s.ram uso) in
      rw (exported_call_quiet s uso epilog_name, run_dtors_quiet (with_events s epilog) uso fits)
        (if_emitted (has_frames s.ram section) (with_events (with_events s epilog) (ended ++ dtors))
            (frames_deregistered (section_data s.ram section))
          ∙ with_events_append (with_events s epilog) (ended ++ dtors) _
          ∙ with_events_append s epilog _
          ∙ rw append_assoc)
