-- ===== src/Runtime/Api/Loaded.antt =====
-- The list of loaded files when `uso_open` adds a file and when `uso_close` unloads one. The code of
-- the files is taken to leave the list alone.
use dragonuso.Common.{
  All-map, ℕ, ◌+◌, ◌-◌, ◌≤◌, ◌<◌, ◌^◌, ◌≡◌, ◌≢◌, refl, sym, ap, ◌∙◌, inl, inr, Bool, true, false,
  List, [], ◌∷◌, ◌++◌, arith, ◌==◌, if◌then◌else◌, All, Bool-cases,
}
use mathlib.Core.Path.{subst}
use dragonuso.StdLib.{any}
use dragonuso.Text.{Str}
use dragonuso.Bytes.{Apart}
use dragonuso.Elf2uso.Symbols.{dso_handle_name, epilog_name}
use dragonuso.Runtime.Ram.{
  load_u32, handle_uso, ref_count, export_syms, sections, section_entry, section_data, data_size,
}
use dragonuso.Runtime.Ram.Laws.{load_u32-store_self}
use dragonuso.Runtime.Machine.{
  Machine, Env, Event, done, emit, notified_add, notified_remove, finalized, frames_registered,
  data_cache_invalidated, inst_cache_invalidated,
}
use dragonuso.Runtime.Search.{search_symbol_table}
use dragonuso.Runtime.Handles.{remove_uso}
use dragonuso.Runtime.Handles.Chain.{AreApart, Segment-frame}
use dragonuso.Runtime.Handles.Links.{IsLoaded, insert_uso-IsLoaded}
use dragonuso.Runtime.Handles.Remove.{remove_uso-IsLoaded}
use dragonuso.Runtime.Reloc.{flush_sections, flush_uso}
use dragonuso.Runtime.Start.{
  call, call_each, run_ctors, run_dtors, has_frames, ehframe_section, start_uso, end_uso,
}
use dragonuso.Runtime.Api.{finish_open, unload, uso_close}
use dragonuso.Runtime.Api.Close.{with_count, released, released-IsLoaded, in_use, uso_close-loaded}

-- The code of the loaded files leaves a list of files alone.
pub record KeepsList (env : Env) (hs : List ℕ) : Type 0 where
  pub calls : (ptr : ℕ) (s : Machine) → IsLoaded s hs → IsLoaded (env.call ptr s) hs
  pub finalizers : (ptr : ℕ) (s : Machine) → IsLoaded s hs → IsLoaded (env.cxa_finalize ptr s) hs

pub emit-IsLoaded :
    (s : Machine) (event : Event) (hs : List ℕ) → IsLoaded s hs → IsLoaded (emit s event) hs
emit-IsLoaded s event hs is = record { chain = is.chain; separate = is.separate }

-- A step that is made or not.
if-IsLoaded :
    (b : Bool) (s t : Machine) (hs : List ℕ)
    → IsLoaded s hs
    → IsLoaded t hs
    → IsLoaded (if b then s else t) hs
if-IsLoaded true s t hs first second = first
if-IsLoaded false s t hs first second = second

module _ (env : Env) (hs : List ℕ) (keeps : KeepsList env hs) where
  call-IsLoaded : (s : Machine) (func : ℕ) → IsLoaded s hs → IsLoaded (call env s func) hs
  unfolding call
  call-IsLoaded s func is = keeps.calls func (emit s _) (emit-IsLoaded s _ hs is)

  call_each-IsLoaded :
      (s : Machine) (as' : List ℕ) → IsLoaded s hs → IsLoaded (call_each env s as') hs
  unfolding call_each
  call_each-IsLoaded s [] is = is
  call_each-IsLoaded s (a ∷ as') is =
      call_each-IsLoaded (call env s (load_u32 s.ram a)) as' (call-IsLoaded s (load_u32 s.ram a) is)

  run_ctors-IsLoaded : (s : Machine) (uso : ℕ) → IsLoaded s hs → IsLoaded (run_ctors env s uso) hs
  unfolding run_ctors
  run_ctors-IsLoaded s uso is = if-IsLoaded _ _ _ hs (call_each-IsLoaded s _ is) is

  run_dtors-IsLoaded : (s : Machine) (uso : ℕ) → IsLoaded s hs → IsLoaded (run_dtors env s uso) hs
  unfolding run_dtors
  run_dtors-IsLoaded s uso is =
      let dso_handle = search_symbol_table env s.ram (export_syms s.ram uso) dso_handle_name in
      let finalized_is : IsLoaded
          (if dso_handle == 0
            then s
            else env.cxa_finalize dso_handle (emit s (finalized dso_handle)))
          hs =
        if-IsLoaded (dso_handle == 0) s _ hs is
          (keeps.finalizers dso_handle _ (emit-IsLoaded s (finalized dso_handle) hs is)) in
      if-IsLoaded _ _ _ hs (call_each-IsLoaded _ _ finalized_is) finalized_is

  start_uso-IsLoaded :
      (s : Machine) (uso frameobj_data : ℕ)
      → IsLoaded s hs
      → IsLoaded (start_uso env s uso frameobj_data) hs
  unfolding start_uso
  start_uso-IsLoaded s uso frameobj_data is =
      let registered =
        if-IsLoaded (has_frames s.ram (ehframe_section s.ram uso)) _ s hs
          (emit-IsLoaded s
            (frames_registered (section_data s.ram (ehframe_section s.ram uso)) frameobj_data) hs
            is)
          is in
      let constructed = run_ctors-IsLoaded _ uso registered in
      if-IsLoaded _ _ _ hs constructed (call-IsLoaded _ _ constructed)

  end_uso-IsLoaded : (s : Machine) (uso : ℕ) → IsLoaded s hs → IsLoaded (end_uso env s uso) hs
  unfolding end_uso
  end_uso-IsLoaded s uso is =
      let epilog_func = search_symbol_table env s.ram (export_syms s.ram uso) epilog_name in
      let ended =
        if-IsLoaded (epilog_func == 0) s (call env s epilog_func) hs is
          (call-IsLoaded s epilog_func is) in
      let destructed = run_dtors-IsLoaded _ uso ended in
      if-IsLoaded _ _ _ hs (emit-IsLoaded _ _ hs destructed) destructed

pub unload-IsLoaded :
    (env : Env) (s : Machine) (hs ks : List ℕ) (handle : ℕ)
    → KeepsList env (hs ++ handle ∷ ks)
    → IsLoaded s (hs ++ handle ∷ ks)
    → IsLoaded (unload env s handle) (hs ++ ks)
unfolding unload
unload-IsLoaded env s hs ks handle keeps is =
    let ended = end_uso-IsLoaded env (hs ++ handle ∷ ks) keeps s (handle_uso s.ram handle) is in
    let removed = remove_uso-IsLoaded _ hs ks handle ended in
    let notified =
      if-IsLoaded (remove_uso (end_uso env s (handle_uso s.ram handle)) handle).notify_remove_func _
        _ (hs ++ ks) (emit-IsLoaded _ notified_remove (hs ++ ks) removed) removed in
    emit-IsLoaded _ _ (hs ++ ks) (emit-IsLoaded _ _ (hs ++ ks) notified)

pub any-middle : (hs ks : List ℕ) (handle : ℕ) → any (λ h. h == handle) (hs ++ handle ∷ ks) ≡ true
any-middle [] ks handle = ground arith
any-middle (h ∷ hs) ks handle = ground (arith, any-middle hs ks handle)

released_count :
    (s : Machine) (handle : ℕ)
    → ref_count s.ram handle ≤ 1
    → ref_count (released s handle).ram handle ≡ 0
released_count s handle last = elim (Bool-cases (ref_count s.ram handle == 0)) [
  | inl e ↦
      subst
        (λ (b : Bool).
          ref_count (if b then s else with_count s handle (ref_count s.ram handle - 1)).ram handle
          ≡ 0)
        (sym e) (ground arith)
  | inr e ↦
      subst
        (λ (b : Bool).
          ref_count (if b then s else with_count s handle (ref_count s.ram handle - 1)).ram handle
          ≡ 0)
        (sym e)
        (load_u32-store_self s.ram (handle + 12) (ref_count s.ram handle - 1) (omega arith)
          ∙ omega arith)
]

-- `uso_close` of a file in the list of loaded files, whose reference count is at most 1, which has
-- an export table and of which no other file imports a symbol, succeeds, and leaves the list
-- without it, in the same order, if the code of the files leaves the list alone.
pub uso_close-IsLoaded :
    (env : Env) (s : Machine) (hs ks : List ℕ) (handle : ℕ)
    → KeepsList env (hs ++ handle ∷ ks)
    → IsLoaded s (hs ++ handle ∷ ks)
    → ref_count s.ram handle ≤ 1
    → export_syms (released s handle).ram (handle_uso (released s handle).ram handle) ≢ 0
    → in_use env (released s handle) handle (hs ++ handle ∷ ks) ≡ false
    → (s' : Machine) × (uso_close env s handle ≡ done s') × IsLoaded s' (hs ++ ks)
uso_close-IsLoaded env s hs ks handle keeps is last exports unused =
    let mem = any-middle hs ks handle in
    let zero_left : (ref_count (released s handle).ram handle == 0) ≡ true =
      ap (λ (n : ℕ). n == 0) (released_count s handle last) in
    (
      unload env (released s handle) handle,
      uso_close-loaded env s handle (hs ++ handle ∷ ks) is mem exports ∙ rw (unused, zero_left),
      unload-IsLoaded env (released s handle) hs ks handle keeps
          (released-IsLoaded s handle (hs ++ handle ∷ ks) mem is),
    )

flush_sections-IsLoaded :
    (s : Machine) (uso : ℕ) (is' hs : List ℕ)
    → IsLoaded s hs
    → IsLoaded (flush_sections s uso is') hs
unfolding flush_sections
flush_sections-IsLoaded s uso [] hs is = is
flush_sections-IsLoaded s uso (i ∷ is') hs is =
    let entry = section_entry (sections s.ram uso) i in
    let base = section_data s.ram entry in
    let size = data_size s.ram entry in
    flush_sections-IsLoaded
      (emit (emit s (data_cache_invalidated base size)) (inst_cache_invalidated base size)) uso is'
      hs (emit-IsLoaded _ _ hs (emit-IsLoaded s _ hs is))

Apart-count :
    (handle : ℕ) (hs : List ℕ)
    → All (λ k. AreApart k handle) hs
    → All (λ k. Apart k 8 (handle + 12) 4) hs
Apart-count handle hs out = All-map hs (λ k apart. omega arith) out

-- The last part of uso_open, for a file that was fixed up, succeeds and puts its handle at the end
-- of the list of loaded files, if the handle is not NULL and meets none in the list, and the code
-- of the files leaves the new list alone.
pub finish_open-IsLoaded :
    (env : Env) (s : Machine) (filename : Str) (hs : List ℕ) (handle : ℕ)
    → KeepsList env (hs ++ handle ∷ [])
    → IsLoaded s hs
    → handle ≢ 0
    → handle < 2 ^ 32
    → All (λ k. AreApart k handle) hs
    → (s' : Machine) × (finish_open env filename handle (s, true) ≡ done (s', handle))
      × IsLoaded s' (hs ++ handle ∷ [])
unfolding finish_open flush_uso
finish_open-IsLoaded env s filename hs handle keeps is nonnull fits out =
    let flushed = flush_sections-IsLoaded s (handle_uso s.ram handle) _ hs is in
    let counted : IsLoaded (with_count (flush_uso s (handle_uso s.ram handle)) handle 1) hs =
      record {
        chain =
            Segment-frame _ (handle + 12) 1 0 _ _ 0 hs (Apart-count handle hs out) flushed.chain;
        separate = is.separate;
      } in
    let inserted = insert_uso-IsLoaded _ hs handle counted nonnull fits out in
    let notified =
      if-IsLoaded _ _ _ (hs ++ handle ∷ [])
        (emit-IsLoaded _ notified_add (hs ++ handle ∷ []) inserted) inserted in
    (_, refl, start_uso-IsLoaded env (hs ++ handle ∷ []) keeps _ _ (handle + 16) notified)
