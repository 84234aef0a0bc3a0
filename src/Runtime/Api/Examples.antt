-- ===== src/Runtime/Api/Examples.antt =====
-- Two loaded files, one of which is opened again and closed.
use dragonuso.Common.{ℕ, ◌≡◌, refl, inl, true, false, List, [], ◌∷◌, arith}
use dragonuso.Text.{strcmp}
use dragonuso.Bytes.{Bytes, put}
use dragonuso.Runtime.Ram.{
  load_u32, store_u32, string_within, string_at, handle_uso, ref_count, export_syms,
}
use dragonuso.Runtime.Ram.Laws.{IsRam}
use dragonuso.Runtime.Machine.{Machine, done, null_read, ◌>>=◌}
use dragonuso.Runtime.Search.{search_symbol_table}
use dragonuso.Runtime.Handles.{imports_from, is_uso_closeable}
use dragonuso.Runtime.Handles.Links.{IsLoaded}
use dragonuso.Runtime.Handles.Walk.{first_with}
use dragonuso.Runtime.Api.{uso_open, uso_close, finish_open}
use dragonuso.Runtime.Api.Close.{released, in_use, is_uso_closeable-null_read}
use dragonuso.Runtime.Api.Open.{handle_of, uso_close-uso_open}
use dragonuso.Runtime.Api.Loaded.{KeepsList, uso_close-IsLoaded, finish_open-IsLoaded}
use dragonuso.Runtime.Examples.{env, two_files, two_files-IsLoaded, zeros, store-IsRam}

-- The first file lies at 0x1000 and has an empty export table at 0x400.
abbrev pub open_ram : Bytes
open_ram =
    store_u32
      (store_u32 (store_u32 (store_u32 (store_u32 zeros 0x100 0x200) 0x204 0x100) 0x108 0x1000)
        0x10C 1)
      0x100C 0x400

abbrev pub open_files : Machine
open_files = record {
  ram = open_ram;
  list_head = 0x100;
  list_tail = 0x200;
  global_symbol_table = 0;
  initted = true;
  notify_add_func = false;
  notify_remove_func = true;
  events = [];
}

open_ram-IsRam : IsRam open_ram
open_ram-IsRam = store-IsRam _ 0x100C 0x400 (
    store-IsRam _ 0x10C 1 (
      store-IsRam _ 0x108 0x1000
        (store-IsRam _ 0x204 0x100 (store-IsRam zeros 0x100 0x200 λ x. omega arith))))

abbrev pub handles : List ℕ
handles = 0x100 ∷ 0x200 ∷ []

pub open_files-IsLoaded : IsLoaded open_files handles
unfolding load_u32 store_u32 put
open_files-IsLoaded = record {
  chain =
      (refl, omega arith, omega arith, refl, (refl, omega arith, omega arith, refl, (refl, refl)));
  separate = ((inl (omega arith), tt), (tt, tt));
}

-- Both names are empty, and the first handle is found.
found : handle_of open_files [] handles ≡ 0x100
unfolding first_with load_u32 store_u32 put string_within string_at strcmp
found = refl

pub count_one : ref_count open_ram 0x100 ≡ 1
unfolding load_u32 store_u32 put
count_one = refl

exports_at : export_syms open_ram (handle_uso open_ram 0x100) ≡ 0x400
unfolding load_u32 store_u32 put
exports_at = refl

uso_close-uso_open_example :
    (do (s', h) ← uso_open env open_files []; uso_close env s' h) ≡ done open_files
uso_close-uso_open_example =
    uso_close-uso_open env open_files handles open_files-IsLoaded refl [] (rw found (omega arith))
      (rw found (omega (arith, count_one))) (rw found (omega (arith, count_one))) open_ram-IsRam
      (rw found (omega (arith, exports_at)))

pub env-KeepsList : (hs : List ℕ) → KeepsList env hs
env-KeepsList hs = record { calls = λ ptr s is. is; finalizers = λ ptr s is. is }

pub released_exports :
    export_syms (released open_files 0x100).ram (handle_uso (released open_files 0x100).ram 0x100)
    ≡ 0x400
unfolding load_u32 store_u32 put
released_exports = refl

pub not_in_use : in_use env (released open_files 0x100) 0x100 handles ≡ false
unfolding load_u32 store_u32 put in_use imports_from search_symbol_table
not_in_use = refl

uso_close-IsLoaded_example :
    (s' : Machine) × (uso_close env open_files 0x100 ≡ done s') × IsLoaded s' (0x200 ∷ [])
uso_close-IsLoaded_example =
    uso_close-IsLoaded env open_files [] (0x200 ∷ []) 0x100 (env-KeepsList handles)
      open_files-IsLoaded (omega (arith, count_one)) (omega (arith, released_exports)) not_in_use

finish_open-IsLoaded_example :
    (s' : Machine) × (finish_open env [] 0x300 (open_files, true) ≡ done (s', 0x300))
    × IsLoaded s' (0x100 ∷ 0x200 ∷ 0x300 ∷ [])
finish_open-IsLoaded_example =
    finish_open-IsLoaded env open_files [] handles 0x300
      (env-KeepsList (0x100 ∷ 0x200 ∷ 0x300 ∷ [])) open_files-IsLoaded (omega arith) (omega arith)
      (inl (omega arith), (inl (omega arith), tt))

no_exports : export_syms two_files.ram (handle_uso two_files.ram 0x100) ≡ 0
unfolding load_u32 store_u32 put
no_exports = refl

is_uso_closeable-null_read_example : is_uso_closeable env two_files 0x100 ≡ null_read
is_uso_closeable-null_read_example =
    is_uso_closeable-null_read env two_files 0x100 handles two_files-IsLoaded no_exports refl
