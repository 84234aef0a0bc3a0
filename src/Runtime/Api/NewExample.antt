-- ===== src/Runtime/Api/NewExample.antt =====
-- The file with one relocation and two imports is opened.
use dragonuso.Common.{
  ℕ, ◌+◌, ◌*◌, ◌≡◌, ◌≢◌, ◌<◌, refl, sym, inl, some, List, [], ◌∷◌, ◌++◌, arith, All, if◌then◌else◌,
}
use mathlib.Core.Path.{subst}
use dragonuso.Bytes.{Bytes, Apart, put}
use dragonuso.Bsearch.{halving-IsBsearch}
use dragonuso.Text.{strcmp}
use dragonuso.Runtime.Ram.{load_u32, store_u32, string_within, string_at, import_syms, table_length}
use dragonuso.Runtime.Machine.{Machine, Env, done}
use dragonuso.Runtime.Handles.Chain.{AreApart}
use dragonuso.Runtime.Handles.Walk.{first_with}
use dragonuso.Runtime.Handles.Links.{IsLoaded}
use dragonuso.Runtime.Fixup.{
  roundup_value, get_uso_noload_start, get_uso_noload_start_ofs, get_uso_ram_size,
}
use dragonuso.Runtime.Reloc.Link.{KeepsLinks}
use dragonuso.Runtime.Api.{read_load_info, load_file, uso_open, fixup_tables}
use dragonuso.Runtime.Api.Open.{handle_of}
use dragonuso.Runtime.Api.Loaded.{KeepsList}
use dragonuso.Runtime.Api.Fixed.{before_imports, CanImport}
use dragonuso.Runtime.Api.New.{CanOpen, new_handle, all_found, uso_open-new}
use dragonuso.Runtime.Api.FileSample.{
  file_name, file_words, file_machine, files, has_imports, imports_at, lengths,
}
use dragonuso.Runtime.Api.FixedExample.{file-CanImport, Kept, file-KeepsLinks, at_start}
use dragonuso.Runtime.Examples.{env, two_files, symbols_ram, words}

-- The bytes of the file, with its load info.
abbrev file_bytes : List ℕ
file_bytes = words file_words ++ words (0xA0 ∷ 4 ∷ 0 ∷ 1 ∷ [])

abbrev disk : Env
disk = record env {
  malloc = λ s n. 0x700;
  memalign = λ s align n. 0x600;
  fopen = λ name. some file_bytes;
}

abbrev closed : Machine
closed = record two_files { ram = symbols_ram; global_symbol_table = 0x400 }

loaded_lem : load_file disk closed file_name file_bytes ≡ (file_machine, 0x700, 0x600)
unfolding load_file read_load_info get_uso_ram_size get_uso_noload_start_ofs roundup_value
loaded_lem = refl

base_lem : get_uso_noload_start (read_load_info file_bytes) 0x600 ≡ 0x6A0
unfolding read_load_info get_uso_noload_start get_uso_noload_start_ofs roundup_value
base_lem = refl

-- What holds of the loaded file at its address holds of what `load_file` answers.
at_load :
    (P : Machine × ℕ × ℕ → ℕ → Type 0)
    → P (file_machine, 0x700, 0x600) 0x6A0
    → (let r = load_file disk closed file_name file_bytes in
        P r (get_uso_noload_start (read_load_info file_bytes) r.2))
at_load P holds =
    subst (λ (r : Machine × ℕ × ℕ). P r (get_uso_noload_start (read_load_info file_bytes) r.2))
      (sym loaded_lem) (subst (λ (b : ℕ). P (file_machine, 0x700, 0x600) b) (sym base_lem) holds)

-- The memory in front of the import step.
abbrev ram_of : Machine × ℕ × ℕ → ℕ → Bytes
ram_of r b = (before_imports r.0 r.2 b).ram

file-CanOpen : CanOpen disk closed file_name files file_bytes Kept halving-IsBsearch
file-CanOpen = record {
  has_imports =
      at_load (λ (r : Machine × ℕ × ℕ) (b : ℕ). import_syms (fixup_tables r.0.ram r.2 b) r.2 ≢ 0)
        (omega (arith, has_imports));
  can_import =
      at_load
        (λ (r : Machine × ℕ × ℕ) (b : ℕ).
          CanImport (before_imports r.0 r.2 b) files (import_syms (ram_of r b) r.2))
        (at_start
          (λ (m : Bytes). CanImport (record file_machine { ram = m }) files (import_syms m 0x600))
          (rw imports_at file-CanImport));
  links =
      at_load (λ (r : Machine × ℕ × ℕ) (b : ℕ). KeepsLinks Kept (ram_of r b) r.2)
        (at_start (λ (m : Bytes). KeepsLinks Kept m 0x600) file-KeepsLinks);
  entries =
      at_load
        (λ (r : Machine × ℕ × ℕ) (b : ℕ).
          (x : ℕ)
          → Kept x
          → Apart x 1 (import_syms (ram_of r b) r.2 + 4)
              (table_length (ram_of r b) (import_syms (ram_of r b) r.2) * 12))
        (at_start
          (λ (m : Bytes).
            (x : ℕ)
            → Kept x
            → Apart x 1 (import_syms m 0x600 + 4) (table_length m (import_syms m 0x600) * 12))
          (rw (imports_at, lengths.3) (λ x at. omega arith)));
  handles = ((λ x lo hi. inl (omega arith)), ((λ x lo hi. inl (omega arith)), tt));
  nonnull = at_load (λ (r : Machine × ℕ × ℕ) (b : ℕ). r.1 ≢ 0) (omega arith);
  fits = at_load (λ (r : Machine × ℕ × ℕ) (b : ℕ). r.1 < 0x100000000) (omega arith);
  apart =
      at_load (λ (r : Machine × ℕ × ℕ) (b : ℕ). All (λ k. AreApart k r.1) files)
        (inl (omega arith), (inl (omega arith), tt));
}

closed-IsLoaded : IsLoaded closed files
unfolding load_u32 store_u32 put
closed-IsLoaded = record {
  chain =
      (refl, omega arith, omega arith, refl, (refl, omega arith, omega arith, refl, (refl, refl)));
  separate = ((inl (omega arith), tt), (tt, tt));
}

not_loaded : handle_of closed file_name files ≡ 0
unfolding load_u32 store_u32 put string_within string_at strcmp first_with
not_loaded = refl

disk-KeepsList : (hs : List ℕ) → KeepsList disk hs
disk-KeepsList hs = record { calls = λ ptr s is. is; finalizers = λ ptr s is. is }

uso_open-new_example :
    (s' : Machine) × (uso_open disk closed file_name
      ≡ done (
        s',
        if all_found disk closed file_name files file_bytes
            then new_handle disk closed file_name files file_bytes
            else 0,
      ))
    × IsLoaded s' (
        if all_found disk closed file_name files file_bytes
        then files ++ new_handle disk closed file_name files file_bytes ∷ []
        else files)
uso_open-new_example =
    uso_open-new disk closed file_name files file_bytes Kept halving-IsBsearch refl closed-IsLoaded
      not_loaded refl file-CanOpen (disk-KeepsList _)
