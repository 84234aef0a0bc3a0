-- ===== src/Runtime/Api/FileSample.antt =====
-- A file with one relocation and two imports, one of which the main program exports, as it lies in
-- memory.
use dragonuso.Common.{
  All, replicate, ◌++◌, ℕ, zero, suc, ◌+◌, ◌<◌, ◌≡◌, refl, ◌∙◌, inl, inr, true, false, List, [],
  ◌∷◌, arith,
}
use dragonuso.Common.Words.{u32}
use dragonuso.Bytes.{Bytes, Apart, put, put_outside}
use dragonuso.Text.{Str}
use dragonuso.Runtime.Ram.{
  load_u16, load_u32, store_u32, string_within, string_at, table_length, table_entry, symbol_name,
  handle_uso, num_sections, sections, import_syms, uso_get_reloc_type,
}
use dragonuso.Runtime.Ram.Laws.{store_outside}
use dragonuso.Runtime.Machine.{Machine}
use dragonuso.Runtime.Search.Lookup.{IsSortedTable}
use dragonuso.Runtime.Search.Frame.{StringApart, IsSortedTable-ext}
use dragonuso.Runtime.Handles.Links.{IsLoaded}
use dragonuso.Runtime.Handles.Resolve.{exports_of}
use dragonuso.Runtime.Reloc.{r_mips_32}
use dragonuso.Runtime.Reloc.Memory.{target_at, type_at}
use dragonuso.Runtime.Reloc.Link.{data_at, relocs_at}
use dragonuso.Runtime.Fixup.{
  ptr_fixup, fixup_nonnull, fixup_section, fixup_sections, fixup_section_table,
}
use dragonuso.Runtime.Fixup.ImportExamples.{below_two}
use dragonuso.Runtime.Api.{fixup_exports, fixup_tables}
use dragonuso.Runtime.Api.Fixed.{before_imports}
use dragonuso.Runtime.Examples.{two_files, symbols_ram, symbols_ram-IsSortedTable, words}

-- From 0x600 on: the header, two sections, the imports "b" and "c", data and a relocation of it.
abbrev pub file_words : List ℕ
file_words =
    0x20000 ∷ 0x20 ∷ 0x48 ∷ 0 ∷ 0 ∷ 0 ∷ 0 ∷ 0 ∷ 0 ∷ 0 ∷ 0 ∷ 0 ∷ 0 ∷ 0x60 ∷ 8 ∷ 4 ∷ 0x70 ∷ 0 ∷ 2
    ∷ 0x1C ∷ 0 ∷ 0 ∷ 0x1E ∷ 0 ∷ 0 ∷ 0x62006300 ∷ 0 ∷ 0 ∷ 0 ∷ 0 ∷ 0 ∷ 0 ∷ 0 ∷ 0 ∷ 0 ∷ 0 ∷ 1 ∷ 0
    ∷ 0x08000001 ∷ 4 ∷ []

abbrev pub file_name : Str
file_name = b'm' ∷ []

abbrev pub no_data : List ℕ
no_data = replicate 0xA0 0

pub no_data-fit : All (λ b. b < 256) no_data
no_data-fit = all_zero 0xA0
  where
    all_zero : (n : ℕ) → All (λ b. b < 256) (replicate n 0)
    all_zero zero = tt
    all_zero (suc n) = (omega arith, all_zero n)

-- The handle of the file is at 0x700.
abbrev pub handle_ram : Bytes
handle_ram = store_u32 (put symbols_ram 0x728 (file_name ++ 0 ∷ [])) 0x708 0x600

abbrev pub file_machine : Machine
file_machine = record two_files {
  ram = put (put handle_ram 0x600 no_data) 0x600 (words file_words);
  global_symbol_table = 0x400;
}

abbrev pub files : List ℕ
files = 0x100 ∷ 0x200 ∷ []

-- The memory with the pointers of the header and of the section.
abbrev pub started_ram : Bytes
started_ram =
    store_u32
      (store_u32
        (store_u32 (store_u32 (store_u32 file_machine.ram 0x604 0x620) 0x634 0x680) 0x640 0x690)
        0x620 0)
      0x608 0x648

pub started_lem : (before_imports file_machine 0x600 0x6A0).ram ≡ started_ram
unfolding fixup_tables fixup_section_table fixup_sections fixup_section fixup_nonnull fixup_exports
    ptr_fixup load_u16 load_u32 store_u32 put
started_lem = refl

pub has_imports : import_syms (fixup_tables file_machine.ram 0x600 0x6A0) 0x600 ≡ 0x48
unfolding fixup_tables fixup_section_table fixup_sections fixup_section fixup_nonnull fixup_exports
    ptr_fixup load_u16 load_u32 store_u32 put
has_imports = refl

-- The words that are read.
pub imports_at : import_syms started_ram 0x600 ≡ 0x648
unfolding load_u32 store_u32 put
imports_at = refl

pub lengths :
    (table_length started_ram 0 ≡ 0)
    × (table_length started_ram 0x400 ≡ 2)
    × (table_length symbols_ram 0x400 ≡ 2)
    × (table_length started_ram 0x648 ≡ 2)
    × (table_length started_ram 0x690 ≡ 1)
unfolding load_u32 store_u32 put
lengths = (refl, refl, refl, refl, refl)

pub no_files :
    (handle_uso started_ram 0x100 ≡ 0)
    × (handle_uso started_ram 0x200 ≡ 0)
    × (exports_of started_ram 0x100 ≡ 0)
    × (exports_of started_ram 0x200 ≡ 0)
unfolding load_u32 store_u32 put
no_files = (refl, refl, refl, refl)

pub section_words :
    (num_sections started_ram 0x600 ≡ 2)
    × (sections started_ram 0x600 ≡ 0x620)
    × (data_at started_ram 0x600 1 ≡ 0x680)
    × (relocs_at started_ram 0x600 1 true ≡ 0x690)
    × (relocs_at started_ram 0x600 1 false ≡ 0)
    × (type_at started_ram 0x690 0 ≡ r_mips_32)
    × (target_at started_ram 0x680 0x690 0 ≡ 0x680)
unfolding load_u16 load_u32 store_u32 put uso_get_reloc_type
section_words = (refl, refl, refl, refl, refl, refl, refl)

pub file_IsLoaded : IsLoaded (record file_machine { ram = started_ram }) files
unfolding load_u32 store_u32 put
file_IsLoaded = record {
  chain =
      (refl, omega arith, omega arith, refl, (refl, omega arith, omega arith, refl, (refl, refl)));
  separate = ((inl (omega arith), tt), (tt, tt));
}

pub global_names :
    (i : ℕ)
    → i < 2
    → StringApart started_ram (symbol_name started_ram (table_entry 0x400 i)) 0x64C 24
unfolding load_u32 store_u32 put string_within string_at
global_names = below_two _ (inl (omega arith)) (inl (omega arith))

pub global_names_before :
    (i : ℕ)
    → i < 2
    → StringApart symbols_ram (symbol_name symbols_ram (table_entry 0x400 i)) 0x600 0x140
unfolding load_u32 store_u32 put string_within string_at
global_names_before = below_two _ (inl (omega arith)) (inl (omega arith))

pub import_names :
    (i : ℕ)
    → i < 2
    → StringApart started_ram (u32 (0x648 + symbol_name started_ram (table_entry 0x648 i))) 0x64C 24
unfolding load_u32 store_u32 put string_within string_at
import_names = below_two _ (inr (omega arith)) (inr (omega arith))

-- The file stands behind what "symbols_ram" has.
pub symbols_same : (x : ℕ) → Apart x 1 0x600 0x140 → started_ram x ≡ symbols_ram x
symbols_same x out =
    store_outside _ 0x608 0x648 x (omega arith)
    ∙ store_outside _ 0x620 0 x (omega arith)
    ∙ store_outside _ 0x640 0x690 x (omega arith)
    ∙ store_outside _ 0x634 0x680 x (omega arith)
    ∙ store_outside _ 0x604 0x620 x (omega arith)
    ∙ put_outside (put handle_ram 0x600 no_data) 0x600 (words file_words) x (omega arith)
    ∙ put_outside handle_ram 0x600 no_data x (omega arith)
    ∙ store_outside _ 0x708 0x600 x (omega arith)
    ∙ put_outside symbols_ram 0x728 (file_name ++ 0 ∷ []) x (omega arith)

pub global-IsSortedTable : IsSortedTable started_ram 0x400
global-IsSortedTable =
    IsSortedTable-ext symbols_ram started_ram 0x600 0x140 symbols_same 0x400
      (record {
        entries = inl (omega (arith, lengths.2));
        names = λ i lt. global_names_before i (omega (arith, lengths.2));
      })
      symbols_ram-IsSortedTable
