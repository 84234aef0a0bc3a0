-- ===== src/Elf2uso/State.antt =====
-- The structures and the global variables of tools/elf2uso.cpp.
use dragonuso.Common.Outcome.{Outcome}
pub use dragonuso.Common.Outcome.{ok, exit, ◌>>=◌}
use dragonuso.Common.{ℕ, Bool, Option, List, []}
use dragonuso.Text.{Str}
use dragonuso.StdMap.{Map, no_entries}

-- `uso_reloc_t`. The upper 6 bits of `info` are the type, the lower 26 a symbol or section index.
pub record UsoReloc : Type 0 where
  pub offset : ℕ
  pub info : ℕ
  pub sym_offset : ℕ

-- `section_info`; `contents` is the pointer `data`, `none` for NULL.
pub record SectionInfo : Type 0 where
  pub reloc_elf_section : ℕ
  pub internal_relocs : List UsoReloc
  pub external_relocs : List UsoReloc
  pub contents : Option (List ℕ)
  pub size : ℕ
  pub align : ℕ

-- `symbol_info`
pub record SymbolInfo : Type 0 where
  pub src_symbol : ℕ
  pub name : Str
  pub section : ℕ
  pub weak : Bool
  pub addr : ℕ

-- The global variables, but for `elf_reader`.
pub record Globals : Type 0 where
  pub out_section_map : Map
  pub out_sections : List SectionInfo
  pub import_syms : List SymbolInfo
  pub export_syms : List SymbolInfo
  pub import_sym_map : Map
  pub elf_symbol_sec_index : ℕ

-- The variables when the program starts.
abbrev pub initial : Globals
initial = record {
  out_section_map = no_entries;
  out_sections = [];
  import_syms = [];
  export_syms = [];
  import_sym_map = no_entries;
  elf_symbol_sec_index = 0;
}

-- The reasons for which the tool ends with exit status 1.
pub data Failure : Type 0 where
  name_too_long : ℕ → Failure
  disallowed_import : Str → Failure
  null_absolute : Failure
  usage : Failure
  load_failed : Failure
  invalid_elf : Failure
  common_used : Failure
  gp_relative : Failure
  open_failed : Failure

abbrev pub Result : Type 0 → Type 0
Result = Outcome Failure
