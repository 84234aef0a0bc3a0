-- ===== src/GlobalSyms.antt =====
-- tools/make_global_syms.cpp, which writes the symbols of the main program to a symbol table. Its
-- structures and its functions for sections, swaps and symbol tables have the same text as those
-- of tools/elf2uso.cpp, and are those here.
pub mod Names
pub mod Collect
pub mod Exported
use dragonuso.Common.{
  ℕ, ◌+◌, ◌*◌, ◌%◌, ◌^◌, Bool, true, false, ◌&&◌, not, Option, none, some, List, [], ◌==◌,
  if◌then◌else◌, length,
}
use dragonuso.Common.Words.{u32}
use dragonuso.Bytes.Stdio.{File, empty_file}
use dragonuso.StdLib.{Algorithms}
use dragonuso.Swap.{Endian}
use dragonuso.Text.{Str}
use dragonuso.Elfio.{Elfio, shn_undef, elfclass32, elfdata2msb, em_mips, et_exec}
use dragonuso.Elf2uso.State.{SymbolInfo}
use dragonuso.Elf2uso.Check
use dragonuso.Elf2uso.Symbols.{sym_compare}
use dragonuso.Elf2uso.Output
use Collect.{
  Result, ok, exit, Failure, usage, load_failed, invalid_elf, open_failed, ◌>>=◌, sym_collect,
}

unfoldable pub elf_find_section : Elfio → Str → ℕ
elf_find_section = Check.elf_find_section

-- The index of the symbol table, and whether the file is an executable for the console.
unfoldable pub elf_valid : Elfio → ℕ × Bool
elf_valid elf =
    let index = elf_find_section elf Check.symtab_name in
    if index == shn_undef then (index, false) else (
      index,
      elf.class == elfclass32
          && elf.encoding == elfdata2msb
          && elf.machine == em_mips
          && elf.type == et_exec,
    )

unfoldable pub uso_write_symbol_table_count : Endian → File → ℕ → ℕ → File
uso_write_symbol_table_count = Output.uso_write_u32

unfoldable pub uso_write_symbol_table : Endian → File → ℕ → List SymbolInfo → File
uso_write_symbol_table e file ofs syms =
    Output.write_symbols e (uso_write_symbol_table_count e file ofs (u32 (length syms))) ofs 0
      (u32 (4 + length syms * 12)) syms

unfoldable pub global_sym_write : Endian → (can_open : Bool) → List SymbolInfo → Result File
global_sym_write e can_open syms =
    if can_open then ok (uso_write_symbol_table e empty_file 0 syms) else exit open_failed

-- `main`: `loaded` is the ELF file if it could be read.
module _ (lib : Algorithms SymbolInfo sym_compare) where
  unfoldable pub convert : Elfio → Result (List SymbolInfo)
  convert elf =
      let (index, valid) = elf_valid elf in
      if valid then sym_collect lib elf index else exit invalid_elf

  unfoldable pub main : Endian → ℕ → Option Elfio → Bool → Result File
  main e argc loaded can_open =
      let run : Elfio → Result File = λ elf. do syms ← convert elf; global_sym_write e can_open syms
      in if not (argc == 3)
        then exit usage
        else elim loaded [ some elf ↦ run elf | none ↦ exit load_failed ]
