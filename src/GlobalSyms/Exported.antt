-- ===== src/GlobalSyms/Exported.antt =====
-- `sym_collect` of tools/make_global_syms.cpp against the symbols that the main program exports.
use dragonuso.Common.{
  ℕ, ◌≡◌, inl, inr, Bool, false, ◌&&◌, not, Option, none, some, List, [], ◌∷◌, ◌++◌, ◌==◌,
  if◌then◌else◌, arith, Bool-cases, Option-cases, count_from,
}
use mathlib.Core.List.{append-nil, append_assoc}
use dragonuso.Common.Words.{u32}
use dragonuso.StdLib.{Algorithms}
use dragonuso.Text.{Str}
use dragonuso.Elfio.{Elfio, ElfSymbol, shn_undef, stb_local}
use dragonuso.Elf2uso.State.{SymbolInfo}
use dragonuso.Elf2uso.Symbols.{sym_compare}
use dragonuso.GlobalSyms.Collect.{
  Result, ok, exit, null_address, sym_is_exported, collect_symbol, collect_symbols, sym_collect,
}

-- A symbol that is not local and has a section, but the address 0.
abbrev pub is_null : ElfSymbol → Bool
is_null sym =
    not (sym.bind == stb_local) && (not (sym.section_index == shn_undef) && sym.value == 0)

-- A symbol that is not local, has an address, and is not in the list of names to leave out.
abbrev pub is_exported : ElfSymbol → Bool
is_exported sym = not (sym.bind == stb_local) && (not (sym.value == 0) && sym_is_exported sym.name)

abbrev pub export_of : ℕ → ElfSymbol → SymbolInfo
export_of i sym = record {
  src_symbol = u32 i;
  name = sym.name;
  section = 0;
  weak = false;
  addr = sym.value;
}

-- The exported symbols among these indices.
unfoldable pub exported : Elfio → ℕ → List ℕ → List SymbolInfo
exported elf index [] = []
exported elf index (i ∷ is) =
    let rest = exported elf index is in
    if is_exported (elf.get_symbol index i)
    then export_of i (elf.get_symbol index i) ∷ rest
    else rest

-- The name of the first symbol with the address 0 among these indices.
unfoldable pub first_null : Elfio → ℕ → List ℕ → Option Str
first_null elf index [] = none
first_null elf index (i ∷ is) =
    let rest = first_null elf index is in
    if is_null (elf.get_symbol index i) then some (elf.get_symbol index i).name else rest

collect_symbol_lem :
    (syms : List SymbolInfo) (i : ℕ) (sym : ElfSymbol)
    → collect_symbol syms i sym ≡ (
        if is_null sym
        then exit (null_address sym.name)
        else ok (if is_exported sym then syms ++ (export_of i sym ∷ []) else syms))
unfolding collect_symbol
collect_symbol_lem syms i sym = ground arith

-- What a search for the first null address makes of the collected symbols.
abbrev pub unless_null : Option Str → List SymbolInfo → Result (List SymbolInfo)
unless_null null syms = elim null [ some name ↦ exit (null_address name) | none ↦ ok syms ]

collect_symbols-exported :
    (elf : Elfio) (index : ℕ) (syms : List SymbolInfo) (is : List ℕ)
    → collect_symbols elf index syms is
      ≡ unless_null (first_null elf index is) (syms ++ exported elf index is)
unfolding collect_symbols exported first_null
collect_symbols-exported elf index syms [] = rw append-nil
collect_symbols-exported elf index syms (i ∷ is) =
    let sym = elf.get_symbol index i in
    elim (Bool-cases (is_null sym)) [
      | inl null ↦ rw (collect_symbol_lem syms i sym, null)
      | inr fine ↦ elim (Bool-cases (is_exported sym)) [
        | inl yes' ↦
            rw
              (
                collect_symbol_lem syms i sym,
                fine,
                yes',
                collect_symbols-exported elf index (syms ++ (export_of i sym ∷ [])) is,
              )
              (rw append_assoc)
        | inr no' ↦
            rw (collect_symbol_lem syms i sym, fine, no')
              (collect_symbols-exported elf index syms is)
      ]
    ]

-- `sym_collect` of make_global_syms ends the program with the first symbol that is not local and
-- has a section but the address 0, if there is one, and else returns the sorted list of exactly the
-- symbols that are not local, have an address, and are not in the list of names to leave out, with
-- names of any length: one of more than 32767 characters, on which the code only prints a message,
-- is in the list as well.
pub sym_collect-exported :
    (lib : Algorithms SymbolInfo sym_compare) (elf : Elfio) (index : ℕ)
    → (let all = count_from 0 (elf.get_symbols_num index) in
        sym_collect lib elf index
        ≡ unless_null (first_null elf index all) (lib.sort (exported elf index all)))
unfolding sym_collect
sym_collect-exported lib elf index =
    let all = count_from 0 (elf.get_symbols_num index) in
    elim (Option-cases (first_null elf index all)) [
      | inl fine ↦ rw (collect_symbols-exported elf index [] all, fine)
      | inr (name, null) ↦ rw (collect_symbols-exported elf index [] all, null)
    ]
