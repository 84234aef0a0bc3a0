-- ===== src/Elf2uso/Check.antt =====
-- The checks of the input file in tools/elf2uso.cpp.
pub mod First
pub mod Convertible
use dragonuso.Common.{
  ℕ, suc, Bool, false, ◌&&◌, ◌||◌, List, [], ◌∷◌, ◌==◌, ltb, if◌then◌else◌, not, get_elem?, none,
  some, count_from,
}
use dragonuso.StdLib.{any}
use dragonuso.Text.{Str, str_eq}
use dragonuso.Elfio.{
  Elfio, ElfSection, shn_undef, shn_common, sht_rel, elfclass32, elfdata2msb, em_mips, et_rel,
}
use dragonuso.Elf2uso.State.{Globals}

-- The loop of `elf_find_section` from index `i` on.
find_from : Str → ℕ → List ElfSection → ℕ
find_from name i [] = shn_undef
find_from name i (s ∷ ss) = if str_eq s.name name then i else find_from name (suc i) ss

-- Section 0 is not looked at.
find_in : Str → List ElfSection → ℕ
unfolding find_from
find_in name [] = shn_undef
find_in name (s ∷ ss) = find_from name 1 ss

unfoldable pub elf_find_section : Elfio → Str → ℕ
unfolding find_in
elf_find_section elf name = find_in name elf.sections

-- ".symtab"
abbrev pub symtab_name : Str
symtab_name = b'.' ∷ b's' ∷ b'y' ∷ b'm' ∷ b't' ∷ b'a' ∷ b'b' ∷ []

-- ".ctors"
abbrev pub ctors_name : Str
ctors_name = b'.' ∷ b'c' ∷ b't' ∷ b'o' ∷ b'r' ∷ b's' ∷ []

-- Sets `elf_symbol_sec_index`, and says whether the file can be converted.
unfoldable pub elf_valid : Elfio → Globals → Globals × Bool
elf_valid elf g =
    let index = elf_find_section elf symtab_name in
    let g' : Globals = record g { elf_symbol_sec_index = index } in
    if index == shn_undef then (g', false) else (
      g',
      elf.class == elfclass32
          && elf.encoding == elfdata2msb
          && elf.machine == em_mips
          && elf.type == et_rel,
    )

section_size : Elfio → ℕ → ℕ
section_size elf i = elim (get_elem? elf.sections i) [ some s ↦ s.size | none ↦ 0 ]

unfoldable pub elf_has_global_constructors : Elfio → Bool
unfolding section_size
elf_has_global_constructors elf =
    let ctor_section = elf_find_section elf ctors_name in
    not (ctor_section == shn_undef) && ltb 0 (section_size elf ctor_section)

-- Some symbol lies in the common section.
unfoldable pub common_is_used : Elfio → Globals → Bool
common_is_used elf g =
    any (λ i. (elf.get_symbol g.elf_symbol_sec_index i).section_index == shn_common)
      (count_from 0 (elf.get_symbols_num g.elf_symbol_sec_index))

-- The relocation types that use the GP register.
unfoldable pub is_gp_relative : ℕ → Bool
is_gp_relative type = type == 7 || type == 9 || type == 11 || type == 30 || type == 31

-- The loop of `check_gp_relative_relocations` from section `i` on.
gp_relative_from : Elfio → ℕ → List ElfSection → Bool
gp_relative_from elf i [] = false
gp_relative_from elf i (s ∷ ss) =
    (s.type == sht_rel
      && any (λ j. is_gp_relative (elf.get_entry i j).type) (count_from 0 (elf.get_entries_num i)))
    || gp_relative_from elf (suc i) ss

unfoldable pub check_gp_relative_relocations : Elfio → Bool
unfolding gp_relative_from
check_gp_relative_relocations elf = gp_relative_from elf 0 elf.sections
