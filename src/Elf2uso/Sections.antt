-- ===== src/Elf2uso/Sections.antt =====
-- `section_collect` of tools/elf2uso.cpp.
use dragonuso.Common.{
  ℕ, suc, Bool, true, false, none, List, [], ◌∷◌, ◌++◌, ◌==◌, bit_and, if◌then◌else◌, length,
}
use dragonuso.Common.Words.{u16}
use dragonuso.StdMap.{assign}
use dragonuso.Text.{Str}
use dragonuso.Elfio.{Elfio, ElfSection, shn_undef, sht_nobits}
use dragonuso.Elf2uso.State.{Globals, SectionInfo}
use dragonuso.Elf2uso.Check.{elf_find_section}

-- Section 0 of the output.
abbrev pub absolute_section : SectionInfo
absolute_section = record {
  reloc_elf_section = shn_undef;
  internal_relocs = [];
  external_relocs = [];
  contents = none;
  size = 0;
  align = 0;
}

-- ".rel"
abbrev pub rel_prefix : Str
rel_prefix = b'.' ∷ b'r' ∷ b'e' ∷ b'l' ∷ []

-- The output section for a section of the ELF file.
unfoldable pub section_of : Elfio → ElfSection → SectionInfo
section_of elf s =
    if s.type == sht_nobits
    then record {
      reloc_elf_section = shn_undef;
      internal_relocs = [];
      external_relocs = [];
      contents = none;
      size = s.size;
      align = s.addr_align;
    }
    else record {
      reloc_elf_section = elf_find_section elf (rel_prefix ++ s.name);
      internal_relocs = [];
      external_relocs = [];
      contents = s.contents;
      size = s.size;
      align = s.addr_align;
    }

unfoldable pub is_alloc : ElfSection → Bool
is_alloc s = if bit_and s.flags 2 == 0 then false else true

-- The loop over the sections of the ELF file, from index `i` on.
unfoldable pub collect_sections : Elfio → Globals → ℕ → List ElfSection → Globals
collect_sections elf g i [] = g
collect_sections elf g i (s ∷ ss) =
    let added : Globals = record g {
      out_section_map = assign g.out_section_map i (u16 (length g.out_sections));
      out_sections = g.out_sections ++ (section_of elf s ∷ []);
    } in
    collect_sections elf (if is_alloc s then added else g) (suc i) ss

skip_first : List ElfSection → List ElfSection
skip_first [] = []
skip_first (s ∷ ss) = ss

unfoldable pub section_collect : Elfio → Globals → Globals
unfolding skip_first
section_collect elf g =
    let start : Globals = record g {
      out_section_map = assign g.out_section_map shn_undef 0;
      out_sections = g.out_sections ++ (absolute_section ∷ []);
    } in
    collect_sections elf start 1 (skip_first elf.sections)
