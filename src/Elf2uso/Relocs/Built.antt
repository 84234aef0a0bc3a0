-- ===== src/Elf2uso/Relocs/Built.antt =====
-- `reloc_build` of tools/elf2uso.cpp against the relocations of each section, taken one by one.
use mathlib.Core.List.{append-nil, append_assoc}
use dragonuso.Common.{
  ℕ, ◌≡◌, refl, sym, ap, ◌∙◌, inl, inr, Bool, true, false, none, some, List, [], ◌∷◌, ◌++◌, map,
  arith, ◌==◌, if◌then◌else◌, Bool-cases, Option-cases, count_from,
}
use dragonuso.Common.Words.{u32}
use dragonuso.StdMap.{Map, assign, at, after_at}
use dragonuso.Elfio.{Elfio, ElfReloc, ElfSymbol, shn_undef}
use dragonuso.Elf2uso.State.{Globals, SectionInfo, UsoReloc}
use dragonuso.Elf2uso.Relocs.{
  reloc_info, Building, add_reloc, add_relocs, build_section, build_sections, reloc_build,
}

-- `m[k]` adds the value that it reads, so that no later read sees a difference.
at-after_at : (m : Map) (k j : ℕ) → at (after_at m k) j ≡ at m j
at-after_at m k j = elim (Option-cases (m k)) [
  | inl missing ↦ ap (λ (n : Map). at n j) (fresh missing) ∙ elim (Bool-cases (k == j)) [
    | inl same ↦
        let key : k ≡ j = ground arith in
        let unset : m j ≡ none = ap m (sym key) ∙ missing in rw (same, unset, at)
    | inr other ↦ rw (other, at)
  ]
  | inr (v, there) ↦ ap (λ (n : Map). at n j) (kept v there)
]
  where
    fresh : m k ≡ none → after_at m k ≡ assign m k 0
    fresh missing = rw (missing, after_at)

    kept : (v : ℕ) → m k ≡ some v → after_at m k ≡ m
    kept v there = rw (there, after_at)

-- The entry of the ELF file, and the symbol that it names.
abbrev symbol_of : Elfio → Globals → ElfReloc → ElfSymbol
symbol_of elf g entry = elf.get_symbol g.elf_symbol_sec_index entry.symbol

abbrev is_external : Elfio → Globals → ElfReloc → Bool
is_external elf g entry = (symbol_of elf g entry).section_index == shn_undef

-- An entry for an imported symbol, and one for a symbol in a section of the file.
abbrev pub external_reloc : Globals → ElfReloc → UsoReloc
external_reloc g entry = record {
  offset = u32 entry.offset;
  info = reloc_info entry.type (at g.import_sym_map entry.symbol);
  sym_offset = 0;
}

abbrev pub internal_reloc : Elfio → Globals → ElfReloc → UsoReloc
internal_reloc elf g entry = record {
  offset = u32 entry.offset;
  info = reloc_info entry.type (at g.out_section_map (symbol_of elf g entry).section_index);
  sym_offset = u32 (symbol_of elf g entry).value;
}

-- The entries `js` of a relocation section for imported symbols, and those for other symbols.
unfoldable pub externals : Elfio → Globals → (rel : ℕ) → List ℕ → List UsoReloc
externals elf g rel [] = []
externals elf g rel (j ∷ js) =
    let rest = externals elf g rel js in
    let entry = elf.get_entry rel j in
    if is_external elf g entry then external_reloc g entry ∷ rest else rest

unfoldable pub internals : Elfio → Globals → (rel : ℕ) → List ℕ → List UsoReloc
internals elf g rel [] = []
internals elf g rel (j ∷ js) =
    let rest = internals elf g rel js in
    let entry = elf.get_entry rel j in
    if is_external elf g entry then rest else internal_reloc elf g entry ∷ rest

-- A section with the relocations of its relocation section, if it has one.
unfoldable pub with_relocs : Elfio → Globals → SectionInfo → SectionInfo
with_relocs elf g s =
    let rel = s.reloc_elf_section in
    let entries = count_from 0 (elf.get_entries_num rel) in
    if rel == shn_undef then s else record s {
      internal_relocs = s.internal_relocs ++ internals elf g rel entries;
      external_relocs = s.external_relocs ++ externals elf g rel entries;
    }

-- The maps answer as they did.
record SameMaps (g g' : Globals) : Type 0 where
  imports : (k : ℕ) → at g'.import_sym_map k ≡ at g.import_sym_map k
  sections : (k : ℕ) → at g'.out_section_map k ≡ at g.out_section_map k
  index : g'.elf_symbol_sec_index ≡ g.elf_symbol_sec_index
  import_syms : g'.import_syms ≡ g.import_syms
  export_syms : g'.export_syms ≡ g.export_syms

module _ (elf : Elfio) (g : Globals) where
  -- What the loop over entries makes of a section.
  record Filled (b : Building) (rel : ℕ) (js : List ℕ) (b' : Building) : Type 0 where
    maps : SameMaps g b'.globals
    section : b'.section ≡ (record b.section {
      internal_relocs = b.section.internal_relocs ++ internals elf g rel js;
      external_relocs = b.section.external_relocs ++ externals elf g rel js;
    })

  -- One entry, for an imported symbol or another one.
  add_external :
      (b : Building) (entry : ElfReloc)
      → SameMaps g b.globals
      → is_external elf g entry ≡ true
      → SameMaps g (add_reloc b entry (symbol_of elf g entry)).globals
        × ((add_reloc b entry (symbol_of elf g entry)).section ≡ (record b.section {
          external_relocs = b.section.external_relocs ++ (external_reloc g entry ∷ []);
        }))
  unfolding add_reloc
  add_external b entry same ext = rw ext (
    record {
      imports = λ k. at-after_at b.globals.import_sym_map entry.symbol k ∙ same.imports k;
      sections = same.sections;
      index = same.index;
      import_syms = same.import_syms;
      export_syms = same.export_syms;
    },
    rw (same.imports entry.symbol),
  )

  add_internal :
      (b : Building) (entry : ElfReloc)
      → SameMaps g b.globals
      → is_external elf g entry ≡ false
      → SameMaps g (add_reloc b entry (symbol_of elf g entry)).globals
        × ((add_reloc b entry (symbol_of elf g entry)).section ≡ (record b.section {
          internal_relocs = b.section.internal_relocs ++ (internal_reloc elf g entry ∷ []);
        }))
  unfolding add_reloc
  add_internal b entry same int = rw int (
    record {
      imports = same.imports;
      sections = λ k.
          at-after_at b.globals.out_section_map (symbol_of elf g entry).section_index k
          ∙ same.sections k;
      index = same.index;
      import_syms = same.import_syms;
      export_syms = same.export_syms;
    },
    rw (same.sections (symbol_of elf g entry).section_index),
  )

  same_add_reloc :
      (b : Building) (entry : ElfReloc)
      → SameMaps g b.globals
      → add_reloc b entry (symbol_of elf b.globals entry)
        ≡ add_reloc b entry (symbol_of elf g entry)
  same_add_reloc b entry same =
      ap (λ (i : ℕ). add_reloc b entry (elf.get_symbol i entry.symbol)) same.index

  add_relocs-Filled :
      (rel : ℕ) (b : Building) (js : List ℕ)
      → SameMaps g b.globals
      → Filled b rel js (add_relocs elf rel b js)
  unfolding add_relocs externals internals
  add_relocs-Filled rel b [] same = record { maps = same; section = rw (append-nil, append-nil) }
  add_relocs-Filled rel b (j ∷ js) same =
      let entry = elf.get_entry rel j in
      let b₁ = add_reloc b entry (symbol_of elf g entry) in
      rw (same_add_reloc b entry same) (elim (Bool-cases (is_external elf g entry)) [
        | inl ext ↦
            let (maps, section) = add_external b entry same ext in
            let rest = add_relocs-Filled rel b₁ js maps in
            record {
              maps = rest.maps;
              section = rest.section ∙ rw (section, ext) (rw append_assoc);
            }
        | inr int ↦
            let (maps, section) = add_internal b entry same int in
            let rest = add_relocs-Filled rel b₁ js maps in
            record {
              maps = rest.maps;
              section = rest.section ∙ rw (section, int) (rw append_assoc);
            }
      ])

  build_section-with_relocs :
      (g' : Globals) (s : SectionInfo)
      → SameMaps g g'
      → SameMaps g (build_section elf g' s).globals
        × ((build_section elf g' s).section ≡ with_relocs elf g s)
  unfolding build_section with_relocs
  build_section-with_relocs g' s same = elim (Bool-cases (s.reloc_elf_section == shn_undef)) [
    | inl none' ↦ rw none' (same, refl)
    | inr some' ↦
        let filled =
          add_relocs-Filled s.reloc_elf_section (record { globals = g'; section = s })
            (count_from 0 (elf.get_entries_num s.reloc_elf_section)) same in
        rw some' (filled.maps, filled.section)
  ]

  build_sections-with_relocs :
      (g' : Globals) (front ss : List SectionInfo)
      → SameMaps g g'
      → SameMaps g (build_sections elf g' front ss)
        × ((build_sections elf g' front ss).out_sections ≡ front ++ map (with_relocs elf g) ss)
  unfolding build_sections
  build_sections-with_relocs g' front [] same = (
    record {
      imports = same.imports;
      sections = same.sections;
      index = same.index;
      import_syms = same.import_syms;
      export_syms = same.export_syms;
    },
    rw append-nil,
  )
  build_sections-with_relocs g' front (s ∷ ss) same =
      let b = build_section elf g' s in
      let (maps, section) = build_section-with_relocs g' s same in
      let (maps', rest) =
        build_sections-with_relocs b.globals (front ++ (b.section ∷ [])) ss maps in
      (maps', rest ∙ rw section (rw append_assoc))

-- `reloc_build` of elf2uso gives every output section the relocations that its ELF relocation
-- section lists, in order, split into those against symbols of the file and those against imports,
-- as they are looked up in the maps as they stand before, where a missing key reads as 0, and
-- leaves the symbol tables alone.
pub reloc_build-with_relocs :
    (elf : Elfio) (g : Globals)
    → ((reloc_build elf g).out_sections ≡ map (with_relocs elf g) g.out_sections)
      × ((reloc_build elf g).import_syms ≡ g.import_syms)
      × ((reloc_build elf g).export_syms ≡ g.export_syms)
unfolding reloc_build
reloc_build-with_relocs elf g =
    let start : SameMaps g g = record {
      imports = λ k. refl;
      sections = λ k. refl;
      index = refl;
      import_syms = refl;
      export_syms = refl;
    } in
    let (maps, sections) = build_sections-with_relocs elf g g [] g.out_sections start in
    (sections, maps.import_syms, maps.export_syms)
