-- ===== src/Elf2uso/Symbols/Accepted.antt =====
-- When `sym_collect` of tools/elf2uso.cpp succeeds.
use dragonuso.Common.{
  ℕ, ◌≡◌, refl, sym, ap, ◌∙◌, inl, inr, Bool, true, false, not, ◌&&◌, ◌||◌, List, [], ◌∷◌, arith,
  ◌==◌, if◌then◌else◌, Bool-cases, All, length, ltb, leb, count_from,
}
use dragonuso.StdLib.{Algorithms}
use dragonuso.StdMap.{Map, has}
use dragonuso.Elfio.{Elfio, ElfSymbol, shn_undef, stb_local, stv_default}
use dragonuso.Elf2uso.State.{Globals, SymbolInfo, Result, ok, ◌>>=◌}
use dragonuso.Elf2uso.Symbols.{
  sym_compare, sym_is_prohibited_import, sym_is_hideable, collect_symbol, collect_symbols,
  map_imports, sym_sort, sym_collect,
}
use dragonuso.Elf2uso.Symbols.Collected.{AreTables, Collected, sym_collect-Collected}

-- A symbol with which the tool can go on: a local one, or one with a name of fewer than 32767
-- characters that is undefined and may be imported, or is defined and either hidden or not an
-- absolute symbol with the address 0.
unfoldable pub is_accepted : Map → ElfSymbol → Bool
is_accepted sections sym =
    sym.bind == stb_local
    || (ltb (length sym.name) 32767
        && (if sym.section_index == shn_undef
            then not (sym_is_prohibited_import sym.name)
            else not (sym_is_hideable sym.name || sym.other == stv_default)
              || (has sections sym.section_index || not (sym.value == 0))))

-- A run that succeeds and leaves the other variables.
record Succeeds (run : Result Globals) (g : Globals) : Type 0 where
  result : Globals
  runs : run ≡ ok result
  sections : result.out_section_map ≡ g.out_section_map
  index : result.elf_symbol_sec_index ≡ g.elf_symbol_sec_index

collect_symbol-Succeeds :
    (g : Globals) (i : ℕ) (sym : ElfSymbol)
    → is_accepted g.out_section_map sym ≡ true
    → Succeeds (collect_symbol g i sym) g
unfolding collect_symbol is_accepted
collect_symbol-Succeeds g i sym h = elim (Bool-cases (sym.bind == stb_local)) [
  | inl local ↦ rw local (record { result = g; runs = refl; sections = refl; index = refl })
  | inr global ↦
      let short : leb 32767 (length sym.name) ≡ false = ground arith in
      elim (Bool-cases (sym.section_index == shn_undef)) [
        | inl undefined ↦
            let allowed : sym_is_prohibited_import sym.name ≡ false = ground arith in
            rw (global, short, undefined, allowed)
              (record { result = _; runs = refl; sections = refl; index = refl })
        | inr defined ↦ elim (Bool-cases (sym_is_hideable sym.name || sym.other == stv_default)) [
          | inl visible ↦
              let address : (not (has g.out_section_map sym.section_index) && sym.value == 0)
                  ≡ false =
                ground arith in
              rw (global, short, defined, visible, address)
                (record { result = _; runs = refl; sections = refl; index = refl })
          | inr hidden ↦
              rw (global, short, defined, hidden)
                (record { result = g; runs = refl; sections = refl; index = refl })
        ]
      ]
]

module _ (elf : Elfio) (start : Globals) where
  -- Every one of these symbols of the file is accepted.
  abbrev pub AreAccepted : List ℕ → Type 0
  AreAccepted is =
      All
        (λ i.
          is_accepted start.out_section_map (elf.get_symbol start.elf_symbol_sec_index i) ≡ true)
        is

  collect_symbols-ok :
      (g : Globals) (is : List ℕ)
      → AreAccepted is
      → g.out_section_map ≡ start.out_section_map
      → g.elf_symbol_sec_index ≡ start.elf_symbol_sec_index
      → (g' : Globals) × (collect_symbols elf g is ≡ ok g')
  unfolding collect_symbols
  collect_symbols-ok g [] all sections index = (g, refl)
  collect_symbols-ok g (i ∷ is) all sections index =
      let accepted : is_accepted g.out_section_map (elf.get_symbol g.elf_symbol_sec_index i)
          ≡ true =
        rw (sections, index) all.0 in
      let step = collect_symbol-Succeeds g i (elf.get_symbol g.elf_symbol_sec_index i) accepted in
      let rest =
        collect_symbols-ok step.result is all.1 (step.sections ∙ sections) (step.index ∙ index) in
      (rest.0, rw step.runs rest.1)

module _ (lib : Algorithms SymbolInfo sym_compare) where
  -- Behind the loop there is nothing that fails.
  sym_collect_of :
      (elf : Elfio) (g collected : Globals)
      → collect_symbols elf g (count_from 0 (elf.get_symbols_num g.elf_symbol_sec_index))
        ≡ ok collected
      → (g' : Globals) × (sym_collect lib elf g ≡ ok g')
  unfolding sym_collect
  sym_collect_of elf g collected runs = (
    _,
    ap
        (λ (run : Result Globals). run >>= λ g₁. ok (record (sym_sort lib g₁) {
          import_sym_map =
              map_imports (sym_sort lib g₁).import_sym_map 0 (sym_sort lib g₁).import_syms;
        }))
        runs,
  )

  -- `sym_collect` of elf2uso succeeds if it starts from well-formed tables and accepts every symbol
  -- of the file: then no import has a prohibited name, a section or a name of 32767 characters or
  -- more, no export is weak or has such a name, both tables are sorted by name, and the import map
  -- leads from the symbol of each import to an import that was made from it.
  pub sym_collect-ok :
      (elf : Elfio) (g : Globals)
      → AreTables g
      → AreAccepted elf g (count_from 0 (elf.get_symbols_num g.elf_symbol_sec_index))
      → (g' : Globals) × (sym_collect lib elf g ≡ ok g') × Collected g'
  sym_collect-ok elf g is all =
      let (collected, runs) =
        collect_symbols-ok elf g g (count_from 0 (elf.get_symbols_num g.elf_symbol_sec_index)) all
          refl refl in
      let whole = sym_collect_of elf g collected runs in
      (whole.0, whole.1, sym_collect-Collected lib elf g whole.0 is whole.1)
