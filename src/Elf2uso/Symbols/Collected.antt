-- ===== src/Elf2uso/Symbols/Collected.antt =====
-- What `sym_collect` of tools/elf2uso.cpp leaves in the symbol tables.
use mathlib.Core.List.{Permᴰ}
use mathlib.Core.Path.{subst}
use dragonuso.Common.{
  ℕ, suc, ◌+◌, ◌<◌, ◌≡◌, refl, sym, ap, ◌∙◌, inl, inr, Bool, true, false, not, ◌&&◌, ◌||◌, some,
  List, [], ◌∷◌, ◌++◌, arith, ◌==◌, Bool-cases, All, length, leb, count_from, get_elem?,
}
use dragonuso.Common.Outcome.{Ensures, Ensures-then, Ensures_ok}
use dragonuso.StdLib.{Algorithms, IsSorted, any}
use dragonuso.StdMap.{Map, assign, has}
use dragonuso.Elfio.{Elfio, ElfSymbol, shn_undef, stb_local, stv_default}
use dragonuso.Elf2uso.State.{Globals, SymbolInfo, ok}
use dragonuso.Elf2uso.Symbols.{
  sym_compare, sym_is_prohibited_import, sym_is_hideable, collect_symbol, collect_symbols,
  map_imports, sym_sort, sym_collect,
}

pub record IsImport (s : SymbolInfo) : Type 0 where
  pub allowed : sym_is_prohibited_import s.name ≡ false
  pub short : length s.name < 32767
  pub no_section : s.section ≡ 0

pub record IsExport (s : SymbolInfo) : Type 0 where
  pub short : length s.name < 32767
  pub strong : s.weak ≡ false

-- Every symbol in the tables is one that may stand there.
pub record AreTables (g : Globals) : Type 0 where
  pub imports : All IsImport g.import_syms
  pub exports : All IsExport g.export_syms

All-snoc :
    (P : SymbolInfo → Type 0) (ss : List SymbolInfo) (s : SymbolInfo)
    → All P ss
    → P s
    → All P (ss ++ s ∷ [])
All-snoc P [] s all p = (p, tt)
All-snoc P (t ∷ ss) s all p = (all.0, All-snoc P ss s all.1 p)

pub All-Permᴰ :
    (P : SymbolInfo → Type 0) (xs ys : List SymbolInfo) → Permᴰ xs ys → All P ys → All P xs
All-Permᴰ P _ _ Permᴰ.nil all = tt
All-Permᴰ P _ _ (Permᴰ.cons e rest) all = (subst P (sym e) all.0, All-Permᴰ P _ _ rest all.1)
All-Permᴰ P _ _ (Permᴰ.swap d e) all = (subst P (sym d) all.1.0, (subst P (sym e) all.0, all.1.1))
All-Permᴰ P _ _ (Permᴰ.trans first second) all = All-Permᴰ P _ _ first (All-Permᴰ P _ _ second all)

collect_symbol-AreTables :
    (g : Globals) (i : ℕ) (sym : ElfSymbol)
    → AreTables g
    → Ensures AreTables (collect_symbol g i sym)
unfolding collect_symbol
collect_symbol-AreTables g i sym is = elim (Bool-cases (sym.bind == stb_local)) [
  | inl local ↦ rw local is
  | inr global ↦ elim (Bool-cases (leb 32767 (length sym.name))) [
    | inl long ↦ rw (global, long) tt
    | inr short ↦ elim (Bool-cases (sym.section_index == shn_undef)) [
      | inl undefined ↦ elim (Bool-cases (sym_is_prohibited_import sym.name)) [
        | inl prohibited ↦ rw (global, short, undefined, prohibited) tt
        | inr allowed ↦
            rw (global, short, undefined, allowed)
              (record {
                imports =
                    All-snoc IsImport g.import_syms _ is.imports
                      (record { allowed = allowed; short = ground arith; no_section = refl });
                exports = is.exports;
              })
      ]
      | inr defined ↦ elim (Bool-cases (sym_is_hideable sym.name || sym.other == stv_default)) [
        | inl visible ↦
            elim (Bool-cases (not (has g.out_section_map sym.section_index) && sym.value == 0)) [
              | inl null ↦ rw (global, short, defined, visible, null) tt
              | inr address ↦
                  rw (global, short, defined, visible, address)
                    (record {
                      imports = is.imports;
                      exports =
                          All-snoc IsExport g.export_syms _ is.exports
                            (record { short = ground arith; strong = refl });
                    })
            ]
        | inr hidden ↦ rw (global, short, defined, hidden) is
      ]
    ]
  ]
]

collect_symbols-AreTables :
    (elf : Elfio) (g : Globals) (is' : List ℕ)
    → AreTables g
    → Ensures AreTables (collect_symbols elf g is')
unfolding collect_symbols
collect_symbols-AreTables elf g [] is = is
collect_symbols-AreTables elf g (i ∷ is') is =
    Ensures-then AreTables AreTables (collect_symbol g i (elf.get_symbol g.elf_symbol_sec_index i))
      (λ g'. collect_symbols elf g' is')
      (collect_symbol-AreTables g i (elf.get_symbol g.elf_symbol_sec_index i) is)
      λ g' is''. collect_symbols-AreTables elf g' is' is''

-- An import in a table that was made from a symbol of the ELF file.
abbrev pub has_source : ℕ → List SymbolInfo → Bool
has_source src ss = any (λ s. s.src_symbol == src) ss

-- The map leads to an import that was made from the symbol.
pub record Maps (m : Map) (ss : List SymbolInfo) (first src : ℕ) : Type 0 where
  pub index : ℕ
  pub symbol : SymbolInfo
  pub entry : m src ≡ some (first + index)
  pub there : get_elem? ss index ≡ some symbol
  pub source : symbol.src_symbol ≡ src

map_imports-other :
    (m : Map) (i : ℕ) (ss : List SymbolInfo) (src : ℕ)
    → has_source src ss ≡ false
    → map_imports m i ss src ≡ m src
unfolding map_imports
map_imports-other m i [] src absent = refl
map_imports-other m i (s ∷ ss) src absent = elim (Bool-cases (s.src_symbol == src)) [
  | inl e ↦ absurd (ground arith)
  | inr e ↦ map_imports-other (assign m s.src_symbol i) (suc i) ss src (rw e at absent) ∙ rw e
]

map_imports-Maps :
    (m : Map) (i : ℕ) (ss : List SymbolInfo) (src : ℕ)
    → has_source src ss ≡ true
    → Maps (map_imports m i ss) ss i src
unfolding map_imports
map_imports-Maps m i [] src present = absurd (ground arith)
map_imports-Maps m i (s ∷ ss) src present = elim (Bool-cases (has_source src ss)) [
  | inl later ↦
      let rest = map_imports-Maps (assign m s.src_symbol i) (suc i) ss src later in
      record {
        index = suc rest.index;
        symbol = rest.symbol;
        entry = rest.entry ∙ ap some (omega arith);
        there = rest.there;
        source = rest.source;
      }
  | inr last ↦
      let here : (s.src_symbol == src) ≡ true = ground arith in
      record {
        index = 0;
        symbol = s;
        entry =
            map_imports-other (assign m s.src_symbol i) (suc i) ss src last
            ∙ rw here (ap some (omega arith));
        there = refl;
        source = ground arith;
      }
]

-- The symbol tables after `sym_collect`.
pub record Collected (g : Globals) : Type 0 where
  pub imports : All IsImport g.import_syms
  pub exports : All IsExport g.export_syms
  pub imports_sorted : IsSorted sym_compare g.import_syms
  pub exports_sorted : IsSorted sym_compare g.export_syms
  pub mapped :
      (src : ℕ) → has_source src g.import_syms ≡ true → Maps g.import_sym_map g.import_syms 0 src

module _ (lib : Algorithms SymbolInfo sym_compare) where
  finish-Collected :
      (g : Globals)
      → AreTables g
      → Collected (record (sym_sort lib g) {
        import_sym_map = map_imports (sym_sort lib g).import_sym_map 0 (sym_sort lib g).import_syms;
      })
  unfolding sym_sort
  finish-Collected g is = record {
    imports = All-Permᴰ IsImport _ _ (lib.sort-perm g.import_syms) is.imports;
    exports = All-Permᴰ IsExport _ _ (lib.sort-perm g.export_syms) is.exports;
    imports_sorted = lib.sort-IsSorted g.import_syms;
    exports_sorted = lib.sort-IsSorted g.export_syms;
    mapped =
        λ src present. map_imports-Maps g.import_sym_map 0 (lib.sort g.import_syms) src present;
  }

  pub sym_collect-Collected :
      (elf : Elfio) (g g' : Globals) → AreTables g → sym_collect lib elf g ≡ ok g' → Collected g'
  unfolding sym_collect
  sym_collect-Collected elf g g' is e =
      Ensures_ok Collected (sym_collect lib elf g) g'
        (Ensures-then AreTables Collected
          (collect_symbols elf g (count_from 0 (elf.get_symbols_num g.elf_symbol_sec_index)))
          (λ g₁. ok (record (sym_sort lib g₁) {
            import_sym_map =
                map_imports (sym_sort lib g₁).import_sym_map 0 (sym_sort lib g₁).import_syms;
          }))
          (collect_symbols-AreTables elf g
            (count_from 0 (elf.get_symbols_num g.elf_symbol_sec_index)) is)
          finish-Collected)
        e
