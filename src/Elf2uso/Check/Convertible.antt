-- ===== src/Elf2uso/Check/Convertible.antt =====
-- The ELF files that pass the checks of tools/elf2uso.cpp.
use mathlib.Core.Path.{subst}
use dragonuso.Common.{
  ℕ, zero, suc, ◌+◌, ◌<◌, ◌≡◌, ◌≢◌, refl, sym, ap, ◌∙◌, inl, inr, true, false, List, [], ◌∷◌, some,
  arith, ◌==◌, get_elem?, count_from, Bool-cases,
}
use dragonuso.StdLib.{any}
use dragonuso.StdLib.Any.{any-found, any-at}
use dragonuso.Elfio.{
  Elfio, ElfSection, shn_common, sht_rel, elfclass32, elfdata2msb, em_mips, et_rel,
}
use dragonuso.Elf2uso.State.{Globals}
use dragonuso.Elf2uso.Check.{
  elf_find_section, symtab_name, elf_valid, common_is_used, is_gp_relative, gp_relative_from,
  check_gp_relative_relocations,
}
use dragonuso.Elf2uso.Check.First.{
  IsFirst, some-inj, elf_find_section-IsFirst, elf_find_section-place,
}

-- Not a type of a relocation that uses the GP register.
abbrev pub IsGpFree : ℕ → Type 0
IsGpFree t = (t ≢ 7) × (t ≢ 9) × (t ≢ 11) × (t ≢ 30) × (t ≢ 31)

-- An object file for the console with the symbol table `symtab`, of which no symbol lies in the
-- common section, and no relocation uses the GP register.
pub record IsConvertible (elf : Elfio) (symtab : ℕ) : Type 0 where
  pub has_symtab : IsFirst elf.sections 1 symtab_name symtab
  pub class : elf.class ≡ elfclass32
  pub encoding : elf.encoding ≡ elfdata2msb
  pub machine : elf.machine ≡ em_mips
  pub type : elf.type ≡ et_rel
  pub no_common :
      (i : ℕ)
      → i < elf.get_symbols_num symtab
      → (elf.get_symbol symtab i).section_index ≢ shn_common
  pub gp_free :
      (k : ℕ) (s : ElfSection) (j : ℕ)
      → get_elem? elf.sections k ≡ some s
      → s.type ≡ sht_rel
      → j < elf.get_entries_num k
      → IsGpFree (elf.get_entry k j).type

IsGpFree-of_test : (t : ℕ) → is_gp_relative t ≡ false → IsGpFree t
unfolding is_gp_relative
IsGpFree-of_test t e =
    (ground (arith, e), ground (arith, e), ground (arith, e), ground (arith, e), ground (arith, e))

IsGpFree-test : (t : ℕ) → IsGpFree t → is_gp_relative t ≡ false
unfolding is_gp_relative
IsGpFree-test t (a, b, c, d, e) = ground (arith, a, b, c, d, e)

module _ (elf : Elfio) where
  -- The entries of relocation section `i` use the GP register nowhere.
  entries_free :
      (i j : ℕ)
      → any (λ k. is_gp_relative (elf.get_entry i k).type) (count_from 0 (elf.get_entries_num i))
        ≡ false
      → j < elf.get_entries_num i
      → IsGpFree (elf.get_entry i j).type
  entries_free i j none_used lt = elim (Bool-cases (is_gp_relative (elf.get_entry i j).type)) [
    | inl used ↦
        let found =
          any-at (λ k. is_gp_relative (elf.get_entry i k).type) 0 (elf.get_entries_num i) j
            (omega arith) (omega (arith, lt)) used in
        absurd cc
    | inr free ↦ IsGpFree-of_test _ free
  ]

  sections_pass-of :
      (i : ℕ) (ss : List ElfSection)
      → gp_relative_from elf i ss ≡ false
      → (k : ℕ) (s : ElfSection) (j : ℕ) → get_elem? ss k ≡ some s
      → s.type ≡ sht_rel
      → j < elf.get_entries_num (i + k)
      → IsGpFree (elf.get_entry (i + k) j).type
  unfolding gp_relative_from
  sections_pass-of i [] free k s j at rel lt = cc
  sections_pass-of i (t ∷ ss) free zero s j at rel lt =
      let same = some-inj t s at in
      let type : t.type ≡ sht_rel = ap (λ (u : ElfSection). u.type) same ∙ rel in
      let here : (t.type == sht_rel) ≡ true = ground (arith, type) in
      let place : i + 0 ≡ i = omega arith in
      let below : j < elf.get_entries_num i = rw place at lt in
      rw place (entries_free i j (ground (arith, free, here)) below)
  sections_pass-of i (t ∷ ss) free (suc k) s j at rel lt =
      let place : i + suc k ≡ suc i + k = omega arith in
      let below : j < elf.get_entries_num (suc i + k) = rw place at lt in
      rw place (sections_pass-of (suc i) ss (ground (arith, free)) k s j at rel below)

  sections_pass-test :
      (i : ℕ) (ss : List ElfSection)
      → ((k : ℕ) (s : ElfSection) (j : ℕ)
          → get_elem? ss k ≡ some s
          → s.type ≡ sht_rel
          → j < elf.get_entries_num (i + k)
          → IsGpFree (elf.get_entry (i + k) j).type)
      → gp_relative_from elf i ss ≡ false
  unfolding gp_relative_from
  sections_pass-test i [] free = refl
  sections_pass-test i (t ∷ ss) free =
      let rest = sections_pass-test (suc i) ss λ k s j at rel lt.
        let place : i + suc k ≡ suc i + k = omega arith in
        subst (λ (n : ℕ). IsGpFree (elf.get_entry n j).type) place
          (free (suc k) s j at rel (subst (λ (n : ℕ). j < elf.get_entries_num n) (sym place) lt)) in
      let test = λ (j : ℕ). is_gp_relative (elf.get_entry i j).type in
      elim (Bool-cases (t.type == sht_rel)) [
        | inr other ↦ rw (other, rest)
        | inl rel ↦ elim (Bool-cases (any test (count_from 0 (elf.get_entries_num i)))) [
          | inr none_used ↦ rw (rel, none_used, rest)
          | inl used ↦
              let (j, low, high, at) = any-found test 0 (elf.get_entries_num i) used in
              let place : i ≡ i + 0 = omega arith in
              let below : j < elf.get_entries_num i = omega arith in
              let gp : IsGpFree (elf.get_entry i j).type =
                subst (λ (n : ℕ). IsGpFree (elf.get_entry n j).type) (sym place)
                  (free 0 t j refl (ground (arith, rel))
                    (subst (λ (n : ℕ). j < elf.get_entries_num n) place below)) in
              let unused = IsGpFree-test _ gp in absurd cc
        ]
      ]

  no_common-of_test :
      (g : Globals) (i : ℕ)
      → common_is_used elf g ≡ false
      → i < elf.get_symbols_num g.elf_symbol_sec_index
      → (elf.get_symbol g.elf_symbol_sec_index i).section_index ≢ shn_common
  unfolding common_is_used
  no_common-of_test g i free lt common =
      let test : ((elf.get_symbol g.elf_symbol_sec_index i).section_index == shn_common) ≡ true =
        ground (arith, common) in
      let found =
        any-at (λ k. (elf.get_symbol g.elf_symbol_sec_index k).section_index == shn_common) 0
          (elf.get_symbols_num g.elf_symbol_sec_index) i (omega arith) (omega (arith, lt)) test in
      cc

  no_common-test :
      (g : Globals)
      → ((i : ℕ)
          → i < elf.get_symbols_num g.elf_symbol_sec_index
          → (elf.get_symbol g.elf_symbol_sec_index i).section_index ≢ shn_common)
      → common_is_used elf g ≡ false
  unfolding common_is_used
  no_common-test g free =
      let test = λ (k : ℕ). (elf.get_symbol g.elf_symbol_sec_index k).section_index == shn_common in
      let n = elf.get_symbols_num g.elf_symbol_sec_index in
      elim (Bool-cases (any test (count_from 0 n))) [
        | inr none_used ↦ none_used
        | inl used ↦
            let (i, low, high, at) = any-found test 0 n used in
            absurd (free i (omega arith) (ground (arith, at)))
      ]

-- The state after `elf_valid`.
abbrev pub with_symtab : Globals → ℕ → Globals
with_symtab g symtab = record g { elf_symbol_sec_index = symtab }

module _ (elf : Elfio) (g : Globals) where
  pub IsConvertible-of_tests :
      (elf_valid elf g).1 ≡ true
      → common_is_used elf (elf_valid elf g).0 ≡ false
      → check_gp_relative_relocations elf ≡ false
      → (symtab : ℕ) × IsConvertible elf symtab × ((elf_valid elf g).0 ≡ with_symtab g symtab)
  unfolding elf_valid check_gp_relative_relocations
  IsConvertible-of_tests valid no_common gp_free =
      let symtab = elf_find_section elf symtab_name in
      elim (Bool-cases (symtab == 0)) [
        | inl missing ↦ let wrong : false ≡ true = rw missing at valid in cc
        | inr there ↦
            let tests = rw there at valid in
            let unused = rw there at no_common in
            (
              symtab,
              record {
                has_symtab = elf_find_section-IsFirst symtab_name elf (ground (arith, there));
                class = ground (arith, tests);
                encoding = ground (arith, tests);
                machine = ground (arith, tests);
                type = ground (arith, tests);
                no_common = λ i lt. no_common-of_test elf (with_symtab g symtab) i unused lt;
                gp_free = λ k s j at rel lt.
                    let place : 0 + k ≡ k = omega arith in
                    subst (λ (n : ℕ). IsGpFree (elf.get_entry n j).type) place
                      (sections_pass-of elf 0 elf.sections gp_free k s j at rel
                        (subst (λ (n : ℕ). j < elf.get_entries_num n) (sym place) lt));
              },
              rw there,
            )
      ]

  pub elf_valid-IsConvertible :
      (symtab : ℕ)
      → IsConvertible elf symtab
      → (elf_valid elf g ≡ (with_symtab g symtab, true))
        × (common_is_used elf (with_symtab g symtab) ≡ false)
        × (check_gp_relative_relocations elf ≡ false)
  unfolding elf_valid check_gp_relative_relocations
  elf_valid-IsConvertible symtab is =
      let place = elf_find_section-place symtab_name elf symtab is.has_symtab in
      let low = is.has_symtab.low in
      let there : (symtab == 0) ≡ false = ground (arith, low) in
      (
        rw (place, there, is.class, is.encoding, is.machine, is.type),
        no_common-test elf (with_symtab g symtab) is.no_common,
        sections_pass-test elf 0 elf.sections λ k s j at rel lt.
            let place : 0 + k ≡ k = omega arith in
            subst (λ (n : ℕ). IsGpFree (elf.get_entry n j).type) (sym place)
              (is.gp_free k s j at rel (subst (λ (n : ℕ). j < elf.get_entries_num n) place lt)),
      )
