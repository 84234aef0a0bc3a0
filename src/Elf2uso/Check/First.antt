-- ===== src/Elf2uso/Check/First.antt =====
-- `elf_find_section` of tools/elf2uso.cpp: the first section with a name.
use mathlib.Core.Path.{subst}
use dragonuso.Common.{
  ℕ, zero, suc, ◌+◌, ◌≤◌, ◌<◌, ◌≡◌, ◌≢◌, refl, sym, ap, ◌∙◌, inl, inr, List, [], ◌∷◌, some, arith,
  get_elem?, Bool-cases,
}
use dragonuso.Text.{Str, str_eq}
use dragonuso.Text.Order.{str_eq_iff}
use dragonuso.Elfio.{Elfio, ElfSection}
use dragonuso.Elf2uso.Check.{find_from, find_in, elf_find_section}

-- Section `k` is the first of these with the name, from index `start` on.
pub record IsFirst (ss : List ElfSection) (start : ℕ) (name : Str) (k : ℕ) : Type 0 where
  pub low : start ≤ k
  pub section : ElfSection
  pub at : get_elem? ss k ≡ some section
  pub named : section.name ≡ name
  pub first : (j : ℕ) (t : ElfSection) → start ≤ j → j < k → get_elem? ss j ≡ some t → t.name ≢ name

pub some-inj : {A : Type 0} (a b : A) → some a ≡ some b → a ≡ b
some-inj a b h = cc

module _ (name : Str) where
  -- Behind a section that does not count.
  IsFirst-behind :
      (s : ElfSection) (ss : List ElfSection) (start k : ℕ)
      → start ≤ suc k
      → (start ≡ 0 → s.name ≢ name)
      → IsFirst ss 0 name k
      → IsFirst (s ∷ ss) start name (suc k)
  IsFirst-behind s ss start k low differs is = record {
    low = low;
    section = is.section;
    at = is.at;
    named = is.named;
    first = earlier;
  }
    where
      earlier :
          (j : ℕ) (t : ElfSection)
          → start ≤ j
          → j < suc k
          → get_elem? (s ∷ ss) j ≡ some t
          → t.name ≢ name
      earlier zero t from lt h = λ e.
          let same = some-inj s t h in
          differs (omega arith) (ap (λ (u : ElfSection). u.name) same ∙ e)
      earlier (suc j) t from lt h = is.first j t (omega arith) (omega arith) h

  IsFirst-rest :
      (s : ElfSection) (ss : List ElfSection) (start k : ℕ)
      → start ≤ 1
      → IsFirst (s ∷ ss) start name (suc k)
      → IsFirst ss 0 name k
  IsFirst-rest s ss start k low is = record {
    low = omega arith;
    section = is.section;
    at = is.at;
    named = is.named;
    first = λ j t from lt h. is.first (suc j) t (omega arith) (omega arith) h;
  }

  find_from-IsFirst :
      (i : ℕ) (ss : List ElfSection)
      → find_from name i ss ≢ 0
      → (k : ℕ) × (find_from name i ss ≡ i + k) × IsFirst ss 0 name k
  unfolding find_from
  find_from-IsFirst i [] found = absurd (found refl)
  find_from-IsFirst i (s ∷ ss) found = elim (Bool-cases (str_eq s.name name)) [
    | inl e ↦ (
      0,
      rw e (omega arith),
      record {
        low = omega arith;
        section = s;
        at = refl;
        named = (str_eq_iff s.name name).0 e;
        first = λ j t from lt. absurd (omega arith);
      },
    )
    | inr e ↦
        let (k, place, is) = find_from-IsFirst (suc i) ss (rw e at found) in
        let differs : s.name ≢ name = λ same. let h = (str_eq_iff s.name name).1 same in cc in
        (
          suc k,
          rw e (place ∙ omega arith),
          IsFirst-behind s ss 0 k (omega arith) (λ zeroth. differs) is,
        )
  ]

  find_from-place :
      (i : ℕ) (ss : List ElfSection) (k : ℕ) → IsFirst ss 0 name k → find_from name i ss ≡ i + k
  unfolding find_from
  find_from-place i [] k is = let h = is.at in cc
  find_from-place i (s ∷ ss) zero is =
      let same = some-inj s is.section is.at in
      let e = (str_eq_iff s.name name).1 (ap (λ (u : ElfSection). u.name) same ∙ is.named) in
      rw e (omega arith)
  find_from-place i (s ∷ ss) (suc k) is = elim (Bool-cases (str_eq s.name name)) [
    | inl e ↦ absurd (is.first 0 s (omega arith) (omega arith) refl ((str_eq_iff s.name name).0 e))
    | inr e ↦
        rw e (find_from-place (suc i) ss k (IsFirst-rest s ss 0 k (omega arith) is) ∙ omega arith)
  ]

  find_in-IsFirst :
      (ss : List ElfSection) → find_in name ss ≢ 0 → IsFirst ss 1 name (find_in name ss)
  unfolding find_in
  find_in-IsFirst [] found = absurd (found refl)
  find_in-IsFirst (s ∷ ss) found =
      let (k, place, is) = find_from-IsFirst 1 ss found in
      let e : find_from name 1 ss ≡ suc k = omega (arith, place) in
      subst (λ (n : ℕ). IsFirst (s ∷ ss) 1 name n) (sym e)
        (IsFirst-behind s ss 1 k (omega arith) (λ zeroth. absurd (omega (arith, zeroth))) is)

  find_in-place : (ss : List ElfSection) (k : ℕ) → IsFirst ss 1 name k → find_in name ss ≡ k
  unfolding find_in
  find_in-place [] k is = let h = is.at in cc
  find_in-place (s ∷ ss) zero is = absurd (omega (arith, is.low))
  find_in-place (s ∷ ss) (suc k) is =
      find_from-place 1 ss k (IsFirst-rest s ss 1 k (omega arith) is) ∙ omega arith

  pub elf_find_section-IsFirst :
      (elf : Elfio)
      → elf_find_section elf name ≢ 0
      → IsFirst elf.sections 1 name (elf_find_section elf name)
  unfolding elf_find_section
  elf_find_section-IsFirst elf found = find_in-IsFirst elf.sections found

  pub elf_find_section-place :
      (elf : Elfio) (k : ℕ) → IsFirst elf.sections 1 name k → elf_find_section elf name ≡ k
  unfolding elf_find_section
  elf_find_section-place elf k is = find_in-place elf.sections k is
