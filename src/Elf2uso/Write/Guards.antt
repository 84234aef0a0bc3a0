-- ===== src/Elf2uso/Write/Guards.antt =====
-- When tools/elf2uso.cpp writes a file.
use mathlib.Core.Path.{subst}
use dragonuso.Common.{
  ℕ, ◌≡◌, ◌↔◌, refl, sym, ap, ◌∙◌, inl, inr, Bool, true, false, not, Option, some, if◌then◌else◌,
  ◌==◌, arith, Bool-cases, Option-cases,
}
use dragonuso.Common.Outcome.{Outcome}
use dragonuso.Bytes.Stdio.{File}
use dragonuso.StdLib.{Algorithms}
use dragonuso.Swap.{Endian}
use dragonuso.Text.{Str}
use dragonuso.Elfio.{Elfio}
use dragonuso.Elf2uso.State.{
  Globals, SymbolInfo, initial, ok, exit, usage, load_failed, invalid_elf, common_used, gp_relative,
  ◌>>=◌,
}
use dragonuso.Elf2uso.Check.{elf_valid, common_is_used, check_gp_relative_relocations}
use dragonuso.Elf2uso.Check.Convertible.{
  IsConvertible, with_symtab, IsConvertible-of_tests, elf_valid-IsConvertible,
}
use dragonuso.Elf2uso.Symbols.{sym_compare, sym_collect}
use dragonuso.Elf2uso.Sections.{section_collect}
use dragonuso.Elf2uso.Relocs.{reloc_build}
use dragonuso.Elf2uso.Write.{uso_file, uso_write, check_elf, convert, main}

bind-ok :
    {E A B : Type 0} (r : Outcome E A) (f : A → Outcome E B) (b : B)
    → (r >>= f) ≡ ok b
    → (a : A) × (r ≡ ok a) × (f a ≡ ok b)
bind-ok (ok a) f b h = (a, refl, h)
bind-ok (exit e) f b h = cc

-- A run of `main` that wrote a file.
pub record Written (lib : Algorithms SymbolInfo sym_compare) (e : Endian) (argc : ℕ)
    (loaded : Option Elfio) (can_open : Bool) (input : Str) (f : File) : Type 0 where
  pub elf : Elfio
  pub symtab : ℕ
  pub arguments : argc ≡ 3
  pub is_loaded : loaded ≡ some elf
  pub convertible : IsConvertible elf symtab
  pub opened : can_open ≡ true
  pub globals : Globals
  pub collected :
      sym_collect lib elf (section_collect elf (with_symtab initial symtab)) ≡ ok globals
  pub written : f ≡ uso_file e elf input (reloc_build elf globals)

-- A chain of three tests, each of which can end the run.
three_tests :
    {E A : Type 0} (first second third : Bool) (e₁ e₂ e₃ : E) (a b : A)
    → (if not first then exit e₁ else if second then exit e₂ else if third then exit e₃ else ok a)
      ≡ ok b
    → (first ≡ true) × (second ≡ false) × (third ≡ false) × (b ≡ a)
three_tests false second third e₁ e₂ e₃ a b h = cc
three_tests true true third e₁ e₂ e₃ a b h = cc
three_tests true false true e₁ e₂ e₃ a b h = cc
three_tests true false false e₁ e₂ e₃ a b h = (refl, refl, refl, cc)

check_elf-IsConvertible :
    (elf : Elfio) (g : Globals)
    → check_elf elf initial ≡ ok g
    → (symtab : ℕ) × IsConvertible elf symtab × (g ≡ with_symtab initial symtab)
unfolding check_elf
check_elf-IsConvertible elf g h =
    let (valid, no_common, no_gp_relative, same) =
      three_tests (elf_valid elf initial).1 (common_is_used elf (elf_valid elf initial).0)
        (check_gp_relative_relocations elf) invalid_elf common_used gp_relative
        (elf_valid elf initial).0 g h in
    let (symtab, convertible, place) =
      IsConvertible-of_tests elf initial valid no_common no_gp_relative in
    (symtab, convertible, same ∙ place)

check_elf-ok :
    (elf : Elfio) (symtab : ℕ)
    → IsConvertible elf symtab
    → check_elf elf initial ≡ ok (with_symtab initial symtab)
unfolding check_elf
check_elf-ok elf symtab is =
    let (valid, no_common, gp_free) = elf_valid-IsConvertible elf initial symtab is in
    rw (valid, no_common, gp_free)

uso_write-ok :
    (e : Endian) (can_open : Bool) (elf : Elfio) (name : Str) (g : Globals) (f : File)
    → uso_write e can_open elf name g ≡ ok f
    → (can_open ≡ true) × (f ≡ uso_file e elf name g)
unfolding uso_write
uso_write-ok e true elf name g f h = (refl, cc)
uso_write-ok e false elf name g f h = cc

module _ (lib : Algorithms SymbolInfo sym_compare) where
  convert-ok :
      (elf : Elfio) (g : Globals)
      → convert lib elf ≡ ok g
      → (symtab : ℕ) × IsConvertible elf symtab
        × (globals : Globals) × (sym_collect lib elf
              (section_collect elf (with_symtab initial symtab))
            ≡ ok globals)
        × (g ≡ reloc_build elf globals)
  unfolding convert
  convert-ok elf g h =
      let (g₁, checked, rest) = bind-ok (check_elf elf initial) _ g h in
      let (symtab, convertible, same) = check_elf-IsConvertible elf g₁ checked in
      let (g₂, collected, last) = bind-ok (sym_collect lib elf (section_collect elf g₁)) _ g rest in
      (
        symtab,
        convertible,
        g₂,
        subst (λ (t : Globals). sym_collect lib elf (section_collect elf t) ≡ ok g₂) same collected,
        cc,
      )

  main-of_ok :
      (e : Endian) (argc : ℕ) (loaded : Option Elfio) (can_open : Bool) (input : Str) (f : File)
      → main lib e argc loaded can_open input ≡ ok f
      → Written lib e argc loaded can_open input f
  unfolding main
  main-of_ok e argc loaded can_open input f h = elim (Bool-cases (argc == 3)) [
    | inr other ↦ let failed : exit usage ≡ ok f = rw other at h in cc
    | inl three ↦ elim (Option-cases loaded) [
      | inl missing ↦ let failed : exit load_failed ≡ ok f = rw (three, missing) at h in cc
      | inr (elf, there) ↦
          let run : (do g ← convert lib elf; uso_write e can_open elf input g) ≡ ok f =
            rw (three, there) at h in
          let (g, converted, written) = bind-ok (convert lib elf) _ f run in
          let (opened, file) = uso_write-ok e can_open elf input g f written in
          let (symtab, convertible, globals, collected, built) = convert-ok elf g converted in
          record {
            elf = elf;
            symtab = symtab;
            arguments = ground (arith, three);
            is_loaded = there;
            convertible = convertible;
            opened = opened;
            globals = globals;
            collected = collected;
            written = file ∙ ap (uso_file e elf input) built;
          }
    ]
  ]

  main-ok :
      (e : Endian) (argc : ℕ) (loaded : Option Elfio) (can_open : Bool) (input : Str) (f : File)
      → Written lib e argc loaded can_open input f
      → main lib e argc loaded can_open input ≡ ok f
  unfolding main convert uso_write
  main-ok e argc loaded can_open input f is =
      let arguments = is.arguments in
      let three : (argc == 3) ≡ true = ground (arith, arguments) in
      rw
        (three, is.is_loaded, check_elf-ok is.elf is.symtab is.convertible, is.collected, is.opened)
        (ap ok (sym is.written))

  -- Main of elf2uso ends with a file exactly if it is called with two arguments, the ELF file can
  -- be read, is a relocatable 32-bit big-endian MIPS file with a section named .symtab behind
  -- section 0, no symbol of the first such section lies in the common section, no entry of a
  -- relocation section is of the types 7, 9, 11, 30 or 31, sym_collect accepts the symbols of that
  -- section, and the output can be opened; the file is then the one that uso_write makes of what
  -- section_collect, sym_collect and reloc_build collect.
  pub main-Written :
      (e : Endian) (argc : ℕ) (loaded : Option Elfio) (can_open : Bool) (input : Str) (f : File)
      → (main lib e argc loaded can_open input ≡ ok f) ↔ Written lib e argc loaded can_open input f
  main-Written e argc loaded can_open input f =
      (main-of_ok e argc loaded can_open input f, main-ok e argc loaded can_open input f)
