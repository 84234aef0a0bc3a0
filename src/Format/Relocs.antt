-- ===== src/Format/Relocs.antt =====
-- Relocations that tools/elf2uso.cpp writes, as src/uso.c reads them in memory.
use mathlib.Core.Path.{subst}
use dragonuso.Common.{
  ℕ, suc, ◌+◌, ◌*◌, ◌^◌, ◌<◌, ◌≡◌, refl, sym, ap, ◌∙◌, List, [], ◌∷◌, ◌++◌, All, arith, length,
  bit_and, bit_or,
}
use dragonuso.Common.Words.{u32, ◌<<<◌}
use dragonuso.Common.Bits.{bit_and-mask, bit_or-field}
use dragonuso.Bytes.{Bytes, get}
use dragonuso.Bytes.Stdio.{File, seek, write}
use dragonuso.Bytes.Files.{write_at, Holds, Holds-frame, Holds-write}
use dragonuso.Swap.{Endian, be_u32}
use dragonuso.Elf2uso.State.{UsoReloc}
use dragonuso.Elf2uso.Relocs
use dragonuso.Elf2uso.Output.{reloc_bytes, write_relocs, uso_write_u32, uso_write_relocations}
use dragonuso.Runtime.Ram.{
  load_u32, table_length, table_entry, reloc_offset, reloc_info, reloc_sym_offset,
  uso_get_reloc_type, uso_get_reloc_target_index,
}
use dragonuso.Format.Fields.{swapped_u32_lem}
use dragonuso.Format.Memory.{load_u32-get, get-shift}
use dragonuso.Format.Sections.{write_relocs-KeepsBelow}

-- The fields of a relocation fit theirs.
abbrev pub FitsReloc : UsoReloc → Type 0
FitsReloc r = (r.offset < 2 ^ 32) × (r.info < 2 ^ 32) × (r.sym_offset < 2 ^ 32)

abbrev stored_reloc : UsoReloc → List ℕ
stored_reloc r = be_u32 r.offset ++ be_u32 r.info ++ be_u32 r.sym_offset

reloc_bytes_lem : (e : Endian) (r : UsoReloc) → reloc_bytes e r ≡ stored_reloc r
unfolding reloc_bytes
reloc_bytes_lem e r =
    rw (swapped_u32_lem e r.offset, swapped_u32_lem e r.info, swapped_u32_lem e r.sym_offset)

-- The relocations stand in the file from `a` on.
abbrev HoldRelocs : File → ℕ → List UsoReloc → Type 0
HoldRelocs f a [] = Unit {0}
HoldRelocs f a (r ∷ rs) = Holds f a (stored_reloc r) × HoldRelocs f (a + 12) rs

write_relocs-HoldRelocs :
    (e : Endian) (f : File) (a : ℕ) (rs : List UsoReloc)
    → f.pos ≡ a
    → HoldRelocs (write_relocs e f rs) a rs
unfolding write_relocs
write_relocs-HoldRelocs e f a [] at = tt
write_relocs-HoldRelocs e f a (r ∷ rs) at =
    let next = write f (stored_reloc r) in
    let keeps = write_relocs-KeepsBelow e (a + 12) next rs (omega (arith, at)) in
    subst (λ (bs : List ℕ). HoldRelocs (write_relocs e (write f bs) rs) a (r ∷ rs))
      (sym (reloc_bytes_lem e r))
      (
        Holds-frame next (write_relocs e next rs) a (stored_reloc r)
            (subst (λ (p : ℕ). Holds next p (stored_reloc r)) at
              (Holds-write f f.pos (stored_reloc r) (omega arith)))
            keeps.0 (λ x lo hi. keeps.1 x (omega arith)),
        write_relocs-HoldRelocs e next (a + 12) rs (omega (arith, at)),
      )

-- The library sees these relocations in a table from entry `i` on.
abbrev pub SeesRelocs : Bytes → ℕ → ℕ → List UsoReloc → Type 0
SeesRelocs m table i [] = Unit {0}
SeesRelocs m table i (r ∷ rs) =
    (reloc_offset m (table_entry table i) ≡ r.offset)
    × (reloc_info m (table_entry table i) ≡ r.info)
    × (reloc_sym_offset m (table_entry table i) ≡ r.sym_offset)
    × SeesRelocs m table (suc i) rs

module _ (f : File) (m : Bytes) (base : ℕ)
    (same : (j : ℕ) → j < f.size → m (base + j) ≡ f.contents j) where
  loaded-Holds : (a : ℕ) (bs : List ℕ) → Holds f a bs → get m (base + a) (length bs) ≡ bs
  loaded-Holds a bs h =
      get-shift m f.contents base a (length bs) (λ j lo hi. same j (omega (arith, h.inside)))
      ∙ h.bytes

  HoldRelocs-SeesRelocs :
      (table a i : ℕ) (rs : List UsoReloc)
      → base + a ≡ table_entry table i
      → All FitsReloc rs
      → HoldRelocs f a rs
      → SeesRelocs m table i rs
  HoldRelocs-SeesRelocs table a i [] place fits held = tt
  HoldRelocs-SeesRelocs table a i (r ∷ rs) place fits held =
      let entry =
        subst (λ (p : ℕ). get m p 12 ≡ stored_reloc r) place
          (loaded-Holds a (stored_reloc r) held.0) in
      let start : table_entry table i + 0 ≡ table_entry table i = omega arith in
      (
        omega (
          arith,
          ap (load_u32 m) start,
          load_u32-get m (table_entry table i) 0 (stored_reloc r) entry (omega arith),
          fits.0.0,
        ),
        omega (
          arith,
          load_u32-get m (table_entry table i) 4 (stored_reloc r) entry (omega arith),
          fits.0.1,
        ),
        omega (
          arith,
          load_u32-get m (table_entry table i) 8 (stored_reloc r) entry (omega arith),
          fits.0.2,
        ),
        HoldRelocs-SeesRelocs table (a + 12) (suc i) rs (omega (arith, place)) fits.1 held.1,
      )

-- Where a file that uso_write_relocations of elf2uso has written stands in the console's memory,
-- the library reads the number of relocations in the table and the offset, the info and the symbol
-- offset of each one as they were written, in order, if the fields fit 32 bits and the table ends
-- before 4 GB.
pub SeesRelocs-uso_write_relocations :
    (e : Endian) (f : File) (ofs : ℕ) (rs : List UsoReloc) (m : Bytes) (base : ℕ)
    → ofs + 4 + length rs * 12 < 2 ^ 32
    → All FitsReloc rs
    → (let g = uso_write_relocations e f ofs rs in
        (j : ℕ) → j < g.size → m (base + j) ≡ g.contents j)
    → (table_length m (base + ofs) ≡ length rs) × SeesRelocs m (base + ofs) 0 rs
unfolding uso_write_relocations uso_write_u32
SeesRelocs-uso_write_relocations e f ofs rs m base room fits =
    let few : u32 (length rs) ≡ length rs = omega arith in
    let start : u32 (ofs + 4) ≡ ofs + 4 = omega arith in
    rw (few, start, swapped_u32_lem e (length rs))
      (λ same.
        let counted = write_at f ofs (be_u32 (length rs)) in
        let whole = write_relocs e (seek counted (ofs + 4)) rs in
        let keeps = write_relocs-KeepsBelow e (ofs + 4) (seek counted (ofs + 4)) rs (omega arith) in
        let count =
          Holds-frame counted whole ofs (be_u32 (length rs))
            (Holds-write f ofs (be_u32 (length rs)) (omega arith)) keeps.0
            (λ x lo hi. keeps.1 x (omega arith)) in
        let here : base + ofs + 0 ≡ base + ofs = omega arith in
        (
          omega (
            arith,
            ap (load_u32 m) here,
            load_u32-get m (base + ofs) 0 (be_u32 (length rs))
                (loaded-Holds whole m base same ofs (be_u32 (length rs)) count) (omega arith),
          ),
          HoldRelocs-SeesRelocs whole m base same (base + ofs) (ofs + 4) 0 rs (omega arith) fits
              (write_relocs-HoldRelocs e (seek counted (ofs + 4)) (ofs + 4) rs refl),
        ))

-- From an info field that elf2uso makes of a type below 64 and an index below 2 ^ 26, the library
-- takes the same type and the same index.
pub uso_get_reloc_type-reloc_info :
    (m : Bytes) (r type index : ℕ)
    → type < 2 ^ 6
    → index < 2 ^ 26
    → reloc_info m r ≡ Relocs.reloc_info type index
    → (uso_get_reloc_type m r ≡ type) × (uso_get_reloc_target_index m r ≡ index)
unfolding uso_get_reloc_type uso_get_reloc_target_index Relocs.reloc_info
uso_get_reloc_type-reloc_info m r type index small fits info =
    let masked : bit_and index 0x3FFFFFF ≡ index = bit_and-mask 26 index ∙ omega arith in
    let low : u32 (bit_and index 0x3FFFFFF) ≡ index = omega (arith, masked) in
    let high : u32 (type <<< 26) ≡ type * 2 ^ 26 = omega arith in
    let parts : reloc_info m r ≡ type * 2 ^ 26 + index =
      info
      ∙ ap (bit_or (u32 (type <<< 26))) low
      ∙ ap (λ (h : ℕ). bit_or h index) high
      ∙ bit_or-field 26 type index fits in
    (omega (arith, parts), bit_and-mask 26 (reloc_info m r) ∙ omega (arith, parts))
