-- ===== src/Elf2uso/Layout/Align.antt =====
-- `align_val` of tools/elf2uso.cpp on powers of two, and the sections whose alignment is one.
use dragonuso.Common.{
  ℕ, ◌+◌, ◌-◌, ◌*◌, ◌^◌, ◌≤◌, ◌<◌, ◌≡◌, ◌⊎◌, inl, inr, true, false, none, Option-cases, List, [],
  ◌∷◌, arith, length, if◌then◌else◌,
}
use dragonuso.Common.Words.{u32}
use dragonuso.Common.Align.{IsAlignedUp, align_up, pow-lt}
use dragonuso.Elf2uso.State.{SectionInfo}
use dragonuso.Elf2uso.Layout.{align_val, is_loaded}

-- `align_val` of elf2uso rounds a value up to the next multiple of a power of two below 2 ^ 32: the
-- result is a multiple, at or above the value, and closer than the alignment, if the value plus the
-- alignment is at most 2 ^ 32.
pub align_val-IsAlignedUp :
    (k val : ℕ) → k < 32 → val + 2 ^ k ≤ 2 ^ 32 → IsAlignedUp (2 ^ k) val (align_val val (2 ^ k))
unfolding align_val
align_val-IsAlignedUp k val h fits =
    let twice : u32 (u32 (2 ^ k + (2 ^ 32 - 1))) ≡ u32 (2 ^ k + (2 ^ 32 - 1)) = omega arith in
    rw twice (align_up k val h fits)

-- The alignment of a section with data is a power of two.
abbrev pub IsAligned : SectionInfo → Type 0
IsAligned s = (s.contents ≡ none) ⊎ ((k : ℕ) × (k < 32) × (s.align ≡ 2 ^ k))

-- A bound on the bytes that the data of these sections takes, with padding.
unfoldable pub data_room : List SectionInfo → ℕ
data_room [] = 0
data_room (s ∷ ss) = (if is_loaded s then s.align + s.size else 0) + data_room ss

-- The bytes of the relocation tables of these sections.
unfoldable pub relocs_room : List SectionInfo → ℕ
relocs_room [] = 0
relocs_room (s ∷ ss) =
    4 + length s.internal_relocs * 12 + (4 + length s.external_relocs * 12 + relocs_room ss)

-- The offset of the data of a section, at or behind the next free offset.
pub align_section :
    (s : SectionInfo) (val k : ℕ)
    → k < 32
    → s.align ≡ 2 ^ k
    → val + s.align ≤ 2 ^ 32
    → (val ≤ align_val val (u32 s.align)) × (align_val val (u32 s.align) < val + s.align)
align_section s val k small align fits =
    let same : u32 s.align ≡ 2 ^ k = omega (arith, pow-lt k small) in
    let up = align_val-IsAlignedUp k val small (omega arith) in
    rw same (omega (arith, up.above, up.close))

-- A section has no data, or it has and its alignment is a power of two.
pub IsAligned-cases :
    (s : SectionInfo)
    → IsAligned s
    → (is_loaded s ≡ false) ⊎ ((k : ℕ) × (k < 32) × (s.align ≡ 2 ^ k) × (is_loaded s ≡ true))
IsAligned-cases s (inl null) = inl (rw null)
IsAligned-cases s (inr (k, small, align)) = elim (Option-cases s.contents) [
  | inl null ↦ inl (rw null)
  | inr (bytes, filled) ↦ inr (k, small, align, rw filled)
]
