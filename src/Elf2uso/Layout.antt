-- ===== src/Elf2uso/Layout.antt =====
-- Alignment, sizes and offsets in tools/elf2uso.cpp.
pub mod Align
use dragonuso.Common.{
  ℕ, ◌+◌, ◌-◌, ◌*◌, ◌^◌, Bool, true, false, ◌&&◌, not, none, some, List, [], ◌∷◌, bit_and, ltb,
  if◌then◌else◌, length,
}
use dragonuso.Common.Words.{u32}
use dragonuso.Elf2uso.State.{SectionInfo, UsoReloc}

-- `~x` and `x - 1` on 32 bits
abbrev pub not_u32 : ℕ → ℕ
not_u32 x = 2 ^ 32 - 1 - u32 x

abbrev pub minus_one : ℕ → ℕ
minus_one x = u32 (x + (2 ^ 32 - 1))

-- `(val + to - 1) & ~(to - 1)`; only a power of two is an alignment.
unfoldable pub align_val : ℕ → ℕ → ℕ
align_val val to = bit_and (minus_one (val + to)) (not_u32 (minus_one to))

-- `data` is not NULL.
abbrev pub is_loaded : SectionInfo → Bool
is_loaded s = elim s.contents [ some bytes ↦ true | none ↦ false ]

-- The loops of `uso_get_align` and `uso_get_noload_align`, from `align` on.
loaded_align : ℕ → List SectionInfo → ℕ
loaded_align align [] = align
loaded_align align (s ∷ ss) =
    loaded_align (if is_loaded s && ltb align s.align then u32 s.align else align) ss

noload_align : ℕ → List SectionInfo → ℕ
noload_align align [] = align
noload_align align (s ∷ ss) =
    noload_align (if not (is_loaded s) && ltb align s.align then u32 s.align else align) ss

unfoldable pub uso_get_align : List SectionInfo → ℕ
unfolding loaded_align
uso_get_align sections = loaded_align 4 sections

unfoldable pub uso_get_noload_align : List SectionInfo → ℕ
unfolding noload_align
uso_get_noload_align sections = noload_align 1 sections

-- The loop of `uso_get_noload_size`, from `size` on.
unfoldable pub add_noload_sizes : ℕ → List SectionInfo → ℕ
add_noload_sizes size [] = size
add_noload_sizes size (s ∷ ss) =
    add_noload_sizes (if is_loaded s then size else u32 (size + s.size)) ss

unfoldable pub uso_get_noload_size : List SectionInfo → ℕ
uso_get_noload_size sections = add_noload_sizes 0 sections

-- The alignment of the first section with data.
unfoldable pub uso_calc_data_start_alignment : List SectionInfo → ℕ
uso_calc_data_start_alignment [] = 1
uso_calc_data_start_alignment (s ∷ ss) =
    if is_loaded s then u32 s.align else uso_calc_data_start_alignment ss

-- The end of the last section with data.
unfoldable pub uso_get_reloc_ofs : ℕ → List SectionInfo → ℕ
uso_get_reloc_ofs data_ofs [] = data_ofs
uso_get_reloc_ofs data_ofs (s ∷ ss) =
    uso_get_reloc_ofs
      (if is_loaded s then u32 (align_val data_ofs (u32 s.align) + s.size) else data_ofs) ss

unfoldable pub uso_get_reloc_table_size : List UsoReloc → ℕ
uso_get_reloc_table_size relocs = u32 (4 + length relocs * 12)
