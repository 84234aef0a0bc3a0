-- ===== src/Format/Noload.antt =====
-- The memory of the sections without data: what uso_get_noload_size of tools/elf2uso.cpp asks for,
-- and what `fixup_section_table` of src/uso.c uses.
use dragonuso.Common.{
  ℕ, ◌+◌, ◌-◌, ◌*◌, ◌^◌, ◌≤◌, ◌<◌, ◌≡◌, ◌≢◌, true, ◌==◌, ap, inl, inr, none, [], ◌∷◌, arith,
  ℕ_discrete, dec_lt,
}
use mathlib.Core.Path.{subst}
use native.Mathlib.Nat.{mul-le-mul_right, add-mul}
use dragonuso.Bytes.{Bytes}
use dragonuso.Elf2uso.State.{SectionInfo}
use dragonuso.Elf2uso.Layout.{uso_get_noload_size, add_noload_sizes}
use dragonuso.Runtime.Ram.{section_entry, section_data, data_size, data_align}
use dragonuso.Runtime.Fixup.{fixup_section_table}
use dragonuso.Runtime.Fixup.Sections.{
  AreAlignments, IsLaidOut, IsPlaced, IsPlaced-bounds, noload_room, fixup_section_table-IsLaidOut,
}

-- Entry `i` of a section table is that of a section without data.
pub record IsNoload (m : Bytes) (table i : ℕ) (s : SectionInfo) : Type 0 where
  pub in_file : s.contents ≡ none
  pub empty : section_data m (section_entry table i) ≡ 0
  pub size : data_size m (section_entry table i) ≡ s.size
  pub align : data_align m (section_entry table i) ≡ s.align

-- A number is no multiple of another.
abbrev pub IsNoMultiple : (size align : ℕ) → Type 0
IsNoMultiple size align = (c : ℕ) → size ≢ c * align

between_multiples : (align b c size : ℕ) → IsNoMultiple size align → c * align ≢ b * align + size
between_multiples align b c size odd e = elim (dec_lt c b) [
  | yes lt ↦ absurd (odd 0 (omega (arith, e, mul-le-mul_right {m = c} {n = b} align (omega arith))))
  | no ge ↦
      let split : b + (c - b) ≡ c = omega arith in
      absurd
        (odd (c - b) (omega (arith, e, add-mul b (c - b) align, ap (λ (n : ℕ). n * align) split)))
]

-- An aligned address behind one that is not aligned is farther.
placed_behind :
    (align b base size lo a : ℕ)
    → base ≡ b * align
    → 0 < align
    → IsNoMultiple size align
    → base ≤ lo
    → IsPlaced align (lo + size) a
    → base + size < a
placed_behind align b base size lo a even pos odd le (inl (null, same)) = absurd (omega arith)
placed_behind align b base size lo a even pos odd le (inr up) = elim (ℕ_discrete a (base + size)) [
  | yes e ↦ absurd (between_multiples align b up.factor size odd (omega (arith, up.multiple, e)))
  | no ne ↦ omega (arith, up.above)
]

noload_size_of_two :
    (s t : SectionInfo)
    → s.contents ≡ none
    → t.contents ≡ none
    → s.size + t.size < 2 ^ 32
    → uso_get_noload_size (s ∷ t ∷ []) ≡ s.size + t.size
unfolding uso_get_noload_size add_noload_sizes
noload_size_of_two s t first second small = rw (first, second) (omega arith)

module _ (m : Bytes) (table noload_base : ℕ) (s t : SectionInfo) (first : IsNoload m table 1 s)
    (second : IsNoload m table 2 t) where
  laid_out-overrun :
      (m' : Bytes) (b : ℕ)
      → noload_base ≡ b * t.align
      → 0 < t.align
      → IsNoMultiple s.size t.align
      → IsLaidOut m m' table noload_base (1 ∷ 2 ∷ [])
      → noload_base + (s.size + t.size) < section_data m' (section_entry table 2) + t.size
  laid_out-overrun m' b even pos odd (inl (filled, at, rest)) = absurd (filled first.empty)
  laid_out-overrun m' b even pos odd (inr (none₁, placed, inl (filled, at, rest))) =
      absurd (filled second.empty)
  laid_out-overrun m' b even pos odd (inr (none₁, placed, inr (none₂, placed', rest))) =
      let lo = section_data m' (section_entry table 1) in
      let a = section_data m' (section_entry table 2) in
      let above = IsPlaced-bounds (data_align m (section_entry table 1)) noload_base lo placed in
      let behind : IsPlaced t.align (lo + s.size) a =
        subst (λ (n : ℕ). IsPlaced n (lo + s.size) a) second.align
          (subst (λ (n : ℕ). IsPlaced (data_align m (section_entry table 2)) (lo + n) a) first.size
            placed') in
      omega (arith, placed_behind t.align b noload_base s.size lo a even pos odd above.0 behind)

  -- Two sections without data, the second of which has to be moved up because the size of the first
  -- is no multiple of its alignment, end behind the memory that uso_get_noload_size of elf2uso asks
  -- for, when fixup_section_table lays them out from an address on that is aligned for the second,
  -- if the alignments are 0 or powers of two, that of the second not 0, and all ends, with padding,
  -- before 4 GB.
  pub fixup_section_table-overrun :
      (b : ℕ)
      → noload_base ≡ b * t.align
      → IsNoMultiple s.size t.align
      → AreAlignments m table (1 ∷ 2 ∷ [])
      → 0 < t.align
      → noload_base + noload_room m table (1 ∷ 2 ∷ []) < 2 ^ 32
      → noload_base + uso_get_noload_size (s ∷ t ∷ [])
        < section_data (fixup_section_table m table noload_base 3) (section_entry table 2) + t.size
  unfolding noload_room
  fixup_section_table-overrun b even odd aligned pos room =
      let (null, laid) = fixup_section_table-IsLaidOut m table noload_base 3 aligned room in
      let e₁ : (section_data m (section_entry table 1) == 0) ≡ true = ground (arith, first.empty) in
      let e₂ : (section_data m (section_entry table 2) == 0) ≡ true =
        ground (arith, second.empty) in
      let room' : noload_base
            + (data_align m (section_entry table 1)
                + data_size m (section_entry table 1)
                + (data_align m (section_entry table 2) + data_size m (section_entry table 2) + 0))
          < 2 ^ 32 =
        rw (e₁, e₂) at room in
      let small : s.size + t.size < 2 ^ 32 = omega (arith, first.size, second.size) in
      rw (noload_size_of_two s t first.in_file second.in_file small)
        (laid_out-overrun (fixup_section_table m table noload_base 3) b even pos odd laid)
