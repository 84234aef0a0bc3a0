-- ===== src/Runtime/Fixup/Sections.antt =====
-- `fixup_section_table` of src/uso.c: where the sections lie.
use dragonuso.Common.{
  ℕ, zero, suc, ◌+◌, ◌-◌, ◌*◌, ◌^◌, ◌≤◌, ◌<◌, ◌≡◌, ◌≢◌, refl, sym, ap, ◌∙◌, ◌⊎◌, inl, inr, true,
  false, List, [], ◌∷◌, arith, ◌==◌, ltb, if◌then◌else◌, count_from, ℕ_discrete,
}
use mathlib.Core.Path.{subst}
use native.Mathlib.Nat.{one-le-pow}
use dragonuso.Common.Words.{u32}
use dragonuso.Common.Align.{IsAlignedUp, align_up}
use dragonuso.Bytes.{Bytes}
use dragonuso.Runtime.Ram.{store_u32, section_entry, section_data, data_size, data_align}
use dragonuso.Runtime.Ram.Laws.{store_outside, load_u32_ext, load_u32-store_self}
use dragonuso.Runtime.Fixup.{roundup_ptr, fixup_section, fixup_sections, fixup_section_table}
use dragonuso.Runtime.Fixup.Round.{
  fixed_section, place, fixup_section_loaded, fixup_section_noload, fixed_section_data,
  fixup_section_outside, fixup_sections_below, fixup_sections_step,
}

-- The address of a section without data, at or behind the next free address `lo`.
abbrev pub IsPlaced : (align lo a : ℕ) → Type 0
IsPlaced align lo a = ((align ≡ 0) × (a ≡ lo)) ⊎ IsAlignedUp align lo a

-- `m'` is the table `m` with addresses: an offset to the data became a pointer, and a section without
-- data has its place at or behind `lo` and all such sections in front of it.
abbrev pub IsLaidOut : (m m' : Bytes) (table lo : ℕ) → List ℕ → Type 0
IsLaidOut m m' table lo [] = Unit {0}
IsLaidOut m m' table lo (i ∷ is) =
    let s = section_entry table i in
    ((section_data m s ≢ 0)
      × (section_data m' s ≡ u32 (table + section_data m s))
      × IsLaidOut m m' table lo is)
    ⊎ ((section_data m s ≡ 0)
        × IsPlaced (data_align m s) lo (section_data m' s)
        × IsLaidOut m m' table (section_data m' s + data_size m s) is)

-- The alignments of the sections without data are 0 or powers of two.
abbrev pub AreAlignments : Bytes → ℕ → List ℕ → Type 0
AreAlignments m table [] = Unit {0}
AreAlignments m table (i ∷ is) =
    ((data_align m (section_entry table i) ≡ 0)
      ⊎ ((k : ℕ) × (k < 32) × (data_align m (section_entry table i) ≡ 2 ^ k)))
    × AreAlignments m table is

-- A bound on the memory of the sections without data, with padding.
unfoldable pub noload_room : Bytes → ℕ → List ℕ → ℕ
noload_room m table [] = 0
noload_room m table (i ∷ is) =
    let s = section_entry table i in
    (if section_data m s == 0 then data_align m s + data_size m s else 0) + noload_room m table is

place_lem :
    (m : Bytes) (noload s : ℕ)
    → (data_align m s ≡ 0) ⊎ ((k : ℕ) × (k < 32) × (data_align m s ≡ 2 ^ k))
    → noload + data_align m s ≤ 2 ^ 32
    → IsPlaced (data_align m s) noload (place m noload s)
unfolding roundup_ptr
place_lem m noload s (inl null) fits =
    let here : ltb 0 (data_align m s) ≡ false = ground (arith, null) in rw here (inl (null, refl))
place_lem m noload s (inr (k, small, power)) fits =
    let here : ltb 0 (data_align m s) ≡ true = ground (arith, power, one-le-pow k 2) in
    rw (here, power) (inr (align_up k noload small (omega (arith, power))))

pub IsPlaced-bounds : (align lo a : ℕ) → IsPlaced align lo a → (lo ≤ a) × (a ≤ lo + align)
IsPlaced-bounds align lo a (inl (null, same)) = (omega arith, omega arith)
IsPlaced-bounds align lo a (inr up) = (up.above, omega (arith, up.close))

module _ (m₀ : Bytes) (table : ℕ) where
  -- What later rounds leave of an entry.
  later_data :
      (m : Bytes) (lo k n : ℕ)
      → section_data (fixup_sections m table lo (count_from (suc k) n)) (section_entry table k)
        ≡ section_data m (section_entry table k)
  later_data m lo k n =
      load_u32_ext (fixup_sections m table lo (count_from (suc k) n)) m (section_entry table k)
        λ x l h. fixup_sections_below m table lo (suc k) n x (omega arith)

  fixup_sections-IsLaidOut :
      (m : Bytes) (lo k n : ℕ)
      → ((x : ℕ) → section_entry table k ≤ x → m x ≡ m₀ x)
      → AreAlignments m₀ table (count_from k n)
      → lo + noload_room m₀ table (count_from k n) < 2 ^ 32
      → IsLaidOut m₀ (fixup_sections m table lo (count_from k n)) table lo (count_from k n)
  unfolding fixup_sections noload_room
  fixup_sections-IsLaidOut m lo k zero same aligned room = tt
  fixup_sections-IsLaidOut m lo k (suc n) same aligned room =
      let s = section_entry table k in
      let data_same : section_data m s ≡ section_data m₀ s =
        load_u32_ext m m₀ s (λ x l h. same x l) in
      let size_same : data_size m s ≡ data_size m₀ s =
        load_u32_ext m m₀ (s + 4) (λ x l h. same x (omega arith)) in
      let align_same : data_align m s ≡ data_align m₀ s =
        load_u32_ext m m₀ (s + 8) (λ x l h. same x (omega arith)) in
      let kept : (x : ℕ)
          → section_entry table (suc k) ≤ x
          → (fixup_section m table lo s).0 x ≡ m₀ x =
        λ x l. fixup_section_outside m table lo s x (omega arith) ∙ same x (omega arith) in
      elim (ℕ_discrete (section_data m₀ s) 0) [
        | no filled ↦
            let some' : (section_data m₀ s == 0) ≡ false = ground (arith, filled) in
            let room' : lo + (0 + noload_room m₀ table (count_from (suc k) n)) < 2 ^ 32 =
              rw some' at room in
            let round = fixup_section_loaded m table lo s (λ e. filled (sym data_same ∙ e)) in
            let m₁ = fixed_section m table s in
            subst (λ (m' : Bytes). IsLaidOut m₀ m' table lo (count_from k (suc n)))
              (sym (fixup_sections_step m m₁ table lo lo k n round))
              (inl (
                filled,
                later_data m₁ lo k n
                    ∙ fixed_section_data m table s
                    ∙ ap (λ (d : ℕ). u32 (table + d)) data_same,
                fixup_sections-IsLaidOut m₁ lo (suc k) n
                    (λ x l. ap (λ (r : Bytes × ℕ). r.0 x) (sym round) ∙ kept x l) aligned.1
                    (omega arith),
              ))
        | yes empty ↦
            let none' : (section_data m₀ s == 0) ≡ true = ground (arith, empty) in
            let room' : lo
                  + (data_align m₀ s + data_size m₀ s + noload_room m₀ table (count_from (suc k) n))
                < 2 ^ 32 =
              rw none' at room in
            let a = place m lo s in
            let m₁ = store_u32 m s a in
            let aligned' =
              subst (λ (t : ℕ). (t ≡ 0) ⊎ ((j : ℕ) × (j < 32) × (t ≡ 2 ^ j))) (sym align_same)
                aligned.0 in
            let placed = place_lem m lo s aligned' (omega (arith, align_same)) in
            let (above, close) = IsPlaced-bounds (data_align m s) lo a placed in
            let next : u32 (a + data_size m s) ≡ a + data_size m₀ s =
              omega (arith, size_same, align_same) in
            let round =
              fixup_section_noload m table lo s (data_same ∙ empty)
              ∙ ap (λ (l : ℕ). (m₁, l)) next in
            let last = fixup_sections m₁ table (a + data_size m₀ s) (count_from (suc k) n) in
            let here : section_data last s ≡ a =
              later_data m₁ (a + data_size m₀ s) k n
              ∙ load_u32-store_self m s a (omega (arith, align_same)) in
            subst (λ (m' : Bytes). IsLaidOut m₀ m' table lo (count_from k (suc n)))
              (sym (fixup_sections_step m m₁ table lo (a + data_size m₀ s) k n round))
              (inr (
                empty,
                subst (λ (b : ℕ). IsPlaced (data_align m₀ s) lo b) (sym here)
                    (subst (λ (t : ℕ). IsPlaced t lo a) align_same placed),
                subst
                    (λ (b : ℕ). IsLaidOut m₀ last table (b + data_size m₀ s) (count_from (suc k) n))
                    (sym here)
                    (fixup_sections-IsLaidOut m₁ (a + data_size m₀ s) (suc k) n
                      (λ x l. ap (λ (r : Bytes × ℕ). r.0 x) (sym round) ∙ kept x l) aligned.1
                      (omega (arith, align_same))),
              ))
      ]

-- The places do not depend on what lies in front of the entries.
IsLaidOut-ext :
    (m m₁ m₂ : Bytes) (table lo k n : ℕ)
    → ((x : ℕ) → section_entry table k ≤ x → m₂ x ≡ m₁ x)
    → IsLaidOut m m₁ table lo (count_from k n)
    → IsLaidOut m m₂ table lo (count_from k n)
IsLaidOut-ext m m₁ m₂ table lo k zero same laid = tt
IsLaidOut-ext m m₁ m₂ table lo k (suc n) same (inl (filled, data_at, rest)) =
    let s = section_entry table k in
    inl (
      filled,
      load_u32_ext m₂ m₁ s (λ x l h. same x l) ∙ data_at,
      IsLaidOut-ext m m₁ m₂ table lo (suc k) n (λ x l. same x (omega arith)) rest,
    )
IsLaidOut-ext m m₁ m₂ table lo k (suc n) same (inr (empty, placed, rest)) =
    let s = section_entry table k in
    let here : section_data m₁ s ≡ section_data m₂ s =
      sym (load_u32_ext m₂ m₁ s (λ x l h. same x l)) in
    inr (
      empty,
      subst (λ (a : ℕ). IsPlaced (data_align m s) lo a) here placed,
      subst (λ (a : ℕ). IsLaidOut m m₂ table (a + data_size m s) (count_from (suc k) n)) here
          (IsLaidOut-ext m m₁ m₂ table (section_data m₁ s + data_size m s) (suc k) n
            (λ x l. same x (omega arith)) rest),
    )

-- `fixup_section_table` on a table whose sections without data have alignments of 0 or a power of
-- two, and end with padding before 4 GB, gives entry 0 the address NULL, each section with data the
-- address of its offset behind the table, and each one without data the first multiple of its
-- alignment at or behind the end of the one before (the first one at or behind noload_base; an
-- alignment of 0 does not move it).
pub fixup_section_table-IsLaidOut :
    (m : Bytes) (table noload_base num_sections : ℕ)
    → AreAlignments m table (count_from 1 (num_sections - 1))
    → noload_base + noload_room m table (count_from 1 (num_sections - 1)) < 2 ^ 32
    → (let m' = fixup_section_table m table noload_base num_sections in
        (section_data m' (section_entry table 0) ≡ 0)
        × IsLaidOut m m' table noload_base (count_from 1 (num_sections - 1)))
unfolding fixup_section_table
fixup_section_table-IsLaidOut m table noload_base num_sections aligned room =
    let filled = fixup_sections m table noload_base (count_from 1 (num_sections - 1)) in
    let first : table + 0 * 20 ≡ table = omega arith in
    (
      rw first (load_u32-store_self filled table 0 (omega arith)),
      IsLaidOut-ext m filled _ table noload_base 1 (num_sections - 1)
          (λ x l. store_outside filled table 0 x (omega arith))
          (fixup_sections-IsLaidOut m table m noload_base 1 (num_sections - 1) (λ x l. refl) aligned
            room),
    )
