-- ===== src/Runtime/Fixup/Round.antt =====
-- One round of the loop of `fixup_section_table` of src/uso.c.
use dragonuso.Common.{
  ℕ, zero, suc, ◌+◌, ◌<◌, ◌≡◌, ◌≢◌, refl, ap, ◌∙◌, true, false, arith, ◌==◌, ltb, if◌then◌else◌,
  count_from, ℕ_discrete,
}
use dragonuso.Common.Words.{u32}
use dragonuso.Bytes.{Bytes, Apart}
use dragonuso.Runtime.Ram.{load_u32, store_u32, section_entry, section_data, data_size, data_align}
use dragonuso.Runtime.Ram.Laws.{store_outside, load_u32_ext, load_u32-store_self}
use dragonuso.Runtime.Fixup.{roundup_ptr, ptr_fixup, fixup_nonnull, fixup_section, fixup_sections}

fixup_nonnull_outside : (m : Bytes) (a base x : ℕ) → Apart x 1 a 4 → fixup_nonnull m a base x ≡ m x
unfolding fixup_nonnull ptr_fixup
fixup_nonnull_outside m a base x out =
    ground (arith, store_outside m a (u32 (base + load_u32 m a)) x out)

fixup_nonnull-load :
    (m : Bytes) (a base b : ℕ) → Apart b 4 a 4 → load_u32 (fixup_nonnull m a base) b ≡ load_u32 m b
fixup_nonnull-load m a base b out =
    load_u32_ext (fixup_nonnull m a base) m b
      λ x lo hi. fixup_nonnull_outside m a base x (omega arith)

-- The pointers of a section with data.
abbrev pub fixed_section : Bytes → ℕ → ℕ → Bytes
fixed_section m table s =
    fixup_nonnull (fixup_nonnull (ptr_fixup m s table) (s + 12) table) (s + 16) table

-- The address of a section without data.
abbrev pub place : Bytes → ℕ → ℕ → ℕ
place m noload s = if ltb 0 (data_align m s) then roundup_ptr noload (data_align m s) else noload

pub fixup_section_loaded :
    (m : Bytes) (table noload s : ℕ)
    → section_data m s ≢ 0
    → fixup_section m table noload s ≡ (fixed_section m table s, noload)
unfolding fixup_section
fixup_section_loaded m table noload s filled =
    let some' : (load_u32 m s == 0) ≡ false = ground (arith, filled) in rw some'

pub fixup_section_noload :
    (m : Bytes) (table noload s : ℕ)
    → section_data m s ≡ 0
    → fixup_section m table noload s
      ≡ (store_u32 m s (place m noload s), u32 (place m noload s + data_size m s))
unfolding fixup_section
fixup_section_noload m table noload s empty =
    let none' : (load_u32 m s == 0) ≡ true = ground (arith, empty) in rw none'

pub fixed_section_outside :
    (m : Bytes) (table s x : ℕ) → Apart x 1 s 20 → fixed_section m table s x ≡ m x
unfolding ptr_fixup
fixed_section_outside m table s x out =
    fixup_nonnull_outside _ (s + 16) table x (omega arith)
    ∙ fixup_nonnull_outside _ (s + 12) table x (omega arith)
    ∙ store_outside m s (u32 (table + load_u32 m s)) x (omega arith)

pub fixed_section_data :
    (m : Bytes) (table s : ℕ)
    → section_data (fixed_section m table s) s ≡ u32 (table + section_data m s)
unfolding ptr_fixup
fixed_section_data m table s =
    fixup_nonnull-load _ (s + 16) table s (omega arith)
    ∙ fixup_nonnull-load _ (s + 12) table s (omega arith)
    ∙ load_u32-store_self m s (u32 (table + load_u32 m s)) (omega arith)

-- The round for one section changes its entry only.
pub fixup_section_outside :
    (m : Bytes) (table noload s x : ℕ) → Apart x 1 s 20 → (fixup_section m table noload s).0 x ≡ m x
fixup_section_outside m table noload s x out = elim (ℕ_discrete (section_data m s) 0) [
  | yes empty ↦
      rw (fixup_section_noload m table noload s empty)
        (store_outside m s (place m noload s) x (omega arith))
  | no filled ↦
      rw (fixup_section_loaded m table noload s filled) (fixed_section_outside m table s x out)
]

pub fixup_sections_below :
    (m : Bytes) (table noload k n x : ℕ)
    → x < section_entry table k
    → fixup_sections m table noload (count_from k n) x ≡ m x
unfolding fixup_sections
fixup_sections_below m table noload k zero x below = refl
fixup_sections_below m table noload k (suc n) x below =
    let (m₁, noload₁) = fixup_section m table noload (section_entry table k) in
    fixup_sections_below m₁ table noload₁ (suc k) n x (omega arith)
    ∙ fixup_section_outside m table noload (section_entry table k) x (omega arith)

pub fixup_sections_step :
    (m m₁ : Bytes) (table lo lo₁ k n : ℕ)
    → fixup_section m table lo (section_entry table k) ≡ (m₁, lo₁)
    → fixup_sections m table lo (count_from k (suc n))
      ≡ fixup_sections m₁ table lo₁ (count_from (suc k) n)
unfolding fixup_sections
fixup_sections_step m m₁ table lo lo₁ k n round =
    ap (λ (r : Bytes × ℕ). fixup_sections r.0 table r.1 (count_from (suc k) n)) round
