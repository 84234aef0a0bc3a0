-- ===== src/Runtime/Reloc/Link.antt =====
-- `link_uso` of src/uso.c over all sections of a file.
use dragonuso.Common.{
  ℕ, zero, suc, ◌+◌, ◌-◌, ◌*◌, ◌≤◌, ◌<◌, ◌≡◌, ◌≢◌, refl, sym, ap, ◌∙◌, inl, inr, Bool, true, false,
  ◌||◌, arith, ◌==◌, if◌then◌else◌, count_from, Bool-cases,
}
use mathlib.Core.Path.{subst}
use dragonuso.Common.Words.{u32}
use dragonuso.Bytes.{Bytes, Apart}
use dragonuso.Runtime.Ram.{
  load_u32, store_u32, num_sections, sections, section_entry, section_data, internal_relocs,
  external_relocs, table_length, table_entry, uso_get_reloc_type,
}
use dragonuso.Runtime.Ram.Laws.{store_outside, load_u32_ext, load_u16_ext}
use dragonuso.Runtime.Machine.{Run, done}
use dragonuso.Runtime.Reloc.{apply_relocs, apply_uso_relocs, link_sections, link_uso}
use dragonuso.Runtime.Reloc.Memory.{target_at, type_at, IsKnownType, new_word, apply_reloc_known}

-- The address of the data of section `i`, and of its table of relocations.
abbrev pub data_at : Bytes → (uso i : ℕ) → ℕ
data_at m uso i = section_data m (section_entry (sections m uso) i)

abbrev pub relocs_at : Bytes → (uso i : ℕ) → Bool → ℕ
relocs_at m uso i internal =
    let entry = section_entry (sections m uso) i in
    if internal then internal_relocs m entry else external_relocs m entry

-- A table of relocations of known types, which lies in the addresses `Kept` and whose targets,
-- behind `base`, do not.
pub record KeepsTable (Kept : ℕ → Type 0) (m : Bytes) (base table : ℕ) : Type 0 where
  pub inside : (x : ℕ) → table ≤ x → x < table + 4 + table_length m table * 12 → Kept x
  pub known : (i : ℕ) → i < table_length m table → IsKnownType (type_at m table i)
  pub apart :
      (i : ℕ) → i < table_length m table → (x : ℕ) → Kept x → Apart x 1 (target_at m base table i) 4

-- The header of a file, the entries of its sections and its tables of relocations lie in the
-- addresses `Kept`, and no target of a relocation does.
pub record KeepsLinks (Kept : ℕ → Type 0) (m : Bytes) (uso : ℕ) : Type 0 where
  pub header : (x : ℕ) → uso ≤ x → x < uso + 8 → Kept x
  pub entries :
      (i : ℕ)
      → 1 ≤ i
      → i < num_sections m uso
      → (x : ℕ) → section_entry (sections m uso) i ≤ x
      → x < section_entry (sections m uso) i + 20
      → Kept x
  pub tables :
      (i : ℕ) (internal : Bool)
      → 1 ≤ i
      → i < num_sections m uso
      → data_at m uso i ≢ 0
      → relocs_at m uso i internal ≢ 0
      → KeepsTable Kept m (data_at m uso i) (relocs_at m uso i internal)

module _ (Kept : ℕ → Type 0) (m : Bytes) (uso : ℕ) where
  abbrev Agrees : Bytes → Type 0
  Agrees m' = (x : ℕ) → Kept x → m' x ≡ m x

  -- A run ends, with the same bytes at the kept addresses.
  abbrev EndsSame : Run Bytes → Type 0
  EndsSame run = (m' : Bytes) × (run ≡ done m') × ((x : ℕ) → Kept x → m' x ≡ m x)

  load_same :
      (m' : Bytes) (a : ℕ)
      → ((x : ℕ) → a ≤ x → x < a + 4 → Kept x)
      → Agrees m'
      → load_u32 m' a ≡ load_u32 m a
  load_same m' a kept same = load_u32_ext m' m a λ x lo hi. same x (kept x lo hi)

  module _ (internal : Bool) (base table : ℕ) (keeps : KeepsTable Kept m base table) where
    type_same :
        (m' : Bytes) (i : ℕ)
        → i < table_length m table
        → Agrees m'
        → type_at m' table i ≡ type_at m table i
    unfolding uso_get_reloc_type
    type_same m' i lt same =
        rw
          (load_same m' (table_entry table i + 4)
            (λ x lo hi. keeps.inside x (omega arith) (omega arith)) same)
          refl

    target_same :
        (m' : Bytes) (i : ℕ)
        → i < table_length m table
        → Agrees m'
        → target_at m' base table i ≡ target_at m base table i
    target_same m' i lt same =
        ap (λ (o : ℕ). u32 (base + o))
          (load_same m' (table_entry table i)
            (λ x lo hi. keeps.inside x (omega arith) (omega arith)) same)

    apply_relocs-EndsSame :
        (m' : Bytes) (k c : ℕ)
        → k + c ≤ table_length m table
        → Agrees m'
        → EndsSame (apply_relocs m' uso internal base table (count_from k c))
    unfolding apply_relocs
    apply_relocs-EndsSame m' k zero fits same = (m', refl, same)
    apply_relocs-EndsSame m' k (suc c) fits same =
        let lt : k < table_length m table = omega arith in
        let later = count_from (suc k) c in
        let word = new_word m' uso internal base table k later in
        let stored = store_u32 m' (target_at m' base table k) word in
        let kept : Agrees stored = λ x at.
          store_outside m' (target_at m' base table k) word x (
            subst (λ (t : ℕ). Apart x 1 t 4) (sym (target_same m' k lt same))
              (keeps.apart k lt x at))
          ∙ same x at in
        let (final, runs, end) = apply_relocs-EndsSame stored (suc k) c (omega arith) kept in
        (
          final,
          rw
              (apply_reloc_known m' uso internal base table k later
                (subst IsKnownType (sym (type_same m' k lt same)) (keeps.known k lt)))
              runs,
          end,
        )

  module _ (keeps : KeepsLinks Kept m uso) where
    sections_same : (m' : Bytes) → Agrees m' → sections m' uso ≡ sections m uso
    sections_same m' same =
        load_same m' (uso + 4) (λ x lo hi. keeps.header x (omega arith) (omega arith)) same

    module _ (i : ℕ) (above : 1 ≤ i) (below : i < num_sections m uso) where
      -- A field of the section's entry.
      field_same :
          (m' : Bytes) (ofs : ℕ)
          → ofs ≤ 16
          → Agrees m'
          → load_u32 m' (section_entry (sections m' uso) i + ofs)
            ≡ load_u32 m (section_entry (sections m uso) i + ofs)
      field_same m' ofs fits same =
          ap (λ (t : ℕ). load_u32 m' (section_entry t i + ofs)) (sections_same m' same)
          ∙ load_same m' (section_entry (sections m uso) i + ofs)
              (λ x lo hi. keeps.entries i above below x (omega arith) (omega arith)) same

      data_same : (m' : Bytes) → Agrees m' → data_at m' uso i ≡ data_at m uso i
      data_same m' same =
          let here : (t : ℕ) → section_entry t i + 0 ≡ section_entry t i = λ t. omega arith in
          ap (load_u32 m') (sym (here (sections m' uso)))
          ∙ field_same m' 0 (omega arith) same
          ∙ ap (load_u32 m) (here (sections m uso))

      relocs_same :
          (m' : Bytes) (internal : Bool)
          → Agrees m'
          → relocs_at m' uso i internal ≡ relocs_at m uso i internal
      relocs_same m' true same = field_same m' 12 (omega arith) same
      relocs_same m' false same = field_same m' 16 (omega arith) same

      apply_uso_relocs-EndsSame :
          (m' : Bytes) (internal : Bool) → Agrees m' → EndsSame (apply_uso_relocs m' uso i internal)
      unfolding apply_uso_relocs
      apply_uso_relocs-EndsSame m' internal same =
          let base = data_at m uso i in
          let table = relocs_at m uso i internal in
          let tables = keeps.tables i internal above below in
          rw (data_same m' same, relocs_same m' internal same)
            (elim (Bool-cases (base == 0 || table == 0)) [
              | inl null ↦ rw null (m', refl, same)
              | inr filled ↦
                  let inside : KeepsTable Kept m base table =
                    tables (ground arith) (ground arith) in
                  let length_same : table_length m' table ≡ table_length m table =
                    load_same m' table (λ x lo hi. inside.inside x lo (omega arith)) same in
                  rw (filled, length_same)
                    (apply_relocs-EndsSame internal base table inside m' 0 (table_length m table)
                      (omega arith) same)
            ])

    link_sections-EndsSame :
        (m' : Bytes) (k c : ℕ)
        → 1 ≤ k
        → ((i : ℕ) → k ≤ i → i < k + c → i < num_sections m uso)
        → Agrees m'
        → EndsSame (link_sections m' uso (count_from k c))
    unfolding link_sections
    link_sections-EndsSame m' k zero above below same = (m', refl, same)
    link_sections-EndsSame m' k (suc c) above below same =
        let here = below k (omega arith) (omega arith) in
        let (m₁, first, same₁) = apply_uso_relocs-EndsSame k above here m' true same in
        let (m₂, second, same₂) = apply_uso_relocs-EndsSame k above here m₁ false same₁ in
        let (final, runs, end) =
          link_sections-EndsSame m₂ (suc k) c (omega arith)
            (λ i lo hi. below i (omega arith) (omega arith)) same₂ in
        (final, rw (first, second) runs, end)

    -- From any memory with the same bytes at the kept addresses, link_uso ends, and leaves them.
    pub link_uso-EndsSame :
        (m' : Bytes) → ((x : ℕ) → Kept x → m' x ≡ m x) → EndsSame (link_uso m' uso)
    unfolding link_uso
    link_uso-EndsSame m' same =
        let count : num_sections m' uso ≡ num_sections m uso =
          load_u16_ext m' m uso (λ x lo hi. same x (keeps.header x lo (omega arith))) in
        rw count (
          link_sections-EndsSame m' 1 (num_sections m uso - 1) (omega arith)
            (λ i lo hi. omega arith) same)
