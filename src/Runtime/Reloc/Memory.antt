-- ===== src/Runtime/Reloc/Memory.antt =====
-- `apply_uso_relocs` on the memory: a relocation table whose targets lie outside the tables.
use dragonuso.Common.{
  ℕ, ◌+◌, ◌≤◌, ◌<◌, ◌≡◌, ap, ◌⊎◌, inl, inr, Bool, List, [], ◌∷◌, arith, bit_and, ◌==◌,
  if◌then◌else◌, Bool-cases, All,
}
use dragonuso.Common.Words.{u32, ◌>>>◌}
use dragonuso.Bytes.{Bytes, Apart}
use dragonuso.Runtime.Ram.{
  load_u32, store_u32, sections, import_syms, section_entry, table_entry, reloc_offset, reloc_info,
  reloc_sym_offset, uso_get_reloc_type, uso_get_reloc_target_index,
}
use dragonuso.Runtime.Ram.Laws.{load_u32_ext}
use dragonuso.Runtime.Machine.{done, assert_failed}
use dragonuso.Runtime.Reloc.{
  r_mips_32, r_mips_26, r_mips_hi16, r_mips_lo16, relocate_32, relocate_26, relocate_hi16,
  relocate_lo16, find_lo, reloc_sym_addr, apply_reloc,
}

-- The address that entry `i` of the table changes.
abbrev pub target_at : Bytes → ℕ → ℕ → ℕ → ℕ
target_at m base table i = u32 (base + reloc_offset m (table_entry table i))

abbrev pub type_at : Bytes → ℕ → ℕ → ℕ
type_at m table i = uso_get_reloc_type m (table_entry table i)

abbrev pub IsKnownType : ℕ → Type 0
IsKnownType t = (t ≡ r_mips_32) ⊎ ((t ≡ r_mips_26) ⊎ ((t ≡ r_mips_hi16) ⊎ (t ≡ r_mips_lo16)))

-- The word that one round stores.
unfoldable pub new_word : Bytes → ℕ → Bool → ℕ → ℕ → ℕ → List ℕ → ℕ
new_word m uso internal base table i later =
    let old = load_u32 m (target_at m base table i) in
    let sym_addr = reloc_sym_addr m uso internal (table_entry table i) in
    let type = type_at m table i in
    if type == r_mips_32
    then relocate_32 old sym_addr
    else if type == r_mips_26
    then relocate_26 old sym_addr
    else if type == r_mips_hi16
    then relocate_hi16 old (find_lo m base table later) sym_addr
    else relocate_lo16 old sym_addr

-- A round with a known type stores a word at its target.
pub apply_reloc_known :
    (m : Bytes) (uso : ℕ) (internal : Bool) (base table i : ℕ) (later : List ℕ)
    → IsKnownType (type_at m table i)
    → apply_reloc m uso internal base table i later
      ≡ done (store_u32 m (target_at m base table i) (new_word m uso internal base table i later))
unfolding apply_reloc new_word
apply_reloc_known m uso internal base table i later known = ground arith

-- A round with any other type fails the assertion.
pub apply_reloc_unknown :
    (m : Bytes) (uso : ℕ) (internal : Bool) (base table i : ℕ) (later : List ℕ)
    → ¬ IsKnownType (type_at m table i)
    → apply_reloc m uso internal base table i later ≡ assert_failed
unfolding apply_reloc
apply_reloc_unknown m uso internal base table i later unknown = ground arith

-- The word from which the symbol's address is read: the data pointer of a section, or the pointer of
-- an imported symbol.
abbrev pub source_at : Bytes → ℕ → Bool → ℕ → ℕ → ℕ
source_at m uso internal table i =
    let index = uso_get_reloc_target_index m (table_entry table i) in
    if internal
    then section_entry (sections m uso) index
    else table_entry (import_syms m uso) index + 4

-- The same bytes in a range.
abbrev pub SameRange : Bytes → Bytes → ℕ → ℕ → Type 0
SameRange m m' a n = (x : ℕ) → a ≤ x → x < a + n → m' x ≡ m x

module _ (uso : ℕ) (internal : Bool) (base table : ℕ) where
  -- Whatever entry `i` reads is as in the memory `m`.
  pub record SameInputs (m m' : Bytes) (i : ℕ) : Type 0 where
    pub entry : SameRange m m' (table_entry table i) 12
    pub tables : SameRange m m' (uso + 4) 8
    pub source : SameRange m m' (source_at m uso internal table i) 4
    pub word : SameRange m m' (target_at m base table i) 4

  -- The target of entry `i` meets nothing that entry `j` reads or changes.
  pub record Spares (m : Bytes) (i j : ℕ) : Type 0 where
    pub entry : Apart (table_entry table j) 12 (target_at m base table i) 4
    pub tables : Apart (uso + 4) 8 (target_at m base table i) 4
    pub source : Apart (source_at m uso internal table j) 4 (target_at m base table i) 4
    pub word : Apart (target_at m base table j) 4 (target_at m base table i) 4

  -- Each entry spares those behind it.
  abbrev pub Independent : Bytes → List ℕ → Type 0
  Independent m [] = Unit {0}
  Independent m (i ∷ is) = All (Spares m i) is × Independent m is

  module _ {m m' : Bytes} {i : ℕ} (same : SameInputs m m' i) where
    same_offset : reloc_offset m' (table_entry table i) ≡ reloc_offset m (table_entry table i)
    same_offset = load_u32_ext m' m (table_entry table i) λ x lo hi. same.entry x lo (omega arith)

    same_info : reloc_info m' (table_entry table i) ≡ reloc_info m (table_entry table i)
    same_info =
        load_u32_ext m' m (table_entry table i + 4)
          λ x lo hi. same.entry x (omega arith) (omega arith)

    same_sym_offset :
        reloc_sym_offset m' (table_entry table i) ≡ reloc_sym_offset m (table_entry table i)
    same_sym_offset =
        load_u32_ext m' m (table_entry table i + 8)
          λ x lo hi. same.entry x (omega arith) (omega arith)

    pub same_target : target_at m' base table i ≡ target_at m base table i
    same_target = ap (λ (t : ℕ). u32 (base + t)) same_offset

    pub same_type : type_at m' table i ≡ type_at m table i
    unfolding uso_get_reloc_type
    same_type = ap (λ (t : ℕ). t >>> 26) same_info

    same_index :
        uso_get_reloc_target_index m' (table_entry table i)
        ≡ uso_get_reloc_target_index m (table_entry table i)
    unfolding uso_get_reloc_target_index
    same_index = ap (λ (t : ℕ). bit_and t 0x3FFFFFF) same_info

    same_sections : sections m' uso ≡ sections m uso
    same_sections = load_u32_ext m' m (uso + 4) λ x lo hi. same.tables x lo (omega arith)

    same_imports : import_syms m' uso ≡ import_syms m uso
    same_imports = load_u32_ext m' m (uso + 8) λ x lo hi. same.tables x (omega arith) (omega arith)

    pub same_word : load_u32 m' (target_at m base table i) ≡ load_u32 m (target_at m base table i)
    same_word = load_u32_ext m' m (target_at m base table i) same.word

    same_source :
        load_u32 m' (source_at m uso internal table i)
        ≡ load_u32 m (source_at m uso internal table i)
    same_source = load_u32_ext m' m (source_at m uso internal table i) same.source

    pub same_sym_addr :
        reloc_sym_addr m' uso internal (table_entry table i)
        ≡ reloc_sym_addr m uso internal (table_entry table i)
    unfolding reloc_sym_addr
    same_sym_addr =
        rw (same_sections, same_imports, same_index, same_sym_offset)
          (elim (Bool-cases internal) [
            | inl b ↦ rw (b, rw b at same_source)
            | inr b ↦ rw (b, rw b at same_source)
          ])
