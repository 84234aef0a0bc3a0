-- ===== src/Runtime/Reloc.antt =====
-- `apply_uso_relocs`, `link_uso` and `flush_uso` of src/uso.c.
pub mod Halves
pub mod Memory
pub mod Table
pub mod Link
mod Examples
use dragonuso.Common.{
  ℕ, zero, suc, ◌+◌, ◌-◌, ◌%◌, ◌^◌, Bool, true, false, ◌||◌, Option, none, some, List, [], ◌∷◌,
  ◌==◌, bit_and, bit_or, ltb, if◌then◌else◌, count_from,
}
use dragonuso.Common.Words.{u16, u32, ◌<<<◌, ◌>>>◌}
use dragonuso.Bytes.{Bytes}
use dragonuso.Runtime.Ram.{
  load_u32, store_u32, num_sections, sections, import_syms, section_entry, section_data, data_size,
  internal_relocs, external_relocs, table_length, table_entry, symbol_ptr, reloc_offset,
  reloc_sym_offset, uso_get_reloc_type, uso_get_reloc_target_index,
}
use dragonuso.Runtime.Machine.{
  Machine, Run, done, assert_failed, ◌>>=◌, emit, data_cache_invalidated, inst_cache_invalidated,
}

abbrev pub r_mips_32 : ℕ
r_mips_32 = 2

abbrev pub r_mips_26 : ℕ
r_mips_26 = 4

abbrev pub r_mips_hi16 : ℕ
r_mips_hi16 = 5

abbrev pub r_mips_lo16 : ℕ
r_mips_lo16 = 6

-- A word of data.
unfoldable pub relocate_32 : ℕ → ℕ → ℕ
relocate_32 target sym_addr = u32 (target + sym_addr)

-- A call instruction.
unfoldable pub relocate_26 : ℕ → ℕ → ℕ
relocate_26 target sym_addr =
    let target_addr = u32 ((bit_and target 0x3FFFFFF <<< 2) + sym_addr) in
    bit_or (bit_and target 0xFC000000) (bit_and target_addr 0xFFFFFFC >>> 2)

-- The new high half, from the old one and the low half of the instruction that completes it.
unfoldable pub relocated_hi : ℕ → ℕ → ℕ → ℕ
relocated_hi hi lo sym_addr =
    let joined = u32 ((hi <<< 16) + lo) in
    let extended = if ltb 0x8000 lo then u32 (joined + 2 ^ 32 - 0x10000) else joined in
    let addr = u32 (extended + sym_addr) in
    let high = u16 (addr >>> 16) in if bit_and addr 0x8000 == 0 then high else u16 (high + 1)

-- `lo` is the low half of the next instruction with a low relocation, if there is one.
unfoldable pub relocate_hi16 : ℕ → Option ℕ → ℕ → ℕ
relocate_hi16 target lo sym_addr =
    let hi = u16 (bit_and target 0xFFFF) in
    bit_or (bit_and target 0xFFFF0000)
      (elim lo [ some lo ↦ relocated_hi hi lo sym_addr | none ↦ hi ])

unfoldable pub relocate_lo16 : ℕ → ℕ → ℕ
relocate_lo16 target sym_addr =
    let lo = u16 (bit_and target 0xFFFF) in bit_or (bit_and target 0xFFFF0000) (u16 (lo + sym_addr))

-- The inner loop over the later relocations: the low half that the next `R_MIPS_LO16` points to.
unfoldable pub find_lo : Bytes → ℕ → ℕ → List ℕ → Option ℕ
find_lo m section_base table [] = none
find_lo m section_base table (j ∷ js) =
    let r = table_entry table j in
    if uso_get_reloc_type m r == r_mips_lo16
    then some (u16 (bit_and (load_u32 m (u32 (section_base + reloc_offset m r))) 0xFFFF))
    else find_lo m section_base table js

-- The address that a relocation refers to.
unfoldable pub reloc_sym_addr : Bytes → ℕ → Bool → ℕ → ℕ
reloc_sym_addr m uso internal r =
    let target_index = uso_get_reloc_target_index m r in
    if internal
    then u32 (section_data m (section_entry (sections m uso) target_index) + reloc_sym_offset m r)
    else symbol_ptr m (table_entry (import_syms m uso) target_index)

-- One round of the loop of `apply_uso_relocs`; `later` are the indices behind `i`.
unfoldable pub apply_reloc : Bytes → ℕ → Bool → ℕ → ℕ → ℕ → List ℕ → Run Bytes
apply_reloc m uso internal section_base table i later =
    let r = table_entry table i in
    let target = u32 (section_base + reloc_offset m r) in
    let old = load_u32 m target in
    let type = uso_get_reloc_type m r in
    let sym_addr = reloc_sym_addr m uso internal r in
    if type == r_mips_32
    then done (store_u32 m target (relocate_32 old sym_addr))
    else if type == r_mips_26
    then done (store_u32 m target (relocate_26 old sym_addr))
    else if type == r_mips_hi16
    then done (store_u32 m target (relocate_hi16 old (find_lo m section_base table later) sym_addr))
    else if type == r_mips_lo16
    then done (store_u32 m target (relocate_lo16 old sym_addr))
    else assert_failed

unfoldable pub apply_relocs : Bytes → ℕ → Bool → ℕ → ℕ → List ℕ → Run Bytes
apply_relocs m uso internal section_base table [] = done m
apply_relocs m uso internal section_base table (i ∷ is) = do
  m' ← apply_reloc m uso internal section_base table i is
  apply_relocs m' uso internal section_base table is

unfoldable pub apply_uso_relocs : Bytes → ℕ → ℕ → (internal : Bool) → Run Bytes
apply_uso_relocs m uso target_section internal =
    let entry = section_entry (sections m uso) target_section in
    let section_base = section_data m entry in
    let table = if internal then internal_relocs m entry else external_relocs m entry in
    if section_base == 0 || table == 0
    then done m
    else apply_relocs m uso internal section_base table (count_from 0 (table_length m table))

unfoldable pub link_sections : Bytes → ℕ → List ℕ → Run Bytes
link_sections m uso [] = done m
link_sections m uso (i ∷ is) = do
  m₁ ← apply_uso_relocs m uso i true
  m₂ ← apply_uso_relocs m₁ uso i false
  link_sections m₂ uso is

unfoldable pub link_uso : Bytes → ℕ → Run Bytes
link_uso m uso = link_sections m uso (count_from 1 (num_sections m uso - 1))

unfoldable pub flush_sections : Machine → ℕ → List ℕ → Machine
flush_sections s uso [] = s
flush_sections s uso (i ∷ is) =
    let entry = section_entry (sections s.ram uso) i in
    let base = section_data s.ram entry in
    let size = data_size s.ram entry in
    flush_sections
      (emit (emit s (data_cache_invalidated base size)) (inst_cache_invalidated base size)) uso is

unfoldable pub flush_uso : Machine → ℕ → Machine
flush_uso s uso = flush_sections s uso (count_from 1 (num_sections s.ram uso - 1))
