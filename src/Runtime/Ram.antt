-- ===== src/Runtime/Ram.antt =====
-- The console's memory, with the structures of src/uso_internal.h as they lie in it: numbers have
-- their highest byte first, and pointers are 32-bit addresses. A `const char *` argument stands as
-- the string that it points to.
pub mod Laws
use dragonuso.Common.{
  ℕ, zero, suc, ◌+◌, ◌*◌, ◌^◌, Bool, true, false, List, [], ◌∷◌, bit_and, ◌==◌, if◌then◌else◌,
}
use dragonuso.Common.Words.{◌>>>◌}
use dragonuso.Bytes.{Bytes, put}
use dragonuso.Swap.{be_u32, be_u16}
use dragonuso.Text.{Str}

unfoldable pub load_u32 : Bytes → ℕ → ℕ
load_u32 m a = m a * 2 ^ 24 + m (a + 1) * 2 ^ 16 + m (a + 2) * 2 ^ 8 + m (a + 3)

unfoldable pub load_u16 : Bytes → ℕ → ℕ
load_u16 m a = m a * 2 ^ 8 + m (a + 1)

unfoldable pub store_u32 : Bytes → ℕ → ℕ → Bytes
store_u32 m a v = put m a (be_u32 v)

-- The string at an address. Every string ends within the address space.
unfoldable pub string_within : ℕ → Bytes → ℕ → Str
string_within zero m a = []
string_within (suc fuel) m a =
    let rest = string_within fuel m (a + 1) in if m a == 0 then [] else m a ∷ rest

unfoldable pub string_at : Bytes → ℕ → Str
string_at m a = string_within (2 ^ 32) m a

-- `uso_header_t`
abbrev pub num_sections : Bytes → ℕ → ℕ
num_sections m uso = load_u16 m uso

abbrev pub eh_frame_section : Bytes → ℕ → ℕ
eh_frame_section m uso = load_u16 m (uso + 2)

abbrev pub sections : Bytes → ℕ → ℕ
sections m uso = load_u32 m (uso + 4)

abbrev pub import_syms : Bytes → ℕ → ℕ
import_syms m uso = load_u32 m (uso + 8)

abbrev pub export_syms : Bytes → ℕ → ℕ
export_syms m uso = load_u32 m (uso + 12)

abbrev pub ctors_section : Bytes → ℕ → ℕ
ctors_section m uso = load_u16 m (uso + 16)

abbrev pub dtors_section : Bytes → ℕ → ℕ
dtors_section m uso = load_u16 m (uso + 18)

-- `uso_section_t`: the address of entry `i` of a table, and the fields of an entry.
abbrev pub section_entry : ℕ → ℕ → ℕ
section_entry table i = table + i * 20

abbrev pub section_data : Bytes → ℕ → ℕ
section_data m s = load_u32 m s

abbrev pub data_size : Bytes → ℕ → ℕ
data_size m s = load_u32 m (s + 4)

abbrev pub data_align : Bytes → ℕ → ℕ
data_align m s = load_u32 m (s + 8)

abbrev pub internal_relocs : Bytes → ℕ → ℕ
internal_relocs m s = load_u32 m (s + 12)

abbrev pub external_relocs : Bytes → ℕ → ℕ
external_relocs m s = load_u32 m (s + 16)

-- `uso_symbol_table_t` and `uso_reloc_table_t` begin with their length; `uso_symbol_t` and
-- `uso_reloc_t` both have 12 bytes.
abbrev pub table_length : Bytes → ℕ → ℕ
table_length m table = load_u32 m table

abbrev pub table_entry : ℕ → ℕ → ℕ
table_entry table i = table + 4 + i * 12

abbrev pub symbol_name : Bytes → ℕ → ℕ
symbol_name m s = load_u32 m s

abbrev pub symbol_ptr : Bytes → ℕ → ℕ
symbol_ptr m s = load_u32 m (s + 4)

abbrev pub symbol_section : Bytes → ℕ → ℕ
symbol_section m s = load_u16 m (s + 8)

abbrev pub name_len : Bytes → ℕ → ℕ
name_len m s = load_u16 m (s + 10)

abbrev pub reloc_offset : Bytes → ℕ → ℕ
reloc_offset m r = load_u32 m r

abbrev pub reloc_info : Bytes → ℕ → ℕ
reloc_info m r = load_u32 m (r + 4)

abbrev pub reloc_sym_offset : Bytes → ℕ → ℕ
reloc_sym_offset m r = load_u32 m (r + 8)

-- `struct uso_handle_data`
abbrev pub handle_next : Bytes → ℕ → ℕ
handle_next m h = load_u32 m h

abbrev pub handle_prev : Bytes → ℕ → ℕ
handle_prev m h = load_u32 m (h + 4)

abbrev pub handle_uso : Bytes → ℕ → ℕ
handle_uso m h = load_u32 m (h + 8)

abbrev pub ref_count : Bytes → ℕ → ℕ
ref_count m h = load_u32 m (h + 12)

abbrev pub handle_name : Bytes → ℕ → Str
handle_name m h = string_at m (h + 40)

-- The inline functions of src/uso_internal.h.
unfoldable pub uso_is_symbol_weak : Bytes → ℕ → Bool
uso_is_symbol_weak m s = if bit_and (name_len m s) 0x8000 == 0 then false else true

unfoldable pub uso_symbol_get_name_length : Bytes → ℕ → ℕ
uso_symbol_get_name_length m s = bit_and (name_len m s) 0x7FFF

unfoldable pub uso_get_reloc_type : Bytes → ℕ → ℕ
uso_get_reloc_type m r = reloc_info m r >>> 26

unfoldable pub uso_get_reloc_target_index : Bytes → ℕ → ℕ
uso_get_reloc_target_index m r = bit_and (reloc_info m r) 0x3FFFFFF
