-- ===== src/Format/Fields.antt =====
-- The fields of a symbol in a file, whichever hosts wrote it and read it.
use dragonuso.Common.{
  ℕ, zero, suc, inl, inr, if◌then◌else◌, Bool-cases, ◌+◌, ◌/◌, ◌^◌, ◌<◌, ◌≡◌, ◌∙◌, List, [], ◌∷◌,
  ◌++◌, arith, bit_and, length, get_or, All, not, ◌==◌,
}
use dragonuso.Common.Words.{u16, u32}
use dragonuso.Common.Bits.{bit_and-mask, bit_and-field, bit_or-field_right}
use dragonuso.Swap.{Endian, be_u16, be_u32, load_u16, load_u32, swap_u16, swap_u32}
use dragonuso.Swap.Laws.{host_u16-swap_u16, host_u32-swap_u32, swap_u16-load_u16, swap_u32-load_u32}
use dragonuso.Elf2uso.State.{SymbolInfo}
use dragonuso.Elf2uso.Output.{swapped_u16, swapped_u32, name_len_field, symbol_bytes}

pub swapped_u32_lem : (e : Endian) (v : ℕ) → swapped_u32 e v ≡ be_u32 v
unfolding swapped_u32
swapped_u32_lem e v = host_u32-swap_u32 e v

pub swapped_u16_lem : (e : Endian) (v : ℕ) → swapped_u16 e v ≡ be_u16 v
unfolding swapped_u16
swapped_u16_lem e v = host_u16-swap_u16 e v

-- The bytes of a symbol with these fields.
abbrev pub entry_bytes : (name_ofs addr section name_len : ℕ) → List ℕ
entry_bytes name_ofs addr section name_len =
    be_u32 name_ofs ++ be_u32 addr ++ be_u16 section ++ be_u16 name_len

pub symbol_bytes_lem :
    (e : Endian) (name_ofs : ℕ) (s : SymbolInfo)
    → symbol_bytes e name_ofs s ≡ entry_bytes name_ofs (u32 s.addr) s.section (name_len_field s)
unfolding symbol_bytes
symbol_bytes_lem e n s = rw (
  swapped_u32_lem e n,
  swapped_u32_lem e (u32 s.addr),
  swapped_u16_lem e s.section,
  swapped_u16_lem e (name_len_field s),
)

-- Every element of such a list, and what lies behind it, is a byte.
pub All-bytes : (bs : List ℕ) → All (λ b. b < 256) bs → (j : ℕ) → get_or bs j 0 < 256
All-bytes [] h j = omega arith
All-bytes (b ∷ bs) h zero = h.0
All-bytes (b ∷ bs) h (suc j) = All-bytes bs h.1 j

module _ (e : Endian) (n a s l : ℕ) (n_fits : n < 2 ^ 32) (a_fits : a < 2 ^ 32)
    (s_fits : s < 2 ^ 16) (l_fits : l < 2 ^ 16) where
  in_bytes : (j : ℕ) → get_or (entry_bytes n a s l) j 0 < 256
  in_bytes = All-bytes (entry_bytes n a s l) (omega arith)

  pub read_name_ofs : swap_u32 e (load_u32 e (entry_bytes n a s l) 0) ≡ n
  read_name_ofs = swap_u32-load_u32 e (entry_bytes n a s l) 0 in_bytes ∙ omega arith

  pub read_addr : swap_u32 e (load_u32 e (entry_bytes n a s l) 4) ≡ a
  read_addr = swap_u32-load_u32 e (entry_bytes n a s l) 4 in_bytes ∙ omega arith

  pub read_section : swap_u16 e (load_u16 e (entry_bytes n a s l) 8) ≡ s
  read_section = swap_u16-load_u16 e (entry_bytes n a s l) 8 in_bytes ∙ omega arith

  pub read_name_len : swap_u16 e (load_u16 e (entry_bytes n a s l) 10) ≡ l
  read_name_len = swap_u16-load_u16 e (entry_bytes n a s l) 10 in_bytes ∙ omega arith

pub read_count : (e : Endian) (n : ℕ) → n < 2 ^ 32 → swap_u32 e (load_u32 e (be_u32 n) 0) ≡ n
read_count e n h =
    swap_u32-load_u32 e (be_u32 n) 0 (All-bytes (be_u32 n) (omega arith)) ∙ omega arith

-- The length and the flag share a field.
name_len_field_lem :
    (s : SymbolInfo)
    → length s.name < 2 ^ 15
    → name_len_field s ≡ length s.name + (if s.weak then 2 ^ 15 else 0)
unfolding name_len_field
name_len_field_lem s h =
    let fits : u16 (length s.name) ≡ length s.name = omega arith in
    elim (Bool-cases s.weak) [
      | inl w ↦ rw (w, fits) (bit_or-field_right 15 1 (length s.name) h)
      | inr w ↦ rw (w, fits) (omega arith)
    ]

pub name_len_field-lt : (s : SymbolInfo) → length s.name < 2 ^ 15 → name_len_field s < 2 ^ 16
name_len_field-lt s h = ground (arith, name_len_field_lem s h)

pub name_len_mask :
    (s : SymbolInfo) → length s.name < 2 ^ 15 → bit_and (name_len_field s) 0x7FFF ≡ length s.name
name_len_mask s h = bit_and-mask 15 (name_len_field s) ∙ ground (arith, name_len_field_lem s h)

pub weak_bit :
    (s : SymbolInfo)
    → length s.name < 2 ^ 15
    → not (bit_and (name_len_field s) 0x8000 == 0) ≡ s.weak
weak_bit s h = ground (
  arith,
  name_len_field_lem s h,
  bit_and-field 15 (name_len_field s) 1,
  bit_and-mask 1 (name_len_field s / 2 ^ 15),
)
