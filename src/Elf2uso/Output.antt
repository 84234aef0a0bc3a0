-- ===== src/Elf2uso/Output.antt =====
-- The functions of tools/elf2uso.cpp that write symbol tables and relocations. `e` is the byte
-- order of the host.
use dragonuso.Common.{ℕ, suc, ◌+◌, ◌*◌, List, [], ◌∷◌, ◌++◌, bit_or, if◌then◌else◌, length, take}
use dragonuso.Common.Words.{u16, u32}
use dragonuso.Bytes.Stdio.{File, seek, write}
use dragonuso.Swap.{Endian, host_u16, host_u32, swap_u16, swap_u32}
use dragonuso.Text.{Str}
use dragonuso.Elf2uso.State.{SymbolInfo, UsoReloc}

module _ (e : Endian) where
  -- The bytes of a field after its swap.
  unfoldable pub swapped_u32 : ℕ → List ℕ
  swapped_u32 v = host_u32 e (swap_u32 e v)

  unfoldable pub swapped_u16 : ℕ → List ℕ
  swapped_u16 v = host_u16 e (swap_u16 e v)

unfoldable pub uso_write_elf_name : File → ℕ → Str → File
uso_write_elf_name file ofs name = write (seek file ofs) (name ++ 0 ∷ [])

unfoldable pub uso_write_u32 : Endian → File → ℕ → ℕ → File
uso_write_u32 e file ofs value = write (seek file ofs) (swapped_u32 e value)

-- `name_len`, with its top bit set for a weak symbol.
unfoldable pub name_len_field : SymbolInfo → ℕ
name_len_field s =
    let name_len = u16 (length s.name) in if s.weak then bit_or name_len 0x8000 else name_len

-- The 12 bytes of the `uso_symbol_t` for a symbol.
unfoldable pub symbol_bytes : Endian → ℕ → SymbolInfo → List ℕ
symbol_bytes e name_ofs s =
    swapped_u32 e name_ofs
    ++ swapped_u32 e (u32 s.addr)
    ++ swapped_u16 e s.section
    ++ swapped_u16 e (name_len_field s)

-- One round of the loop of `uso_write_symbol_table`, at index `i`.
unfoldable pub write_symbol : Endian → File → ℕ → ℕ → ℕ → SymbolInfo → File
write_symbol e file ofs i name_ofs s =
    let entry = write (seek file (u32 (4 + ofs) + i * 12)) (symbol_bytes e name_ofs s) in
    write (seek entry (u32 (ofs + name_ofs))) (take (u16 (length s.name) + 1) (s.name ++ 0 ∷ []))

unfoldable pub write_symbols : Endian → File → ℕ → ℕ → ℕ → List SymbolInfo → File
write_symbols e file ofs i name_ofs [] = file
write_symbols e file ofs i name_ofs (s ∷ ss) =
    write_symbols e (write_symbol e file ofs i name_ofs s) ofs (suc i)
      (u32 (name_ofs + (u16 (length s.name) + 1))) ss

unfoldable pub uso_write_symbol_table : Endian → File → ℕ → List SymbolInfo → File
uso_write_symbol_table e file ofs syms =
    write_symbols e (uso_write_u32 e file ofs (u32 (length syms))) ofs 0
      (u32 (4 + length syms * 12)) syms

-- The 12 bytes of the `uso_reloc_t` for a relocation.
unfoldable pub reloc_bytes : Endian → UsoReloc → List ℕ
reloc_bytes e r = swapped_u32 e r.offset ++ swapped_u32 e r.info ++ swapped_u32 e r.sym_offset

unfoldable pub write_relocs : Endian → File → List UsoReloc → File
write_relocs e file [] = file
write_relocs e file (r ∷ rs) = write_relocs e (write file (reloc_bytes e r)) rs

unfoldable pub uso_write_relocations : Endian → File → ℕ → List UsoReloc → File
uso_write_relocations e file ofs relocs =
    write_relocs e (seek (uso_write_u32 e file ofs (u32 (length relocs))) (u32 (ofs + 4))) relocs
