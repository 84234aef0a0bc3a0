-- ===== src/Runtime/Reloc/Examples.antt =====
-- Relocations of two instructions, one by one and from a table.
use dragonuso.Common.{
  ℕ, ◌+◌, ◌*◌, ◌/◌, ◌%◌, ◌^◌, ◌≡◌, refl, inl, inr, true, some, List, [], ◌∷◌, arith,
}
use dragonuso.Bytes.{Bytes, put}
use dragonuso.Runtime.Ram.{load_u32, uso_get_reloc_type, uso_get_reloc_target_index}
use dragonuso.Runtime.Ram.Laws.{IsRam}
use dragonuso.Runtime.Reloc.{r_mips_hi16, r_mips_lo16, relocate_26, relocate_hi16, relocate_lo16}
use dragonuso.Runtime.Reloc.Halves.{PairMoved, low_half, pair_moved, pair_misplaced, call_moved}
use dragonuso.Runtime.Reloc.Memory.{source_at, type_at, target_at, Spares}
use dragonuso.Runtime.Reloc.Table.{Applied, apply_relocs-Applied}
use dragonuso.Runtime.Examples.{zeros, put-IsRam, words, words-fit}

pair_moved_example :
    PairMoved 0x3C020001 0x24429000
      (relocate_hi16 0x3C020001 (some (low_half 0x24429000)) 0x80003000)
      (relocate_lo16 0x24429000 0x80003000)
      0x80003000
pair_moved_example =
    pair_moved 0x3C020001 0x24429000 0x80003000 (omega arith) (omega arith) (omega arith)

call_moved_example :
    (relocate_26 0x0C000010 0x80003000 / 2 ^ 26 ≡ 0x0C000010 / 2 ^ 26)
    × (relocate_26 0x0C000010 0x80003000 % 2 ^ 26 * 4
        ≡ (0x0C000010 % 2 ^ 26 * 4 + 0x80003000) % 2 ^ 28 / 4 * 4)
call_moved_example = call_moved 0x0C000010 0x80003000 (omega arith)

-- A section table at 0x40, a relocation table of a high and a low half at 0x100, and the code at
-- 0x200.
abbrev header_words : List ℕ
header_words = 0x20000 ∷ 0x40 ∷ []

abbrev reloc_words : List ℕ
reloc_words = 2 ∷ 0 ∷ 0x14000001 ∷ 0 ∷ 4 ∷ 0x18000001 ∷ 0 ∷ []

abbrev code_words : List ℕ
code_words = 0x3C020001 ∷ 0x24429000 ∷ []

abbrev code_ram : Bytes
code_ram =
    put
      (put (put (put zeros 0 (words header_words)) 0x54 (words (0x80003000 ∷ []))) 0x100
        (words reloc_words))
      0x200 (words code_words)

code_ram-IsRam : IsRam code_ram
code_ram-IsRam =
    put-IsRam _ 0x200 (words code_words)
      (put-IsRam _ 0x100 (words reloc_words)
        (put-IsRam _ 0x54 (words (0x80003000 ∷ []))
          (put-IsRam zeros 0 (words header_words) (λ x. omega arith) (words-fit header_words))
          (words-fit (0x80003000 ∷ [])))
        (words-fit reloc_words))
      (words-fit code_words)

code_targets :
    (target_at code_ram 0x200 0x100 0 ≡ 0x200)
    × (target_at code_ram 0x200 0x100 1 ≡ 0x204)
    × (source_at code_ram 0 true 0x100 1 ≡ 0x54)
    × (type_at code_ram 0x100 0 ≡ r_mips_hi16)
    × (type_at code_ram 0x100 1 ≡ r_mips_lo16)
unfolding load_u32 put uso_get_reloc_type uso_get_reloc_target_index
code_targets = (refl, refl, refl, refl, refl)

code-Spares : Spares 0 true 0x200 0x100 code_ram 0 1
code-Spares =
    let (first, second, source, _, _) = code_targets in
    record {
      entry = inl (omega (arith, first));
      tables = inl (omega (arith, first));
      source = inl (omega (arith, first, source));
      word = inr (omega (arith, first, second));
    }

apply_relocs-Applied_example : Applied 0 true 0x200 0x100 code_ram code_ram (0 ∷ 1 ∷ [])
apply_relocs-Applied_example =
    apply_relocs-Applied 0 true 0x200 0x100 code_ram (0 ∷ 1 ∷ []) code_ram-IsRam
      ((code-Spares, tt), (tt, tt))
      (inr (inr (inl code_targets.3)), (inr (inr (inr code_targets.4)), tt))

pair_misplaced_example :
    PairMoved 0x3C020001 0x24428000
      (relocate_hi16 0x3C020001 (some (low_half 0x24428000)) 0x80003000)
      (relocate_lo16 0x24428000 0x80003000)
      (0x80003000 + 2 ^ 16)
pair_misplaced_example =
    pair_misplaced 0x3C020001 0x24428000 0x80003000 (omega arith) (omega arith) (omega arith)
