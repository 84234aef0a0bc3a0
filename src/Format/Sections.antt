-- ===== src/Format/Sections.antt =====
-- `uso_write_sections` of tools/elf2uso.cpp writes at or behind the offset that it is given.
use dragonuso.Common.{
  ℕ, suc, ◌+◌, ◌*◌, ◌^◌, ◌≤◌, ◌<◌, ◌≡◌, refl, inl, inr, none, List, [], ◌∷◌, All, arith, length,
  if◌then◌else◌, Bool-cases, Option-cases, ltb, take,
}
use dragonuso.Common.Words.{u32}
use dragonuso.Common.Align.{pow-lt}
use dragonuso.Bytes.Stdio.{File, seek, write}
use dragonuso.Bytes.Below.{
  KeepsBelow, KeepsBelow-trans, KeepsBelow-write, KeepsBelow-write_here, pos-le-write,
}
use dragonuso.Swap.{Endian}
use dragonuso.Elf2uso.State.{SectionInfo, UsoReloc}
use dragonuso.Elf2uso.Output.{
  swapped_u32, uso_write_u32, reloc_bytes, write_relocs, uso_write_relocations,
}
use dragonuso.Elf2uso.Layout.{
  align_val, is_loaded, uso_get_reloc_table_size, uso_calc_data_start_alignment, uso_get_reloc_ofs,
}
use dragonuso.Elf2uso.Layout.Align.{
  IsAligned, IsAligned-cases, data_room, relocs_room, align_section, align_val-IsAlignedUp,
}
use dragonuso.Elf2uso.Write.{
  Writing, write_section_data, write_section_relocs, write_section, write_sections,
  uso_write_sections,
}

pub write_relocs-KeepsBelow :
    (e : Endian) (a : ℕ) (f : File) (rs : List UsoReloc)
    → a ≤ f.pos
    → KeepsBelow a f (write_relocs e f rs)
unfolding write_relocs
write_relocs-KeepsBelow e a f [] le = (omega arith, λ x lt. refl)
write_relocs-KeepsBelow e a f (r ∷ rs) le =
    let next = write f (reloc_bytes e r) in
    KeepsBelow-trans a f next (write_relocs e next rs)
      (KeepsBelow-write_here a f (reloc_bytes e r) le)
      (write_relocs-KeepsBelow e a next rs (omega (arith, pos-le-write f (reloc_bytes e r))))

uso_write_relocations-KeepsBelow :
    (e : Endian) (a : ℕ) (f : File) (ofs : ℕ) (rs : List UsoReloc)
    → a ≤ ofs
    → ofs + 4 < 2 ^ 32
    → KeepsBelow a f (uso_write_relocations e f ofs rs)
unfolding uso_write_relocations uso_write_u32
uso_write_relocations-KeepsBelow e a f ofs rs le fits =
    let counted = write (seek f ofs) (swapped_u32 e (u32 (length rs))) in
    KeepsBelow-trans a f counted (write_relocs e (seek counted (u32 (ofs + 4))) rs)
      (KeepsBelow-write a f ofs (swapped_u32 e (u32 (length rs))) le)
      (write_relocs-KeepsBelow e a (seek counted (u32 (ofs + 4))) rs (omega arith))

module _ (e : Endian) (start : ℕ) where
  -- The loop stands at or behind `start`, with room for these sections.
  pub record HasRoom (w : Writing) (loaded relocs : ℕ) : Type 0 where
    pub data_lo : start ≤ w.data_ofs
    pub data_hi : w.data_ofs + loaded < 2 ^ 32
    pub relocs_lo : start ≤ w.relocs_ofs
    pub relocs_hi : w.relocs_ofs + relocs < 2 ^ 32

  -- A step of the loop.
  record Steps (w w' : Writing) (loaded relocs : ℕ) : Type 0 where
    keeps : KeepsBelow start w.file w'.file
    room : HasRoom w' loaded relocs

  relocs-Steps :
      (w : Writing) (rs : List UsoReloc) (loaded relocs : ℕ)
      → HasRoom w loaded (4 + length rs * 12 + relocs)
      → Steps w (write_section_relocs e start w rs).0 loaded relocs
  unfolding write_section_relocs uso_get_reloc_table_size
  relocs-Steps w rs loaded relocs room = elim (Bool-cases (ltb 0 (length rs))) [
    | inl filled ↦ rw filled (record {
      keeps =
          uso_write_relocations-KeepsBelow e start w.file w.relocs_ofs rs room.relocs_lo
            (omega (arith, room.relocs_hi));
      room = record {
        data_lo = room.data_lo;
        data_hi = room.data_hi;
        relocs_lo = omega (arith, room.relocs_lo, room.relocs_hi);
        relocs_hi = omega (arith, room.relocs_hi);
      };
    })
    | inr empty ↦ rw empty (record {
      keeps = (omega arith, λ x lt. refl);
      room = record {
        data_lo = room.data_lo;
        data_hi = room.data_hi;
        relocs_lo = room.relocs_lo;
        relocs_hi = omega (arith, room.relocs_hi);
      };
    })
  ]

  -- The room of the data of one section.
  abbrev section_room : SectionInfo → ℕ
  section_room s = if is_loaded s then s.align + s.size else 0

  null-Steps :
      (w : Writing) (s : SectionInfo) (loaded relocs : ℕ)
      → s.contents ≡ none
      → HasRoom w (section_room s + loaded) relocs
      → Steps w (write_section_data start w s).0 loaded relocs
  unfolding write_section_data
  null-Steps w s loaded relocs null room =
      let same : section_room s ≡ 0 = rw null in
      rw null (record {
        keeps = (omega arith, λ x lt. refl);
        room = record {
          data_lo = room.data_lo;
          data_hi = omega (arith, room.data_hi, same);
          relocs_lo = room.relocs_lo;
          relocs_hi = room.relocs_hi;
        };
      })

  data-Steps :
      (w : Writing) (s : SectionInfo) (loaded relocs : ℕ)
      → IsAligned s
      → HasRoom w (section_room s + loaded) relocs
      → Steps w (write_section_data start w s).0 loaded relocs
  unfolding write_section_data
  data-Steps w s loaded relocs (inl null) room = null-Steps w s loaded relocs null room
  data-Steps w s loaded relocs (inr (k, small, align)) room = elim (Option-cases s.contents) [
    | inl null ↦ null-Steps w s loaded relocs null room
    | inr (bytes, e') ↦
        let same : section_room s ≡ s.align + s.size = rw e' in
        let (above, close) =
          align_section s w.data_ofs k small align (omega (arith, room.data_hi, same)) in
        rw e' (record {
          keeps =
              KeepsBelow-write start w.file (align_val w.data_ofs (u32 s.align))
                (take (u32 s.size) bytes) (omega (arith, room.data_lo, above));
          room = record {
            data_lo = omega (arith, room.data_lo, room.data_hi, same, above, close);
            data_hi = omega (arith, room.data_hi, same, above, close);
            relocs_lo = room.relocs_lo;
            relocs_hi = room.relocs_hi;
          };
        })
  ]

  section-Steps :
      (w : Writing) (i : ℕ) (s : SectionInfo) (ss : List SectionInfo)
      → IsAligned s
      → HasRoom w (data_room (s ∷ ss)) (relocs_room (s ∷ ss))
      → Steps w (write_section e start w i s) (data_room ss) (relocs_room ss)
  unfolding write_section data_room relocs_room
  section-Steps w i s ss aligned room =
      let w₁ = (write_section_data start w s).0 in
      let w₂ = (write_section_relocs e start w₁ s.internal_relocs).0 in
      let w₃ = (write_section_relocs e start w₂ s.external_relocs).0 in
      let last = (write_section e start w i s).file in
      let filled = data-Steps w s (data_room ss) (relocs_room (s ∷ ss)) aligned room in
      let internal =
        relocs-Steps w₁ s.internal_relocs (data_room ss)
          (4 + length s.external_relocs * 12 + relocs_room ss) filled.room in
      let external =
        relocs-Steps w₂ s.external_relocs (data_room ss) (relocs_room ss) internal.room in
      record {
        keeps = KeepsBelow-trans start w.file w₁.file last filled.keeps (
            KeepsBelow-trans start w₁.file w₂.file last internal.keeps (
              KeepsBelow-trans start w₂.file w₃.file last external.keeps
                (KeepsBelow-write start w₃.file (start + i * 20) _ (omega arith))));
        room = record {
          data_lo = external.room.data_lo;
          data_hi = external.room.data_hi;
          relocs_lo = external.room.relocs_lo;
          relocs_hi = external.room.relocs_hi;
        };
      }

  write_sections-KeepsBelow :
      (w : Writing) (i : ℕ) (ss : List SectionInfo)
      → All IsAligned ss
      → HasRoom w (data_room ss) (relocs_room ss)
      → KeepsBelow start w.file (write_sections e start w i ss).file
  unfolding write_sections
  write_sections-KeepsBelow w i [] aligned room = (omega arith, λ x lt. refl)
  write_sections-KeepsBelow w i (s ∷ ss) aligned room =
      let step = section-Steps w i s ss aligned.0 room in
      let next = write_section e start w i s in
      KeepsBelow-trans start w.file next.file (write_sections e start next (suc i) ss).file
        step.keeps (write_sections-KeepsBelow next (suc i) ss aligned.1 step.room)

-- The bound under which the sections that are written at an offset keep it in 32 bits.
abbrev pub FitSections : ℕ → List SectionInfo → Type 0
FitSections start ss =
    start + length ss * 20 + data_room ss + data_room ss + relocs_room ss + 8 < 2 ^ 32

-- The alignment of the first section with data.
start_alignment :
    (ss : List SectionInfo)
    → All IsAligned ss
    → (k : ℕ) × (k < 32) × (uso_calc_data_start_alignment ss ≡ 2 ^ k) × (2 ^ k ≤ 1 + data_room ss)
unfolding uso_calc_data_start_alignment data_room
start_alignment [] aligned = (0, omega arith, refl, omega arith)
start_alignment (s ∷ ss) aligned = elim (IsAligned-cases s aligned.0) [
  | inl null ↦ rw null (
      let (k, small, same, room) = start_alignment ss aligned.1 in
      (k, small, same, omega (arith, room)))
  | inr (k, small, align, filled) ↦ rw filled (k, small, omega (arith, pow-lt k small), omega arith)
]

reloc_ofs_bounds :
    (ofs : ℕ) (ss : List SectionInfo)
    → All IsAligned ss
    → ofs + data_room ss < 2 ^ 32
    → (ofs ≤ uso_get_reloc_ofs ofs ss) × (uso_get_reloc_ofs ofs ss ≤ ofs + data_room ss)
unfolding uso_get_reloc_ofs data_room
reloc_ofs_bounds ofs [] aligned fits = (omega arith, omega arith)
reloc_ofs_bounds ofs (s ∷ ss) aligned fits = elim (IsAligned-cases s aligned.0) [
  | inl null ↦
      let room : ofs + (0 + data_room ss) < 2 ^ 32 = rw null at fits in
      let (low, high) = reloc_ofs_bounds ofs ss aligned.1 (omega arith) in
      rw null (low, omega (arith, high))
  | inr (k, small, align, filled) ↦
      let room : ofs + (s.align + s.size + data_room ss) < 2 ^ 32 = rw filled at fits in
      let (above, close) = align_section s ofs k small align (omega arith) in
      let next = align_val ofs (u32 s.align) + s.size in
      let wrap : u32 next ≡ next = omega arith in
      let (low, high) = reloc_ofs_bounds next ss aligned.1 (omega arith) in
      rw (filled, wrap) (omega (arith, low), omega (arith, high))
]

-- `uso_write_sections` changes no byte of the file below the offset that it is given and does not
-- make the file shorter, if the alignments of the sections with data are powers of two and
-- everything it writes ends before 4 GB: the section table, the data and the relocations never
-- overwrite the symbol tables in front of them.
pub uso_write_sections-KeepsBelow :
    (e : Endian) (f : File) (start : ℕ) (ss : List SectionInfo)
    → All IsAligned ss
    → FitSections start ss
    → KeepsBelow start f (uso_write_sections e f start ss)
unfolding uso_write_sections
uso_write_sections-KeepsBelow e f start ss aligned fits =
    let (k, small, first, room) = start_alignment ss aligned in
    let wrap : u32 (start + length ss * 20) ≡ start + length ss * 20 = omega arith in
    let begin = align_val (u32 (start + length ss * 20)) (uso_calc_data_start_alignment ss) in
    let up = align_val-IsAlignedUp k (start + length ss * 20) small (omega arith) in
    let low : start + length ss * 20 ≤ begin = rw (wrap, first) up.above in
    let high : begin < start + length ss * 20 + 2 ^ k = rw (wrap, first) up.close in
    let (above, below) = reloc_ofs_bounds begin ss aligned (omega arith) in
    let up' = align_val-IsAlignedUp 2 (uso_get_reloc_ofs begin ss) (omega arith) (omega arith) in
    write_sections-KeepsBelow e start
      (record { file = f; data_ofs = begin; relocs_ofs = align_val (uso_get_reloc_ofs begin ss) 4 })
      0 ss aligned
      (record {
        data_lo = omega arith;
        data_hi = omega arith;
        relocs_lo = omega (arith, up'.above);
        relocs_hi = omega (arith, up'.close);
      })
