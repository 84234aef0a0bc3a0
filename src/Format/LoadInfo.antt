-- ===== src/Format/LoadInfo.antt =====
-- The load info at the end of a .uso file: what tools/elf2uso.cpp writes, and src/uso.c reads.
use dragonuso.Common.{
  ℕ, ◌+◌, ◌-◌, ◌%◌, ◌^◌, ◌≤◌, ◌<◌, ◌≡◌, sym, ap, ◌∙◌, inl, inr, List, [], ◌∷◌, ◌++◌, arith, length,
  get_or, ◌==◌, Bool-cases,
}
use mathlib.Core.Path.{subst}
use dragonuso.Common.Words.{u32}
use dragonuso.Bytes.{length-get}
use dragonuso.Bytes.Stdio.{File, seek_end, write}
use dragonuso.Bytes.Files.{Holds, Holds-write}
use dragonuso.Swap.{Endian, be_u32, load_be_u32}
use dragonuso.Text.{Str}
use dragonuso.Elfio.{Elfio}
use dragonuso.Elf2uso.State.{SectionInfo, Globals}
use dragonuso.Elf2uso.Layout.{uso_get_align, uso_get_noload_size, uso_get_noload_align}
use dragonuso.Elf2uso.Output.{swapped_u32}
use dragonuso.Elf2uso.Write.{uso_write_load_info, uso_file}
use dragonuso.Runtime.Fixup.{LoadInfo}
use dragonuso.Runtime.Api.{read_load_info}
use dragonuso.Format.Fields.{swapped_u32_lem}
use dragonuso.Format.Memory.{get-at, get_or-get}
use dragonuso.Format.Boot.{file_bytes}

-- The size of the file before the load info is appended: even.
abbrev padded_size : File → ℕ
padded_size f = f.size + f.size % 2

-- The load info of a file of this size with the sections `ss`.
abbrev pub info_of_sections : ℕ → List SectionInfo → LoadInfo
info_of_sections size ss = record {
  uso_size = u32 size;
  uso_align = u32 (uso_get_align ss);
  noload_size = u32 (uso_get_noload_size ss);
  noload_align = u32 (uso_get_noload_align ss);
}

abbrev info_bytes : ℕ → List SectionInfo → List ℕ
info_bytes size ss =
    be_u32 (u32 size)
    ++ be_u32 (uso_get_align ss)
    ++ be_u32 (uso_get_noload_size ss)
    ++ be_u32 (uso_get_noload_align ss)

-- The file ends in its load info.
record EndsInInfo (f f' : File) (ss : List SectionInfo) : Type 0 where
  held : Holds f' (padded_size f) (info_bytes (padded_size f) ss)
  ends : f'.size ≡ padded_size f + 16

load_info_bytes :
    (e : Endian) (size : ℕ) (ss : List SectionInfo)
    → swapped_u32 e (u32 size)
        ++ swapped_u32 e (uso_get_align ss)
        ++ swapped_u32 e (uso_get_noload_size ss)
        ++ swapped_u32 e (uso_get_noload_align ss)
      ≡ info_bytes size ss
load_info_bytes e size ss = rw (
  swapped_u32_lem e (u32 size),
  swapped_u32_lem e (uso_get_align ss),
  swapped_u32_lem e (uso_get_noload_size ss),
  swapped_u32_lem e (uso_get_noload_align ss),
)

-- A write of the load info at the end of a file.
appended :
    (f end : File) (ss : List SectionInfo)
    → end.pos ≡ padded_size f
    → end.size ≡ padded_size f
    → EndsInInfo f (write end (info_bytes end.pos ss)) ss
appended f end ss pos size = record {
  held =
      subst (λ (a : ℕ). Holds (write end (info_bytes end.pos ss)) a (info_bytes a ss)) pos
        (Holds-write end end.pos (info_bytes end.pos ss) (omega arith));
  ends = omega arith;
}

uso_write_load_info-EndsInInfo :
    (e : Endian) (f : File) (ss : List SectionInfo) → EndsInInfo f (uso_write_load_info e f ss) ss
unfolding uso_write_load_info
uso_write_load_info-EndsInInfo e f ss = elim (Bool-cases (f.size % 2 == 0)) [
  | inl even ↦
      rw (even, load_info_bytes e f.size ss)
        (appended f (seek_end f) ss (ground arith) (ground arith))
  | inr odd ↦
      rw (odd, load_info_bytes e (f.size + 1) ss)
        (appended f (write (seek_end f) (0 ∷ [])) ss (ground arith) (ground arith))
]

-- A number of the file, among all its bytes.
load_be_u32-file_bytes :
    (f : File) (a i : ℕ) (bs : List ℕ)
    → Holds f a bs
    → i + 4 ≤ length bs
    → load_be_u32 (file_bytes f) (a + i) ≡ load_be_u32 bs i
load_be_u32-file_bytes f a i bs held inside =
    let byte : (j : ℕ) → j < length bs → get_or (file_bytes f) (a + j) 0 ≡ get_or bs j 0 = λ j lt.
      get_or-get f.contents 0 f.size (a + j) (omega (arith, held.inside))
      ∙ ap f.contents (omega arith)
      ∙ get-at f.contents a bs held.bytes j lt in
    let one : a + i + 1 ≡ a + (i + 1) = omega arith in
    let two : a + i + 2 ≡ a + (i + 2) = omega arith in
    let three : a + i + 3 ≡ a + (i + 3) = omega arith in
    rw (
      one,
      two,
      three,
      byte i (omega arith),
      byte (i + 1) (omega arith),
      byte (i + 2) (omega arith),
      byte (i + 3) (omega arith),
    )

word_value : (v : ℕ) → load_be_u32 (be_u32 v) 0 ≡ u32 v
word_value v = omega arith

read_load_info-EndsInInfo :
    (f f' : File) (ss : List SectionInfo)
    → EndsInInfo f f' ss
    → read_load_info (file_bytes f') ≡ info_of_sections (f'.size - 16) ss
unfolding read_load_info
read_load_info-EndsInInfo f f' ss is =
    let p = padded_size f in
    let bs = info_bytes p ss in
    let start : f'.size - 16 ≡ p = omega (arith, is.ends) in
    let here : p + 0 ≡ p = omega arith in
    let size : load_be_u32 (file_bytes f') p ≡ u32 p =
      ap (load_be_u32 (file_bytes f')) (sym here)
      ∙ load_be_u32-file_bytes f' p 0 bs is.held (omega arith)
      ∙ word_value (u32 p)
      ∙ omega arith in
    let align : load_be_u32 (file_bytes f') (p + 4) ≡ u32 (uso_get_align ss) =
      load_be_u32-file_bytes f' p 4 bs is.held (omega arith) ∙ word_value (uso_get_align ss) in
    let noload_size : load_be_u32 (file_bytes f') (p + 8) ≡ u32 (uso_get_noload_size ss) =
      load_be_u32-file_bytes f' p 8 bs is.held (omega arith)
      ∙ word_value (uso_get_noload_size ss) in
    let noload_align : load_be_u32 (file_bytes f') (p + 12) ≡ u32 (uso_get_noload_align ss) =
      load_be_u32-file_bytes f' p 12 bs is.held (omega arith)
      ∙ word_value (uso_get_noload_align ss) in
    rw (length-get f'.contents 0 f'.size, start, size, align, noload_size, noload_align)

-- From the bytes of a file that elf2uso writes, of whatever data, uso_open reads the load info: the
-- size of the file without the load info, the alignment of the sections with data, and the size and
-- alignment of those without, each modulo 2 ^ 32.
pub read_load_info-uso_file :
    (writer : Endian) (elf : Elfio) (name : Str) (g : Globals)
    → (let f = uso_file writer elf name g in
        read_load_info (file_bytes f) ≡ info_of_sections (f.size - 16) g.out_sections)
unfolding uso_file
read_load_info-uso_file writer elf name g =
    read_load_info-EndsInInfo _ _ g.out_sections
      (uso_write_load_info-EndsInInfo writer _ g.out_sections)

-- What the library takes from such a file is at least what stands in front of the load info.
pub uso_size-uso_write_load_info :
    (e : Endian) (f : File) (ss : List SectionInfo)
    → (uso_write_load_info e f ss).size < 2 ^ 32
    → (let f' = uso_write_load_info e f ss in
        (f.size ≤ (read_load_info (file_bytes f')).uso_size)
        × ((read_load_info (file_bytes f')).uso_size ≤ f'.size))
uso_size-uso_write_load_info e f ss fits =
    let f' = uso_write_load_info e f ss in
    let is = uso_write_load_info-EndsInInfo e f ss in
    let size : (read_load_info (file_bytes f')).uso_size ≡ u32 (f'.size - 16) =
      ap (λ (i : LoadInfo). i.uso_size) (read_load_info-EndsInInfo f f' ss is) in
    (omega (arith, size, is.ends), omega (arith, size, is.ends))
