-- ===== src/Format/Opened.antt =====
-- A file that tools/elf2uso.cpp wrote, put in the console's memory by `uso_open` of src/uso.c, and
-- fixed up to the point where its exports are found.
use dragonuso.Common.{
  ℕ, zero, suc, ◌+◌, ◌^◌, ◌≤◌, ◌<◌, ◌≡◌, refl, sym, ap, ◌∙◌, List, ◌∷◌, map, arith, take,
}
use mathlib.Core.Path.{subst}
use dragonuso.Bytes.{Bytes, put, get}
use dragonuso.Bytes.Stdio.{File}
use dragonuso.Bytes.Below.{KeepsBelow}
use dragonuso.Bsearch.{IsBsearch}
use dragonuso.Swap.{Endian}
use dragonuso.Text.{Str}
use dragonuso.Elfio.{Elfio}
use dragonuso.Elf2uso.State.{Globals}
use dragonuso.Elf2uso.Write.{UsoHeader, uso_file, uso_write_load_info}
use dragonuso.Runtime.Ram.{export_syms}
use dragonuso.Runtime.Machine.{Machine, Env}
use dragonuso.Runtime.Search.{search_symbol_table}
use dragonuso.Runtime.Api.{load_file, fixup_tables, read_load_info}
use dragonuso.Format.Headed.{FitsFile, IsHeaded, tables_end, uso_file-IsHeaded}
use dragonuso.Format.Whole.{uso_write_load_info-KeepsBelow}
use dragonuso.Format.LoadInfo.{uso_size-uso_write_load_info}
use dragonuso.Format.Memory.{put-get}
use dragonuso.Format.Global.{address_of, Ascending}
use dragonuso.Format.Moved.{moved}
use dragonuso.Format.Boot.{file_bytes}
use dragonuso.Format.Exported.{in_section, fixup_tables-Found}

take-get : (m : Bytes) (a n k : ℕ) → n ≤ k → take n (get m a k) ≡ get m a n
take-get m a zero k le = refl
take-get m a (suc n) zero le = absurd (omega arith)
take-get m a (suc n) (suc k) le =
    ap (λ (bs : List ℕ). m a ∷ bs) (take-get m (suc a) n k (omega arith))

put_taken : (m c : Bytes) (t n k j : ℕ) → n ≤ k → j < n → put m t (take n (get c 0 k)) (t + j) ≡ c j
put_taken m c t n k j le lt =
    let here : t + 0 ≡ t = omega arith in
    rw (take-get c 0 n k le) (
      subst (λ (a : ℕ). put m a (get c 0 n) (t + j) ≡ c j) here
        (put-get m c t 0 n j (omega arith) (omega arith)))

-- The memory of a new file has the bytes in front of the load info.
load_file_same :
    (env : Env) (s : Machine) (filename : Str) (f : File)
    → (read_load_info (file_bytes f)).uso_size ≤ f.size
    → (let (loaded, handle, uso) = load_file env s filename (file_bytes f) in
        (j : ℕ)
        → j < (read_load_info (file_bytes f)).uso_size
        → loaded.ram (uso + j) ≡ f.contents j)
unfolding load_file
load_file_same env s filename f le j lt =
    put_taken _ f.contents _ (read_load_info (file_bytes f)).uso_size f.size j le lt

-- What the library finds in the exports of a file that stands at `uso`: the address of each symbol
-- in its section.
abbrev pub FindsExports : Env → Globals → Bytes → ℕ → Type 0
FindsExports env g m uso =
    (wanted : Str)
    → search_symbol_table env m (export_syms m uso) wanted
      ≡ address_of wanted (map (moved (in_section m uso)) g.export_syms)

-- The memory of `uso_open` with a file whose sections and exports are fixed up, and the file's
-- address there.
abbrev pub opened : Env → Machine → Str → (noload_base : ℕ) → File → Bytes × ℕ
opened env s filename noload_base whole =
    let (loaded, handle, uso) = load_file env s filename (file_bytes whole) in
    (fixup_tables loaded.ram uso noload_base, uso)

module _ (env : Env) (s : Machine) (filename : Str) (noload_base : ℕ)
    (is_bsearch : IsBsearch env.bsearch) (name : Str) (g : Globals) (fits : FitsFile name g)
    (asc : Ascending g.export_syms) where
  opened-FindsExports :
      (writer : Endian) (f : File) (h : UsoHeader) (mid end : ℕ) (whole : File)
      → IsHeaded name g f h mid end
      → whole ≡ uso_write_load_info writer f g.out_sections
      → whole.size < 2 ^ 32
      → (opened env s filename noload_base whole).1 + tables_end name g < 2 ^ 32
      → FindsExports env g
          (opened env s filename noload_base whole).0
          (opened env s filename noload_base whole).1
  opened-FindsExports writer f h mid end whole is written small room wanted =
      let (taken, inside) =
        subst
          (λ (u : File).
            u.size < 2 ^ 32
            → (f.size ≤ (read_load_info (file_bytes u)).uso_size)
              × ((read_load_info (file_bytes u)).uso_size ≤ u.size))
          (sym written) (uso_size-uso_write_load_info writer f g.out_sections) small in
      let keeps =
        subst (λ (u : File). KeepsBelow f.size f u) (sym written)
          (uso_write_load_info-KeepsBelow writer f g.out_sections) in
      let (loaded, handle, uso) = load_file env s filename (file_bytes whole) in
      fixup_tables-Found name g f h mid end is loaded.ram uso noload_base
        (λ j lt. load_file_same env s filename whole inside j (omega (arith, taken)) ∙ keeps.1 j lt)
        (omega (arith, is.sections_below)) fits.exports asc env wanted is_bsearch

  -- When uso_open puts a file in memory that elf2uso wrote of data that fits, with its exports in
  -- order, and the first steps of fixup_uso are done with any noload_base, search_symbol_table on
  -- the export table of the file finds for every name the address of the export with it, its offset
  -- behind the address of its section, and NULL if there is none, with a bsearch that behaves as
  -- documented, if the file is smaller than 4 GB and its tables end below 4 GB in memory.
  pub opened-uso_file :
      (writer : Endian) (elf : Elfio)
      → (uso_file writer elf name g).size < 2 ^ 32
      → (opened env s filename noload_base (uso_file writer elf name g)).1 + tables_end name g
        < 2 ^ 32
      → FindsExports env g
          (opened env s filename noload_base (uso_file writer elf name g)).0
          (opened env s filename noload_base (uso_file writer elf name g)).1
  opened-uso_file writer elf small room =
      let (f, h, mid, end, e, is) = uso_file-IsHeaded writer elf name g fits in
      opened-FindsExports writer f h mid end (uso_file writer elf name g) is e small room
