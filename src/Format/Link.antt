-- ===== src/Format/Link.antt =====
-- tools/make_uso_externs.cpp on files that tools/elf2uso.cpp wrote.
use dragonuso.Common.{
  ◌+◌, ◌≡◌, ap, ◌∙◌, true, false, Option, some, List, [], ◌∷◌, ◌++◌, map, All, arith, length, ltb,
}
use mathlib.Core.List.{append-nil, append_assoc}
use dragonuso.StdLib.{Algorithms, IsSorted}
use dragonuso.Bytes.Stdio.{File}
use dragonuso.Swap.{Endian}
use dragonuso.Text.{Str}
use dragonuso.Elfio.{Elfio}
use dragonuso.Elf2uso.State.{Globals, SymbolInfo}
use dragonuso.Elf2uso.Symbols.{sym_compare}
use dragonuso.Elf2uso.Write.{uso_file}
use dragonuso.Externs.Read.{UsoSymbolInfo, UsoInfo, ok}
use dragonuso.Externs.Generate.{
  uso_sym_compare, extern_lines, write_uso_extern_list, read_files, main,
}
use dragonuso.Externs.Unresolved.{HasSortedExports, unresolved, generate_uso_extern_list-unresolved}
use dragonuso.Format.Reading.{as_read}
use dragonuso.Format.Headed.{FitsFile}
use dragonuso.Format.Whole.{uso_read-uso_file}

-- What `uso_write` of tools/elf2uso.cpp is called with.
pub record Converted : Type 0 where
  pub elf : Elfio
  pub name : Str
  pub globals : Globals

-- The symbols of a converted file, as they are read back.
abbrev pub info_of : Converted → UsoInfo
info_of c = record {
  import_syms = map as_read c.globals.import_syms;
  export_syms = map as_read c.globals.export_syms;
}

-- The collected data fits its file, and its exports are sorted.
pub record IsWritable (c : Converted) : Type 0 where
  pub fits : FitsFile c.name c.globals
  pub sorted : IsSorted sym_compare c.globals.export_syms

All-as_read :
    (t : SymbolInfo) (ss : List SymbolInfo)
    → All (λ s. sym_compare s t ≡ false) ss
    → All (λ s. uso_sym_compare s (as_read t) ≡ false) (map as_read ss)
unfolding sym_compare uso_sym_compare
All-as_read t [] all = tt
All-as_read t (s ∷ ss) all = (all.0, All-as_read t ss all.1)

IsSorted-as_read :
    (ss : List SymbolInfo) → IsSorted sym_compare ss → IsSorted uso_sym_compare (map as_read ss)
IsSorted-as_read [] sorted = tt
IsSorted-as_read (s ∷ ss) sorted = (All-as_read s ss sorted.0, IsSorted-as_read ss sorted.1)

exports-sorted : (cs : List Converted) → All IsWritable cs → All HasSortedExports (map info_of cs)
exports-sorted [] all = tt
exports-sorted (c ∷ cs) all =
    (IsSorted-as_read c.globals.export_syms all.0.sorted, exports-sorted cs all.1)

-- The files that are written.
abbrev pub files_of : Endian → List Converted → List (Option File)
files_of writer cs = map (λ c. some (uso_file writer c.elf c.name c.globals)) cs

module _ (writer reader : Endian) where
  read_files-uso_file :
      (uso_list : List UsoInfo) (cs : List Converted)
      → All IsWritable cs
      → read_files reader uso_list (files_of writer cs) ≡ ok (uso_list ++ map info_of cs)
  unfolding read_files
  read_files-uso_file uso_list [] all = rw append-nil
  read_files-uso_file uso_list (c ∷ cs) all =
      rw (uso_read-uso_file writer c.elf c.name c.globals all.0.fits reader uso_list) (
        read_files-uso_file (uso_list ++ (info_of c ∷ [])) cs all.1
        ∙ ap ok (append_assoc uso_list (info_of c ∷ []) (map info_of cs)))

  -- On files that elf2uso wrote from data that fits a file and has sorted exports, make_uso_externs
  -- writes an EXTERN line for exactly the imports that no other of the files exports, file by file
  -- and in order, on hosts of any byte orders.
  pub main-unresolved :
      (lib : Algorithms UsoSymbolInfo uso_sym_compare) (cs : List Converted)
      → All IsWritable cs
      → main lib reader (2 + length cs) (files_of writer cs) true
        ≡ ok (extern_lines (unresolved (map info_of cs) 0 (map info_of cs)))
  unfolding main write_uso_extern_list
  main-unresolved lib cs all =
      let enough : ltb (2 + length cs) 2 ≡ false = ground arith in
      rw (
        enough,
        read_files-uso_file [] cs all,
        generate_uso_extern_list-unresolved lib (map info_of cs) (exports-sorted cs all),
      )
