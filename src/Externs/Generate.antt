-- ===== src/Externs/Generate.antt =====
-- The list of external symbols of tools/make_uso_externs.cpp, and `main`.
use dragonuso.Common.{
  ℕ, suc, Bool, true, false, Option, List, [], ◌∷◌, ◌++◌, ◌==◌, ltb, if◌then◌else◌,
}
use dragonuso.StdLib.{Algorithms}
use dragonuso.Bytes.Stdio.{File}
use dragonuso.Swap.{Endian}
use dragonuso.Text.{Str, str_ltb}
use dragonuso.Externs.Read.{
  UsoSymbolInfo, UsoInfo, Result, ok, exit, open_failed, usage, ◌>>=◌, uso_read,
}

unfoldable pub uso_sym_compare : UsoSymbolInfo → UsoSymbolInfo → Bool
uso_sym_compare first second = str_ltb first.name second.name

-- The symbol that is searched for.
abbrev pub named : Str → UsoSymbolInfo
named name = record { name = name; addr = 0; section = 0; weak = false }

module _ (lib : Algorithms UsoSymbolInfo uso_sym_compare) where
  -- The loop of `uso_sym_is_extern` from file `i` on.
  unfoldable pub extern_from : ℕ → Str → ℕ → List UsoInfo → Bool
  extern_from uso_id name i [] = true
  extern_from uso_id name i (u ∷ us) =
      let rest = extern_from uso_id name (suc i) us in
      if i == uso_id
      then rest
      else if lib.binary_search u.export_syms (named name)
      then false
      else rest

  unfoldable pub uso_sym_is_extern : List UsoInfo → ℕ → Str → Bool
  uso_sym_is_extern uso_list uso_id name = extern_from uso_id name 0 uso_list

  -- The loop over the imports of file `i`.
  unfoldable pub add_externs : List UsoInfo → ℕ → List Str → List UsoSymbolInfo → List Str
  add_externs uso_list i externs [] = externs
  add_externs uso_list i externs (s ∷ ss) =
      add_externs uso_list i
        (if uso_sym_is_extern uso_list i s.name then externs ++ (s.name ∷ []) else externs) ss

  -- The loop over the files from file `i` on.
  unfoldable pub externs_from : List UsoInfo → ℕ → List Str → List UsoInfo → List Str
  externs_from uso_list i externs [] = externs
  externs_from uso_list i externs (u ∷ us) =
      externs_from uso_list (suc i) (add_externs uso_list i externs u.import_syms) us

  unfoldable pub generate_uso_extern_list : List UsoInfo → List Str
  generate_uso_extern_list uso_list = externs_from uso_list 0 [] uso_list

-- "EXTERN(" and ")\n" around each name.
abbrev pub extern_prefix : Str
extern_prefix = b'E' ∷ b'X' ∷ b'T' ∷ b'E' ∷ b'R' ∷ b'N' ∷ b'(' ∷ []

unfoldable pub extern_lines : List Str → List ℕ
extern_lines [] = []
extern_lines (name ∷ names) = extern_prefix ++ name ++ (b')' ∷ 10 ∷ []) ++ extern_lines names

-- The text of the file.
unfoldable pub write_uso_extern_list : (can_open : Bool) → List Str → Result (List ℕ)
write_uso_extern_list can_open externs =
    if can_open then ok (extern_lines externs) else exit open_failed

-- The loop of `main` over the arguments that name files.
unfoldable pub read_files : Endian → List UsoInfo → List (Option File) → Result (List UsoInfo)
read_files e uso_list [] = ok uso_list
read_files e uso_list (f ∷ fs) = do uso_list' ← uso_read e f uso_list; read_files e uso_list' fs

-- `main`, on the number of arguments and the files that the arguments from the third on name.
unfoldable pub main :
    Algorithms UsoSymbolInfo uso_sym_compare
    → Endian
    → ℕ
    → List (Option File)
    → Bool
    → Result (List ℕ)
main lib e argc files can_open =
    let run : Result (List ℕ) = do
      uso_list ← read_files e [] files
      write_uso_extern_list can_open (generate_uso_extern_list lib uso_list)
    in if ltb argc 2 then exit usage else run
