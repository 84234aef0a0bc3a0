-- ===== src/Externs/Read.antt =====
-- The functions of tools/make_uso_externs.cpp that read a .uso file. `e` is the byte order of the
-- host. `exit` is the end of the program with status 1 after a failed read.
use dragonuso.Common.Outcome.{Outcome}
pub use dragonuso.Common.Outcome.{ok, exit, ◌>>=◌}
use dragonuso.Common.{
  ℕ, ◌+◌, ◌*◌, Bool, not, Option, none, some, List, [], ◌∷◌, ◌++◌, ◌==◌, bit_and, if◌then◌else◌,
  count_from,
}
use dragonuso.Common.Words.{u32}
use dragonuso.Bytes.Stdio.{File, seek, read}
use dragonuso.Swap.{Endian, load_u16, load_u32, swap_u16, swap_u32}
use dragonuso.Text.{Str, c_str}
use dragonuso.Elf2uso.Write.{UsoHeader}

-- The messages of the failed reads, and those of `main`.
pub data Failure : Type 0 where
  header_unread : Failure
  symbol_unread : Failure
  name_unread : Failure
  table_size_unread : Failure
  open_failed : Failure
  usage : Failure

abbrev pub Result : Type 0 → Type 0
Result = Outcome Failure

-- `uso_symbol_t`
pub record UsoSymbol : Type 0 where
  pub name_ofs : ℕ
  pub addr : ℕ
  pub section : ℕ
  pub name_len : ℕ

-- `uso_symbol_info`
pub record UsoSymbolInfo : Type 0 where
  pub name : Str
  pub addr : ℕ
  pub section : ℕ
  pub weak : Bool

-- `uso_info`
pub record UsoInfo : Type 0 where
  pub import_syms : List UsoSymbolInfo
  pub export_syms : List UsoSymbolInfo

-- The bytes at an offset, or the failure that the caller reports.
unfoldable pub file_read : File → ℕ → ℕ → Failure → Result (List ℕ)
file_read file ofs size failure = elim (read (seek file ofs) size) [
  | some bs ↦ ok bs
  | none ↦ exit failure
]

module _ (e : Endian) (file : File) where
  unfoldable pub uso_read_header : Result UsoHeader
  uso_read_header = do
    bs ← file_read file 0 20 header_unread
    ok (record {
      num_sections = swap_u16 e (load_u16 e bs 0);
      eh_frame_section = swap_u16 e (load_u16 e bs 2);
      sections_ofs = swap_u32 e (load_u32 e bs 4);
      import_sym_table_ofs = swap_u32 e (load_u32 e bs 8);
      export_sym_table_ofs = swap_u32 e (load_u32 e bs 12);
      ctors_section = swap_u16 e (load_u16 e bs 16);
      dtors_section = swap_u16 e (load_u16 e bs 18);
    })

  unfoldable pub uso_read_symbol : ℕ → Result UsoSymbol
  uso_read_symbol ofs = do
    bs ← file_read file ofs 12 symbol_unread
    ok (record {
      name_ofs = swap_u32 e (load_u32 e bs 0);
      addr = swap_u32 e (load_u32 e bs 4);
      section = swap_u16 e (load_u16 e bs 8);
      name_len = swap_u16 e (load_u16 e bs 10);
    })

  -- The buffer ends behind the `len` bytes that were read, with a NUL.
  unfoldable pub uso_read_symbol_name : ℕ → ℕ → Result Str
  uso_read_symbol_name ofs len = do
    bs ← file_read file ofs len name_unread
    ok (c_str (bs ++ 0 ∷ []))

  unfoldable pub uso_get_sym_table_count : ℕ → Result ℕ
  uso_get_sym_table_count sym_table_ofs = do
    bs ← file_read file sym_table_ofs 4 table_size_unread
    ok (swap_u32 e (load_u32 e bs 0))

  -- One round of the loop of `uso_read_symbol_table`, at index `i`.
  unfoldable pub read_symbol_info : ℕ → ℕ → Result UsoSymbolInfo
  read_symbol_info ofs i = do
    symbol ← uso_read_symbol (u32 (u32 (4 + ofs) + i * 12))
    name ← uso_read_symbol_name (u32 (ofs + symbol.name_ofs)) (bit_and symbol.name_len 0x7FFF)
    ok (record {
      name = name;
      addr = symbol.addr;
      section = symbol.section;
      weak = not (bit_and symbol.name_len 0x8000 == 0);
    })

  -- The loop for the indices that are left; the symbols are added to `list`.
  unfoldable pub read_symbol_infos : ℕ → List UsoSymbolInfo → List ℕ → Result (List UsoSymbolInfo)
  read_symbol_infos ofs list [] = ok list
  read_symbol_infos ofs list (i ∷ is) = do
    sym_info ← read_symbol_info ofs i
    read_symbol_infos ofs (list ++ (sym_info ∷ [])) is

  -- A table at offset 0 is none.
  unfoldable pub uso_read_symbol_table : ℕ → List UsoSymbolInfo → Result (List UsoSymbolInfo)
  uso_read_symbol_table ofs list =
      let table : Result (List UsoSymbolInfo) = do
        num_symbols ← uso_get_sym_table_count ofs
        read_symbol_infos ofs list (count_from 0 num_symbols)
      in if ofs == 0 then ok list else table

-- `none` is a file that could not be opened.
unfoldable pub uso_read : Endian → Option File → List UsoInfo → Result (List UsoInfo)
uso_read e opened uso_list =
    let read_file : File → Result (List UsoInfo) = λ file. do
      header ← uso_read_header e file
      import_syms ← uso_read_symbol_table e file header.import_sym_table_ofs []
      export_syms ← uso_read_symbol_table e file header.export_sym_table_ofs []
      ok (uso_list ++ (record { import_syms = import_syms; export_syms = export_syms } ∷ []))
    in elim opened [ some file ↦ read_file file | none ↦ exit open_failed ]
