-- ===== src/Format/Moved.antt =====
-- A symbol table of a file that was copied to the console's memory, after src/uso.c has turned its
-- names into pointers and moved its addresses.
use Prim.Native.Nat.{Ordering}
use dragonuso.Common.{
  All, ◌≢◌, ℕ, suc, ◌+◌, ◌*◌, ◌^◌, ◌≤◌, ◌<◌, ◌≡◌, refl, sym, ap, ◌∙◌, List, [], ◌∷◌, ◌++◌, map,
  arith, length,
}
use mathlib.Core.Path.{subst}
use dragonuso.Common.Words.{u32}
use dragonuso.Bytes.{Bytes, get, get_ext}
use dragonuso.Bytes.Stdio.{File}
use dragonuso.Bytes.Files.{Holds}
use dragonuso.Swap.{be_u32}
use dragonuso.Bsearch.{IsBsearch}
use dragonuso.Text.{Str, strcmp}
use dragonuso.Elf2uso.State.{SymbolInfo}
use dragonuso.Runtime.Ram.{
  load_u32, string_at, table_length, table_entry, symbol_name, symbol_ptr, symbol_section,
}
use dragonuso.Runtime.Machine.{Env}
use dragonuso.Runtime.Search.{search_symbol_table}
use dragonuso.Runtime.Search.Lookup.{entry_name}
use dragonuso.Format.Stored.{Stored, entry_at, entry_of, names_size}
use dragonuso.Format.Reading.{IsSymbol, AreSymbols}
use dragonuso.Format.Table.{IsTable, table_size}
use dragonuso.Format.Memory.{load_u16-get, load_u32-get, get-shift, string_within-get}
use dragonuso.Format.Global.{InMemory, Ascending, address_of, search-address_of}

-- The symbol with its address moved in its section.
abbrev pub moved : (ℕ → ℕ → ℕ) → SymbolInfo → SymbolInfo
moved move s = record s { addr = move s.section s.addr }

-- The fixed-up table of `total` symbols: the names are pointers, the addresses are moved, and the
-- names behind the entries are as they were.
pub record MovedTable (loaded fixed : Bytes) (table total : ℕ) (move : ℕ → ℕ → ℕ) : Type 0 where
  pub names :
      (i : ℕ)
      → i < total
      → symbol_name fixed (table_entry table i)
        ≡ u32 (table + symbol_name loaded (table_entry table i))
  pub ptrs :
      (i : ℕ)
      → i < total
      → symbol_ptr fixed (table_entry table i)
        ≡ move
            (symbol_section loaded (table_entry table i))
            (symbol_ptr loaded (table_entry table i))
  pub behind : (x : ℕ) → table + 4 + total * 12 ≤ x → fixed x ≡ loaded x

-- The names stay in order.
Ascending-moved :
    (move : ℕ → ℕ → ℕ) (ss : List SymbolInfo) → Ascending ss → Ascending (map (moved move) ss)
Ascending-moved move [] asc = tt
Ascending-moved move (s ∷ ss) asc = (above ss asc.0, Ascending-moved move ss asc.1)
  where
    above :
        (ts : List SymbolInfo)
        → All (λ t. strcmp s.name t.name ≡ Ordering.lt) ts
        → All (λ t. strcmp s.name t.name ≡ Ordering.lt) (map (moved move) ts)
    above [] all = tt
    above (t ∷ ts) all = (all.0, above ts all.1)

length-moved : (move : ℕ → ℕ → ℕ) (ss : List SymbolInfo) → length (map (moved move) ss) ≡ length ss
length-moved move [] = refl
length-moved move (s ∷ ss) = ap suc (length-moved move ss)

-- A file in memory at `base`, with a table at `ofs`.
module _ (f : File) (base ofs table : ℕ) (at : base + ofs ≡ table) (loaded : Bytes)
    (same : (j : ℕ) → j < f.size → loaded (base + j) ≡ f.contents j) where
  loaded-Holds : (a : ℕ) (bs : List ℕ) → Holds f a bs → get loaded (base + a) (length bs) ≡ bs
  loaded-Holds a bs h =
      get-shift loaded f.contents base a (length bs) (λ j lo hi. same j (omega (arith, h.inside)))
      ∙ h.bytes

  pub table_length-IsTable :
      (syms : List SymbolInfo)
      → IsTable f ofs syms
      → table_size syms < 2 ^ 32
      → table_length loaded table ≡ length syms
  unfolding table_size
  table_length-IsTable syms is fits =
      let start : table + 0 ≡ table = omega arith in
      let held : get loaded table 4 ≡ be_u32 (length syms) =
        subst (λ (t : ℕ). get loaded t 4 ≡ be_u32 (length syms)) at
          (loaded-Holds ofs (be_u32 (length syms)) is.count) in
      omega (
        arith,
        ap (load_u32 loaded) start,
        load_u32-get loaded table 0 (be_u32 (length syms)) held (omega arith),
      )

  module _ (total : ℕ) (fixed : Bytes) (move : ℕ → ℕ → ℕ)
      (is : MovedTable loaded fixed table total move) where
    entry-InMemory :
        (i n : ℕ) (s : SymbolInfo)
        → i < total
        → IsSymbol s
        → 4 + total * 12 ≤ n
        → table + n + length s.name < 2 ^ 32
        → Holds f (entry_at ofs i) (entry_of n s)
        → Holds f (ofs + n) (s.name ++ 0 ∷ [])
        → (entry_name fixed table i ≡ s.name)
          × (symbol_ptr fixed (table_entry table i) ≡ (moved move s).addr)
    unfolding string_at
    entry-InMemory i n s lt symbol behind fits entry name =
        let e = table_entry table i in
        let place : base + entry_at ofs i ≡ e = omega arith in
        let held =
          subst (λ (a : ℕ). get loaded a 12 ≡ entry_of n s) place
            (loaded-Holds (entry_at ofs i) (entry_of n s) entry) in
        let start : e + 0 ≡ e = omega arith in
        let name_place : base + (ofs + n) ≡ table + n = omega arith in
        let name_field : load_u32 fixed e ≡ table + n =
          is.names i lt
          ∙ omega (
            arith,
            ap (load_u32 loaded) start,
            load_u32-get loaded e 0 (entry_of n s) held (omega arith),
          ) in
        let section_field : symbol_section loaded e ≡ s.section =
          load_u16-get loaded e 8 (entry_of n s) held (omega arith)
          ∙ omega (arith, symbol.section) in
        let addr_field : symbol_ptr loaded e ≡ s.addr =
          load_u32-get loaded e 4 (entry_of n s) held (omega arith) ∙ omega (arith, symbol.addr) in
        let name_there : get fixed (table + n) (length (s.name ++ 0 ∷ [])) ≡ s.name ++ 0 ∷ [] =
          get_ext fixed loaded (table + n) (length (s.name ++ 0 ∷ []))
            (λ x lo hi. is.behind x (omega arith))
          ∙ subst (λ (a : ℕ). get loaded a (length (s.name ++ 0 ∷ [])) ≡ s.name ++ 0 ∷ [])
              name_place (loaded-Holds (ofs + n) (s.name ++ 0 ∷ []) name) in
        (
          rw name_field (
              string_within-get (2 ^ 32) fixed (table + n) s.name symbol.characters (omega arith)
                name_there),
          is.ptrs i lt ∙ rw (section_field, addr_field),
        )

    Stored-InMemory :
        (i n : ℕ) (ss : List SymbolInfo)
        → i + length ss ≤ total
        → AreSymbols ss
        → 4 + total * 12 ≤ n
        → table + n + names_size ss < 2 ^ 32
        → Stored f ofs i n ss
        → InMemory fixed table i (map (moved move) ss)
    unfolding names_size
    Stored-InMemory i n [] lt are behind fits stored = tt
    Stored-InMemory i n (s ∷ ss) lt are behind fits (entry, name, rest) =
        let (here, ptr) =
          entry-InMemory i n s (omega arith) are.0 behind (omega arith) entry name in
        (
          here,
          ptr,
          Stored-InMemory (suc i) (n + (length s.name + 1)) ss (omega arith) are.1 (omega arith)
              (omega arith) rest,
        )

  -- A search by name in the table finds the moved address of the symbol with the name.
  pub search-moved :
      (syms : List SymbolInfo) (fixed : Bytes) (move : ℕ → ℕ → ℕ) (env : Env) (name : Str)
      → IsTable f ofs syms
      → AreSymbols syms
      → Ascending syms
      → table ≢ 0
      → table + table_size syms < 2 ^ 32
      → MovedTable loaded fixed table (length syms) move
      → table_length fixed table ≡ length syms
      → IsBsearch env.bsearch
      → search_symbol_table env fixed table name ≡ address_of name (map (moved move) syms)
  unfolding table_size
  search-moved syms fixed move env name is are asc nonnull fits done_moving len is_bsearch =
      let total = length syms in
      search-address_of env fixed table (map (moved move) syms) name is_bsearch nonnull
        (Stored-InMemory total fixed move done_moving 0 (4 + total * 12) syms (omega arith) are
          (omega arith) (omega arith) is.stored)
        (len ∙ sym (length-moved move syms)) (Ascending-moved move syms asc)
