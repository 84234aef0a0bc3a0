-- ===== src/Format/Placed.antt =====
-- Symbol tables in a range of a .uso file, and `write_table`, which puts them there.
use dragonuso.Common.{
  ℕ, suc, ◌+◌, ◌*◌, ◌^◌, ◌≤◌, ◌<◌, ◌≡◌, refl, ◌∙◌, ◌⊎◌, inl, inr, true, List, [], ◌∷◌, map, arith,
  length, ◌==◌, Bool-cases,
}
use dragonuso.Common.Words.{u32}
use dragonuso.Bytes.Stdio.{File}
use dragonuso.Bytes.Files.{Holds, Holds-frame}
use dragonuso.Bytes.Below.{KeepsBelow}
use dragonuso.Swap.{Endian, be_u32}
use dragonuso.Elf2uso.State.{SymbolInfo}
use dragonuso.Elf2uso.Symbols.{sum_name_sizes, sym_get_data_size}
use dragonuso.Elf2uso.Layout.{align_val}
use dragonuso.Elf2uso.Layout.Align.{align_val-IsAlignedUp}
use dragonuso.Elf2uso.Write.{write_table}
use dragonuso.Externs.Read.{ok, uso_read_symbol_table}
use dragonuso.Format.Stored.{Stored, Stored-frame, names_size}
use dragonuso.Format.Reading.{as_read, AreSymbols, AreSymbols-ShortNames}
use dragonuso.Format.Table.{
  IsTable, table_size, uso_read_symbol_table-IsTable, uso_write_symbol_table-Wrote,
}

sum_name_sizes_lem :
    (size : ℕ) (ss : List SymbolInfo)
    → size + names_size ss < 2 ^ 32
    → sum_name_sizes size ss ≡ size + names_size ss
unfolding sum_name_sizes names_size
sum_name_sizes_lem size [] fits = omega arith
sum_name_sizes_lem size (s ∷ ss) fits =
    let wrap : u32 (size + length s.name + 1) ≡ size + length s.name + 1 = omega arith in
    rw wrap (sum_name_sizes_lem (size + length s.name + 1) ss (omega arith) ∙ omega arith)

-- The size that is reserved for a table is its size.
sym_get_data_size_lem :
    (ss : List SymbolInfo) → table_size ss < 2 ^ 32 → sym_get_data_size ss ≡ table_size ss
unfolding sym_get_data_size table_size
sym_get_data_size_lem ss fits =
    let wrap : u32 (4 + 12 * length ss) ≡ 4 + length ss * 12 = omega arith in
    rw wrap (sum_name_sizes_lem (4 + length ss * 12) ss (omega arith))

-- A file that extends another has the same symbols in it.
pub Holds-extend :
    (f g : File) (a : ℕ) (bs : List ℕ) → KeepsBelow f.size f g → Holds f a bs → Holds g a bs
Holds-extend f g a bs keeps h =
    Holds-frame f g a bs h keeps.0 λ x lo hi. keeps.1 x (omega (arith, h.inside))

Stored-extend :
    (f g : File) (ofs i n : ℕ) (ss : List SymbolInfo)
    → KeepsBelow f.size f g
    → Stored f ofs i n ss
    → Stored g ofs i n ss
Stored-extend f g ofs i n [] keeps h = tt
Stored-extend f g ofs i n (s ∷ ss) keeps (entry, name, rest) = (
  Holds-extend f g _ _ keeps entry,
  Holds-extend f g _ _ keeps name,
  Stored-extend f g ofs (suc i) (n + (length s.name + 1)) ss keeps rest,
)

pub IsTable-frame :
    (f g : File) (ofs : ℕ) (syms : List SymbolInfo)
    → f.size ≤ g.size
    → ((x : ℕ) → ofs ≤ x → x < ofs + table_size syms → g.contents x ≡ f.contents x)
    → IsTable f ofs syms
    → IsTable g ofs syms
unfolding table_size
IsTable-frame f g ofs syms le same table = record {
  count =
      Holds-frame f g ofs (be_u32 (length syms)) table.count le λ x lo hi. same x lo (omega arith);
  stored =
      Stored-frame f g ofs 0 (4 + length syms * 12) syms table.stored le
        (λ x lo hi. same x (omega arith) (omega arith))
        λ x lo hi. same x (omega arith) (omega arith);
}

-- No table and no symbols, or a table in a range of the file.
abbrev pub HasTable : File → (ofs lo hi : ℕ) → List SymbolInfo → Type 0
HasTable f ofs lo hi syms =
    ((ofs ≡ 0) × (syms ≡ [])) ⊎ ((lo ≤ ofs) × (ofs + table_size syms ≤ hi) × IsTable f ofs syms)

pub HasTable-wider :
    (f : File) (ofs lo lo' hi : ℕ) (syms : List SymbolInfo)
    → lo' ≤ lo
    → HasTable f ofs lo hi syms
    → HasTable f ofs lo' hi syms
HasTable-wider f ofs lo lo' hi syms le (inl none_there) = inl none_there
HasTable-wider f ofs lo lo' hi syms le (inr (above, below, table)) = inr (omega arith, below, table)

pub HasTable-frame :
    (f g : File) (ofs lo hi : ℕ) (syms : List SymbolInfo)
    → f.size ≤ g.size
    → ((x : ℕ) → lo ≤ x → x < hi → g.contents x ≡ f.contents x)
    → HasTable f ofs lo hi syms
    → HasTable g ofs lo hi syms
HasTable-frame f g ofs lo hi syms le same (inl none_there) = inl none_there
HasTable-frame f g ofs lo hi syms le same (inr (above, below, table)) = inr (
  above,
  below,
  IsTable-frame f g ofs syms le (λ x l h. same x (omega arith) (omega arith)) table,
)

pub HasTable-extend :
    (f g : File) (ofs lo hi : ℕ) (syms : List SymbolInfo)
    → KeepsBelow f.size f g
    → HasTable f ofs lo hi syms
    → HasTable g ofs lo hi syms
HasTable-extend f g ofs lo hi syms keeps (inl none_there) = inl none_there
HasTable-extend f g ofs lo hi syms keeps (inr (above, below, table)) = inr (
  above,
  below,
  record {
    count = Holds-extend f g _ _ keeps table.count;
    stored = Stored-extend f g _ _ _ _ keeps table.stored;
  },
)

pub uso_read_symbol_table-HasTable :
    (e : Endian) (f : File) (ofs lo hi : ℕ) (syms : List SymbolInfo)
    → 0 < lo
    → hi < 2 ^ 32
    → AreSymbols syms
    → HasTable f ofs lo hi syms
    → uso_read_symbol_table e f ofs [] ≡ ok (map as_read syms)
unfolding uso_read_symbol_table
uso_read_symbol_table-HasTable e f ofs lo hi syms pos fits are (inl (null, empty)) =
    rw (null, empty)
uso_read_symbol_table-HasTable e f ofs lo hi syms pos fits are (inr (above, below, table)) =
    uso_read_symbol_table-IsTable e f ofs [] syms (omega arith) (omega arith) are table

-- What `write_table` answers.
pub record WroteTable (f : File) (start : ℕ) (syms : List SymbolInfo) (answer : File × ℕ × ℕ)
    : Type 0 where
  pub keeps : KeepsBelow start f answer.0
  pub above : start ≤ answer.2
  pub below : answer.2 ≤ start + 4 + table_size syms
  pub ofs_fits : answer.1 ≤ answer.2
  pub table : HasTable answer.0 answer.1 start answer.2 syms

pub write_table-WroteTable :
    (e : Endian) (f : File) (start : ℕ) (syms : List SymbolInfo)
    → start + 4 + table_size syms < 2 ^ 32
    → AreSymbols syms
    → WroteTable f start syms (write_table e f start syms)
unfolding write_table
write_table-WroteTable e f start syms fits are = elim (Bool-cases (length syms == 0)) [
  | inl empty ↦ rw empty (record {
    keeps = (omega arith, λ x lt. refl);
    above = omega arith;
    below = omega arith;
    ofs_fits = omega arith;
    table = inl (refl, no_symbols syms empty);
  })
  | inr filled ↦
      let up = align_val-IsAlignedUp 2 start (omega arith) (omega arith) in
      let ofs = align_val start 4 in
      let wrote =
        uso_write_symbol_table-Wrote e f ofs syms (omega (arith, up.close))
          (AreSymbols-ShortNames syms are) in
      let next : u32 (ofs + sym_get_data_size syms) ≡ ofs + table_size syms =
        omega (arith, up.close, sym_get_data_size_lem syms (omega arith)) in
      rw (filled, next)
        (record {
          keeps = (wrote.size, λ x lt. wrote.same x (omega (arith, up.above)));
          above = omega (arith, up.above);
          below = omega (arith, up.close);
          ofs_fits = omega arith;
          table = inr (up.above, omega arith, wrote.table);
        })
]
  where
    no_symbols : (ss : List SymbolInfo) → (length ss == 0) ≡ true → ss ≡ []
    no_symbols [] h = refl
    no_symbols (s ∷ ss) h = absurd (ground arith)
