-- ===== src/Format/Stored.antt =====
-- What `uso_write_symbol_table` leaves in the file: every entry and every name, and nothing else.
use dragonuso.Common.{
  ℕ, zero, suc, ◌+◌, ◌*◌, ◌^◌, ◌≤◌, ◌<◌, ◌≡◌, refl, ap, ◌∙◌, ◌⊎◌, inl, List, [], ◌∷◌, ◌++◌, arith,
  length, take, length-append,
}
use dragonuso.Common.Words.{u16, u32}
use dragonuso.Bytes.Files.{write_at, size-le-write, write_outside, Holds, Holds-frame, Holds-write}
use dragonuso.Bytes.Stdio.{File}
use dragonuso.Swap.{Endian}
use dragonuso.Elf2uso.State.{SymbolInfo}
use dragonuso.Elf2uso.Output.{name_len_field, write_symbol, write_symbols}
use dragonuso.Format.Fields.{entry_bytes, symbol_bytes_lem}

-- The bytes that the names take, each with its NUL.
unfoldable pub names_size : List SymbolInfo → ℕ
names_size [] = 0
names_size (s ∷ ss) = length s.name + 1 + names_size ss

abbrev pub ShortNames : List SymbolInfo → Type 0
ShortNames [] = Unit {0}
ShortNames (s ∷ ss) = (length s.name < 2 ^ 15) × ShortNames ss

-- The address of entry `i` of a table at `ofs`.
abbrev pub entry_at : ℕ → ℕ → ℕ
entry_at ofs i = 4 + ofs + i * 12

abbrev pub entry_of : ℕ → SymbolInfo → List ℕ
entry_of name_ofs s = entry_bytes name_ofs (u32 s.addr) s.section (name_len_field s)

-- The entries from index `i` on stand in the file, and their names from `ofs + name_ofs` on.
abbrev pub Stored : File → (ofs i name_ofs : ℕ) → List SymbolInfo → Type 0
Stored f ofs i name_ofs [] = Unit {0}
Stored f ofs i name_ofs (s ∷ ss) =
    Holds f (entry_at ofs i) (entry_of name_ofs s)
    × Holds f (ofs + name_ofs) (s.name ++ 0 ∷ [])
    × Stored f ofs (suc i) (name_ofs + (length s.name + 1)) ss

-- The bytes below the names, but for the entries from index `i` to `k`, are the same.
abbrev pub SameBelow : File → File → (ofs i k name_ofs : ℕ) → Type 0
SameBelow f g ofs i k name_ofs =
    (x : ℕ)
    → x < ofs + name_ofs
    → (x < entry_at ofs i) ⊎ (entry_at ofs k ≤ x)
    → g.contents x ≡ f.contents x

-- The bounds under which no offset wraps and the entries end before the names begin.
pub record Room (ofs i name_ofs : ℕ) (ss : List SymbolInfo) : Type 0 where
  pub entries : entry_at ofs (i + length ss) ≤ ofs + name_ofs
  pub names : ofs + name_ofs + names_size ss < 2 ^ 32

take_all : (bs : List ℕ) (n : ℕ) → n ≡ length bs → take n bs ≡ bs
take_all [] zero h = refl
take_all [] (suc n) h = refl
take_all (b ∷ bs) zero h = absurd (omega arith)
take_all (b ∷ bs) (suc n) h = ap (λ (t : List ℕ). b ∷ t) (take_all bs n (omega arith))

module _ (e : Endian) (f : File) (ofs i n : ℕ) (s : SymbolInfo) (short : length s.name < 2 ^ 15)
    (entries : entry_at ofs (suc i) ≤ ofs + n)
    (names : ofs + n + (length s.name + 1) < 2 ^ 32) where
  abbrev name_bytes : List ℕ
  name_bytes = s.name ++ 0 ∷ []

  -- One round, with no wrap.
  write_symbol_lem :
      write_symbol e f ofs i n s
      ≡ write_at (write_at f (entry_at ofs i) (entry_of n s)) (ofs + n) name_bytes
  unfolding write_symbol
  write_symbol_lem =
      let start : u32 (4 + ofs) ≡ 4 + ofs = omega arith in
      let name_start : u32 (ofs + n) ≡ ofs + n = omega arith in
      let all =
        take_all name_bytes (u16 (length s.name) + 1)
          (omega (arith, length-append s.name (0 ∷ []))) in
      rw (symbol_bytes_lem e n s, start, name_start, all)

  round_size : f.size ≤ (write_symbol e f ofs i n s).size
  round_size = rw write_symbol_lem (
      omega (
        arith,
        size-le-write f (entry_at ofs i) (entry_of n s),
        size-le-write (write_at f (entry_at ofs i) (entry_of n s)) (ofs + n) name_bytes,
      ))

  round_SameBelow : SameBelow f (write_symbol e f ofs i n s) ofs i (suc i) n
  round_SameBelow x below apart =
      rw
        (
          write_symbol_lem,
          write_outside (write_at f (entry_at ofs i) (entry_of n s)) (ofs + n) name_bytes x
              (inl (omega arith)),
        )
        (write_outside f (entry_at ofs i) (entry_of n s) x (omega arith))

  round_name : Holds (write_symbol e f ofs i n s) (ofs + n) name_bytes
  round_name = rw write_symbol_lem (
      Holds-write (write_at f (entry_at ofs i) (entry_of n s)) (ofs + n) name_bytes
        (omega (arith, length-append s.name (0 ∷ []))))

  round_entry : Holds (write_symbol e f ofs i n s) (entry_at ofs i) (entry_of n s)
  round_entry = rw write_symbol_lem (
      Holds-frame (write_at f (entry_at ofs i) (entry_of n s))
        (write_at (write_at f (entry_at ofs i) (entry_of n s)) (ofs + n) name_bytes)
        (entry_at ofs i) (entry_of n s)
        (Holds-write f (entry_at ofs i) (entry_of n s) (omega arith))
        (size-le-write (write_at f (entry_at ofs i) (entry_of n s)) (ofs + n) name_bytes)
        λ x lo hi.
          write_outside (write_at f (entry_at ofs i) (entry_of n s)) (ofs + n) name_bytes x
            (inl (omega arith)))

-- The outcome of the loop of `uso_write_symbol_table` over the symbols `ss`.
pub record Table (f g : File) (ofs i n : ℕ) (ss : List SymbolInfo) : Type 0 where
  pub size : f.size ≤ g.size
  pub same : SameBelow f g ofs i (i + length ss) n
  pub stored : Stored g ofs i n ss

module _ (e : Endian) (ofs : ℕ) where
  round-Table :
      (f : File) (i n : ℕ) (s : SymbolInfo) (ss : List SymbolInfo) (g : File)
      → length s.name < 2 ^ 15
      → Room ofs i n (s ∷ ss)
      → Table (write_symbol e f ofs i n s) g ofs (suc i) (n + (length s.name + 1)) ss
      → Table f g ofs i n (s ∷ ss)
  unfolding names_size
  round-Table f i n s ss g short room rest =
      let f' = write_symbol e f ofs i n s in
      let fits : entry_at ofs (suc i) ≤ ofs + n = omega arith in
      let no_wrap : ofs + n + (length s.name + 1) < 2 ^ 32 = omega arith in
      record {
        size = omega (arith, round_size e f ofs i n s short fits no_wrap);
        same = λ x below apart.
            rest.same x (omega arith) (omega arith)
            ∙ round_SameBelow e f ofs i n s short fits no_wrap x below (omega arith);
        stored = (
          Holds-frame f' g (entry_at ofs i) (entry_of n s)
              (round_entry e f ofs i n s short fits no_wrap) rest.size
              (λ x lo hi. rest.same x (omega arith) (omega arith)),
          Holds-frame f' g (ofs + n) (s.name ++ 0 ∷ [])
              (round_name e f ofs i n s short fits no_wrap) rest.size
              (λ x lo hi. rest.same x (omega (arith, length-append s.name (0 ∷ []))) (omega arith)),
          rest.stored,
        );
      }

  pub write_symbols-Table :
      (f : File) (i n : ℕ) (ss : List SymbolInfo)
      → ShortNames ss
      → Room ofs i n ss
      → Table f (write_symbols e f ofs i n ss) ofs i n ss
  unfolding write_symbols
  write_symbols-Table f i n [] short room = record {
    size = omega arith;
    same = λ x below apart. refl;
    stored = tt;
  }
  write_symbols-Table f i n (s ∷ ss) short room =
      let next : u32 (n + (u16 (length s.name) + 1)) ≡ n + (length s.name + 1) =
        unfold names_size in omega arith in
      let tail_room : Room ofs (suc i) (n + (length s.name + 1)) ss =
        unfold names_size in omega arith in
      rw next (
        round-Table f i n s ss _ short.0 room (
          write_symbols-Table (write_symbol e f ofs i n s) (suc i) (n + (length s.name + 1)) ss
            short.1 tail_room))

-- A later change of the file that spares the entries and the names.
pub Stored-frame :
    (f g : File) (ofs i n : ℕ) (ss : List SymbolInfo)
    → Stored f ofs i n ss
    → f.size ≤ g.size
    → ((x : ℕ)
        → entry_at ofs i ≤ x
        → x < entry_at ofs (i + length ss)
        → g.contents x ≡ f.contents x)
    → ((x : ℕ) → ofs + n ≤ x → x < ofs + n + names_size ss → g.contents x ≡ f.contents x)
    → Stored g ofs i n ss
unfolding names_size
Stored-frame f g ofs i n [] h le entries names = tt
Stored-frame f g ofs i n (s ∷ ss) (entry, name, rest) le entries names = (
  Holds-frame f g (entry_at ofs i) (entry_of n s) entry le (λ x lo hi. entries x lo (omega arith)),
  Holds-frame f g (ofs + n) (s.name ++ 0 ∷ []) name le
      (λ x lo hi. names x lo (omega (arith, length-append s.name (0 ∷ [])))),
  Stored-frame f g ofs (suc i) (n + (length s.name + 1)) ss rest le
      (λ x lo hi. entries x (omega arith) (omega arith))
      (λ x lo hi. names x (omega arith) (omega arith)),
)
