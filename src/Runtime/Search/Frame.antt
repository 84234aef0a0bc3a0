-- ===== src/Runtime/Search/Frame.antt =====
-- What the searches of src/uso.c read from memory, and that they answer the same where nothing of
-- it has changed.
use dragonuso.Common.{
  ℕ, zero, suc, ◌+◌, ◌*◌, ◌≤◌, ◌<◌, ◌^◌, ◌≡◌, refl, ap, ◌∙◌, inl, inr, arith, ◌==◌, length,
  count_from, List, [], ◌∷◌, Bool-cases,
}
use dragonuso.Bytes.{Bytes, Apart}
use dragonuso.Text.{Str}
use dragonuso.Runtime.Ram.{
  string_within, string_at, table_length, table_entry, symbol_name, symbol_ptr, load_u32,
}
use dragonuso.Runtime.Ram.Laws.{IsRam, load_u32_ext, load_u32-lt}
use dragonuso.Runtime.Search.Lookup.{entry_name, IsSortedTable, lookup_among, lookup_symbol}

-- The string at an address, with its NUL, does not meet the `n` bytes at `lo`.
abbrev pub StringApart : Bytes → ℕ → ℕ → ℕ → Type 0
StringApart m a lo n = Apart a (length (string_at m a) + 1) lo n

-- Nothing of a symbol table meets the `n` bytes at `lo`.
pub record TableApart (m : Bytes) (lo n table : ℕ) : Type 0 where
  pub entries : Apart table (4 + table_length m table * 12) lo n
  pub names :
      (i : ℕ) → i < table_length m table → StringApart m (symbol_name m (table_entry table i)) lo n

module _ (m m' : Bytes) (lo n : ℕ) (same : (x : ℕ) → Apart x 1 lo n → m' x ≡ m x) where
  pub load_u32_same : (a : ℕ) → Apart a 4 lo n → load_u32 m' a ≡ load_u32 m a
  load_u32_same a out = load_u32_ext m' m a λ x l h. same x (omega arith)

  string_within_same :
      (fuel a : ℕ)
      → Apart a (length (string_within fuel m a) + 1) lo n
      → string_within fuel m' a ≡ string_within fuel m a
  unfolding string_within
  string_within_same zero a out = refl
  string_within_same (suc fuel) a out = elim (Bool-cases (m a == 0)) [
    | inl e ↦ rw (same a (omega arith), e)
    | inr e ↦
        let longer : Apart a (length (string_within fuel m (a + 1)) + 2) lo n = ground (arith, e) in
        rw (same a (omega arith), e, string_within_same fuel (a + 1) (omega arith))
  ]

  pub string_at_same : (a : ℕ) → StringApart m a lo n → string_at m' a ≡ string_at m a
  unfolding string_at
  string_at_same a out = string_within_same (2 ^ 32) a out

  module _ (table : ℕ) (out : TableApart m lo n table) where
    table_length_same : table_length m' table ≡ table_length m table
    table_length_same = load_u32_same table (omega (arith, out.entries))

    symbol_ptr_same :
        (i : ℕ)
        → i < table_length m table
        → symbol_ptr m' (table_entry table i) ≡ symbol_ptr m (table_entry table i)
    symbol_ptr_same i lt = load_u32_same (table_entry table i + 4) (omega (arith, out.entries))

    entry_name_same :
        (i : ℕ) → i < table_length m table → entry_name m' table i ≡ entry_name m table i
    entry_name_same i lt =
        ap (string_at m') (load_u32_same (table_entry table i) (omega (arith, out.entries)))
        ∙ string_at_same (symbol_name m (table_entry table i)) (out.names i lt)

    lookup_among_same :
        (name : Str) (k c : ℕ)
        → k + c ≤ table_length m table
        → lookup_among m' table name (count_from k c) ≡ lookup_among m table name (count_from k c)
    unfolding lookup_among
    lookup_among_same name k zero fits = refl
    lookup_among_same name k (suc c) fits = rw (
      entry_name_same k (omega arith),
      symbol_ptr_same k (omega arith),
      lookup_among_same name (suc k) c (omega arith),
    )

    pub lookup_symbol_same : (name : Str) → lookup_symbol m' table name ≡ lookup_symbol m table name
    unfolding lookup_symbol
    lookup_symbol_same name =
        rw (table_length_same, lookup_among_same name 0 (table_length m table) (omega arith))

    pub IsSortedTable-ext : IsSortedTable m table → IsSortedTable m' table
    IsSortedTable-ext sorted i j lt len =
        let inside : j < table_length m table = omega (arith, table_length_same) in
        rw (entry_name_same i (omega arith), entry_name_same j inside) (sorted i j lt inside)

-- What a table answers is an address.
lookup_among-lt :
    (m : Bytes) (table : ℕ) (name : Str) (is : List ℕ)
    → IsRam m
    → lookup_among m table name is < 2 ^ 32
unfolding lookup_among
lookup_among-lt m table name [] ram = omega arith
lookup_among-lt m table name (i ∷ is) ram =
    ground (arith, load_u32-lt m (table_entry table i + 4) ram, lookup_among-lt m table name is ram)

pub lookup_symbol-lt :
    (m : Bytes) (table : ℕ) (name : Str) → IsRam m → lookup_symbol m table name < 2 ^ 32
unfolding lookup_symbol
lookup_symbol-lt m table name ram =
    ground (arith, lookup_among-lt m table name (count_from 0 (table_length m table)) ram)
