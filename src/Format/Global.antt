-- ===== src/Format/Global.antt =====
-- A symbol table in the console's memory with the names and addresses of given symbols, and what
-- src/uso.c finds in it.
use Prim.Native.Nat.{Ordering}
use dragonuso.Common.{
  ℕ, suc, false, ◌==◌, ◌≢◌, ◌+◌, ◌≤◌, ◌<◌, ◌≡◌, refl, sym, ◌∙◌, List, [], ◌∷◌, All, arith, length,
  if◌then◌else◌, count_from, ℕ_discrete,
}
use mathlib.Core.Path.{subst}
use dragonuso.Bytes.{Bytes}
use dragonuso.Text.{Str, strcmp, str_eq}
use dragonuso.Elf2uso.State.{SymbolInfo}
use dragonuso.Runtime.Ram.{table_length, table_entry, symbol_ptr}
use dragonuso.Bsearch.{IsBsearch}
use dragonuso.Runtime.Machine.{Env}
use dragonuso.Runtime.Search.{search_symbol_table}
use dragonuso.Runtime.Search.Lookup.{
  entry_name, lookup_among, lookup_symbol, search-lookup, IsSortedTable,
}

-- The symbols `ss` are the entries of a table from index `i` on.
abbrev pub InMemory : Bytes → ℕ → ℕ → List SymbolInfo → Type 0
InMemory m table i [] = Unit {0}
InMemory m table i (s ∷ ss) =
    (entry_name m table i ≡ s.name)
    × (symbol_ptr m (table_entry table i) ≡ s.addr)
    × InMemory m table (suc i) ss

-- The address of the first symbol with the name, or 0.
unfoldable pub address_of : Str → List SymbolInfo → ℕ
address_of name [] = 0
address_of name (s ∷ ss) = if str_eq s.name name then s.addr else address_of name ss

lookup_among-address_of :
    (m : Bytes) (table i : ℕ) (ss : List SymbolInfo) (name : Str)
    → InMemory m table i ss
    → lookup_among m table name (count_from i (length ss)) ≡ address_of name ss
unfolding lookup_among address_of
lookup_among-address_of m table i [] name is = refl
lookup_among-address_of m table i (s ∷ ss) name (here, ptr, rest) =
    rw (here, ptr, lookup_among-address_of m table (suc i) ss name rest)

-- Each name is before the next.
abbrev pub Ascending : List SymbolInfo → Type 0
Ascending [] = Unit {0}
Ascending (s ∷ ss) = All (λ t. strcmp s.name t.name ≡ Ordering.lt) ss × Ascending ss

names_above :
    (m : Bytes) (table i j : ℕ) (name : Str) (ss : List SymbolInfo)
    → InMemory m table i ss
    → All (λ t. strcmp name t.name ≡ Ordering.lt) ss
    → i ≤ j
    → j < i + length ss
    → strcmp name (entry_name m table j) ≡ Ordering.lt
names_above m table i j name [] is all lo hi = absurd (omega arith)
names_above m table i j name (s ∷ ss) (here, ptr, rest) all lo hi = elim (ℕ_discrete i j) [
  | yes e ↦
      subst (λ (k : ℕ). strcmp name (entry_name m table k) ≡ Ordering.lt) e
        (subst (λ (t : Str). strcmp name t ≡ Ordering.lt) (sym here) all.0)
  | no ne ↦ names_above m table (suc i) j name ss rest all.1 (omega arith) (omega arith)
]

names_sorted :
    (m : Bytes) (table i j k : ℕ) (ss : List SymbolInfo)
    → InMemory m table i ss
    → Ascending ss
    → i ≤ j
    → j < k
    → k < i + length ss
    → strcmp (entry_name m table j) (entry_name m table k) ≡ Ordering.lt
names_sorted m table i j k [] is asc lo lt hi = absurd (omega arith)
names_sorted m table i j k (s ∷ ss) (here, ptr, rest) asc lo lt hi = elim (ℕ_discrete i j) [
  | yes e ↦
      subst (λ (l : ℕ). strcmp (entry_name m table l) (entry_name m table k) ≡ Ordering.lt) e
        (subst (λ (t : Str). strcmp t (entry_name m table k) ≡ Ordering.lt) (sym here)
          (names_above m table (suc i) k s.name ss rest asc.0 (omega arith) (omega arith)))
  | no ne ↦ names_sorted m table (suc i) j k ss rest asc.1 (omega arith) lt (omega arith)
]

-- A table of ascending names is sorted in memory.
InMemory-IsSortedTable :
    (m : Bytes) (table : ℕ) (ss : List SymbolInfo)
    → InMemory m table 0 ss
    → table_length m table ≡ length ss
    → Ascending ss
    → IsSortedTable m table
InMemory-IsSortedTable m table ss is len asc i j lt hi =
    names_sorted m table 0 i j ss is asc (omega arith) lt (omega (arith, len))

-- With a bsearch that behaves as documented, a search by name in the table finds the address of the
-- symbol with the name.
pub search-address_of :
    (env : Env) (m : Bytes) (table : ℕ) (ss : List SymbolInfo) (name : Str)
    → IsBsearch env.bsearch
    → table ≢ 0
    → InMemory m table 0 ss
    → table_length m table ≡ length ss
    → Ascending ss
    → search_symbol_table env m table name ≡ address_of name ss
search-address_of env m table ss name is_bsearch nonnull is len asc =
    search-lookup m table name (InMemory-IsSortedTable m table ss is len asc) env is_bsearch
    ∙ lookup
  where
    lookup : lookup_symbol m table name ≡ address_of name ss
    lookup =
        let there : (table == 0) ≡ false = ground (arith, nonnull) in
        let among = lookup_among-address_of m table 0 ss name is in
        unfold lookup_symbol in rw (there, len) among
