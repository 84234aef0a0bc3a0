-- ===== src/Runtime/Search/Lookup.antt =====
-- `search_symbol_table` against a look at every entry.
use Prim.Native.Nat.{Ordering}
use dragonuso.Common.{
  ℕ, zero, suc, ◌+◌, ◌≤◌, ◌<◌, ◌≡◌, ◌≢◌, refl, sym, inl, inr, true, false, some, none, List, [],
  ◌∷◌, arith, ◌==◌, if◌then◌else◌, count_from, Option-cases, Bool-cases, ℕ_discrete,
}
use dragonuso.Bytes.{Bytes}
use dragonuso.Bsearch.{Ascends, IsBsearch}
use dragonuso.Text.{Str, strcmp, str_eq}
use dragonuso.Text.Order.{
  strcmp_self, strcmp_flip, strcmp_unflip, strcmp_trans, eq_of_strcmp, str_eq_iff,
}
use dragonuso.Runtime.Ram.{string_at, table_length, table_entry, symbol_name, symbol_ptr}
use dragonuso.Runtime.Machine.{Env}
use dragonuso.Runtime.Search.{symbol_compare, search_symbol_table}

-- The name of entry `i`.
abbrev pub entry_name : Bytes → ℕ → ℕ → Str
entry_name m table i = string_at m (symbol_name m (table_entry table i))

-- "Symbols should appear sorted by name in ASCII order", each name once.
abbrev pub IsSortedTable : Bytes → ℕ → Type 0
IsSortedTable m table =
    (i j : ℕ)
    → i < j
    → j < table_length m table
    → strcmp (entry_name m table i) (entry_name m table j) ≡ Ordering.lt

-- The pointer of the first entry with the name among these indices, or NULL.
unfoldable pub lookup_among : Bytes → ℕ → Str → List ℕ → ℕ
lookup_among m table name [] = 0
lookup_among m table name (i ∷ is) =
    if str_eq (entry_name m table i) name
    then symbol_ptr m (table_entry table i)
    else lookup_among m table name is

-- What a table says of a name: a missing table says NULL.
unfoldable pub lookup_symbol : Bytes → ℕ → Str → ℕ
lookup_symbol m table name =
    if table == 0 then 0 else lookup_among m table name (count_from 0 (table_length m table))

module _ (m : Bytes) (table : ℕ) (name : Str) where
  lookup_none :
      (k n : ℕ)
      → ((i : ℕ) → k ≤ i → i < k + n → str_eq (entry_name m table i) name ≡ false)
      → lookup_among m table name (count_from k n) ≡ 0
  unfolding lookup_among
  lookup_none k zero no_match = refl
  lookup_none k (suc n) no_match =
      rw (no_match k (omega arith) (omega arith))
        (lookup_none (suc k) n λ i lo hi. no_match i (omega arith) (omega arith))

  lookup_only :
      (k n i : ℕ)
      → k ≤ i
      → i < k + n
      → str_eq (entry_name m table i) name ≡ true
      → ((j : ℕ) → j < i → str_eq (entry_name m table j) name ≡ false)
      → lookup_among m table name (count_from k n) ≡ symbol_ptr m (table_entry table i)
  unfolding lookup_among
  lookup_only k zero i lo hi match first = absurd (omega arith)
  lookup_only k (suc n) i lo hi match first = elim (ℕ_discrete k i) [
    | yes e ↦ rw (e, match)
    | no ne ↦
        rw (first k (omega arith)) (lookup_only (suc k) n i (omega arith) (omega arith) match first)
  ]

  lookup_found :
      (k n : ℕ)
      → lookup_among m table name (count_from k n) ≢ 0
      → (j : ℕ) × (k ≤ j)
        × (j < k + n)
        × (entry_name m table j ≡ name)
        × (symbol_ptr m (table_entry table j) ≢ 0)
  unfolding lookup_among
  lookup_found k zero hit = absurd (hit refl)
  lookup_found k (suc n) hit = elim (Bool-cases (str_eq (entry_name m table k) name)) [
    | inl match ↦ (
      k,
      omega arith,
      omega arith,
      (str_eq_iff (entry_name m table k) name).0 match,
      rw match at hit,
    )
    | inr differs ↦
        let (j, low, high, same, resolved) = lookup_found (suc k) n (rw differs at hit) in
        (j, omega arith, omega arith, same, resolved)
  ]

  -- A name that a table gives an address other than NULL has an entry with such an address.
  pub entry_of_lookup :
      lookup_symbol m table name ≢ 0
      → (table ≢ 0)
        × (j : ℕ) × (j < table_length m table)
        × (entry_name m table j ≡ name)
        × (symbol_ptr m (table_entry table j) ≢ 0)
  unfolding lookup_symbol
  entry_of_lookup found = elim (ℕ_discrete table 0) [
    | yes missing ↦ let null : 0 ≢ 0 = rw missing at found in absurd (null refl)
    | no there ↦
        let full : (table == 0) ≡ false = ground (arith, there) in
        let (j, low, high, same, resolved) =
          lookup_found 0 (table_length m table) (rw full at found) in
        (there, j, omega arith, same, resolved)
  ]

  module _ (sorted : IsSortedTable m table) where
    table-Ascends : Ascends (symbol_compare m name table) (table_length m table)
    unfolding symbol_compare
    table-Ascends = record {
      above = λ i j lt len e.
          strcmp_trans name (entry_name m table i) (entry_name m table j) e (sorted i j lt len);
      below = λ i j lt len e. strcmp_flip (entry_name m table i) name (
          strcmp_trans (entry_name m table i) (entry_name m table j) name (sorted i j lt len)
            (strcmp_unflip name (entry_name m table j) e));
    }

    -- No entry in front of a match has the name.
    first_match :
        (i : ℕ)
        → i < table_length m table
        → strcmp name (entry_name m table i) ≡ Ordering.eq
        → (j : ℕ) → j < i
        → str_eq (entry_name m table j) name ≡ false
    first_match i len e j lt =
        let same = eq_of_strcmp name (entry_name m table i) e in
        let before = sorted j i lt len in ground (arith, rw (← same) at before)

    -- A sorted table gives the name of an entry the address of that entry.
    pub lookup_of_entry :
        (j : ℕ)
        → table ≢ 0
        → j < table_length m table
        → entry_name m table j ≡ name
        → lookup_symbol m table name ≡ symbol_ptr m (table_entry table j)
    unfolding lookup_symbol
    lookup_of_entry j there len same =
        let full : (table == 0) ≡ false = ground (arith, there) in
        let e : strcmp name (entry_name m table j) ≡ Ordering.eq = rw same (strcmp_self name) in
        rw full (
          lookup_only 0 (table_length m table) j (omega arith) (omega arith)
            ((str_eq_iff (entry_name m table j) name).1 same) (first_match j len e))

    missing_lookup :
        (env : Env)
        → IsBsearch env.bsearch
        → env.bsearch (symbol_compare m name table) (table_length m table) ≡ none
        → lookup_among m table name (count_from 0 (table_length m table)) ≡ 0
    missing_lookup env is missing = lookup_none 0 (table_length m table) λ i lo hi.
        elim (Bool-cases (str_eq (entry_name m table i) name)) [
          | inl match ↦ absurd (
              is.complete (symbol_compare m name table) (table_length m table) i table-Ascends
                (omega arith) (same_name i match) missing)
          | inr differs ↦ differs
        ]
      where
        same_name :
            (i : ℕ)
            → str_eq (entry_name m table i) name ≡ true
            → symbol_compare m name table i ≡ Ordering.eq
        same_name i match =
            let same = (str_eq_iff (entry_name m table i) name).0 match in
            unfold symbol_compare in rw same (strcmp_self name)

    hit_lookup :
        (env : Env) (i : ℕ)
        → IsBsearch env.bsearch
        → env.bsearch (symbol_compare m name table) (table_length m table) ≡ some i
        → lookup_among m table name (count_from 0 (table_length m table))
          ≡ symbol_ptr m (table_entry table i)
    unfolding symbol_compare
    hit_lookup env i is hit =
        let (len, e) = is.found (symbol_compare m name table) (table_length m table) i hit in
        lookup_only 0 (table_length m table) i (omega arith) (omega arith)
          ((str_eq_iff (entry_name m table i) name).1
            (sym (eq_of_strcmp name (entry_name m table i) e)))
          (first_match i len e)

    -- With a bsearch that behaves as documented, search_symbol_table on a table that is sorted by
    -- name, each name once, finds the pointer of the entry with the name, and NULL if there is
    -- none, no table, or an empty one.
    pub search-lookup :
        (env : Env)
        → IsBsearch env.bsearch
        → search_symbol_table env m table name ≡ lookup_symbol m table name
    unfolding search_symbol_table lookup_symbol
    search-lookup env is =
        let result = env.bsearch (symbol_compare m name table) (table_length m table) in
        elim (Option-cases result) [
          | inl missing ↦ ground (arith, missing, missing_lookup env is missing)
          | inr (i, hit) ↦ elim (ℕ_discrete (table_length m table) 0) [
            | yes empty ↦
                let (len, e) =
                  is.found (symbol_compare m name table) (table_length m table) i hit in
                absurd (omega arith)
            | no filled ↦ ground (arith, hit, hit_lookup env i is hit)
          ]
        ]
