-- ===== src/Runtime/Fixup/Imports.antt =====
-- The imports of a file after `fixup_import_syms` of src/uso.c.
use dragonuso.Common.{
  ℕ, zero, suc, ◌+◌, ◌≤◌, ◌<◌, ◌^◌, ◌≡◌, refl, ◌∙◌, inl, inr, Bool, true, false, not, ◌&&◌, List,
  [], ◌∷◌, ◌++◌, arith, ◌==◌, if◌then◌else◌, count_from, Bool-cases, ℕ_discrete,
}
use mathlib.Core.List.{append-nil, append_assoc}
use mathlib.Core.Path.{subst}
use dragonuso.StdLib.{any}
use dragonuso.Bytes.{Bytes, Apart}
use dragonuso.Text.{Str}
use dragonuso.Runtime.Ram.{
  store_u32, string_at, table_entry, symbol_name, symbol_ptr, uso_is_symbol_weak,
}
use dragonuso.Runtime.Ram.Laws.{store_outside, load_u32_ext, load_u32-store_self}
use dragonuso.Runtime.Machine.{Machine, Env, Event, done, reported_unresolved}
use dragonuso.Runtime.Search.{search_loaded_symbols}
use dragonuso.Runtime.Fixup.{resolve_import, resolve_imports}

and_false : (b : Bool) → b && false ≡ false
and_false true = refl
and_false false = refl

and_true : (b : Bool) → b && true ≡ b
and_true true = refl
and_true false = refl

-- The message for each of these imports that is missing.
abbrev pub reports : (names : ℕ → Str) (missing : ℕ → Bool) → List ℕ → List Event
reports names missing [] = []
reports names missing (i ∷ is) =
    if missing i
    then reported_unresolved (names i) ∷ reports names missing is
    else reports names missing is

-- The answers, in the pointers of these imports.
abbrev pub with_ptrs : (table : ℕ) (find : ℕ → ℕ) → Bytes → List ℕ → Bytes
with_ptrs table find m [] = m
with_ptrs table find m (i ∷ is) =
    with_ptrs table find (store_u32 m (table_entry table i + 4) (find i)) is

module _ (table : ℕ) (find : ℕ → ℕ) where
  pub with_ptrs-outside :
      (k c : ℕ) (m : Bytes) (x : ℕ)
      → ((i : ℕ) → k ≤ i → i < k + c → Apart x 1 (table_entry table i + 4) 4)
      → with_ptrs table find m (count_from k c) x ≡ m x
  with_ptrs-outside k zero m x out = refl
  with_ptrs-outside k (suc c) m x out =
      with_ptrs-outside (suc k) c (store_u32 m (table_entry table k + 4) (find k)) x
        (λ i lo hi. out i (omega arith) (omega arith))
      ∙ store_outside m (table_entry table k + 4) (find k) x (out k (omega arith) (omega arith))

  pub with_ptrs-ptr :
      (k c : ℕ) (m : Bytes) (i : ℕ)
      → k ≤ i
      → i < k + c
      → find i < 2 ^ 32
      → symbol_ptr (with_ptrs table find m (count_from k c)) (table_entry table i) ≡ find i
  with_ptrs-ptr k zero m i lo hi fits = absurd (omega arith)
  with_ptrs-ptr k (suc c) m i lo hi fits = elim (ℕ_discrete i k) [
    | yes e ↦
        let m' = store_u32 m (table_entry table i + 4) (find i) in
        subst
          (λ (j : ℕ).
            symbol_ptr
              (with_ptrs table find (store_u32 m (table_entry table j + 4) (find j))
                (count_from (suc j) c))
              (table_entry table i)
            ≡ find i)
          e
          (load_u32_ext (with_ptrs table find m' (count_from (suc i) c)) m'
              (table_entry table i + 4)
              (λ x l h. with_ptrs-outside (suc i) c m' x (λ j lo' hi'. omega arith))
            ∙ load_u32-store_self m (table_entry table i + 4) (find i) fits)
    | no ne ↦
        with_ptrs-ptr (suc k) c (store_u32 m (table_entry table k + 4) (find k)) i (omega arith)
          (omega arith) fits
  ]

-- The memory differs from `named` in the pointers of the imports only.
abbrev pub Filled : (table total : ℕ) (named m : Bytes) → Type 0
Filled table total named m =
    (x : ℕ) → ((i : ℕ) → i < total → Apart x 1 (table_entry table i + 4) 4) → m x ≡ named x

-- The loop over the imports, for names, weak symbols and answers of the search that are known.
module _ (env : Env) (s : Machine) (table total : ℕ) (named : Bytes) (names : ℕ → Str)
    (weak : ℕ → Bool) (find : ℕ → ℕ) where
  -- Import `i` is not found, and has to be.
  abbrev missing : ℕ → Bool
  missing i = not (weak i) && find i == 0

  -- A round of the loop sees the name and the flag of the import, and its search finds the answer.
  pub record Finds (m : Bytes) (events : List Event) (i : ℕ) : Type 0 where
    pub name : string_at m (symbol_name m (table_entry table i)) ≡ names i
    pub flag : uso_is_symbol_weak m (table_entry table i) ≡ weak i
    pub search :
        search_loaded_symbols env (record s { ram = m; events = events }) (names i) true
        ≡ done (find i)

  resolve_import-missing :
      (m : Bytes) (events : List Event) (i : ℕ) (result : Bool)
      → Finds m events i
      → missing i ≡ true
      → resolve_import env (record s { ram = m; events = events }) (table_entry table i) result
        ≡ done (
          record s {
            ram = store_u32 m (table_entry table i + 4) (find i);
            events = events ++ (reported_unresolved (names i) ∷ []);
          },
          false,
        )
  unfolding resolve_import
  resolve_import-missing m events i result finds e = rw (finds.name, finds.search, finds.flag, e)

  resolve_import-resolved :
      (m : Bytes) (events : List Event) (i : ℕ) (result : Bool)
      → Finds m events i
      → missing i ≡ false
      → resolve_import env (record s { ram = m; events = events }) (table_entry table i) result
        ≡ done (
          record s { ram = store_u32 m (table_entry table i + 4) (find i); events = events },
          result,
        )
  unfolding resolve_import
  resolve_import-resolved m events i result finds e = rw (finds.name, finds.search, finds.flag, e)

  Filled-store :
      (m : Bytes) (i v : ℕ)
      → i < total
      → Filled table total named m
      → Filled table total named (store_u32 m (table_entry table i + 4) v)
  Filled-store m i v lt filled x out =
      store_outside m (table_entry table i + 4) v x (out i lt) ∙ filled x out

  module _
      (finds : (m : Bytes) (events : List Event)
        → Filled table total named m
        → (i : ℕ) → i < total
        → Finds m events i) where
    pub resolve_imports-with_ptrs :
        (k c : ℕ) (m : Bytes) (events : List Event) (result : Bool)
        → k + c ≤ total
        → Filled table total named m
        → resolve_imports env (record s { ram = m; events = events }) table result (count_from k c)
          ≡ done (
            record s {
              ram = with_ptrs table find m (count_from k c);
              events = events ++ reports names missing (count_from k c);
            },
            result && not (any missing (count_from k c)),
          )
    unfolding resolve_imports
    resolve_imports-with_ptrs k zero m events result fits filled =
        rw (append-nil events, and_true result)
    resolve_imports-with_ptrs k (suc c) m events result fits filled =
        let round = finds m events filled k (omega arith) in
        let filled' = Filled-store m k (find k) (omega arith) filled in
        let m' = store_u32 m (table_entry table k + 4) (find k) in
        elim (Bool-cases (missing k)) [
          | inl e ↦
              let reported = events ++ (reported_unresolved (names k) ∷ []) in
              rw
                (
                  resolve_import-missing m events k result round e,
                  resolve_imports-with_ptrs (suc k) c m' reported false (omega arith) filled',
                  e,
                )
                (rw (
                  append_assoc events (reported_unresolved (names k) ∷ [])
                      (reports names missing (count_from (suc k) c)),
                  and_false result,
                ))
          | inr e ↦ rw (
            resolve_import-resolved m events k result round e,
            resolve_imports-with_ptrs (suc k) c m' events result (omega arith) filled',
            e,
          )
        ]
