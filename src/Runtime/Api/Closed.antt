-- ===== src/Runtime/Api/Closed.antt =====
-- What `uso_close` of src/uso.c does with a file of the list, on every branch.
use dragonuso.Common.{
  ℕ, ◌+◌, ◌-◌, ◌≤◌, ◌<◌, ◌≡◌, ◌≢◌, ◌⊎◌, ◌∙◌, sym, ap, inl, inr, Bool, true, false, List, ◌∷◌, ◌++◌,
  arith, ◌==◌, ltb, if◌then◌else◌, All, Bool-cases,
}
use mathlib.Core.Path.{subst}
use dragonuso.Bsearch.{IsBsearch}
use dragonuso.Runtime.Ram.{handle_uso, export_syms, import_syms, ref_count}
use dragonuso.Runtime.Ram.Laws.{load_u32-store_self, IsRam, load_u32-lt}
use dragonuso.Runtime.Machine.{Machine, Env, done}
use dragonuso.Runtime.Search.Lookup.{IsSortedTable}
use dragonuso.Runtime.Handles.Links.{IsLoaded}
use dragonuso.Runtime.Api.{uso_close}
use dragonuso.Runtime.Api.Close.{with_count, released, released-IsLoaded, in_use, uso_close-loaded}
use dragonuso.Runtime.Api.Closeable.{IsNeeded, IsNeeded-of_test, IsNeeded-test}
use dragonuso.Runtime.Api.Loaded.{KeepsList, any-middle, uso_close-IsLoaded}

-- Another reference is left.
released_more :
    (s : Machine) (handle : ℕ)
    → IsRam s.ram
    → 1 < ref_count s.ram handle
    → (ref_count (released s handle).ram handle == 0) ≡ false
released_more s handle ram more =
    let counted : (ref_count s.ram handle == 0) ≡ false = ground (arith, more) in
    let fits = load_u32-lt s.ram (handle + 12) ram in
    let stored =
      load_u32-store_self s.ram (handle + 12) (ref_count s.ram handle - 1) (omega (arith, fits)) in
    let left : (ref_count s.ram handle - 1 == 0) ≡ false = ground (arith, more) in
    subst
      (λ (b : Bool).
        (ref_count (if b then s else with_count s handle (ref_count s.ram handle - 1)).ram handle
          == 0)
        ≡ false)
      (sym counted) (ap (λ (n : ℕ). n == 0) stored ∙ left)

module _ (s : Machine) (hs ks : List ℕ) (handle : ℕ) where
  abbrev all_files : List ℕ
  all_files = hs ++ handle ∷ ks

  abbrev after : Machine
  after = released s handle

  -- The file stays loaded: a reference is left, or another file imports from it.
  abbrev pub Stays : Type 0
  Stays = (1 < ref_count s.ram handle) ⊎ IsNeeded after all_files handle

  module _ (env : Env) (is_bsearch : IsBsearch env.bsearch) (is : IsLoaded s all_files)
      (ram : IsRam s.ram) (exports : export_syms after.ram (handle_uso after.ram handle) ≢ 0)
      (sorted : All
        (λ h. IsSortedTable after.ram (import_syms after.ram (handle_uso after.ram h)))
        all_files) where
    kept :
        (b : Bool)
        → (ref_count after.ram handle == 0) ≡ b
        → (in_use env after handle all_files ≡ true) ⊎ (b ≡ false)
        → uso_close env s handle ≡ done after
    kept b count (inl used) =
        uso_close-loaded env s handle all_files is (any-middle hs ks handle) exports ∙ rw used
    kept b count (inr more) =
        uso_close-loaded env s handle all_files is (any-middle hs ks handle) exports
        ∙ elim (Bool-cases (in_use env after handle all_files)) [
          | inl used ↦ rw used
          | inr unused ↦ rw (unused, count, more)
        ]

    -- `uso_close` of a file in the list of loaded files that has an export table returns: if its
    -- reference count is above 1, or some other file of the list has an import with an address
    -- other than NULL and the name of one of its exports, one reference is given back (a count of 0
    -- stays 0), nothing else changes, and the list stays; else the list is left without the file,
    -- in the same order; with the tables as they stand when the reference is given back, if the
    -- import tables of the files are then sorted by name, each name once, and the code of the files
    -- leaves the list alone; with a bsearch that behaves as documented and a memory of bytes.
    pub uso_close-Stays :
        KeepsList env all_files
        → (Stays × (uso_close env s handle ≡ done after) × IsLoaded after all_files)
          ⊎ ((¬ Stays)
              × (s' : Machine) × (uso_close env s handle ≡ done s')
              × IsLoaded s' (hs ++ ks))
    uso_close-Stays keeps =
        let mem = any-middle hs ks handle in
        let still = released-IsLoaded s handle all_files mem is in
        elim (Bool-cases (in_use env after handle all_files)) [
          | inl used ↦ inl (
            inr (IsNeeded-of_test env after handle all_files is_bsearch sorted used),
            kept _ (λ i. ref_count after.ram handle == 0) (inl used),
            still,
          )
          | inr unused ↦ elim (Bool-cases (ltb 1 (ref_count s.ram handle))) [
            | inl more ↦
                let count : 1 < ref_count s.ram handle = ground (arith, more) in
                inl
                  (inl count, kept false (released_more s handle ram count) (inr λ i. false), still)
            | inr last ↦
                let few : ref_count s.ram handle ≤ 1 = ground (arith, last) in
                let (s', runs, rest) =
                  uso_close-IsLoaded env s hs ks handle keeps is few exports unused in
                inr (
                  λ stays. elim stays [
                    | inl count ↦ absurd (omega (arith, few, count))
                    | inr needed ↦
                        let used =
                          IsNeeded-test env after handle all_files is_bsearch sorted needed in
                        cc
                  ],
                  s',
                  runs,
                  rest,
                )
          ]
        ]
