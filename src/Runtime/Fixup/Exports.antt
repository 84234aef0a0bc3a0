-- ===== src/Runtime/Fixup/Exports.antt =====
-- The exports of a file after `fixup_export_syms` of src/uso.c.
use mathlib.Core.Path.{subst}
use dragonuso.Common.{
  ℕ, zero, suc, ◌+◌, ◌*◌, ◌≤◌, ◌<◌, ◌≡◌, refl, sym, ap, ◌∙◌, inl, arith, count_from, ℕ_discrete,
}
use dragonuso.Common.Words.{u32}
use dragonuso.Bytes.{Bytes, Apart}
use dragonuso.Runtime.Ram.{
  store_u32, table_length, table_entry, section_entry, section_data, symbol_name, symbol_ptr,
  symbol_section,
}
use dragonuso.Runtime.Ram.Laws.{
  store_outside, load_u32_ext, load_u16_ext, load_u32-store_self, load_u32-store-Apart,
  load_u16-store-Apart,
}
use dragonuso.Runtime.Fixup.{
  ptr_fixup, fixup_names, fixup_symbol_table_names, fixup_export_ptrs, fixup_export_syms,
}
use dragonuso.Runtime.Fixup.Names.{fixup_names-FixedNames}

-- The entry of the section in which symbol `i` lies.
abbrev pub home : Bytes → (table sections i : ℕ) → ℕ
home m table sections i = section_entry sections (symbol_section m (table_entry table i))

-- The addresses of the sections do not stand in the symbol table.
abbrev pub HomesApart : Bytes → (table sections total : ℕ) → Type 0
HomesApart m table sections total =
    (i : ℕ) → i < total → Apart (home m table sections i) 4 (table + 4) (total * 12)

module _ (table sections total : ℕ) where
  -- The outcome of the loop over the pointers of `n` symbols from `k` on.
  record FixedPtrs (m m' : Bytes) (k n : ℕ) : Type 0 where
    ptrs :
        (i : ℕ)
        → k ≤ i
        → i < k + n
        → symbol_ptr m' (table_entry table i)
          ≡ u32 (section_data m (home m table sections i) + symbol_ptr m (table_entry table i))
    rest :
        (x : ℕ) → ((i : ℕ) → k ≤ i → i < k + n → Apart x 1 (table_entry table i + 4) 4) → m' x ≡ m x

  fixup_export_ptrs-FixedPtrs :
      (n k : ℕ) (m : Bytes)
      → k + n ≤ total
      → HomesApart m table sections total
      → FixedPtrs m (fixup_export_ptrs m table sections (count_from k n)) k n
  unfolding fixup_export_ptrs ptr_fixup
  fixup_export_ptrs-FixedPtrs zero k m fits apart = record {
    ptrs = λ i lo hi. absurd (omega arith);
    rest = λ x out. refl;
  }
  fixup_export_ptrs-FixedPtrs (suc n) k m fits apart =
      let e = table_entry table k in
      let v = u32 (section_data m (home m table sections k) + symbol_ptr m e) in
      let m₁ = store_u32 m (e + 4) v in
      let same_section : (i : ℕ)
          → symbol_section m₁ (table_entry table i) ≡ symbol_section m (table_entry table i) =
        λ i. load_u16-store-Apart m (e + 4) v (table_entry table i + 8) (omega arith) in
      let same_home : (i : ℕ) → home m₁ table sections i ≡ home m table sections i =
        λ i. ap (section_entry sections) (same_section i) in
      let next = fixup_export_ptrs-FixedPtrs n (suc k) m₁ (omega arith) (λ i lt.
        subst (λ (h : ℕ). Apart h 4 (table + 4) (total * 12)) (sym (same_home i)) (apart i lt)) in
      let final = fixup_export_ptrs m₁ table sections (count_from (suc k) n) in
      record {
        ptrs = λ i lo hi. elim (ℕ_discrete k i) [
          | yes same ↦
              subst
                (λ (j : ℕ).
                  symbol_ptr final (table_entry table j)
                  ≡ u32 (
                      section_data m (home m table sections j)
                      + symbol_ptr m (table_entry table j)))
                same
                (load_u32_ext final m₁ (e + 4) (λ x l h. next.rest x (λ j lo' hi'. omega arith))
                  ∙ load_u32-store_self m (e + 4) v (omega arith))
          | no ne ↦
              next.ptrs i (omega arith) (omega arith)
              ∙ ap (λ (h : ℕ). u32 (section_data m₁ h + symbol_ptr m₁ (table_entry table i)))
                  (same_home i)
              ∙ ap (λ (d : ℕ). u32 (d + symbol_ptr m₁ (table_entry table i)))
                  (load_u32-store-Apart m (e + 4) v (home m table sections i)
                    (omega (arith, apart i (omega arith))))
              ∙ ap (λ (p : ℕ). u32 (section_data m (home m table sections i) + p))
                  (load_u32-store-Apart m (e + 4) v (table_entry table i + 4) (omega arith))
        ];
        rest = λ x out.
            next.rest x (λ i lo hi. out i (omega arith) (omega arith))
            ∙ store_outside m (e + 4) v x (out k (omega arith) (omega arith));
      }

-- Every export has its name and its address.
pub record FixedExports (m m' : Bytes) (table sections : ℕ) : Type 0 where
  pub names :
      (i : ℕ)
      → i < table_length m table
      → symbol_name m' (table_entry table i) ≡ u32 (table + symbol_name m (table_entry table i))
  pub ptrs :
      (i : ℕ)
      → i < table_length m table
      → symbol_ptr m' (table_entry table i)
        ≡ u32 (section_data m (home m table sections i) + symbol_ptr m (table_entry table i))
  pub rest : (x : ℕ) → Apart x 1 (table + 4) (table_length m table * 12) → m' x ≡ m x

-- `fixup_export_syms` adds the address of the table to the name of every export and the address of
-- its section to its pointer, and changes nothing outside the entries, if the words with the
-- addresses of the sections of the exports do not stand in the entries.
pub fixup_export_syms-FixedExports :
    (m : Bytes) (table sections : ℕ)
    → HomesApart m table sections (table_length m table)
    → FixedExports m (fixup_export_syms m table sections) table sections
unfolding fixup_export_syms fixup_symbol_table_names
fixup_export_syms-FixedExports m table sections apart =
    let total = table_length m table in
    let named = fixup_names m table (count_from 0 total) in
    let names = fixup_names-FixedNames table total 0 m in
    let same_total : table_length named table ≡ total =
      load_u32_ext named m table (λ x lo hi. names.rest x λ i l h. inl (omega arith)) in
    let same_section : (i : ℕ)
        → symbol_section named (table_entry table i) ≡ symbol_section m (table_entry table i) =
      λ i.
        load_u16_ext named m (table_entry table i + 8)
          (λ x lo hi. names.rest x λ j l h. omega arith) in
    let same_home : (i : ℕ) → home named table sections i ≡ home m table sections i =
      λ i. ap (section_entry sections) (same_section i) in
    let same_data : (i : ℕ)
        → i < total
        → section_data named (home m table sections i) ≡ section_data m (home m table sections i) =
      λ i lt.
        load_u32_ext named m (home m table sections i)
          (λ x lo hi. names.rest x λ j l h. omega (arith, apart i lt)) in
    let same_ptr : (i : ℕ)
        → symbol_ptr named (table_entry table i) ≡ symbol_ptr m (table_entry table i) =
      λ i.
        load_u32_ext named m (table_entry table i + 4)
          (λ x lo hi. names.rest x λ j l h. omega arith) in
    let fixed =
      fixup_export_ptrs-FixedPtrs table sections total total 0 named (omega arith) (λ i lt.
        subst (λ (h : ℕ). Apart h 4 (table + 4) (total * 12)) (sym (same_home i)) (apart i lt)) in
    rw same_total (record {
      names = λ i lt.
          load_u32_ext _ named (table_entry table i) (λ x lo hi. fixed.rest x λ j l h. omega arith)
          ∙ names.names i (omega arith) (omega arith);
      ptrs = λ i lt.
          fixed.ptrs i (omega arith) (omega arith)
          ∙ ap (λ (h : ℕ). u32 (section_data named h + symbol_ptr named (table_entry table i)))
              (same_home i)
          ∙ ap (λ (d : ℕ). u32 (d + symbol_ptr named (table_entry table i))) (same_data i lt)
          ∙ ap (λ (p : ℕ). u32 (section_data m (home m table sections i) + p)) (same_ptr i);
      rest = λ x out. fixed.rest x (λ i lo hi. omega arith) ∙ names.rest x (λ i lo hi. omega arith);
    })
