-- ===== src/Runtime/Fixup/Names.antt =====
-- The names of a symbol table after `fixup_symbol_table_names` of src/uso.c.
use dragonuso.Common.{
  ℕ, zero, suc, ◌+◌, ◌≤◌, ◌<◌, ◌≡◌, refl, ap, ◌∙◌, inl, inr, arith, ℕ_discrete, count_from,
}
use mathlib.Core.Path.{subst}
use dragonuso.Common.Words.{u32}
use dragonuso.Bytes.{Bytes, Apart}
use dragonuso.Runtime.Ram.{load_u32, store_u32, table_entry}
use dragonuso.Runtime.Ram.Laws.{
  store_outside, load_u32_ext, load_u32-store_self, load_u32-store-Apart,
}
use dragonuso.Runtime.Fixup.{ptr_fixup, fixup_names}

-- The outcome of the loop of `fixup_symbol_table_names` on `n` entries from `k` on.
pub record FixedNames (m m' : Bytes) (table k n : ℕ) : Type 0 where
  pub names :
      (i : ℕ)
      → k ≤ i
      → i < k + n
      → load_u32 m' (table_entry table i) ≡ u32 (table + load_u32 m (table_entry table i))
  pub rest :
      (x : ℕ) → ((i : ℕ) → k ≤ i → i < k + n → Apart x 1 (table_entry table i) 4) → m' x ≡ m x

pub fixup_names-FixedNames :
    (table n k : ℕ) (m : Bytes) → FixedNames m (fixup_names m table (count_from k n)) table k n
unfolding fixup_names ptr_fixup
fixup_names-FixedNames table zero k m = record {
  names = λ i lo hi. absurd (omega arith);
  rest = λ x out. refl;
}
fixup_names-FixedNames table (suc n) k m =
    let a = table_entry table k in
    let v = u32 (table + load_u32 m a) in
    let fixed = store_u32 m a v in
    let next = fixup_names-FixedNames table n (suc k) fixed in
    let final = fixup_names fixed table (count_from (suc k) n) in
    record {
      names = λ i lo hi. elim (ℕ_discrete k i) [
        | yes e ↦
            subst
              (λ (j : ℕ).
                load_u32 final (table_entry table j)
                ≡ u32 (table + load_u32 m (table_entry table j)))
              e
              (load_u32_ext final fixed a (λ x l h. next.rest x λ j lo' hi'. inl (omega arith))
                ∙ load_u32-store_self m a v (omega arith))
        | no ne ↦
            next.names i (omega arith) (omega arith)
            ∙ ap (λ (w : ℕ). u32 (table + w))
                (load_u32-store-Apart m a v (table_entry table i) (inr (omega arith)))
      ];
      rest = λ x out.
          next.rest x (λ i lo hi. out i (omega arith) (omega arith))
          ∙ store_outside m a v x (out k (omega arith) (omega arith));
    }
