-- ===== src/Runtime/Reloc/Table.antt =====
-- The loop of `apply_uso_relocs` over a whole table.
use dragonuso.Common.{
  ℕ, ◌+◌, ◌^◌, ◌≤◌, ◌<◌, ◌≡◌, refl, ap, ◌∙◌, inl, inr, Bool, some, List, [], ◌∷◌, arith,
  Option-cases, All,
}
use dragonuso.Bytes.{Bytes, Apart}
use dragonuso.Runtime.Ram.{load_u32, store_u32, table_entry}
use dragonuso.Runtime.Ram.Laws.{
  store_outside, load_u32_ext, load_u32-store_self, IsRam, load_u32-lt,
}
use dragonuso.Runtime.Machine.{done}
use dragonuso.Runtime.Reloc.{
  relocate_32, relocate_hi16, find_lo, reloc_sym_addr, apply_reloc, apply_relocs,
}
use dragonuso.Runtime.Reloc.Halves.{
  relocate_26-lt, relocate_lo16-lt, relocate_hi16-none, relocate_hi16-some-lt,
}
use mathlib.Core.Path.{ap₂}
use dragonuso.Runtime.Reloc.Memory.{
  target_at, type_at, IsKnownType, new_word, apply_reloc_known, SameInputs, Spares, Independent,
  same_target, same_type, same_word, same_sym_addr,
}

within : (a n t : ℕ) → Apart a n t 4 → (x : ℕ) → a ≤ x → x < a + n → Apart x 1 t 4
within a n t h x lo hi = omega arith

module _ (uso : ℕ) (internal : Bool) (base table : ℕ) (m : Bytes) where
  same_find_lo :
      (m' : Bytes) (is : List ℕ)
      → All (SameInputs uso internal base table m m') is
      → find_lo m' base table is ≡ find_lo m base table is
  unfolding find_lo
  same_find_lo m' [] same = refl
  same_find_lo m' (i ∷ is) (same, rest) = rw (
    same_target uso internal base table same,
    same_word uso internal base table same,
    same_type uso internal base table same,
    same_find_lo m' is rest,
  )

  -- A word depends only on what its entry and those behind it read.
  same_new_word :
      (m' : Bytes) (i : ℕ) (is : List ℕ)
      → All (SameInputs uso internal base table m m') (i ∷ is)
      → new_word m' uso internal base table i is ≡ new_word m uso internal base table i is
  unfolding new_word
  same_new_word m' i is (same, rest) = rw (
    same_target uso internal base table same,
    same_word uso internal base table same,
    same_type uso internal base table same,
    same_sym_addr uso internal base table same,
    same_find_lo m' is rest,
  )

  SameInputs-store :
      (m' : Bytes) (i j v : ℕ)
      → Spares uso internal base table m i j
      → SameInputs uso internal base table m m' j
      → SameInputs uso internal base table m (store_u32 m' (target_at m base table i) v) j
  SameInputs-store m' i j v spares same = record {
    entry =
        λ x lo hi. store_outside m' _ v x (within _ _ _ spares.entry x lo hi) ∙ same.entry x lo hi;
    tables = λ x lo hi.
        store_outside m' _ v x (within _ _ _ spares.tables x lo hi) ∙ same.tables x lo hi;
    source = λ x lo hi.
        store_outside m' _ v x (within _ _ _ spares.source x lo hi) ∙ same.source x lo hi;
    word = λ x lo hi. store_outside m' _ v x (within _ _ _ spares.word x lo hi) ∙ same.word x lo hi;
  }

  All-SameInputs-store :
      (m' : Bytes) (i v : ℕ) (is : List ℕ)
      → All (Spares uso internal base table m i) is
      → All (SameInputs uso internal base table m m') is
      → All (SameInputs uso internal base table m (store_u32 m' (target_at m base table i) v)) is
  All-SameInputs-store m' i v [] spares same = tt
  All-SameInputs-store m' i v (j ∷ js) spares same =
      (SameInputs-store m' i j v spares.0 same.0, All-SameInputs-store m' i v js spares.1 same.1)

  -- Every target holds the word that its relocation makes of the memory `m`.
  abbrev pub Relocated : Bytes → List ℕ → Type 0
  Relocated m' [] = Unit {0}
  Relocated m' (i ∷ is) =
      (load_u32 m' (target_at m base table i) ≡ new_word m uso internal base table i is)
      × Relocated m' is

  abbrev pub OutsideTargets : ℕ → List ℕ → Type 0
  OutsideTargets x [] = Unit {0}
  OutsideTargets x (i ∷ is) = Apart x 1 (target_at m base table i) 4 × OutsideTargets x is

  find_lo-lt : (is : List ℕ) (lo : ℕ) → find_lo m base table is ≡ some lo → lo < 2 ^ 16
  unfolding find_lo
  find_lo-lt [] lo h = cc
  find_lo-lt (i ∷ is) lo h = ground (arith, find_lo-lt is lo)

  hi16-lt :
      (t sym_addr : ℕ) (is : List ℕ)
      → t < 2 ^ 32
      → relocate_hi16 t (find_lo m base table is) sym_addr < 2 ^ 32
  hi16-lt t sym_addr is h = elim (Option-cases (find_lo m base table is)) [
    | inl e ↦ rw (e, relocate_hi16-none t sym_addr h) h
    | inr (lo, e) ↦ rw e (relocate_hi16-some-lt t lo sym_addr h (find_lo-lt is lo e))
  ]

  new_word-lt : (i : ℕ) (is : List ℕ) → IsRam m → new_word m uso internal base table i is < 2 ^ 32
  unfolding new_word relocate_32
  new_word-lt i is ram =
      let old = load_u32 m (target_at m base table i) in
      let sym_addr = reloc_sym_addr m uso internal (table_entry table i) in
      let fits = load_u32-lt m (target_at m base table i) ram in
      ground (
        arith,
        relocate_26-lt old sym_addr fits,
        relocate_lo16-lt old sym_addr fits,
        hi16-lt old sym_addr is fits,
      )

  outside_of_spared :
      (i : ℕ) (is : List ℕ) (x : ℕ)
      → All (Spares uso internal base table m i) is
      → target_at m base table i ≤ x
      → x < target_at m base table i + 4
      → OutsideTargets x is
  outside_of_spared i [] x spares lo hi = tt
  outside_of_spared i (j ∷ js) x spares lo hi =
      (omega (arith, spares.0.word), outside_of_spared i js x spares.1 lo hi)

  -- The outcome of the loop from the memory `m'` on.
  pub record Applied (m' : Bytes) (is : List ℕ) : Type 0 where
    pub final : Bytes
    pub runs : apply_relocs m' uso internal base table is ≡ done final
    pub words : Relocated final is
    pub rest : (x : ℕ) → OutsideTargets x is → final x ≡ m' x

  apply_relocs-Applied_from :
      (m' : Bytes) (is : List ℕ)
      → IsRam m
      → All (SameInputs uso internal base table m m') is
      → Independent uso internal base table m is
      → All (λ i. IsKnownType (type_at m table i)) is
      → Applied m' is
  unfolding apply_relocs
  apply_relocs-Applied_from m' [] ram same indep known = record {
    final = m';
    runs = refl;
    words = tt;
    rest = λ x out. refl;
  }
  apply_relocs-Applied_from m' (i ∷ is) ram same indep known =
      let target = target_at m base table i in
      let word = new_word m uso internal base table i is in
      let stored = store_u32 m' target word in
      let next =
        apply_relocs-Applied_from stored is ram (All-SameInputs-store m' i word is indep.0 same.1)
          indep.1 known.1 in
      let step : apply_reloc m' uso internal base table i is ≡ done stored =
        apply_reloc_known m' uso internal base table i is
          (rw (same_type uso internal base table same.0) known.0)
        ∙ ap done (
            ap₂ (λ (t w : ℕ). store_u32 m' t w) (same_target uso internal base table same.0)
              (same_new_word m' i is same)) in
      record {
        final = next.final;
        runs = rw step next.runs;
        words = (
          load_u32_ext next.final stored target
                (λ x lo hi. next.rest x (outside_of_spared i is x indep.0 lo hi))
              ∙ load_u32-store_self m' target word (new_word-lt i is ram),
          next.words,
        );
        rest = λ x out. next.rest x out.1 ∙ store_outside m' target word x out.0;
      }

  SameInputs-self : (is : List ℕ) → All (SameInputs uso internal base table m m) is
  SameInputs-self [] = tt
  SameInputs-self (i ∷ is) = (
    record {
      entry = λ x lo hi. refl;
      tables = λ x lo hi. refl;
      source = λ x lo hi. refl;
      word = λ x lo hi. refl;
    },
    SameInputs-self is,
  )

  -- The loop of apply_uso_relocs over entries of known types, none of whose targets meets another
  -- target or what a later entry reads, runs to its end; each target then holds the word that its
  -- relocation makes of the original memory, and no other byte has changed.
  pub apply_relocs-Applied :
      (is : List ℕ)
      → IsRam m
      → Independent uso internal base table m is
      → All (λ i. IsKnownType (type_at m table i)) is
      → Applied m is
  apply_relocs-Applied is ram indep known =
      apply_relocs-Applied_from m is ram (SameInputs-self is) indep known
