-- ===== src/Bsearch.antt =====
-- `bsearch` of the C library, as an interface, and the halving search as an implementation. The
-- search sees the comparison of the key with the element at each index.
use Prim.Native.Nat.{Ordering}
use dragonuso.Common.{
  ℕ, zero, suc, ◌+◌, ◌-◌, ◌/◌, ◌≤◌, ◌<◌, ◌≡◌, ◌≢◌, Option, none, some, arith, ltb, if◌then◌else◌,
}

-- The elements ascend: those above the key stand behind all others, those below it in front.
pub record Ascends (compare_at : ℕ → Ordering) (n : ℕ) : Type 0 where
  pub above : (i j : ℕ) → i < j → j < n → compare_at i ≡ Ordering.lt → compare_at j ≡ Ordering.lt
  pub below : (i j : ℕ) → i < j → j < n → compare_at j ≡ Ordering.gt → compare_at i ≡ Ordering.gt

-- What the standard says: an index that is returned has an element equal to the key, and one is
-- returned if the elements ascend and some element is equal to the key.
pub record IsBsearch (bsearch : (ℕ → Ordering) → ℕ → Option ℕ) : Type 0 where
  pub found :
      (compare_at : ℕ → Ordering) (n i : ℕ)
      → bsearch compare_at n ≡ some i
      → (i < n) × (compare_at i ≡ Ordering.eq)
  pub complete :
      (compare_at : ℕ → Ordering) (n i : ℕ)
      → Ascends compare_at n
      → i < n
      → compare_at i ≡ Ordering.eq
      → bsearch compare_at n ≢ none

-- The search among the `n` indices from `base` on; each round halves them.
unfoldable pub halving_from : ℕ → (ℕ → Ordering) → ℕ → ℕ → Option ℕ
halving_from zero compare_at base n = none
halving_from (suc fuel) compare_at base n =
    let middle = base + n / 2 in
    let right = halving_from fuel compare_at (middle + 1) (n - n / 2 - 1) in
    let left = halving_from fuel compare_at base (n / 2) in
    if ltb 0 n
    then elim (compare_at middle) [
      | Ordering.eq ↦ some middle
      | Ordering.gt ↦ right
      | Ordering.lt ↦ left
    ]
    else none

unfoldable pub halving : (ℕ → Ordering) → ℕ → Option ℕ
halving compare_at n = halving_from n compare_at 0 n

halving_from-found :
    (fuel : ℕ) (compare_at : ℕ → Ordering) (base n i : ℕ)
    → halving_from fuel compare_at base n ≡ some i
    → (base ≤ i) × (i < base + n) × (compare_at i ≡ Ordering.eq)
unfolding halving_from
halving_from-found zero compare_at base n i h = cc
halving_from-found (suc fuel) compare_at base n i h =
    let middle = base + n / 2 in
    ground (
      arith,
      halving_from-found fuel compare_at (middle + 1) (n - n / 2 - 1) i,
      halving_from-found fuel compare_at base (n / 2) i,
    )

halving_from_complete :
    (fuel : ℕ) (compare_at : ℕ → Ordering) (total base n i : ℕ)
    → Ascends compare_at total
    → n ≤ fuel
    → base + n ≤ total
    → base ≤ i
    → i < base + n
    → compare_at i ≡ Ordering.eq
    → halving_from fuel compare_at base n ≢ none
unfolding halving_from
halving_from_complete zero compare_at total base n i asc enough fits lo hi e = absurd (omega arith)
halving_from_complete (suc fuel) compare_at total base n i asc enough fits lo hi e =
    let middle = base + n / 2 in
    ground (
      arith,
      asc.above middle i,
      asc.below i middle,
      halving_from_complete fuel compare_at total (middle + 1) (n - n / 2 - 1) i asc,
      halving_from_complete fuel compare_at total base (n / 2) i asc,
    )

pub halving-IsBsearch : IsBsearch halving
unfolding halving
halving-IsBsearch = record {
  found = λ compare_at n i h.
      let (lo, hi, e) = halving_from-found n compare_at 0 n i h in (omega arith, e);
  complete = λ compare_at n i asc lt e.
      halving_from_complete n compare_at n 0 n i asc (omega arith) (omega arith) (omega arith)
        (omega arith) e;
}
