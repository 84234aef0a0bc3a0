-- ===== src/Runtime/Handles/Few.antt =====
-- The list of loaded files in a 32-bit address space.
use dragonuso.Common.{
  ℕ, zero, suc, ◌+◌, ◌-◌, ◌≤◌, ◌<◌, ◌^◌, ◌≡◌, ◌≢◌, refl, List, [], ◌∷◌, arith, ltb, ◌==◌,
  if◌then◌else◌, length, All,
}
use dragonuso.Runtime.Machine.{Machine}
use dragonuso.Runtime.Handles.Chain.{Segment-addresses, AreApart, Separate}
use dragonuso.Runtime.Handles.Links.{IsLoaded}

-- How many handles are below an address, and how many are at it.
unfoldable count_below : ℕ → List ℕ → ℕ
count_below n [] = 0
count_below n (h ∷ hs) = (if ltb h n then 1 else 0) + count_below n hs

unfoldable count_at : ℕ → List ℕ → ℕ
count_at n [] = 0
count_at n (h ∷ hs) = (if h == n then 1 else 0) + count_at n hs

count_below-suc : (n : ℕ) (hs : List ℕ) → count_below (suc n) hs ≡ count_below n hs + count_at n hs
unfolding count_below count_at
count_below-suc n [] = refl
count_below-suc n (h ∷ hs) = ground (arith, count_below-suc n hs)

count_at_apart : (h : ℕ) (hs : List ℕ) → All (AreApart h) hs → count_at h hs ≡ 0
unfolding count_at
count_at_apart h [] out = refl
count_at_apart h (k ∷ ks) out = ground (arith, count_at_apart h ks out.1)

count_at-le : (n : ℕ) (hs : List ℕ) → Separate hs → count_at n hs ≤ 1
unfolding count_at
count_at-le n [] sep = omega arith
count_at-le n (h ∷ hs) sep = ground (arith, count_at-le n hs sep.1, count_at_apart h hs sep.0)

count_below_zero : (hs : List ℕ) → count_below 0 hs ≡ 0
unfolding count_below
count_below_zero [] = refl
count_below_zero (h ∷ hs) = ground (arith, count_below_zero hs)

count_at_zero : (n : ℕ) (hs : List ℕ) → All (λ h. (h ≢ 0) × (h < n)) hs → count_at 0 hs ≡ 0
unfolding count_at
count_at_zero n [] nonnull = refl
count_at_zero n (h ∷ hs) nonnull = ground (arith, nonnull.0, count_at_zero n hs nonnull.1)

count_below-lt :
    (bound n : ℕ) (hs : List ℕ)
    → Separate hs
    → All (λ h. (h ≢ 0) × (h < bound)) hs
    → count_below (suc n) hs ≤ n
count_below-lt bound zero hs sep nonnull =
    omega (arith, count_below-suc 0 hs, count_below_zero hs, count_at_zero bound hs nonnull)
count_below-lt bound (suc n) hs sep nonnull = omega (
  arith,
  count_below-suc (suc n) hs,
  count_below-lt bound n hs sep nonnull,
  count_at-le (suc n) hs sep,
)

count_below_total :
    (n : ℕ) (hs : List ℕ) → All (λ h. (h ≢ 0) × (h < n)) hs → count_below n hs ≡ length hs
unfolding count_below
count_below_total n [] all = refl
count_below_total n (h ∷ hs) all = ground (arith, count_below_total n hs all.1)

-- Fewer than 2 ^ 32 files are loaded, so that the walk over them ends.
pub IsLoaded-few : (s : Machine) (hs : List ℕ) → IsLoaded s hs → length hs < 2 ^ 32
IsLoaded-few s hs is =
    let addresses = Segment-addresses s.ram 0 s.list_head s.list_tail 0 hs is.chain in
    omega (
      arith,
      count_below_total (2 ^ 32) hs addresses,
      count_below-lt (2 ^ 32) (2 ^ 32 - 1) hs is.separate addresses,
    )
