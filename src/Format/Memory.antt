-- ===== src/Format/Memory.antt =====
-- Symbol tables in the console's memory.
use dragonuso.Common.{
  ℕ, zero, suc, ◌+◌, ◌≤◌, ◌<◌, ◌≡◌, refl, ap, true, false, List, [], ◌∷◌, ◌++◌, All, arith, length,
  get_or, ◌==◌, ℕ_discrete,
}
use dragonuso.Bytes.{Bytes, put, get}
use dragonuso.Swap.{load_be_u16, load_be_u32}
use dragonuso.Text.{Str}
use dragonuso.Runtime.Ram.{load_u16, load_u32, string_within}

pub get-at :
    (m : Bytes) (a : ℕ) (bs : List ℕ)
    → get m a (length bs) ≡ bs
    → (j : ℕ) → j < length bs
    → m (a + j) ≡ get_or bs j 0
get-at m a [] h j lt = absurd (omega arith)
get-at m a (b ∷ bs) h zero lt = let e : a + 0 ≡ a = omega arith in rw e (ground arith)
get-at m a (b ∷ bs) h (suc j) lt =
    let e : a + suc j ≡ suc a + j = omega arith in
    let rest : get m (suc a) (length bs) ≡ bs = ground arith in
    rw e (get-at m (suc a) bs rest j (omega arith))

pub get_or-get : (m : Bytes) (a n j : ℕ) → j < n → get_or (get m a n) j 0 ≡ m (a + j)
get_or-get m a zero j lt = absurd (omega arith)
get_or-get m a (suc n) zero lt = let e : a + 0 ≡ a = omega arith in rw e refl
get_or-get m a (suc n) (suc j) lt =
    let e : a + suc j ≡ suc a + j = omega arith in rw e (get_or-get m (suc a) n j (omega arith))

-- A number that stands in memory is loaded.
pub load_u32-get :
    (m : Bytes) (a i : ℕ) (bs : List ℕ)
    → get m a (length bs) ≡ bs
    → i + 4 ≤ length bs
    → load_u32 m (a + i) ≡ load_be_u32 bs i
unfolding load_u32
load_u32-get m a i bs h inside =
    let at = get-at m a bs h in
    let one : a + i + 1 ≡ a + (i + 1) = omega arith in
    let two : a + i + 2 ≡ a + (i + 2) = omega arith in
    let three : a + i + 3 ≡ a + (i + 3) = omega arith in
    rw (
      one,
      two,
      three,
      at i (omega arith),
      at (i + 1) (omega arith),
      at (i + 2) (omega arith),
      at (i + 3) (omega arith),
    )

pub load_u16-get :
    (m : Bytes) (a i : ℕ) (bs : List ℕ)
    → get m a (length bs) ≡ bs
    → i + 2 ≤ length bs
    → load_u16 m (a + i) ≡ load_be_u16 bs i
unfolding load_u16
load_u16-get m a i bs h inside =
    let one : a + i + 1 ≡ a + (i + 1) = omega arith in
    rw (one, get-at m a bs h i (omega arith), get-at m a bs h (i + 1) (omega arith))

-- Bytes that stand shifted.
pub get-shift :
    (m c : Bytes) (d a n : ℕ)
    → ((j : ℕ) → a ≤ j → j < a + n → m (d + j) ≡ c j)
    → get m (d + a) n ≡ get c a n
get-shift m c d a zero same = refl
get-shift m c d a (suc n) same =
    let e : suc (d + a) ≡ d + suc a = omega arith in
    rw (
      e,
      same a (omega arith) (omega arith),
      get-shift m c d (suc a) n λ j lo hi. same j (omega arith) (omega arith),
    )

pub put-get :
    (m c : Bytes) (t k n j : ℕ) → k ≤ j → j < k + n → put m (t + k) (get c k n) (t + j) ≡ c j
unfolding put
put-get m c t k zero j lo hi = absurd (omega arith)
put-get m c t k (suc n) j lo hi =
    let e : suc (t + k) ≡ t + suc k = omega arith in
    elim (ℕ_discrete k j) [
      | yes same ↦ let here : (t + j == t + k) ≡ true = ground arith in rw here (ap c same)
      | no ne ↦
          let there : (t + j == t + k) ≡ false = ground arith in
          rw (there, e) (put-get m c t (suc k) n j (omega arith) (omega arith))
    ]

-- A string that stands in memory with its NUL is read.
pub string_within-get :
    (fuel : ℕ) (m : Bytes) (a : ℕ) (name : Str)
    → All (λ c. (0 < c) × (c < 256)) name
    → length name < fuel
    → get m a (length (name ++ 0 ∷ [])) ≡ name ++ 0 ∷ []
    → string_within fuel m a ≡ name
unfolding string_within
string_within-get zero m a name chars enough h = absurd (omega arith)
string_within-get (suc fuel) m a [] chars enough h = ground arith
string_within-get (suc fuel) m a (c ∷ name) chars enough h =
    let e : a + 1 ≡ suc a = omega arith in
    let here : m a ≡ c = ground arith in
    let there : get m (suc a) (length (name ++ 0 ∷ [])) ≡ name ++ 0 ∷ [] = ground arith in
    let rest = string_within-get fuel m (suc a) name chars.1 (omega arith) there in
    let nonzero : (c == 0) ≡ false = ground (arith, chars.0) in rw (here, nonzero, e, rest)
