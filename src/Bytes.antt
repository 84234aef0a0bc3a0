-- ===== src/Bytes.antt =====
-- Storage as a function from addresses to bytes: the contents of a file, and the console's memory.
pub mod Stdio
pub mod Files
pub mod Below
use native.Mathlib.Nat.{add-zero, zero-add, suc-add, add-suc}
use dragonuso.Common.{
  ℕ, zero, suc, ◌+◌, ◌≤◌, ◌<◌, ◌≡◌, refl, ap, ◌⊎◌, List, [], ◌∷◌, ◌++◌, arith, ◌==◌, if◌then◌else◌,
  length,
}

abbrev pub Bytes : Type 0
Bytes = ℕ → ℕ

-- `put m a bs` has `bs` from address `a` on, and is `m` elsewhere.
unfoldable pub put : Bytes → ℕ → List ℕ → Bytes
put m a [] x = m x
put m a (b ∷ bs) x = if x == a then b else put m (suc a) bs x

-- The `n` bytes from address `a` on.
abbrev pub get : Bytes → ℕ → ℕ → List ℕ
get m a zero = []
get m a (suc n) = m a ∷ get m (suc a) n

-- Two ranges of addresses with no address in common.
abbrev pub Apart : ℕ → ℕ → ℕ → ℕ → Type 0
Apart a n b k = (a + n ≤ b) ⊎ (b + k ≤ a)

pub length-get : (m : Bytes) (a n : ℕ) → length (get m a n) ≡ n
length-get m a zero = refl
length-get m a (suc n) = ap suc (length-get m (suc a) n)

pub put_outside :
    (m : Bytes) (a : ℕ) (bs : List ℕ) (x : ℕ) → Apart x 1 a (length bs) → put m a bs x ≡ m x
unfolding put
put_outside m a [] x h = refl
put_outside m a (b ∷ bs) x h = ground (arith, put_outside m (suc a) bs x)

pub get_ext :
    (m m' : Bytes) (a n : ℕ) → ((x : ℕ) → a ≤ x → x < a + n → m x ≡ m' x) → get m a n ≡ get m' a n
get_ext m m' a zero h = refl
get_ext m m' a (suc n) h = rw (
  h a (omega arith) (omega arith),
  get_ext m m' (suc a) n λ x p q. h x (omega arith) (omega arith),
)

-- A write leaves the bytes of a range that it does not meet.
pub get-put-Apart :
    (m : Bytes) (a n b : ℕ) (bs : List ℕ)
    → Apart a n b (length bs)
    → get (put m b bs) a n ≡ get m a n
get-put-Apart m a n b bs h = get_ext (put m b bs) m a n λ x p q. put_outside m b bs x (grind arith)

-- A read of what was just written.
pub get-put_self : (m : Bytes) (a : ℕ) (bs : List ℕ) → get (put m a bs) a (length bs) ≡ bs
unfolding put
get-put_self m a [] = refl
get-put_self m a (b ∷ bs) =
    rw (get_ext (put m a (b ∷ bs)) (put m (suc a) bs) (suc a) (length bs) λ x p q. ground arith)
      (ground (arith, get-put_self m (suc a) bs))

-- A range is read in two parts.
pub get-add : (m : Bytes) (a n k : ℕ) → get m a (n + k) ≡ get m a n ++ get m (a + n) k
get-add m a zero k = rw (add-zero, zero-add)
get-add m a (suc n) k = rw (suc-add n k, get-add m (suc a) n k, suc-add a n, add-suc a n)
