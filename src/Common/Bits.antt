-- ===== src/Common/Bits.antt =====
-- `&` with a mask and `|` of disjoint fields, as arithmetic, for every number of bits.
mod Digits
use Digits.{bit_and_digit, bit_or_digit}
use Prim.Native.Nat.{
  ℕ, zero, suc, ◌+◌, ◌-◌, ◌*◌, ◌/◌, ◌%◌, ◌^◌, ◌≤◌, ◌<◌, bit_and, bit_or, bit_or-bitwise,
}
use mathlib.Core.Path.{◌≡◌, refl, sym, ap, ◌∙◌}
use native.Mathlib.Omega.{arith}
use native.Mathlib.Nat.{
  two-pow-succ, one-le-pow, pow-succ', mul-add-mod_self_right, mod-eq_of_lt, div-add-mod', mod-lt,
  div-div-eq-div-mul,
}

double : (m k : ℕ) → m * 2 ^ suc k ≡ m * 2 ^ k + m * 2 ^ k
double m k = omega (arith, ap (λ (t : ℕ). m * t) (two-pow-succ k))

-- Induction on a bound, since a step goes from `a / 2` to `a`.
bit_or-zero_below : (n a : ℕ) → a ≤ n → bit_or a 0 ≡ a
bit_or-zero_below n zero h = refl
bit_or-zero_below zero (suc a) h = absurd (omega arith)
bit_or-zero_below (suc n) (suc a) h =
    omega (arith, bit_or_digit (suc a) 0, bit_or-zero_below n (suc a / 2) (omega arith))

bit_and-zero_below : (n a : ℕ) → a ≤ n → bit_and a 0 ≡ 0
bit_and-zero_below n zero h = refl
bit_and-zero_below zero (suc a) h = absurd (omega arith)
bit_and-zero_below (suc n) (suc a) h =
    omega (arith, bit_and_digit (suc a) 0, bit_and-zero_below n (suc a / 2) (omega arith))

pub bit_and-zero : (a : ℕ) → bit_and a 0 ≡ 0
bit_and-zero a = bit_and-zero_below a a (omega arith)

-- `b | (a << k)` is a sum when `b` has at most `k` bits.
pub bit_or-field : (k a b : ℕ) → b < 2 ^ k → bit_or (a * 2 ^ k) b ≡ a * 2 ^ k + b
bit_or-field zero a b h =
    let e : b ≡ 0 = omega arith in rw e (omega (arith, bit_or-zero_below (a * 1) (a * 1)))
bit_or-field (suc k) a b h = omega (
  arith,
  bit_or_digit (a * 2 ^ suc k) b,
  double a k,
  two-pow-succ k,
  ap (λ (t : ℕ). bit_or t (b / 2)) halved,
  bit_or-field k a (b / 2) (omega (arith, two-pow-succ k)),
)
  where
    halved : a * 2 ^ suc k / 2 ≡ a * 2 ^ k
    halved = omega (arith, double a k)

mod_unique : (q p r : ℕ) → r < p → (q * p + r) % p ≡ r
mod_unique q p r h = rw (mul-add-mod_self_right q p r) (mod-eq_of_lt h)

-- A remainder by twice `p` takes one more digit than a remainder by `p`.
mod_double : (a p : ℕ) → 0 < p → a % (p + p) ≡ a / 2 % p * 2 + a % 2
mod_double a p h =
    let q = a / 2 / p in
    let r = a / 2 % p * 2 + a % 2 in
    let parts : a ≡ q * (p + p) + r = omega (arith, div-add-mod' (a / 2) p) in
    ap (λ (t : ℕ). t % (p + p)) parts ∙ mod_unique q (p + p) r (omega (arith, mod-lt (a / 2) h))

-- `a & (2 ^ k - 1)` is the remainder by `2 ^ k`.
pub bit_and-mask : (k a : ℕ) → bit_and a (2 ^ k - 1) ≡ a % 2 ^ k
bit_and-mask zero a = rw bit_and-zero (omega arith)
bit_and-mask (suc k) a = omega (
  arith,
  bit_and_digit a (2 ^ suc k - 1),
  ap (λ (t : ℕ). bit_and (a / 2) t) halved,
  bit_and-mask k (a / 2),
  two-pow-succ k,
  one-le-pow k 2,
  mod_double a (2 ^ k) (one-le-pow k 2 (omega arith)),
  ap (λ (t : ℕ). a % t) (two-pow-succ k),
)
  where
    halved : (2 ^ suc k - 1) / 2 ≡ 2 ^ k - 1
    halved = omega (arith, two-pow-succ k, one-le-pow k 2)

-- `a & (m << k)` looks at the bits of `a` from the `k`-th on.
pub bit_and-field : (k a m : ℕ) → bit_and a (m * 2 ^ k) ≡ bit_and (a / 2 ^ k) m * 2 ^ k
bit_and-field zero a m =
    let e : m * 1 ≡ m = omega arith in let d : a / 1 ≡ a = omega arith in rw (e, d) (omega arith)
bit_and-field (suc k) a m = omega (
  arith,
  bit_and_digit a (m * 2 ^ suc k),
  double m k,
  double (bit_and (a / 2 ^ suc k) m) k,
  ap (λ (t : ℕ). bit_and (a / 2) t) halved,
  bit_and-field k (a / 2) m,
  ap (λ (t : ℕ). bit_and t m * 2 ^ k) quotient,
)
  where
    halved : m * 2 ^ suc k / 2 ≡ m * 2 ^ k
    halved = omega (arith, double m k)

    quotient : a / 2 / 2 ^ k ≡ a / 2 ^ suc k
    quotient = div-div-eq-div-mul a 2 (2 ^ k) ∙ ap (λ (t : ℕ). a / t) (sym (pow-succ' 2 k))

bit_or_comm_below : (n a b : ℕ) → a ≤ n → bit_or a b ≡ bit_or b a
bit_or_comm_below n zero b h =
    omega (arith, bit_or-bitwise 0 b, bit_or-zero_below b b (omega arith))
bit_or_comm_below zero (suc a) b h = absurd (omega arith)
bit_or_comm_below (suc n) (suc a) b h = omega (
  arith,
  bit_or_digit (suc a) b,
  bit_or_digit b (suc a),
  bit_or_comm_below n (suc a / 2) (b / 2) (omega arith),
)

-- The low field may stand first.
pub bit_or-field_right : (k a b : ℕ) → b < 2 ^ k → bit_or b (a * 2 ^ k) ≡ b + a * 2 ^ k
bit_or-field_right k a b h =
    bit_or_comm_below b b (a * 2 ^ k) (omega arith) ∙ omega (arith, bit_or-field k a b h)
