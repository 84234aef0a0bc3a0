-- ===== src/Common/Align.antt =====
-- The least multiple of a power of two that is not below a number, as masks compute it on 32 bits.
use Prim.Native.Nat.{ℕ, zero, suc, ◌+◌, ◌-◌, ◌*◌, ◌/◌, ◌^◌, ◌≤◌, ◌<◌, bit_and}
use mathlib.Core.Path.{◌≡◌, sym, ap, ap₂, ◌∙◌}
use native.Mathlib.Omega.{arith}
use native.Mathlib.Nat.{
  one-le-pow, div-add-mod', mod-lt, div-lt_iff_lt-mul, mod-eq_of_lt, two-pow-succ, pow-le-pow_right,
  zero-add, suc-add, add-mul,
}
use dragonuso.Common.Bits.{bit_and-mask, bit_and-field}
use dragonuso.Common.Words.{u32}

-- `a` is the least multiple of `to` that is not below `val`.
pub record IsAlignedUp (to val a : ℕ) : Type 0 where
  pub factor : ℕ
  pub multiple : a ≡ factor * to
  pub above : val ≤ a
  pub close : a < val + to

pow_split : (n k : ℕ) → 2 ^ (n + k) ≡ 2 ^ n * 2 ^ k
pow_split zero k = rw (zero-add k) (omega arith)
pow_split (suc n) k = rw (suc-add n k) (
    omega (
      arith,
      two-pow-succ (n + k),
      two-pow-succ n,
      pow_split n k,
      add-mul (2 ^ n) (2 ^ n) (2 ^ k),
      ap (λ (t : ℕ). t * 2 ^ k) (two-pow-succ n),
    ))

split_pow : (k : ℕ) → k ≤ 32 → 2 ^ 32 ≡ 2 ^ (32 - k) * 2 ^ k
split_pow k h =
    let e : 32 - k + k ≡ 32 = omega arith in ap (λ (n : ℕ). 2 ^ n) (sym e) ∙ pow_split (32 - k) k

-- A mask that clears the low bits rounds down.
mask_low : (k y : ℕ) → k ≤ 32 → y < 2 ^ 32 → bit_and y (2 ^ 32 - 2 ^ k) ≡ y / 2 ^ k * 2 ^ k
mask_low k y h fits =
    let pos : 1 ≤ 2 ^ k = one-le-pow k 2 (omega arith) in
    let less : 2 ^ (32 - k) - 1 + 1 ≡ 2 ^ (32 - k) =
      omega (arith, one-le-pow (32 - k) 2 (omega arith)) in
    let mask : 2 ^ 32 - 2 ^ k ≡ (2 ^ (32 - k) - 1) * 2 ^ k = omega (
      arith,
      split_pow k h,
      one-le-pow (32 - k) 2 (omega arith),
      add-mul (2 ^ (32 - k) - 1) 1 (2 ^ k),
      ap (λ (t : ℕ). t * 2 ^ k) less,
    ) in
    let small : y / 2 ^ k < 2 ^ (32 - k) =
      (div-lt_iff_lt-mul pos).1 (omega (arith, split_pow k h)) in
    ap (bit_and y) mask
    ∙ bit_and-field k y (2 ^ (32 - k) - 1)
    ∙ ap (λ (t : ℕ). t * 2 ^ k) (bit_and-mask (32 - k) (y / 2 ^ k) ∙ mod-eq_of_lt small)

pub align_up :
    (k val : ℕ)
    → k < 32
    → val + 2 ^ k ≤ 2 ^ 32
    → IsAlignedUp
        (2 ^ k)
        val
        (bit_and (u32 (val + 2 ^ k + (2 ^ 32 - 1))) (2 ^ 32 - 1 - u32 (2 ^ k + (2 ^ 32 - 1))))
align_up k val h fits =
    let pos : 1 ≤ 2 ^ k = one-le-pow k 2 (omega arith) in
    let y = val + 2 ^ k - 1 in
    let wrap : u32 (val + 2 ^ k + (2 ^ 32 - 1)) ≡ y = omega arith in
    let cleared : 2 ^ 32 - 1 - u32 (2 ^ k + (2 ^ 32 - 1)) ≡ 2 ^ 32 - 2 ^ k = omega arith in
    let rounded : bit_and (u32 (val + 2 ^ k + (2 ^ 32 - 1)))
          (2 ^ 32 - 1 - u32 (2 ^ k + (2 ^ 32 - 1)))
        ≡ y / 2 ^ k * 2 ^ k =
      ap₂ bit_and wrap cleared ∙ mask_low k y (omega arith) (omega arith) in
    let parts = div-add-mod' y (2 ^ k) in
    let rest = mod-lt y pos in
    record {
      factor = y / 2 ^ k;
      multiple = rounded;
      above = omega (arith, rounded, parts, rest);
      close = omega (arith, rounded, parts, rest);
    }

pub pow-lt : (k : ℕ) → k < 32 → 2 ^ k < 2 ^ 32
pow-lt k h = omega (
  arith,
  two-pow-succ k,
  one-le-pow k 2 (omega arith),
  pow-le-pow_right {n = 2} (omega arith) {i = suc k} {j = 32} (omega arith),
)
