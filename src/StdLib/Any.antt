-- ===== src/StdLib/Any.antt =====
-- A test that holds somewhere in a list.
use dragonuso.Common.{
  ℕ, zero, suc, ◌+◌, ◌≤◌, ◌<◌, ◌≡◌, sym, inl, inr, Bool, true, List, [], ◌∷◌, arith, ◌==◌,
  count_from, Bool-cases, ℕ_discrete,
}
use mathlib.Core.Path.{subst}
use dragonuso.StdLib.{any}

pub any-found :
    (p : ℕ → Bool) (k n : ℕ)
    → any p (count_from k n) ≡ true
    → (i : ℕ) × (k ≤ i) × (i < k + n) × (p i ≡ true)
any-found p k zero e = cc
any-found p k (suc n) e = elim (Bool-cases (p k)) [
  | inl here ↦ (k, omega arith, omega arith, here)
  | inr not_here ↦
      let (i, low, high, at) = any-found p (suc k) n (rw not_here at e) in
      (i, omega arith, omega arith, at)
]

pub any-at :
    (p : ℕ → Bool) (k n i : ℕ) → k ≤ i → i < k + n → p i ≡ true → any p (count_from k n) ≡ true
any-at p k zero i low high e = absurd (omega arith)
any-at p k (suc n) i low high e = elim (ℕ_discrete k i) [
  | yes same ↦ let here : p k ≡ true = subst (λ (j : ℕ). p j ≡ true) (sym same) e in rw here
  | no other ↦ elim (Bool-cases (p k)) [
    | inl here ↦ rw here
    | inr not_here ↦ rw not_here (any-at p (suc k) n i (omega arith) (omega arith) e)
  ]
]

pub any-member :
    (p : ℕ → Bool) (xs : List ℕ)
    → any p xs ≡ true
    → (x : ℕ) × (any (λ y. y == x) xs ≡ true) × (p x ≡ true)
any-member p [] e = cc
any-member p (x ∷ xs) e = elim (Bool-cases (p x)) [
  | inl here ↦ let same : (x == x) ≡ true = ground arith in (x, rw same, here)
  | inr not_here ↦
      let (y, mem, at) = any-member p xs (rw not_here at e) in (y, ground (arith, mem), at)
]

pub any-of_member :
    (p : ℕ → Bool) (xs : List ℕ) (x : ℕ)
    → any (λ y. y == x) xs ≡ true
    → p x ≡ true
    → any p xs ≡ true
any-of_member p [] x mem e = cc
any-of_member p (y ∷ xs) x mem e = elim (Bool-cases (y == x)) [
  | inl here ↦
      let same : y ≡ x = ground arith in
      let at : p y ≡ true = subst (λ (z : ℕ). p z ≡ true) (sym same) e in rw at
  | inr other ↦
      let rest = any-of_member p xs x (rw other at mem) e in
      elim (Bool-cases (p y)) [ inl at ↦ rw at | inr not_at ↦ rw not_at rest ]
]
