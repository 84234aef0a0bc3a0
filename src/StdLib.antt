-- ===== src/StdLib.antt =====
-- What the tools use of the C++ algorithms library, as an interface: the operations, and the
-- behaviour that the standard documents for a comparison `less`.
pub mod Any
pub mod Linear
use mathlib.Core.List.{Permᴰ}
use dragonuso.Common.{◌≡◌, ◌↔◌, Bool, true, false, ◌||◌, not, ◌&&◌, List, [], ◌∷◌, All}

-- `less` is a strict weak order.
pub record StrictWeak {A : Type 0} (less : A → A → Bool) : Type 0 where
  pub asym : (x y : A) → less x y ≡ true → less y x ≡ false
  pub not_less_trans : (x y z : A) → less x y ≡ false → less y z ≡ false → less x z ≡ false

-- No element comes before one that stands in front of it.
abbrev pub IsSorted : {A : Type 0} → (A → A → Bool) → List A → Type 0
IsSorted less [] = Unit {0}
IsSorted less (x ∷ xs) = All (λ y. less y x ≡ false) xs × IsSorted less xs

abbrev pub any {ℓ} : {A : Type ℓ} → (A → Bool) → List A → Bool
any p [] = false
any p (x ∷ xs) = p x || any p xs

-- Neither comes before the other.
abbrev pub equivalent : {A : Type 0} → (A → A → Bool) → A → A → Bool
equivalent less x y = not (less x y) && not (less y x)

-- `std::sort(first, last, less)` and `std::binary_search(first, last, x, less)`. The order of
-- equivalent elements after a sort is not specified.
pub record Algorithms (A : Type 0) (less : A → A → Bool) : Type 0 where
  pub sort : List A → List A
  pub binary_search : List A → A → Bool
  pub sort-perm : (xs : List A) → Permᴰ (sort xs) xs
  pub sort-IsSorted : (xs : List A) → IsSorted less (sort xs)
  pub binary_search-any :
      (xs : List A) (x : A) → IsSorted less xs → binary_search xs x ≡ any (equivalent less x) xs
