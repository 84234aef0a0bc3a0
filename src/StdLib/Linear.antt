-- ===== src/StdLib/Linear.antt =====
-- An implementation of the interface: insertion sort, and a search that looks at every element.
use mathlib.Core.List.{Permᴰ}
use mathlib.Core.List.Permᴰ
use dragonuso.Common.{refl, Bool, List, [], ◌∷◌, All, if◌then◌else◌, Bool-cases, inl, inr}
use dragonuso.StdLib.{StrictWeak, IsSorted, any, equivalent, Algorithms}

module _ {A : Type 0} (less : A → A → Bool) where
  unfoldable pub insert : A → List A → List A
  insert x [] = x ∷ []
  insert x (y ∷ ys) = if less x y then x ∷ y ∷ ys else y ∷ insert x ys

  unfoldable pub insertion_sort : List A → List A
  insertion_sort [] = []
  insertion_sort (x ∷ xs) = insert x (insertion_sort xs)

  insert-perm : (x : A) (ys : List A) → Permᴰ (insert x ys) (x ∷ ys)
  unfolding insert
  insert-perm x [] = Permᴰ.refl _
  insert-perm x (y ∷ ys) = elim (Bool-cases (less x y)) [
    | inl h ↦ rw h (Permᴰ.refl _)
    | inr h ↦ rw h (Permᴰ.trans (Permᴰ.cons refl (insert-perm x ys)) (Permᴰ.swap refl refl))
  ]

  pub insertion_sort-perm : (xs : List A) → Permᴰ (insertion_sort xs) xs
  unfolding insertion_sort
  insertion_sort-perm [] = Permᴰ.refl _
  insertion_sort-perm (x ∷ xs) =
      Permᴰ.trans (insert-perm x (insertion_sort xs)) (Permᴰ.cons refl (insertion_sort-perm xs))

  All-insert : (P : A → Type 0) (x : A) (ys : List A) → P x → All P ys → All P (insert x ys)
  unfolding insert
  All-insert P x [] px h = (px, h)
  All-insert P x (y ∷ ys) px h = elim (Bool-cases (less x y)) [
    | inl e ↦ rw e (px, h)
    | inr e ↦ rw e (h.0, All-insert P x ys px h.1)
  ]

  All-mono : {P Q : A → Type 0} (ys : List A) → ((y : A) → P y → Q y) → All P ys → All Q ys
  All-mono [] f h = tt
  All-mono (y ∷ ys) f h = (f y h.0, All-mono ys f h.1)

  module _ (w : StrictWeak less) where
    insert-IsSorted : (x : A) (ys : List A) → IsSorted less ys → IsSorted less (insert x ys)
    unfolding insert
    insert-IsSorted x [] h = (tt, tt)
    insert-IsSorted x (y ∷ ys) h = elim (Bool-cases (less x y)) [
      | inl e ↦
          rw e ((w.asym x y e, All-mono ys (λ z p. w.not_less_trans z y x p (w.asym x y e)) h.0), h)
      | inr e ↦ rw e (All-insert _ x ys e h.0, insert-IsSorted x ys h.1)
    ]

    pub insertion_sort-IsSorted : (xs : List A) → IsSorted less (insertion_sort xs)
    unfolding insertion_sort
    insertion_sort-IsSorted [] = tt
    insertion_sort-IsSorted (x ∷ xs) =
        insert-IsSorted x (insertion_sort xs) (insertion_sort-IsSorted xs)

    unfoldable pub linear : Algorithms A less
    unfolding insert insertion_sort
    linear = record {
      sort = insertion_sort;
      binary_search = λ xs x. any (equivalent less x) xs;
      sort-perm = insertion_sort-perm;
      sort-IsSorted = insertion_sort-IsSorted;
      binary_search-any = λ xs x h. refl;
    }
