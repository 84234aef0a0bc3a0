-- ===== src/Text/Order.antt =====
-- The order of names is a total order, and its tests decide equality.
use Prim.Native.Nat.{Ordering}
use dragonuso.Common.{◌≡◌, ◌↔◌, refl, ap, true, false, [], ◌∷◌, arith}
use dragonuso.Text.{Str, strcmp, str_ltb, str_eq}

pub strcmp_self : (s : Str) → strcmp s s ≡ Ordering.eq
unfolding strcmp
strcmp_self [] = refl
strcmp_self (c ∷ s) = ground (arith, strcmp_self s)

pub eq_of_strcmp : (s t : Str) → strcmp s t ≡ Ordering.eq → s ≡ t
unfolding strcmp
eq_of_strcmp [] [] h = refl
eq_of_strcmp [] (d ∷ t) h = cc
eq_of_strcmp (c ∷ s) [] h = cc
eq_of_strcmp (c ∷ s) (d ∷ t) h = ground (arith, eq_of_strcmp s t)

pub strcmp_flip : (s t : Str) → strcmp s t ≡ Ordering.lt → strcmp t s ≡ Ordering.gt
unfolding strcmp
strcmp_flip [] [] h = cc
strcmp_flip [] (d ∷ t) h = refl
strcmp_flip (c ∷ s) [] h = cc
strcmp_flip (c ∷ s) (d ∷ t) h = ground (arith, strcmp_flip s t)

pub strcmp_unflip : (s t : Str) → strcmp s t ≡ Ordering.gt → strcmp t s ≡ Ordering.lt
unfolding strcmp
strcmp_unflip [] [] h = cc
strcmp_unflip [] (d ∷ t) h = cc
strcmp_unflip (c ∷ s) [] h = refl
strcmp_unflip (c ∷ s) (d ∷ t) h = ground (arith, strcmp_unflip s t)

pub strcmp_trans :
    (s t u : Str) → strcmp s t ≡ Ordering.lt → strcmp t u ≡ Ordering.lt → strcmp s u ≡ Ordering.lt
unfolding strcmp
strcmp_trans [] [] u h k = cc
strcmp_trans [] (d ∷ t) [] h k = cc
strcmp_trans [] (d ∷ t) (e ∷ u) h k = refl
strcmp_trans (c ∷ s) [] u h k = cc
strcmp_trans (c ∷ s) (d ∷ t) [] h k = cc
strcmp_trans (c ∷ s) (d ∷ t) (e ∷ u) h k = ground (arith, strcmp_trans s t u)

pub str_eq_iff : (s t : Str) → (str_eq s t ≡ true) ↔ (s ≡ t)
str_eq_iff s t = (λ h. eq_of_strcmp s t (ground arith), λ e. ground (arith, strcmp_self t))

pub not-ltb_self : (s : Str) → str_ltb s s ≡ false
not-ltb_self s = ground (arith, strcmp_self s)

pub not-ltb_of_ltb : (s t : Str) → str_ltb s t ≡ true → str_ltb t s ≡ false
not-ltb_of_ltb s t h = ground (arith, strcmp_flip s t)

-- "Not before" is transitive.
pub not-ltb_trans : (s t u : Str) → str_ltb s t ≡ false → str_ltb t u ≡ false → str_ltb s u ≡ false
not-ltb_trans s t u h k =
    ground
      (arith, eq_of_strcmp s t, strcmp_unflip s t, strcmp_trans t s u, ap (λ (x : Str). strcmp x u))

-- Two names of which neither is before the other are one name.
pub eq_of_not-ltb : (s t : Str) → str_ltb s t ≡ false → str_ltb t s ≡ false → s ≡ t
eq_of_not-ltb s t h k = ground (arith, eq_of_strcmp s t, strcmp_unflip s t)
