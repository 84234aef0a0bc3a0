-- ===== src/Text.antt =====
-- Names as lists of byte values. `strcmp` and the order of `std::string` both compare bytes as
-- unsigned numbers, and a proper prefix comes first.
pub mod Order
use Prim.Native.Nat.{compare, Ordering}
use dragonuso.Common.{ℕ, Bool, true, false, List, [], ◌∷◌, ◌==◌, if◌then◌else◌}

abbrev pub Str : Type 0
Str = List ℕ

-- The sign of `strcmp(s, t)`, or of `s.compare(t)`.
unfoldable pub strcmp : Str → Str → Ordering
strcmp [] [] = Ordering.eq
strcmp [] (c ∷ t) = Ordering.lt
strcmp (c ∷ s) [] = Ordering.gt
strcmp (c ∷ s) (d ∷ t) =
    let rest = strcmp s t in
    elim (compare c d) [
      | Ordering.lt ↦ Ordering.lt
      | Ordering.gt ↦ Ordering.gt
      | Ordering.eq ↦ rest
    ]

-- `s < t` and `s == t`
abbrev pub str_ltb : Str → Str → Bool
str_ltb s t = elim (strcmp s t) [ Ordering.lt ↦ true | _ ↦ false ]

abbrev pub str_eq : Str → Str → Bool
str_eq s t = elim (strcmp s t) [ Ordering.eq ↦ true | _ ↦ false ]

-- `std::find(names.begin(), names.end(), s) != names.end()`
unfoldable pub contains : List Str → Str → Bool
contains [] s = false
contains (t ∷ names) s = if str_eq t s then true else contains names s

-- The characters before the first NUL: a buffer read as a C string.
unfoldable pub c_str : List ℕ → Str
c_str [] = []
c_str (c ∷ cs) = if c == 0 then [] else c ∷ c_str cs
