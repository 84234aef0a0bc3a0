-- ===== src/Format/Ordered.antt =====
-- Symbols with names that differ, before and after they are sorted.
use Prim.Native.Nat.{Ordering}
use mathlib.Core.List.{Permᴰ}
use mathlib.Core.Path.{subst}
use dragonuso.Common.{
  ◌≡◌, ◌≢◌, refl, sym, ap, ◌∙◌, inl, inr, false, List, [], ◌∷◌, All, arith, length, if◌then◌else◌,
  Bool-cases,
}
use dragonuso.StdLib.{IsSorted}
use dragonuso.Text.{Str, strcmp, str_ltb, str_eq}
use dragonuso.Text.Order.{eq_of_strcmp, strcmp_unflip, str_eq_iff}
use dragonuso.Elf2uso.State.{SymbolInfo}
use dragonuso.Elf2uso.Symbols.{sym_compare}
use dragonuso.Elf2uso.Symbols.Collected.{All-Permᴰ}
use dragonuso.Format.Stored.{names_size}
use dragonuso.Format.Reading.{IsSymbol, AreSymbols}
use dragonuso.Format.Table.{table_size}
use dragonuso.Format.Global.{address_of, Ascending}

-- No two symbols have the same name.
abbrev pub HasDistinctNames : List SymbolInfo → Type 0
HasDistinctNames [] = Unit {0}
HasDistinctNames (s ∷ ss) = All (λ t. s.name ≢ t.name) ss × HasDistinctNames ss

pub HasDistinctNames-Permᴰ :
    (xs ys : List SymbolInfo) → Permᴰ xs ys → HasDistinctNames ys → HasDistinctNames xs
HasDistinctNames-Permᴰ _ _ Permᴰ.nil distinct = tt
HasDistinctNames-Permᴰ (x ∷ xs) (y ∷ ys) (Permᴰ.cons e rest) distinct = (
  subst (λ (s : SymbolInfo). All (λ t. s.name ≢ t.name) xs) (sym e)
      (All-Permᴰ (λ t. y.name ≢ t.name) xs ys rest distinct.0),
  HasDistinctNames-Permᴰ xs ys rest distinct.1,
)
HasDistinctNames-Permᴰ (a ∷ b ∷ xs) (c ∷ d ∷ _) (Permᴰ.swap e f) ((ne, front), (back, rest)) =
    let differs : a.name ≢ b.name = λ same.
      ne (ap (λ (s : SymbolInfo). s.name) (sym f) ∙ sym same ∙ ap (λ (s : SymbolInfo). s.name) e) in
    (
      (differs, subst (λ (s : SymbolInfo). All (λ t. s.name ≢ t.name) xs) (sym e) back),
      (subst (λ (s : SymbolInfo). All (λ t. s.name ≢ t.name) xs) (sym f) front, rest),
    )
HasDistinctNames-Permᴰ xs zs (Permᴰ.trans {l₂ = ys} first second) distinct =
    HasDistinctNames-Permᴰ xs ys first (HasDistinctNames-Permᴰ ys zs second distinct)

strcmp_lt : (s t : Str) → str_ltb t s ≡ false → s ≢ t → strcmp s t ≡ Ordering.lt
strcmp_lt s t sorted ne = ground (arith, eq_of_strcmp s t, strcmp_unflip s t)

All-before :
    (s : SymbolInfo) (ss : List SymbolInfo)
    → All (λ t. sym_compare t s ≡ false) ss
    → All (λ t. s.name ≢ t.name) ss
    → All (λ t. strcmp s.name t.name ≡ Ordering.lt) ss
unfolding sym_compare
All-before s [] sorted distinct = tt
All-before s (t ∷ ss) sorted distinct =
    (strcmp_lt s.name t.name sorted.0 distinct.0, All-before s ss sorted.1 distinct.1)

pub IsSorted-Ascending :
    (ss : List SymbolInfo) → IsSorted sym_compare ss → HasDistinctNames ss → Ascending ss
IsSorted-Ascending [] sorted distinct = tt
IsSorted-Ascending (s ∷ ss) sorted distinct =
    (All-before s ss sorted.0 distinct.0, IsSorted-Ascending ss sorted.1 distinct.1)

pub AreSymbols-Permᴰ : (xs ys : List SymbolInfo) → Permᴰ xs ys → AreSymbols ys → AreSymbols xs
AreSymbols-Permᴰ xs ys perm are = All-Permᴰ IsSymbol xs ys perm are

names_size-Permᴰ : (xs ys : List SymbolInfo) → Permᴰ xs ys → names_size xs ≡ names_size ys
unfolding names_size
names_size-Permᴰ _ _ Permᴰ.nil = refl
names_size-Permᴰ (x ∷ xs) (y ∷ ys) (Permᴰ.cons e rest) =
    omega (arith, ap (λ (s : SymbolInfo). length s.name) e, names_size-Permᴰ xs ys rest)
names_size-Permᴰ (a ∷ b ∷ xs) (c ∷ d ∷ _) (Permᴰ.swap e f) =
    omega
      (arith, ap (λ (s : SymbolInfo). length s.name) e, ap (λ (s : SymbolInfo). length s.name) f)
names_size-Permᴰ xs zs (Permᴰ.trans {l₂ = ys} first second) =
    names_size-Permᴰ xs ys first ∙ names_size-Permᴰ ys zs second

length-Permᴰ : (xs ys : List SymbolInfo) → Permᴰ xs ys → length xs ≡ length ys
length-Permᴰ _ _ Permᴰ.nil = refl
length-Permᴰ (x ∷ xs) (y ∷ ys) (Permᴰ.cons e rest) = omega (arith, length-Permᴰ xs ys rest)
length-Permᴰ (a ∷ b ∷ xs) (c ∷ d ∷ _) (Permᴰ.swap e f) = refl
length-Permᴰ xs zs (Permᴰ.trans {l₂ = ys} first second) =
    length-Permᴰ xs ys first ∙ length-Permᴰ ys zs second

pub table_size-Permᴰ : (xs ys : List SymbolInfo) → Permᴰ xs ys → table_size xs ≡ table_size ys
unfolding table_size
table_size-Permᴰ xs ys perm = omega (arith, length-Permᴰ xs ys perm, names_size-Permᴰ xs ys perm)

address_of-swap :
    (name : Str) (a b : SymbolInfo) (ss : List SymbolInfo)
    → a.name ≢ b.name
    → address_of name (a ∷ b ∷ ss) ≡ address_of name (b ∷ a ∷ ss)
unfolding address_of
address_of-swap name a b ss ne = elim (Bool-cases (str_eq a.name name)) [
  | inl first ↦ elim (Bool-cases (str_eq b.name name)) [
    | inl second ↦
        absurd (ne ((str_eq_iff a.name name).0 first ∙ sym ((str_eq_iff b.name name).0 second)))
    | inr other ↦ rw (first, other)
  ]
  | inr other ↦ rw other
]

-- The order does not matter to a search by name.
pub address_of-Permᴰ :
    (name : Str) (xs ys : List SymbolInfo)
    → Permᴰ xs ys
    → HasDistinctNames ys
    → address_of name xs ≡ address_of name ys
unfolding address_of
address_of-Permᴰ name _ _ Permᴰ.nil distinct = refl
address_of-Permᴰ name (x ∷ xs) (y ∷ ys) (Permᴰ.cons e rest) distinct =
    rw (address_of-Permᴰ name xs ys rest distinct.1)
      (ap (λ (s : SymbolInfo). if str_eq s.name name then s.addr else address_of name ys) e)
address_of-Permᴰ name (a ∷ b ∷ xs) (c ∷ d ∷ _) (Permᴰ.swap e f) distinct =
    ap (λ (s : SymbolInfo). address_of name (s ∷ b ∷ xs)) e
    ∙ ap (λ (s : SymbolInfo). address_of name (d ∷ s ∷ xs)) f
    ∙ sym (address_of-swap name c d xs distinct.0.0)
address_of-Permᴰ name xs zs (Permᴰ.trans {l₂ = ys} first second) distinct =
    address_of-Permᴰ name xs ys first (HasDistinctNames-Permᴰ ys zs second distinct)
    ∙ address_of-Permᴰ name ys zs second distinct
