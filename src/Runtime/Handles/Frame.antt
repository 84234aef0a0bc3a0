-- ===== src/Runtime/Handles/Frame.antt =====
-- The search through the loaded files, where nothing that it reads has changed.
use dragonuso.Common.{All-map, ℕ, ◌+◌, ◌<◌, ◌^◌, ◌≡◌, refl, ap, ◌∙◌, List, [], ◌∷◌, arith, All}
use dragonuso.Bytes.{Bytes, Apart}
use dragonuso.Text.{Str}
use dragonuso.Runtime.Ram.{handle_uso, export_syms}
use dragonuso.Runtime.Ram.Laws.{IsRam}
use dragonuso.Runtime.Search.Lookup.{IsSortedTable}
use dragonuso.Runtime.Search.Frame.{
  TableApart, load_u32_same, lookup_symbol_same, IsSortedTable-ext, lookup_symbol-lt,
}
use dragonuso.Runtime.Handles.Chain.{SameLinks}
use dragonuso.Runtime.Handles.Resolve.{exports_of, resolve}

-- What a search reads of a loaded file does not meet the `n` bytes at `lo`.
pub record FileApart (m : Bytes) (lo n handle : ℕ) : Type 0 where
  pub links : Apart handle 12 lo n
  pub header : Apart (handle_uso m handle + 12) 4 lo n
  pub exports : TableApart m lo n (exports_of m handle)

module _ (m m' : Bytes) (lo n : ℕ) (same : (x : ℕ) → Apart x 1 lo n → m' x ≡ m x) where
  exports_of_same : (h : ℕ) → FileApart m lo n h → exports_of m' h ≡ exports_of m h
  exports_of_same h out =
      ap (export_syms m') (load_u32_same m m' lo n same (h + 8) (omega (arith, out.links)))
      ∙ load_u32_same m m' lo n same (handle_uso m h + 12) out.header

  pub SameLinks-files : (hs : List ℕ) → All (FileApart m lo n) hs → All (SameLinks m m') hs
  SameLinks-files hs out = All-map hs (λ h apart x l r. same x (omega (arith, apart.links))) out

  pub IsSortedTables_ext :
      (hs : List ℕ)
      → All (FileApart m lo n) hs
      → All (λ h. IsSortedTable m (exports_of m h)) hs
      → All (λ h. IsSortedTable m' (exports_of m' h)) hs
  IsSortedTables_ext [] out sorted = tt
  IsSortedTables_ext (h ∷ hs) out sorted = (
    rw (exports_of_same h out.0)
        (IsSortedTable-ext m m' lo n same (exports_of m h) out.0.exports sorted.0),
    IsSortedTables_ext hs out.1 sorted.1,
  )

  pub resolve_same :
      (name : Str) (otherwise : ℕ) (hs : List ℕ)
      → All (FileApart m lo n) hs
      → resolve m' name otherwise hs ≡ resolve m name otherwise hs
  unfolding resolve
  resolve_same name otherwise [] out = refl
  resolve_same name otherwise (h ∷ hs) out = rw (
    exports_of_same h out.0,
    lookup_symbol_same m m' lo n same (exports_of m h) out.0.exports name,
    resolve_same name otherwise hs out.1,
  )

pub resolve-lt :
    (m : Bytes) (name : Str) (otherwise : ℕ) (hs : List ℕ)
    → IsRam m
    → otherwise < 2 ^ 32
    → resolve m name otherwise hs < 2 ^ 32
unfolding resolve
resolve-lt m name otherwise [] ram fits = fits
resolve-lt m name otherwise (h ∷ hs) ram fits =
    ground
      (arith, lookup_symbol-lt m (exports_of m h) name ram, resolve-lt m name otherwise hs ram fits)
