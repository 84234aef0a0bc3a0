-- ===== src/Runtime/Handles/Links.antt =====
-- `insert_uso` and `remove_uso` on the list of loaded files.
use dragonuso.Common.{
  All-map, ℕ, ◌+◌, ◌≤◌, ◌<◌, ◌^◌, ◌≡◌, ◌≢◌, refl, sym, ◌∙◌, false, List, [], ◌∷◌, ◌++◌, arith, ◌==◌,
  All,
}
use mathlib.Core.Path.{subst}
use dragonuso.Bytes.{Bytes, Apart}
use dragonuso.Runtime.Ram.{store_u32}
use dragonuso.Runtime.Ram.Laws.{load_u32-store_self, load_u32-store-Apart}
use dragonuso.Runtime.Machine.{Machine}
use dragonuso.Runtime.Handles.{insert_uso}
use dragonuso.Runtime.Handles.Chain.{
  Segment, AreApart, Separate, Segment-append, Segment-frame, Segment-addresses, last_of_Segment,
  relink_last,
}

-- The list in memory is this list of handles, in the order of loading.
pub record IsLoaded (s : Machine) (hs : List ℕ) : Type 0 where
  pub chain : Segment s.ram 0 s.list_head hs s.list_tail 0
  pub separate : Separate hs

Separate-snoc :
    (hs : List ℕ) (h : ℕ) → Separate hs → All (λ k. AreApart k h) hs → Separate (hs ++ h ∷ [])
Separate-snoc [] h sep out = (tt, tt)
Separate-snoc (k ∷ ks) h sep out = (All-snoc ks sep.0 out.0, Separate-snoc ks h sep.1 out.1)
  where
    All-snoc : (xs : List ℕ) → All (AreApart k) xs → AreApart k h → All (AreApart k) (xs ++ h ∷ [])
    All-snoc [] all p = (p, tt)
    All-snoc (x ∷ xs) all p = (all.0, All-snoc xs all.1 p)

Apart-from_links :
    (a handle : ℕ) (hs : List ℕ)
    → handle ≤ a
    → a ≤ handle + 4
    → All (λ k. AreApart k handle) hs
    → All (λ k. Apart k 8 a 4) hs
Apart-from_links a handle hs lo hi out = All-map hs (λ k apart. omega arith) out

-- The links of the new handle.
new_Segment :
    (m : Bytes) (handle prev : ℕ)
    → handle ≢ 0
    → handle < 2 ^ 32
    → prev < 2 ^ 32
    → Segment
        (store_u32 (store_u32 m (handle + 4) prev) handle 0)
        prev
        handle
        (handle ∷ [])
        handle
        0
new_Segment m handle prev nonnull fits prev_fits = (
  refl,
  nonnull,
  fits,
  load_u32-store-Apart (store_u32 m (handle + 4) prev) handle 0 (handle + 4) (omega arith)
      ∙ load_u32-store_self m (handle + 4) prev prev_fits,
  (load_u32-store_self (store_u32 m (handle + 4) prev) handle 0 (omega arith), refl),
)

insert_uso-empty :
    (s : Machine) (handle : ℕ)
    → s.list_tail ≡ 0
    → insert_uso s handle ≡ record s {
      ram = store_u32 (store_u32 s.ram (handle + 4) 0) handle 0;
      list_head = handle;
      list_tail = handle;
    }
unfolding insert_uso
insert_uso-empty s handle e = rw e

insert_uso-nonempty :
    (s : Machine) (handle : ℕ)
    → s.list_tail ≢ 0
    → insert_uso s handle ≡ record s {
      ram =
          store_u32
            (store_u32 (store_u32 s.ram s.list_tail handle) (handle + 4) s.list_tail)
            handle
            0;
      list_tail = handle;
    }
unfolding insert_uso
insert_uso-nonempty s handle ne =
    let nonempty : (s.list_tail == 0) ≡ false = ground arith in rw nonempty

insert_chain :
    (s : Machine) (hs : List ℕ) (handle : ℕ)
    → IsLoaded s hs
    → handle ≢ 0
    → handle < 2 ^ 32
    → All (λ k. AreApart k handle) hs
    → Segment
        (insert_uso s handle).ram
        0
        (insert_uso s handle).list_head
        (hs ++ handle ∷ [])
        (insert_uso s handle).list_tail
        0
insert_chain s [] handle is nonnull fits out =
    rw (insert_uso-empty s handle (sym is.chain.1))
      (new_Segment s.ram handle 0 nonnull fits (omega arith))
insert_chain s (h ∷ hs) handle is nonnull fits out =
    let (tail_nonnull, tail_fits) =
      last_of_Segment (λ k. (k ≢ 0) × (k < 2 ^ 32)) s.ram 0 s.list_head s.list_tail 0 h hs
        (Segment-addresses s.ram 0 s.list_head s.list_tail 0 (h ∷ hs) is.chain) is.chain in
    let linked = store_u32 s.ram s.list_tail handle in
    subst (λ (s' : Machine). Segment s'.ram 0 s'.list_head ((h ∷ hs) ++ handle ∷ []) s'.list_tail 0)
      (sym (insert_uso-nonempty s handle tail_nonnull))
      (Segment-append (store_u32 (store_u32 linked (handle + 4) s.list_tail) handle 0) 0 s.list_head
        s.list_tail handle handle 0 (h ∷ hs) (handle ∷ [])
        (Segment-frame (store_u32 linked (handle + 4) s.list_tail) handle 0 0 s.list_head
          s.list_tail handle (h ∷ hs)
          (Apart-from_links handle handle (h ∷ hs) (omega arith) (omega arith) out)
          (Segment-frame linked (handle + 4) s.list_tail 0 s.list_head s.list_tail handle (h ∷ hs)
            (Apart-from_links (handle + 4) handle (h ∷ hs) (omega arith) (omega arith) out)
            (relink_last s.ram 0 s.list_head s.list_tail 0 handle h hs fits is.separate is.chain)))
        (new_Segment linked handle s.list_tail nonnull fits tail_fits))

-- `insert_uso` of a handle that is not NULL and meets none in the list of loaded files puts it at
-- the end of the list.
pub insert_uso-IsLoaded :
    (s : Machine) (hs : List ℕ) (handle : ℕ)
    → IsLoaded s hs
    → handle ≢ 0
    → handle < 2 ^ 32
    → All (λ k. AreApart k handle) hs
    → IsLoaded (insert_uso s handle) (hs ++ handle ∷ [])
insert_uso-IsLoaded s hs handle is nonnull fits out = record {
  chain = insert_chain s hs handle is nonnull fits out;
  separate = Separate-snoc hs handle is.separate out;
}
