-- ===== src/Runtime/Handles/Chain.antt =====
-- Doubly linked segments of handles in memory.
use dragonuso.Common.{
  ℕ, ◌+◌, ◌<◌, ◌^◌, ◌≡◌, ◌≢◌, sym, ap, ◌∙◌, List, [], ◌∷◌, ◌++◌, arith, All, All-map, ◌≤◌,
}
use mathlib.Core.Path.{subst}
use dragonuso.Bytes.{Bytes, Apart}
use dragonuso.Runtime.Ram.{load_u32, store_u32, handle_next, handle_prev}
use dragonuso.Runtime.Ram.Laws.{
  store_outside, load_u32_ext, load_u32-store_self, load_u32-store-Apart,
}

-- From `curr` the `next` pointers lead through the handles to `stop`, and the `prev` pointers lead
-- back from `last` to `prev`.
abbrev pub Segment : Bytes → (prev curr : ℕ) → List ℕ → (last stop : ℕ) → Type 0
Segment m prev curr [] last stop = (curr ≡ stop) × (prev ≡ last)
Segment m prev curr (h ∷ hs) last stop =
    (curr ≡ h)
    × (h ≢ 0)
    × (h < 2 ^ 32)
    × (handle_prev m h ≡ prev)
    × Segment m h (handle_next m h) hs last stop

-- The `struct uso_handle_data` at these addresses do not meet.
abbrev pub AreApart : ℕ → ℕ → Type 0
AreApart h k = Apart h 40 k 40

abbrev pub Separate : List ℕ → Type 0
Separate [] = Unit {0}
Separate (h ∷ hs) = All (AreApart h) hs × Separate hs

pub Segment-append :
    (m : Bytes) (p c q d r e : ℕ) (hs ks : List ℕ)
    → Segment m p c hs q d
    → Segment m q d ks r e
    → Segment m p c (hs ++ ks) r e
Segment-append m p c q d r e [] ks first second = rw (first.0, first.1) second
Segment-append m p c q d r e (h ∷ hs) ks first second = (
  first.0,
  first.1,
  first.2,
  first.3,
  Segment-append m h (handle_next m h) q d r e hs ks first.4 second,
)

-- The links of a handle are the same in both memories.
abbrev pub SameLinks : (m m' : Bytes) → ℕ → Type 0
SameLinks m m' h = (x : ℕ) → h ≤ x → x < h + 8 → m' x ≡ m x

pub Segment-ext :
    (m m' : Bytes) (p c q d : ℕ) (hs : List ℕ)
    → All (SameLinks m m') hs
    → Segment m p c hs q d
    → Segment m' p c hs q d
Segment-ext m m' p c q d [] same seg = seg
Segment-ext m m' p c q d (h ∷ hs) same seg = (
  seg.0,
  seg.1,
  seg.2,
  load_u32_ext m' m (h + 4) (λ x lo hi. same.0 x (omega arith) (omega arith)) ∙ seg.3,
  rw (load_u32_ext m' m h (λ x lo hi. same.0 x lo (omega arith)))
      (Segment-ext m m' h (handle_next m h) q d hs same.1 seg.4),
)

-- A store outside the links of the handles.
pub Segment-frame :
    (m : Bytes) (a v p c q d : ℕ) (hs : List ℕ)
    → All (λ h. Apart h 8 a 4) hs
    → Segment m p c hs q d
    → Segment (store_u32 m a v) p c hs q d
Segment-frame m a v p c q d hs out seg =
    Segment-ext m (store_u32 m a v) p c q d hs
      (All-map hs (λ h apart x lo hi. store_outside m a v x (omega arith)) out) seg

-- Every handle of a segment is an address that is not NULL.
pub Segment-addresses :
    (m : Bytes) (p c q d : ℕ) (hs : List ℕ)
    → Segment m p c hs q d
    → All (λ h. (h ≢ 0) × (h < 2 ^ 32)) hs
Segment-addresses m p c q d [] seg = tt
Segment-addresses m p c q d (h ∷ hs) seg =
    ((seg.1, seg.2), Segment-addresses m h (handle_next m h) q d hs seg.4)

-- The last handle of a segment is one of them.
pub last_of_Segment :
    (P : ℕ → Type 0) (m : Bytes) (p c q d h : ℕ) (hs : List ℕ)
    → All P (h ∷ hs)
    → Segment m p c (h ∷ hs) q d
    → P q
last_of_Segment P m p c q d h [] all seg = subst P seg.4.1 all.0
last_of_Segment P m p c q d h (k ∷ hs) all seg =
    last_of_Segment P m h (handle_next m h) q d k hs all.1 seg.4

-- The last handle gets another successor.
pub relink_last :
    (m : Bytes) (p c q d d' h : ℕ) (hs : List ℕ)
    → d' < 2 ^ 32
    → Separate (h ∷ hs)
    → Segment m p c (h ∷ hs) q d
    → Segment (store_u32 m q d') p c (h ∷ hs) q d'
relink_last m p c q d d' h [] fits sep seg =
    let last : h ≡ q = seg.4.1 in
    (
      seg.0,
      seg.1,
      seg.2,
      rw (load_u32-store-Apart m q d' (h + 4) (omega arith)) seg.3,
      (ap (load_u32 (store_u32 m q d')) last ∙ load_u32-store_self m q d' fits, last),
    )
relink_last m p c q d d' h (k ∷ hs) fits sep seg =
    let away = last_of_Segment (AreApart h) m h (handle_next m h) q d k hs sep.0 seg.4 in
    (
      seg.0,
      seg.1,
      seg.2,
      rw (load_u32-store-Apart m q d' (h + 4) (omega arith)) seg.3,
      rw (load_u32-store-Apart m q d' h (omega arith))
          (relink_last m h (handle_next m h) q d d' k hs fits sep.1 seg.4),
    )

Apart-from_first :
    (a : ℕ) (h : ℕ) (hs : List ℕ) → a ≡ h + 4 → All (AreApart h) hs → All (λ k. Apart k 8 a 4) hs
Apart-from_first a h hs e all = All-map hs (λ k apart. omega arith) all

-- The first handle gets another predecessor.
pub relink_first :
    (m : Bytes) (p c q d p' h : ℕ) (hs : List ℕ)
    → p' < 2 ^ 32
    → Separate (h ∷ hs)
    → Segment m p c (h ∷ hs) q d
    → Segment (store_u32 m (c + 4) p') p' c (h ∷ hs) q d
relink_first m p c q d p' h hs fits sep seg =
    let first : c ≡ h = seg.0 in
    (
      first,
      seg.1,
      seg.2,
      ap (λ (t : ℕ). load_u32 (store_u32 m (c + 4) p') (t + 4)) (sym first)
          ∙ load_u32-store_self m (c + 4) p' fits,
      rw (load_u32-store-Apart m (c + 4) p' h (omega arith)) (
          Segment-frame m (c + 4) p' h (handle_next m h) q d hs
            (Apart-from_first (c + 4) h hs (omega arith) sep.0) seg.4),
    )
