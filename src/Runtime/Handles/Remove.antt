-- ===== src/Runtime/Handles/Remove.antt =====
-- `remove_uso` on the list of loaded files.
use dragonuso.Common.{
  ℕ, ◌+◌, ◌<◌, ◌^◌, ◌≡◌, ◌≢◌, refl, sym, inl, inr, Bool, true, false, List, [], ◌∷◌, ◌++◌, arith,
  ◌==◌, if◌then◌else◌, All, Bool-cases,
}
use mathlib.Core.Path.{subst}
use dragonuso.Bytes.{Bytes, Apart}
use dragonuso.Runtime.Ram.{store_u32, handle_next, handle_prev}
use dragonuso.Runtime.Machine.{Machine}
use dragonuso.Runtime.Handles.{remove_uso}
use dragonuso.Runtime.Handles.Chain.{
  Segment, AreApart, Separate, Segment-append, Segment-frame, Segment-addresses, last_of_Segment,
  relink_last, relink_first,
}
use dragonuso.Runtime.Handles.Links.{IsLoaded}

Segment-split :
    (m : Bytes) (p c r e h : ℕ) (hs ks : List ℕ)
    → Segment m p c (hs ++ h ∷ ks) r e
    → Segment m p c hs (handle_prev m h) h × Segment m (handle_prev m h) h (h ∷ ks) r e
Segment-split m p c r e h [] ks seg = ((seg.0, sym seg.3), (refl, seg.1, seg.2, refl, seg.4))
Segment-split m p c r e h (k ∷ hs) ks seg =
    let (first, second) = Segment-split m k (handle_next m k) r e h hs ks seg.4 in
    ((seg.0, seg.1, seg.2, seg.3, first), second)

All-split :
    (P : ℕ → Type 0) (y : ℕ) (xs ys : List ℕ) → All P (xs ++ y ∷ ys) → All P xs × P y × All P ys
All-split P y [] ys all = (tt, all.0, all.1)
All-split P y (x ∷ xs) ys all =
    let (front, mid, back) = All-split P y xs ys all.1 in ((all.0, front), mid, back)

All-append : (P : ℕ → Type 0) (xs ys : List ℕ) → All P xs → All P ys → All P (xs ++ ys)
All-append P [] ys front back = back
All-append P (x ∷ xs) ys front back = (front.0, All-append P xs ys front.1 back)

-- Two parts of a list, each apart in itself, and every handle of the one from those of the other.
record Parts (hs : List ℕ) (h : ℕ) (ks : List ℕ) : Type 0 where
  front : Separate hs
  back : Separate ks
  front_out : All (λ k. AreApart k h) hs
  both : Separate (hs ++ ks)

Separate-split : (h : ℕ) (hs ks : List ℕ) → Separate (hs ++ h ∷ ks) → Parts hs h ks
Separate-split h [] ks sep = record { front = tt; back = sep.1; front_out = tt; both = sep.1 }
Separate-split h (k ∷ hs) ks sep =
    let parts = Separate-split h hs ks sep.1 in
    let (front, mid, back) = All-split (AreApart k) h hs ks sep.0 in
    record {
      front = (front, parts.front);
      back = parts.back;
      front_out = (mid, parts.front_out);
      both = (All-append (AreApart k) hs ks front back, parts.both);
    }

-- The front part of the list gets another end: its last handle, or the head of the list.
relink_front :
    (m : Bytes) (c q d d' : ℕ) (hs : List ℕ)
    → d' < 2 ^ 32
    → Separate hs
    → Segment m 0 c hs q d
    → Segment (if q == 0 then m else store_u32 m q d') 0 (if q == 0 then d' else c) hs q d'
relink_front m c q d d' [] fits sep seg =
    let none : (q == 0) ≡ true = ground arith in rw none (refl, seg.1)
relink_front m c q d d' (h ∷ hs) fits sep seg =
    let (nonnull, small) =
      last_of_Segment (λ k. (k ≢ 0) × (k < 2 ^ 32)) m 0 c q d h hs
        (Segment-addresses m 0 c q d (h ∷ hs) seg) seg in
    let some : (q == 0) ≡ false = ground arith in
    subst
      (λ (b : Bool).
        Segment (if b then m else store_u32 m q d') 0 (if b then d' else c) (h ∷ hs) q d')
      (sym some) (relink_last m 0 c q d d' h hs fits sep seg)

-- The back part gets another start: its first handle, or the tail of the list.
relink_back :
    (m : Bytes) (p c q p' : ℕ) (hs : List ℕ)
    → p' < 2 ^ 32
    → Separate hs
    → Segment m p c hs q 0
    → Segment (if c == 0 then m else store_u32 m (c + 4) p') p' c hs (if c == 0 then p' else q) 0
relink_back m p c q p' [] fits sep seg =
    let none : (c == 0) ≡ true = ground arith in rw none (seg.0, refl)
relink_back m p c q p' (h ∷ hs) fits sep seg =
    let some : (c == 0) ≡ false = ground (arith, seg.0, seg.1) in
    subst
      (λ (b : Bool).
        Segment (if b then m else store_u32 m (c + 4) p') p' c (h ∷ hs) (if b then p' else q) 0)
      (sym some) (relink_first m p c q 0 p' h hs fits sep seg)

remove_uso_lem :
    (s : Machine) (handle : ℕ)
    → let next = handle_next s.ram handle in
      let prev = handle_prev s.ram handle in
      let m = if next == 0 then s.ram else store_u32 s.ram (next + 4) prev in
      remove_uso s handle ≡ record s {
        ram = if prev == 0 then m else store_u32 m prev next;
        list_head = if prev == 0 then next else s.list_head;
        list_tail = if next == 0 then prev else s.list_tail;
      }
unfolding remove_uso
remove_uso_lem s handle = ground arith

cross : (hs ks : List ℕ) → Separate (hs ++ ks) → All (λ h. All (AreApart h) ks) hs
cross [] ks sep = tt
cross (h ∷ hs) ks sep = (back hs sep.0, cross hs ks sep.1)
  where
    back : (xs : List ℕ) → All (AreApart h) (xs ++ ks) → All (AreApart h) ks
    back [] all = all
    back (x ∷ xs) all = back xs all.1

-- The end of the front part, if there is one, meets no handle of the back part.
record EndsAt (prev : ℕ) (ks : List ℕ) : Type 0 where
  fits : prev < 2 ^ 32
  apart : prev ≢ 0 → All (AreApart prev) ks

front-EndsAt :
    (m : Bytes) (c q d : ℕ) (hs ks : List ℕ)
    → Segment m 0 c hs q d
    → Separate (hs ++ ks)
    → EndsAt q ks
front-EndsAt m c q d [] ks seg sep = record {
  fits = omega (arith, seg.1);
  apart = λ ne. absurd (ne (sym seg.1));
}
front-EndsAt m c q d (h ∷ hs) ks seg sep = record {
  fits =
      (last_of_Segment (λ k. (k ≢ 0) × (k < 2 ^ 32)) m 0 c q d h hs
        (Segment-addresses m 0 c q d (h ∷ hs) seg) seg).1;
  apart =
      λ ne. last_of_Segment (λ k. All (AreApart k) ks) m 0 c q d h hs (cross (h ∷ hs) ks sep) seg;
}

-- The start of the back part, if there is one, meets no handle of the front part.
record StartsAt (next : ℕ) (hs : List ℕ) : Type 0 where
  fits : next < 2 ^ 32
  apart : next ≢ 0 → All (λ h. AreApart h next) hs

first_of :
    (k next : ℕ) (hs ks : List ℕ)
    → next ≡ k
    → All (λ h. All (AreApart h) (k ∷ ks)) hs
    → All (λ h. AreApart h next) hs
first_of k next [] ks e all = tt
first_of k next (h ∷ hs) ks e all = (omega (arith, all.0.0), first_of k next hs ks e all.1)

back-StartsAt :
    (m : Bytes) (p c q : ℕ) (hs ks : List ℕ)
    → Segment m p c ks q 0
    → Separate (hs ++ ks)
    → StartsAt c hs
back-StartsAt m p c q hs [] seg sep = record {
  fits = omega (arith, seg.0);
  apart = λ ne. absurd (ne seg.0);
}
back-StartsAt m p c q hs (k ∷ ks) seg sep = record {
  fits = omega (arith, seg.0, seg.2);
  apart = λ ne. first_of k c hs ks seg.0 (cross hs (k ∷ ks) sep);
}

-- A store that is made unless an address is NULL.
frame_unless_null :
    (m : Bytes) (x a v p c q d : ℕ) (hs : List ℕ)
    → (x ≢ 0 → All (λ h. Apart h 8 a 4) hs)
    → Segment m p c hs q d
    → Segment (if x == 0 then m else store_u32 m a v) p c hs q d
frame_unless_null m x a v p c q d hs out seg = elim (Bool-cases (x == 0)) [
  | inl null ↦
      subst (λ (b : Bool). Segment (if b then m else store_u32 m a v) p c hs q d) (sym null) seg
  | inr nonnull ↦
      subst (λ (b : Bool). Segment (if b then m else store_u32 m a v) p c hs q d) (sym nonnull)
        (Segment-frame m a v p c q d hs (out (ground arith)) seg)
]

next_links : (h : ℕ) (hs : List ℕ) → All (λ k. AreApart k h) hs → All (λ k. Apart k 8 (h + 4) 4) hs
next_links h [] all = tt
next_links h (k ∷ ks) all = (omega (arith, all.0), next_links h ks all.1)

prev_links : (h : ℕ) (hs : List ℕ) → All (AreApart h) hs → All (λ k. Apart k 8 h 4) hs
prev_links h [] all = tt
prev_links h (k ∷ ks) all = (omega (arith, all.0), prev_links h ks all.1)

remove_chain :
    (s : Machine) (hs ks : List ℕ) (handle : ℕ)
    → IsLoaded s (hs ++ handle ∷ ks)
    → Segment
        (remove_uso s handle).ram
        0
        (remove_uso s handle).list_head
        (hs ++ ks)
        (remove_uso s handle).list_tail
        0
remove_chain s hs ks handle is =
    let next = handle_next s.ram handle in
    let prev = handle_prev s.ram handle in
    let (front, middle) = Segment-split s.ram 0 s.list_head s.list_tail 0 handle hs ks is.chain in
    let parts = Separate-split handle hs ks is.separate in
    let end = front-EndsAt s.ram s.list_head prev handle hs ks front parts.both in
    let start = back-StartsAt s.ram handle next s.list_tail hs ks middle.4 parts.both in
    let m = if next == 0 then s.ram else store_u32 s.ram (next + 4) prev in
    let tail = if next == 0 then prev else s.list_tail in
    subst (λ (s' : Machine). Segment s'.ram 0 s'.list_head (hs ++ ks) s'.list_tail 0)
      (sym (remove_uso_lem s handle))
      (Segment-append (if prev == 0 then m else store_u32 m prev next) 0
        (if prev == 0 then next else s.list_head) prev next tail 0 hs ks
        (relink_front m s.list_head prev handle next hs start.fits parts.front (
          frame_unless_null s.ram next (next + 4) prev 0 s.list_head prev handle hs
            (λ ne. next_links next hs (start.apart ne)) front))
        (frame_unless_null m prev prev next prev next tail 0 ks
          (λ ne. prev_links prev ks (end.apart ne))
          (relink_back s.ram handle next s.list_tail prev ks end.fits parts.back middle.4)))

-- `remove_uso` of a handle in the list of loaded files takes it out, wherever it stands, and keeps
-- the links and the order of the others.
pub remove_uso-IsLoaded :
    (s : Machine) (hs ks : List ℕ) (handle : ℕ)
    → IsLoaded s (hs ++ handle ∷ ks)
    → IsLoaded (remove_uso s handle) (hs ++ ks)
remove_uso-IsLoaded s hs ks handle is = record {
  chain = remove_chain s hs ks handle is;
  separate = (Separate-split handle hs ks is.separate).both;
}
