-- ===== src/Bytes/Files.antt =====
-- Reads of a file after a write at an offset.
use mathlib.Core.Path.{fun_ext}
use dragonuso.Common.{ℕ, ◌+◌, ◌≤◌, ◌<◌, ◌≡◌, refl, ◌∙◌, List, [], ◌∷◌, some, arith, length}
use dragonuso.Bytes.{put, get, Apart, put_outside, get-put_self, get_ext}
use dragonuso.Bytes.Stdio.{File, seek, write, read}

-- The file after a write at `a`.
abbrev pub write_at : File → ℕ → List ℕ → File
write_at f a bs = write (seek f a) bs

pub contents-write :
    (f : File) (a : ℕ) (bs : List ℕ) → (write_at f a bs).contents ≡ put f.contents a bs
contents-write f a [] = fun_ext λ x. unfold put in refl
contents-write f a (b ∷ bs) = refl

pub size-le-write : (f : File) (a : ℕ) (bs : List ℕ) → f.size ≤ (write_at f a bs).size
size-le-write f a [] = omega arith
size-le-write f a (b ∷ bs) = omega arith

pub write_end-le :
    (f : File) (a : ℕ) (bs : List ℕ) → 0 < length bs → a + length bs ≤ (write_at f a bs).size
write_end-le f a [] h = absurd (omega arith)
write_end-le f a (b ∷ bs) h = omega arith

-- A byte outside what is written is kept.
pub write_outside :
    (f : File) (a : ℕ) (bs : List ℕ) (x : ℕ)
    → Apart x 1 a (length bs)
    → (write_at f a bs).contents x ≡ f.contents x
write_outside f a bs x h = rw contents-write (put_outside f.contents a bs x h)

pub write_inside :
    (f : File) (a : ℕ) (bs : List ℕ) → get (write_at f a bs).contents a (length bs) ≡ bs
write_inside f a bs = rw contents-write (get-put_self f.contents a bs)

pub read-seek :
    (f : File) (a n : ℕ) → 0 < n → a + n ≤ f.size → read (seek f a) n ≡ some (get f.contents a n)
read-seek f a n h k = ground arith

-- The file holds these bytes at `a`.
pub record Holds (f : File) (a : ℕ) (bs : List ℕ) : Type 0 where
  pub bytes : get f.contents a (length bs) ≡ bs
  pub inside : a + length bs ≤ f.size

pub Holds-frame :
    (f g : File) (a : ℕ) (bs : List ℕ)
    → Holds f a bs
    → f.size ≤ g.size
    → ((x : ℕ) → a ≤ x → x < a + length bs → g.contents x ≡ f.contents x)
    → Holds g a bs
Holds-frame f g a bs h le same = record {
  bytes = get_ext g.contents f.contents a (length bs) same ∙ h.bytes;
  inside = omega arith;
}

pub Holds-write : (f : File) (a : ℕ) (bs : List ℕ) → 0 < length bs → Holds (write_at f a bs) a bs
Holds-write f a bs h = record { bytes = write_inside f a bs; inside = write_end-le f a bs h }
