-- ===== src/Bytes/Below.antt =====
-- Writes that leave the bytes below an offset.
use dragonuso.Common.{ℕ, ◌≤◌, ◌<◌, ◌≡◌, ◌∙◌, inl, List, [], ◌∷◌, arith}
use dragonuso.Bytes.Stdio.{File, write}
use dragonuso.Bytes.Files.{write_at, size-le-write, write_outside}

-- `g` is at least as long as `f`, and has the same bytes below `a`.
abbrev pub KeepsBelow : ℕ → File → File → Type 0
KeepsBelow a f g = (f.size ≤ g.size) × ((x : ℕ) → x < a → g.contents x ≡ f.contents x)

pub KeepsBelow-trans :
    (a : ℕ) (f g h : File) → KeepsBelow a f g → KeepsBelow a g h → KeepsBelow a f h
KeepsBelow-trans a f g h first second =
    (omega (arith, first.0, second.0), λ x lt. second.1 x lt ∙ first.1 x lt)

pub KeepsBelow-write :
    (a : ℕ) (f : File) (p : ℕ) (bs : List ℕ) → a ≤ p → KeepsBelow a f (write_at f p bs)
KeepsBelow-write a f p bs le =
    (size-le-write f p bs, λ x lt. write_outside f p bs x (inl (omega arith)))

-- A write where the file stands, and where it stands then.
pub KeepsBelow-write_here :
    (a : ℕ) (f : File) (bs : List ℕ) → a ≤ f.pos → KeepsBelow a f (write f bs)
KeepsBelow-write_here a f bs le = KeepsBelow-write a f f.pos bs le

pub pos-le-write : (f : File) (bs : List ℕ) → f.pos ≤ (write f bs).pos
pos-le-write f [] = omega arith
pos-le-write f (b ∷ bs) = omega arith
