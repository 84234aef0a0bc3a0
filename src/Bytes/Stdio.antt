-- ===== src/Bytes/Stdio.antt =====
-- The calls of stdio that the tools make, on the contents of a file. What lies between the old end
-- of a file and a later write reads as zero.
use dragonuso.Bytes.{Bytes, put, get}
use dragonuso.Common.{
  ℕ, ◌+◌, ◌||◌, Option, none, some, List, [], ◌∷◌, max, ltb, ◌==◌, if◌then◌else◌, length,
}

pub record File : Type 0 where
  pub contents : Bytes
  pub size : ℕ
  pub pos : ℕ

-- `fopen(path, "wb")`
abbrev pub empty_file : File
empty_file = record { contents = λ _. 0; size = 0; pos = 0 }

-- `fseek(file, ofs, SEEK_SET)`
abbrev pub seek : File → ℕ → File
seek f ofs = record f { pos = ofs }

-- `fseek(file, 0, SEEK_END)`
abbrev pub seek_end : File → File
seek_end f = record f { pos = f.size }

-- `fwrite` of these bytes; writing none does not move the end.
abbrev pub write : File → List ℕ → File
write f [] = f
write f (b ∷ bs) = record {
  contents = put f.contents f.pos (b ∷ bs);
  size = max f.size (f.pos + length (b ∷ bs));
  pos = f.pos + length (b ∷ bs);
}

-- `fread(dst, size, 1, file)`: the bytes if one whole item was read. No item of size 0 is.
abbrev pub read : File → ℕ → Option (List ℕ)
read f n = if n == 0 || ltb f.size (f.pos + n) then none else some (get f.contents f.pos n)
