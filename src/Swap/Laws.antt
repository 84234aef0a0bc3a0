-- ===== src/Swap/Laws.antt =====
-- The swap functions on both kinds of host: files have the console's byte order.
use dragonuso.Common.{
  ℕ, ◌+◌, ◌*◌, ◌%◌, ◌^◌, ◌<◌, ◌≡◌, refl, List, [], ◌∷◌, bit_and, bit_or, arith, get_or,
}
use dragonuso.Common.Words.{◌<<<◌, ◌>>>◌}
use dragonuso.Common.Bits.{bit_or-field_right, bit_and-mask}
use dragonuso.Swap.{
  Endian, little, big, host_u16, host_u32, be_u16, be_u32, load_u32, load_u16, load_be_u16,
  load_be_u32, swap_u16, swap_u32, need_swap,
}

byte : (v : ℕ) → bit_and v 0xFF ≡ v % 256
byte v = bit_and-mask 8 v

or_two : (a b : ℕ) → a < 256 → bit_or (a <<< 0) (b <<< 8) ≡ a + b * 2 ^ 8
or_two a b h = omega (arith, bit_or-field_right 8 b (a * 1) (omega arith))

or_four :
    (a b c d : ℕ)
    → a < 256
    → b < 256
    → c < 256
    → bit_or (bit_or (bit_or (a <<< 0) (b <<< 8)) (c <<< 16)) (d <<< 24)
      ≡ a + b * 2 ^ 8 + c * 2 ^ 16 + d * 2 ^ 24
or_four a b c d p q r = rw (
  or_two a b p,
  bit_or-field_right 16 c (a + b * 2 ^ 8) (omega arith),
  bit_or-field_right 24 d (a + b * 2 ^ 8 + c * 2 ^ 16) (omega arith),
)

-- A swap as arithmetic on the bytes.
pub swap_u32-little :
    (v : ℕ)
    → swap_u32 little v
      ≡ v >>> 24 % 256 + v >>> 16 % 256 * 2 ^ 8 + v >>> 8 % 256 * 2 ^ 16 + v % 256 * 2 ^ 24
unfolding swap_u32 need_swap
swap_u32-little v =
    rw
      (
        byte (v >>> 24),
        byte (v >>> 16),
        byte (v >>> 8),
        byte (v >>> 0),
        or_four (v >>> 24 % 256) (v >>> 16 % 256) (v >>> 8 % 256) (v >>> 0 % 256) (omega arith)
            (omega arith) (omega arith),
      )
      (omega arith)

pub swap_u16-little : (v : ℕ) → swap_u16 little v ≡ v >>> 8 % 256 + v % 256 * 2 ^ 8
unfolding swap_u16 need_swap
swap_u16-little v =
    rw (byte (v >>> 8), byte (v >>> 0), or_two (v >>> 8 % 256) (v >>> 0 % 256) (omega arith))
      (omega arith)

swap_u32-big : (v : ℕ) → swap_u32 big v ≡ v
unfolding swap_u32 need_swap
swap_u32-big v = refl

swap_u16-big : (v : ℕ) → swap_u16 big v ≡ v
unfolding swap_u16 need_swap
swap_u16-big v = refl

four_bytes :
    {a b c d a' b' c' d' : ℕ}
    → a ≡ a'
    → b ≡ b'
    → c ≡ c'
    → d ≡ d'
    → ◌≡◌ {A = List ℕ} (a ∷ b ∷ c ∷ d ∷ []) (a' ∷ b' ∷ c' ∷ d' ∷ [])
four_bytes p q r s = cc

-- A 32-bit field that a tool writes after swap_u32 has its highest byte first, on hosts of both
-- byte orders.
pub host_u32-swap_u32 : (e : Endian) (v : ℕ) → host_u32 e (swap_u32 e v) ≡ be_u32 v
host_u32-swap_u32 little v =
    rw (swap_u32-little v) (four_bytes (omega arith) (omega arith) (omega arith) (omega arith))
host_u32-swap_u32 big v = rw (swap_u32-big v)

pub host_u16-swap_u16 : (e : Endian) (v : ℕ) → host_u16 e (swap_u16 e v) ≡ be_u16 v
host_u16-swap_u16 little v = rw (swap_u16-little v) (ground arith)
host_u16-swap_u16 big v = rw (swap_u16-big v)

-- What a tool reads and swaps is the number whose highest byte stands first, on either host.
pub swap_u32-load_u32 :
    (e : Endian) (bs : List ℕ) (i : ℕ)
    → ((j : ℕ) → get_or bs j 0 < 256)
    → swap_u32 e (load_u32 e bs i) ≡ load_be_u32 bs i
swap_u32-load_u32 little bs i h =
    rw swap_u32-little (omega (arith, h i, h (i + 1), h (i + 2), h (i + 3)))
swap_u32-load_u32 big bs i h = swap_u32-big _

pub swap_u16-load_u16 :
    (e : Endian) (bs : List ℕ) (i : ℕ)
    → ((j : ℕ) → get_or bs j 0 < 256)
    → swap_u16 e (load_u16 e bs i) ≡ load_be_u16 bs i
swap_u16-load_u16 little bs i h = rw swap_u16-little (omega (arith, h i, h (i + 1)))
swap_u16-load_u16 big bs i h = swap_u16-big _
