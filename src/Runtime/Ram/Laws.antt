-- ===== src/Runtime/Ram/Laws.antt =====
-- Loads after stores in the console's memory.
use dragonuso.Common.{ℕ, ◌+◌, ◌^◌, ◌≤◌, ◌<◌, ◌≡◌, arith}
use dragonuso.Bytes.{Bytes, put, Apart, put_outside}
use dragonuso.Swap.{be_u32}
use dragonuso.Runtime.Ram.{load_u32, load_u16, store_u32}

pub store_outside : (m : Bytes) (a v x : ℕ) → Apart x 1 a 4 → store_u32 m a v x ≡ m x
unfolding store_u32
store_outside m a v x h = put_outside m a (be_u32 v) x h

pub load_u32_ext :
    (m m' : Bytes) (a : ℕ)
    → ((x : ℕ) → a ≤ x → x < a + 4 → m x ≡ m' x)
    → load_u32 m a ≡ load_u32 m' a
unfolding load_u32
load_u32_ext m m' a h = rw (
  h a (omega arith) (omega arith),
  h (a + 1) (omega arith) (omega arith),
  h (a + 2) (omega arith) (omega arith),
  h (a + 3) (omega arith) (omega arith),
)

pub load_u16_ext :
    (m m' : Bytes) (a : ℕ)
    → ((x : ℕ) → a ≤ x → x < a + 2 → m x ≡ m' x)
    → load_u16 m a ≡ load_u16 m' a
unfolding load_u16
load_u16_ext m m' a h = rw (h a (omega arith) (omega arith), h (a + 1) (omega arith) (omega arith))

pub load_u32-store-Apart :
    (m : Bytes) (a v b : ℕ) → Apart b 4 a 4 → load_u32 (store_u32 m a v) b ≡ load_u32 m b
load_u32-store-Apart m a v b h =
    load_u32_ext (store_u32 m a v) m b λ x lo hi. store_outside m a v x (omega arith)

pub load_u16-store-Apart :
    (m : Bytes) (a v b : ℕ) → Apart b 2 a 4 → load_u16 (store_u32 m a v) b ≡ load_u16 m b
load_u16-store-Apart m a v b h =
    load_u16_ext (store_u32 m a v) m b λ x lo hi. store_outside m a v x (omega arith)

pub load_u32-store_self : (m : Bytes) (a v : ℕ) → v < 2 ^ 32 → load_u32 (store_u32 m a v) a ≡ v
unfolding load_u32 store_u32 put
load_u32-store_self m a v h = ground arith

-- Every byte of the memory is below 256.
abbrev pub IsRam : Bytes → Type 0
IsRam m = (x : ℕ) → m x < 256

pub load_u32-lt : (m : Bytes) (a : ℕ) → IsRam m → load_u32 m a < 2 ^ 32
unfolding load_u32
load_u32-lt m a h = omega (arith, h a, h (a + 1), h (a + 2), h (a + 3))
