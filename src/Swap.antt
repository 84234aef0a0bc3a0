-- ===== src/Swap.antt =====
-- The byte order of the host and of the console, and the swap functions that stand in each of the
-- three tools (tools/elf2uso.cpp, tools/make_global_syms.cpp and tools/make_uso_externs.cpp).
pub mod Laws
use dragonuso.Common.{
  ℕ, ◌+◌, ◌*◌, ◌/◌, ◌%◌, ◌^◌, Bool, true, false, List, [], ◌∷◌, bit_and, bit_or, ◌==◌,
  if◌then◌else◌, get_or,
}
use dragonuso.Common.Words.{u16, u32, ◌<<<◌, ◌>>>◌}

-- The byte order of the machine that runs the tool.
pub data Endian : Type 0 where
  little big : Endian

-- A number as the console reads it: the highest byte first.
abbrev pub be_u16 : ℕ → List ℕ
be_u16 v = (v >>> 8 % 256) ∷ (v % 256) ∷ []

abbrev pub be_u32 : ℕ → List ℕ
be_u32 v = (v >>> 24 % 256) ∷ (v >>> 16 % 256) ∷ (v >>> 8 % 256) ∷ (v % 256) ∷ []

abbrev pub le_u16 : ℕ → List ℕ
le_u16 v = (v % 256) ∷ (v >>> 8 % 256) ∷ []

abbrev pub le_u32 : ℕ → List ℕ
le_u32 v = (v % 256) ∷ (v >>> 8 % 256) ∷ (v >>> 16 % 256) ∷ (v >>> 24 % 256) ∷ []

-- The bytes of a variable in the host's memory.
abbrev pub host_u16 : Endian → ℕ → List ℕ
host_u16 little v = le_u16 v
host_u16 big v = be_u16 v

abbrev pub host_u32 : Endian → ℕ → List ℕ
host_u32 little v = le_u32 v
host_u32 big v = be_u32 v

-- The value of a variable whose bytes stand at index `i` of what was read into memory.
abbrev pub load_be_u16 : List ℕ → ℕ → ℕ
load_be_u16 bs i = get_or bs i 0 * 2 ^ 8 + get_or bs (i + 1) 0

abbrev pub load_be_u32 : List ℕ → ℕ → ℕ
load_be_u32 bs i =
    get_or bs i 0 * 2 ^ 24
    + get_or bs (i + 1) 0 * 2 ^ 16
    + get_or bs (i + 2) 0 * 2 ^ 8
    + get_or bs (i + 3) 0

abbrev pub load_u16 : Endian → List ℕ → ℕ → ℕ
load_u16 little bs i = get_or bs (i + 1) 0 * 2 ^ 8 + get_or bs i 0
load_u16 big bs i = load_be_u16 bs i

abbrev pub load_u32 : Endian → List ℕ → ℕ → ℕ
load_u32 little bs i =
    get_or bs (i + 3) 0 * 2 ^ 24
    + get_or bs (i + 2) 0 * 2 ^ 16
    + get_or bs (i + 1) 0 * 2 ^ 8
    + get_or bs i 0
load_u32 big bs i = load_be_u32 bs i

-- The first byte of the variable `value = 1`.
unfoldable pub need_swap : Endian → Bool
need_swap e = get_or (host_u32 e 1) 0 0 == 1

unfoldable pub swap_u16 : Endian → ℕ → ℕ
swap_u16 e v =
    if need_swap e
    then u16 (bit_or (bit_and (v >>> 8) 0xFF <<< 0) (bit_and (v >>> 0) 0xFF <<< 8))
    else v

unfoldable pub swap_u32 : Endian → ℕ → ℕ
swap_u32 e v =
    if need_swap e
    then u32 (
        bit_or
          (bit_or (bit_or (bit_and (v >>> 24) 0xFF <<< 0) (bit_and (v >>> 16) 0xFF <<< 8))
            (bit_and (v >>> 8) 0xFF <<< 16))
          (bit_and (v >>> 0) 0xFF <<< 24))
    else v
