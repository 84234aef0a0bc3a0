-- ===== src/Runtime/Reloc/Halves.antt =====
-- The relocated instructions, as the processor reads them.
use dragonuso.Common.{
  ℕ, ◌+◌, ◌-◌, ◌*◌, ◌/◌, ◌%◌, ◌^◌, ◌<◌, ◌≡◌, ◌≢◌, ◌∙◌, inl, inr, some, none, arith, bit_and, ltb,
  ◌==◌, if◌then◌else◌, Bool-cases,
}
use dragonuso.Common.Words.{u16, u32, ◌<<<◌, ◌>>>◌}
use dragonuso.Common.Bits.{bit_and-mask, bit_and-field, bit_or-field}
use dragonuso.Runtime.Reloc.{relocate_26, relocated_hi, relocate_hi16, relocate_lo16}

abbrev pub high_half : ℕ → ℕ
high_half t = t / 2 ^ 16

abbrev pub low_half : ℕ → ℕ
low_half t = t % 2 ^ 16

-- The processor extends the sign of a low half.
abbrev pub sign_extended : ℕ → ℕ
sign_extended lo = if ltb lo 0x8000 then lo else lo + 2 ^ 32 - 2 ^ 16

-- The address that a `lui` with `hi` and an instruction with `lo` make together.
abbrev pub pair_address : ℕ → ℕ → ℕ
pair_address hi lo = u32 (hi * 2 ^ 16 + sign_extended lo)

low_mask : (t : ℕ) → bit_and t 0xFFFF ≡ t % 2 ^ 16
low_mask t = bit_and-mask 16 t

high_mask : (t : ℕ) → t < 2 ^ 32 → bit_and t 0xFFFF0000 ≡ t / 2 ^ 16 * 2 ^ 16
high_mask t h = bit_and-field 16 t 0xFFFF ∙ omega (arith, bit_and-mask 16 (t / 2 ^ 16))

sign_bit : (a : ℕ) → bit_and a 0x8000 ≡ a / 2 ^ 15 % 2 * 2 ^ 15
sign_bit a = bit_and-field 15 a 1 ∙ omega (arith, bit_and-mask 1 (a / 2 ^ 15))

-- The high half is rounded, since the low half will be sign-extended.
round_high :
    (a : ℕ)
    → (if bit_and a 0x8000 == 0 then u16 (a >>> 16) else u16 (u16 (a >>> 16) + 1))
      ≡ (a + 2 ^ 15) / 2 ^ 16 % 2 ^ 16
round_high a = ground (arith, sign_bit a)

relocated_hi_lem :
    (hi lo sym_addr : ℕ)
    → hi < 2 ^ 16
    → lo < 2 ^ 16
    → relocated_hi hi lo sym_addr
      ≡ (u32 (hi * 2 ^ 16 + lo + (if ltb 0x8000 lo then 2 ^ 32 - 2 ^ 16 else 0) + sym_addr)
          + 2 ^ 15)
        / 2 ^ 16
        % 2 ^ 16
unfolding relocated_hi
relocated_hi_lem hi lo sym_addr hh hl =
    rw round_high (elim (Bool-cases (ltb 0x8000 lo)) [
      | inl e ↦ rw e (omega arith)
      | inr e ↦ rw e (omega arith)
    ])

relocate_lo16_lem :
    (t sym_addr : ℕ)
    → t < 2 ^ 32
    → relocate_lo16 t sym_addr ≡ t / 2 ^ 16 * 2 ^ 16 + (t % 2 ^ 16 + sym_addr) % 2 ^ 16
unfolding relocate_lo16
relocate_lo16_lem t sym_addr h =
    rw
      (
        low_mask t,
        high_mask t h,
        bit_or-field 16 (t / 2 ^ 16) (u16 (u16 (t % 2 ^ 16) + sym_addr)) (omega arith),
      )
      (omega arith)

relocated_hi-lt :
    (hi lo sym_addr : ℕ) → hi < 2 ^ 16 → lo < 2 ^ 16 → relocated_hi hi lo sym_addr < 2 ^ 16
relocated_hi-lt hi lo sym_addr p q = omega (arith, relocated_hi_lem hi lo sym_addr p q)

relocate_hi16_lem :
    (t lo sym_addr : ℕ)
    → t < 2 ^ 32
    → lo < 2 ^ 16
    → relocate_hi16 t (some lo) sym_addr
      ≡ t / 2 ^ 16 * 2 ^ 16 + relocated_hi (t % 2 ^ 16) lo sym_addr
unfolding relocate_hi16
relocate_hi16_lem t lo sym_addr h k =
    let small : u16 (t % 2 ^ 16) ≡ t % 2 ^ 16 = omega arith in
    let fits = relocated_hi-lt (t % 2 ^ 16) lo sym_addr (omega arith) k in
    rw (
      low_mask t,
      high_mask t h,
      small,
      bit_or-field 16 (t / 2 ^ 16) (relocated_hi (t % 2 ^ 16) lo sym_addr) fits,
    )

-- The two halves of an address, the high one rounded, make it again.
halves_join : (x : ℕ) → pair_address ((u32 x + 2 ^ 15) / 2 ^ 16 % 2 ^ 16) (x % 2 ^ 16) ≡ u32 x
halves_join x = ground arith

-- How an instruction pair is related to the relocated one: the operation codes are kept, and the
-- address that the pair makes has grown by `growth`.
pub record PairMoved (t_hi t_lo t_hi' t_lo' growth : ℕ) : Type 0 where
  pub hi_code : high_half t_hi' ≡ high_half t_hi
  pub lo_code : high_half t_lo' ≡ high_half t_lo
  pub address :
      pair_address (low_half t_hi') (low_half t_lo')
      ≡ u32 (pair_address (low_half t_hi) (low_half t_lo) + growth)

module _ (t_hi t_lo sym_addr : ℕ) (h : t_hi < 2 ^ 32) (k : t_lo < 2 ^ 32) where
  hi_word :
      relocate_hi16 t_hi (some (low_half t_lo)) sym_addr
      ≡ t_hi / 2 ^ 16 * 2 ^ 16 + relocated_hi (t_hi % 2 ^ 16) (low_half t_lo) sym_addr
  hi_word = relocate_hi16_lem t_hi (low_half t_lo) sym_addr h (omega arith)

  -- The address that the code splits into the two halves.
  abbrev target : ℕ
  target =
      t_hi % 2 ^ 16 * 2 ^ 16
      + low_half t_lo
      + (if ltb 0x8000 (low_half t_lo) then 2 ^ 32 - 2 ^ 16 else 0)
      + sym_addr

  moved_to_target :
      (growth : ℕ)
      → u32 target ≡ u32 (pair_address (low_half t_hi) (low_half t_lo) + growth)
      → PairMoved t_hi t_lo
          (relocate_hi16 t_hi (some (low_half t_lo)) sym_addr)
          (relocate_lo16 t_lo sym_addr)
          growth
  moved_to_target growth same =
      let hi =
        relocated_hi_lem (t_hi % 2 ^ 16) (low_half t_lo) sym_addr (omega arith) (omega arith) in
      let lo = relocate_lo16_lem t_lo sym_addr k in
      let low : low_half (relocate_lo16 t_lo sym_addr) ≡ target % 2 ^ 16 = ground (arith, lo) in
      let high : low_half (relocate_hi16 t_hi (some (low_half t_lo)) sym_addr)
          ≡ (u32 target + 2 ^ 15) / 2 ^ 16 % 2 ^ 16 =
        omega (arith, hi_word, hi) in
      record {
        hi_code = omega (arith, hi_word, hi);
        lo_code = omega (arith, lo);
        address = rw (high, low) (halves_join target ∙ same);
      }

  -- A pair of HI16 and LO16 relocations of two instruction words adds the symbol's address to the
  -- address that the two instructions make together, and keeps their operation codes, if the low
  -- half is not 0x8000.
  pub pair_moved :
      low_half t_lo ≢ 0x8000
      → PairMoved t_hi t_lo
          (relocate_hi16 t_hi (some (low_half t_lo)) sym_addr)
          (relocate_lo16 t_lo sym_addr)
          sym_addr
  pair_moved ne = moved_to_target sym_addr (ground arith)

  -- A pair of HI16 and LO16 relocations whose low half is 0x8000 keeps the operation codes, but its
  -- address grows by 0x10000 more than the symbol's address.
  pub pair_misplaced :
      low_half t_lo ≡ 0x8000
      → PairMoved t_hi t_lo
          (relocate_hi16 t_hi (some (low_half t_lo)) sym_addr)
          (relocate_lo16 t_lo sym_addr)
          (sym_addr + 2 ^ 16)
  pair_misplaced eq = moved_to_target (sym_addr + 2 ^ 16) (ground arith)

call_mask : (t : ℕ) → bit_and t 0x3FFFFFF ≡ t % 2 ^ 26
call_mask t = bit_and-mask 26 t

code_mask : (t : ℕ) → t < 2 ^ 32 → bit_and t 0xFC000000 ≡ t / 2 ^ 26 * 2 ^ 26
code_mask t h = bit_and-field 26 t 0x3F ∙ omega (arith, bit_and-mask 6 (t / 2 ^ 26))

word_mask : (a : ℕ) → bit_and a 0xFFFFFFC ≡ a / 4 % 2 ^ 26 * 4
word_mask a = bit_and-field 2 a 0x3FFFFFF ∙ omega (arith, bit_and-mask 26 (a / 4))

-- An R_MIPS_26 relocation of an instruction word keeps its operation code, and adds the symbol's
-- address to the byte address in the 256 MB region that the call jumps to, rounded down to a whole
-- instruction.
pub call_moved :
    (t sym_addr : ℕ)
    → t < 2 ^ 32
    → (relocate_26 t sym_addr / 2 ^ 26 ≡ t / 2 ^ 26)
      × (relocate_26 t sym_addr % 2 ^ 26 * 4 ≡ (t % 2 ^ 26 * 4 + sym_addr) % 2 ^ 28 / 4 * 4)
unfolding relocate_26
call_moved t sym_addr h =
    let target_addr = u32 (((t % 2 ^ 26) <<< 2) + sym_addr) in
    rw
      (
        call_mask t,
        code_mask t h,
        word_mask target_addr,
        bit_or-field 26 (t / 2 ^ 26) ((target_addr / 4 % 2 ^ 26 * 4) >>> 2) (omega arith),
      )
      (omega arith)

pub relocate_26-lt : (t sym_addr : ℕ) → t < 2 ^ 32 → relocate_26 t sym_addr < 2 ^ 32
relocate_26-lt t sym_addr h = omega (arith, call_moved t sym_addr h)

pub relocate_lo16-lt : (t sym_addr : ℕ) → t < 2 ^ 32 → relocate_lo16 t sym_addr < 2 ^ 32
relocate_lo16-lt t sym_addr h = omega (arith, relocate_lo16_lem t sym_addr h)

-- Without a low half the instruction is kept.
pub relocate_hi16-none : (t sym_addr : ℕ) → t < 2 ^ 32 → relocate_hi16 t none sym_addr ≡ t
unfolding relocate_hi16
relocate_hi16-none t sym_addr h =
    let small : u16 (t % 2 ^ 16) ≡ t % 2 ^ 16 = omega arith in
    rw (low_mask t, high_mask t h, small, bit_or-field 16 (t / 2 ^ 16) (t % 2 ^ 16) (omega arith))
      (omega arith)

pub relocate_hi16-some-lt :
    (t lo sym_addr : ℕ) → t < 2 ^ 32 → lo < 2 ^ 16 → relocate_hi16 t (some lo) sym_addr < 2 ^ 32
relocate_hi16-some-lt t lo sym_addr h k = omega (
  arith,
  relocate_hi16_lem t lo sym_addr h k,
  relocated_hi-lt (t % 2 ^ 16) lo sym_addr (omega arith) k,
)
