-- ===== src/Runtime/Start/Pointers.antt =====
-- The function pointers in the sections of constructors and destructors of a file.
use dragonuso.Common.{
  ℕ, zero, suc, ◌+◌, ◌-◌, ◌*◌, ◌/◌, ◌^◌, ◌≤◌, ◌≡◌, ◌≢◌, refl, ap, ◌∙◌, Bool, true, ◌&&◌, not, List,
  [], ◌∷◌, map, arith, ◌==◌, ltb, if◌then◌else◌, count_from,
}
use dragonuso.Common.Words.{u32}
use dragonuso.Bytes.{Bytes}
use dragonuso.Runtime.Ram.{
  load_u32, sections, section_entry, section_data, data_size, ctors_section, dtors_section,
}
use dragonuso.Runtime.Start.{pointers_up, pointers_down}

-- Whether a section holds code to run.
abbrev pub holds_functions : Bytes → ℕ → Bool
holds_functions m section = not (section_data m section == 0) && ltb 0 (data_size m section)

-- The section neither begins in the first four bytes of the address space nor ends in the last four,
-- so that the pointers of the loops over it do not wrap around.
abbrev pub FitsMemory : Bytes → ℕ → Type 0
FitsMemory m section =
    section_data m section ≢ 0
    → (4 ≤ section_data m section) × (section_data m section + data_size m section + 4 ≤ 2 ^ 32)

-- The constructors of a file as they are called: number `i` is the word that begins `i + 1` words in
-- front of the end of the section, and only whole words count.
unfoldable pub ctors_of : Bytes → ℕ → List ℕ
ctors_of m uso =
    let section = section_entry (sections m uso) (ctors_section m uso) in
    let end = section_data m section + data_size m section in
    if holds_functions m section
    then map (λ i. load_u32 m (end - (i + 1) * 4)) (count_from 0 (data_size m section / 4))
    else []

-- The destructors of a file as they are called: number `i` is the word `i` words behind the start of
-- the section, and a word that only begins in the section counts as well.
unfoldable pub dtors_of : Bytes → ℕ → List ℕ
dtors_of m uso =
    let section = section_entry (sections m uso) (dtors_section m uso) in
    if holds_functions m section
    then map (λ i. load_u32 m (section_data m section + i * 4))
        (count_from 0 ((data_size m section + 3) / 4))
    else []

map-pointers_up_from :
    (f : ℕ → ℕ) (start k n : ℕ)
    → map f (pointers_up (start + k * 4) n) ≡ map (λ i. f (start + i * 4)) (count_from k n)
unfolding pointers_up
map-pointers_up_from f start k zero = refl
map-pointers_up_from f start k (suc n) =
    let e : start + k * 4 + 4 ≡ start + suc k * 4 = omega arith in
    ap (λ a. f (start + k * 4) ∷ map f (pointers_up a n)) e
    ∙ ap (λ (rest : List ℕ). f (start + k * 4) ∷ rest) (map-pointers_up_from f start (suc k) n)

pub map-pointers_up :
    (f : ℕ → ℕ) (start n : ℕ)
    → map f (pointers_up start n) ≡ map (λ i. f (start + i * 4)) (count_from 0 n)
map-pointers_up f start n =
    let e : start ≡ start + 0 * 4 = omega arith in
    ap (λ a. map f (pointers_up a n)) e ∙ map-pointers_up_from f start 0 n

map-pointers_down_from :
    (f : ℕ → ℕ) (end k n : ℕ)
    → map f (pointers_down (end - k * 4) n) ≡ map (λ i. f (end - (i + 1) * 4)) (count_from k n)
unfolding pointers_down
map-pointers_down_from f end k zero = refl
map-pointers_down_from f end k (suc n) =
    let here : end - k * 4 - 4 ≡ end - (k + 1) * 4 = omega arith in
    let next : end - k * 4 - 4 ≡ end - suc k * 4 = omega arith in
    ap (λ a. f a ∷ map f (pointers_down (end - k * 4 - 4) n)) here
    ∙ ap (λ a. f (end - (k + 1) * 4) ∷ map f (pointers_down a n)) next
    ∙ ap (λ (rest : List ℕ). f (end - (k + 1) * 4) ∷ rest) (map-pointers_down_from f end (suc k) n)

pub map-pointers_down :
    (f : ℕ → ℕ) (end n : ℕ)
    → map f (pointers_down end n) ≡ map (λ i. f (end - (i + 1) * 4)) (count_from 0 n)
map-pointers_down f end n =
    let e : end ≡ end - 0 * 4 = omega arith in
    ap (λ a. map f (pointers_down a n)) e ∙ map-pointers_down_from f end 0 n

pub not_wrapped :
    (m : Bytes) (section : ℕ)
    → holds_functions m section ≡ true
    → FitsMemory m section
    → u32 (section_data m section + data_size m section)
      ≡ section_data m section + data_size m section
not_wrapped m section filled fits =
    let start : section_data m section ≢ 0 = ground (arith, filled) in
    let (low, high) = fits start in omega arith
