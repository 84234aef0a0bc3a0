-- ===== src/Runtime/Handles/Pointer.antt =====
-- `uso_get_handle_ptr` of src/uso.c: the file that holds a pointer.
use dragonuso.Common.{
  ℕ, ◌+◌, ◌≤◌, ◌<◌, ◌≡◌, ◌≢◌, ◌⊎◌, refl, inl, inr, Bool, true, List, [], ◌∷◌, arith, Bool-cases,
}
use dragonuso.Common.Words.{u32}
use dragonuso.StdLib.Any.{any-found, any-at}
use dragonuso.Bytes.{Bytes}
use dragonuso.Runtime.Ram.{
  num_sections, sections, section_entry, section_data, data_size, handle_uso,
}
use dragonuso.Runtime.Machine.{Machine, done}
use dragonuso.Runtime.Handles.{section_holds, is_ptr_inside_uso, uso_get_handle_ptr}
use dragonuso.Runtime.Handles.Links.{IsLoaded}
use dragonuso.Runtime.Handles.Walk.{first_with, first_with-handle_ptr}

-- Some section of the file has an address, and the pointer lies in its bytes.
pub record HoldsPtr (m : Bytes) (uso ptr : ℕ) : Type 0 where
  pub index : ℕ
  pub in_table : index < num_sections m uso
  pub has_data : section_data m (section_entry (sections m uso) index) ≢ 0
  pub above : section_data m (section_entry (sections m uso) index) ≤ ptr
  pub below :
      (let entry = section_entry (sections m uso) index in
        ptr < u32 (section_data m entry + data_size m entry))

-- The number is the first of the list with the property, or 0 if none of them has it.
unfoldable pub FirstWith : (P : ℕ → Type 0) → List ℕ → ℕ → Type 0
FirstWith P [] h = h ≡ 0
FirstWith P (k ∷ ks) h = (P k × (h ≡ k)) ⊎ ((¬ P k) × FirstWith P ks h)

first_with-FirstWith :
    (test : ℕ → Bool) (P : ℕ → Type 0)
    → ((h : ℕ) → test h ≡ true → P h)
    → ((h : ℕ) → P h → test h ≡ true)
    → (hs : List ℕ) → FirstWith P hs (first_with test hs)
unfolding first_with FirstWith
first_with-FirstWith test P sound complete [] = refl
first_with-FirstWith test P sound complete (k ∷ ks) = elim (Bool-cases (test k)) [
  | inl e ↦ inl (sound k e, rw e)
  | inr e ↦
      rw e (inr (λ p. let f = complete k p in cc, first_with-FirstWith test P sound complete ks))
]

HoldsPtr-of_test :
    (m : Bytes) (uso ptr : ℕ) → is_ptr_inside_uso m uso ptr ≡ true → HoldsPtr m uso ptr
unfolding is_ptr_inside_uso section_holds
HoldsPtr-of_test m uso ptr e =
    let (i, low, high, at) =
      any-found (section_holds m (sections m uso) ptr) 0 (num_sections m uso) e in
    record {
      index = i;
      in_table = omega arith;
      has_data = ground (arith, at);
      above = ground (arith, at);
      below = ground (arith, at);
    }

HoldsPtr-test : (m : Bytes) (uso ptr : ℕ) → HoldsPtr m uso ptr → is_ptr_inside_uso m uso ptr ≡ true
unfolding is_ptr_inside_uso section_holds
HoldsPtr-test m uso ptr holds =
    any-at (section_holds m (sections m uso) ptr) 0 (num_sections m uso) holds.index (omega arith)
      (omega (arith, holds.in_table)) (ground (arith, holds.has_data, holds.above, holds.below))

-- On a list of loaded files, uso_get_handle_ptr answers the first handle in the order of loading of
-- a file that holds the pointer, and NULL if there is none: some section of the file, the first and
-- the last included, has an address other than NULL, and the pointer lies at or behind it and in
-- front of the end of the section, modulo 2 ^ 32.
pub uso_get_handle_ptr-FirstWith :
    (s : Machine) (hs : List ℕ)
    → IsLoaded s hs
    → (ptr : ℕ)
    → (h : ℕ) × (uso_get_handle_ptr s ptr ≡ done h)
      × FirstWith (λ k. HoldsPtr s.ram (handle_uso s.ram k) ptr) hs h
uso_get_handle_ptr-FirstWith s hs is ptr = (
  first_with (λ k. is_ptr_inside_uso s.ram (handle_uso s.ram k) ptr) hs,
  first_with-handle_ptr s hs is ptr,
  first_with-FirstWith _ (λ k. HoldsPtr s.ram (handle_uso s.ram k) ptr)
      (λ k. HoldsPtr-of_test s.ram (handle_uso s.ram k) ptr)
      (λ k. HoldsPtr-test s.ram (handle_uso s.ram k) ptr) hs,
)
