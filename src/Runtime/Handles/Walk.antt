-- ===== src/Runtime/Handles/Walk.antt =====
-- The walks over the list of loaded files, on the list of handles that it stands for.
use dragonuso.Common.{
  ℕ, zero, suc, ◌<◌, ◌^◌, ◌≡◌, ◌≢◌, refl, ◌∙◌, inl, inr, Bool, false, List, [], ◌∷◌, arith, ◌==◌,
  if◌then◌else◌, length, All, Bool-cases,
}
use dragonuso.StdLib.{any}
use dragonuso.Text.{Str, str_eq}
use dragonuso.Bytes.{Bytes}
use dragonuso.Runtime.Ram.{handle_next, handle_uso, handle_name}
use dragonuso.Runtime.Machine.{Machine, Run, done, ◌>>=◌}
use dragonuso.Runtime.Search.{walk_handles, first_handle}
use dragonuso.Runtime.Handles.{
  is_ptr_inside_uso, uso_get_handle, uso_get_handle_ptr, uso_is_handle_valid,
}
use dragonuso.Runtime.Handles.Chain.{Segment}
use dragonuso.Runtime.Handles.Links.{IsLoaded}
use dragonuso.Runtime.Handles.Few.{IsLoaded-few}

-- Visits in order, up to the first that is not 0.
unfoldable pub visit_all : (visit : ℕ → Run ℕ) → List ℕ → Run ℕ
visit_all visit [] = done 0
visit_all visit (h ∷ hs) = do
  found ← visit h
  (if found == 0 then visit_all visit hs else done found)

-- The first handle for which the test holds, or NULL.
unfoldable pub first_with : (test : ℕ → Bool) → List ℕ → ℕ
first_with test [] = 0
first_with test (h ∷ hs) = if test h then h else first_with test hs

walk-visit_all :
    (visit : ℕ → Run ℕ) (fuel : ℕ) (m : Bytes) (p c q : ℕ) (hs : List ℕ)
    → Segment m p c hs q 0
    → length hs < fuel
    → walk_handles visit fuel m c ≡ visit_all visit hs
unfolding walk_handles visit_all
walk-visit_all visit zero m p c q hs seg enough = absurd (omega arith)
walk-visit_all visit (suc fuel) m p c q [] seg enough = rw (seg.0)
walk-visit_all visit (suc fuel) m p c q (h ∷ hs) seg enough =
    let here : c ≡ h = seg.0 in
    let some : (h == 0) ≡ false = ground (arith, seg.1) in
    let rest = walk-visit_all visit fuel m h (handle_next m h) q hs seg.4 (omega arith) in
    rw (here, some, rest)

-- On a list of loaded files, the walk of the library, from which it answers every question on the
-- list, ends before its fuel of 2 ^ 32 does: it visits the handles in order, up to the first with
-- an answer other than 0.
pub first_handle-visit_all :
    (visit : ℕ → Run ℕ) (s : Machine) (hs : List ℕ)
    → IsLoaded s hs
    → first_handle visit s ≡ visit_all visit hs
unfolding first_handle
first_handle-visit_all visit s hs is =
    walk-visit_all visit (2 ^ 32) s.ram 0 s.list_head s.list_tail hs is.chain (IsLoaded-few s hs is)

-- A visit that answers with the handle itself.
visit_all-first_with :
    (test : ℕ → Bool) (hs : List ℕ)
    → All (λ h. h ≢ 0) hs
    → visit_all (λ h. done (if test h then h else 0)) hs ≡ done (first_with test hs)
unfolding visit_all first_with
visit_all-first_with test [] nonnull = refl
visit_all-first_with test (h ∷ hs) nonnull = elim (Bool-cases (test h)) [
  | inl e ↦ let some : (h == 0) ≡ false = ground (arith, nonnull.0) in rw (e, some)
  | inr e ↦ rw e (visit_all-first_with test hs nonnull.1)
]

-- A visit that answers 1 or 0.
visit_all-any :
    (test : ℕ → Bool) (hs : List ℕ)
    → visit_all (λ h. done (if test h then 1 else 0)) hs ≡ done (if any test hs then 1 else 0)
unfolding visit_all
visit_all-any test [] = refl
visit_all-any test (h ∷ hs) = elim (Bool-cases (test h)) [
  | inl e ↦ rw e
  | inr e ↦ rw e (visit_all-any test hs)
]

nonnull_handles :
    (m : Bytes) (p c q d : ℕ) (hs : List ℕ) → Segment m p c hs q d → All (λ h. h ≢ 0) hs
nonnull_handles m p c q d [] seg = tt
nonnull_handles m p c q d (h ∷ hs) seg = (seg.1, nonnull_handles m h (handle_next m h) q d hs seg.4)

module _ (s : Machine) (hs : List ℕ) (is : IsLoaded s hs) where
  -- On a list of loaded files, uso_is_handle_valid answers whether the handle is in the list.
  pub uso_is_handle_valid-any :
      (handle : ℕ) → uso_is_handle_valid s handle ≡ done (any (λ h. h == handle) hs)
  unfolding uso_is_handle_valid
  uso_is_handle_valid-any handle =
      rw
        (
          first_handle-visit_all (λ curr. done (if curr == handle then 1 else 0)) s hs is,
          visit_all-any (λ curr. curr == handle) hs,
        )
        (elim (Bool-cases (any (λ h. h == handle) hs)) [ inl e ↦ rw e | inr e ↦ rw e ])

  -- On a list of loaded files, uso_get_handle answers the first handle in the order of loading
  -- whose name is the given one, and NULL if there is none.
  pub uso_get_handle-first_with :
      (filename : Str)
      → uso_get_handle s filename
        ≡ done (first_with (λ h. str_eq (handle_name s.ram h) filename) hs)
  unfolding uso_get_handle
  uso_get_handle-first_with filename =
      first_handle-visit_all
        (λ curr. done (if str_eq (handle_name s.ram curr) filename then curr else 0)) s hs is
      ∙ visit_all-first_with (λ h. str_eq (handle_name s.ram h) filename) hs
          (nonnull_handles s.ram 0 s.list_head s.list_tail 0 hs is.chain)

  pub first_with-handle_ptr :
      (ptr : ℕ)
      → uso_get_handle_ptr s ptr
        ≡ done (first_with (λ h. is_ptr_inside_uso s.ram (handle_uso s.ram h) ptr) hs)
  unfolding uso_get_handle_ptr
  first_with-handle_ptr ptr =
      first_handle-visit_all
        (λ curr. done (if is_ptr_inside_uso s.ram (handle_uso s.ram curr) ptr then curr else 0)) s
        hs is
      ∙ visit_all-first_with (λ h. is_ptr_inside_uso s.ram (handle_uso s.ram h) ptr) hs
          (nonnull_handles s.ram 0 s.list_head s.list_tail 0 hs is.chain)
