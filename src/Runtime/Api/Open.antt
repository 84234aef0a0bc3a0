-- ===== src/Runtime/Api/Open.antt =====
-- `uso_open` of a file that is loaded already, and `uso_close` behind it.
use dragonuso.Common.{
  ℕ, ◌+◌, ◌-◌, ◌<◌, ◌^◌, ◌≡◌, ◌≢◌, refl, sym, ap, ◌∙◌, inl, inr, Bool, true, false, List, [], ◌∷◌,
  arith, ◌==◌, Bool-cases,
}
use mathlib.Core.Path.{subst, fun_ext}
use dragonuso.Common.Words.{u32}
use dragonuso.StdLib.{any}
use dragonuso.Text.{Str, str_eq}
use dragonuso.Bytes.{Bytes, put}
use dragonuso.Runtime.Ram.{load_u32, store_u32, handle_uso, handle_name, ref_count, export_syms}
use dragonuso.Runtime.Ram.Laws.{IsRam, load_u32-store_self}
use dragonuso.Runtime.Machine.{Machine, Env, done, ◌>>=◌}
use dragonuso.Runtime.Handles.Links.{IsLoaded}
use dragonuso.Runtime.Handles.Walk.{first_with, uso_get_handle-first_with}
use dragonuso.Runtime.Api.{uso_open, uso_close}
use dragonuso.Runtime.Api.Close.{
  with_count, released, with_count-IsLoaded, uso_close-loaded, in_use,
}

-- The first handle of the list that has the name of a file.
abbrev pub handle_of : Machine → Str → List ℕ → ℕ
handle_of s filename hs = first_with (λ h. str_eq (handle_name s.ram h) filename) hs

pub first_with-any :
    (test : ℕ → Bool) (handle : ℕ) (hs : List ℕ)
    → first_with test hs ≡ handle
    → handle ≢ 0
    → any (λ h. h == handle) hs ≡ true
unfolding first_with
first_with-any test handle [] found nonnull = absurd (nonnull (sym found))
first_with-any test handle (h ∷ hs) found nonnull = ground (arith, first_with-any test handle hs)

-- A word that is stored, and then stored again as it was.
store_back : (m : Bytes) (a v : ℕ) → IsRam m → store_u32 (store_u32 m a v) a (load_u32 m a) ≡ m
unfolding store_u32 load_u32 put
store_back m a v ram = fun_ext λ x. ground (arith, ram a, ram (a + 1), ram (a + 2), ram (a + 3))

module _ (env : Env) (s : Machine) (hs : List ℕ) (is : IsLoaded s hs) (initted : s.initted ≡ true)
    (filename : Str) (loaded : handle_of s filename hs ≢ 0) where
  uso_open-loaded :
      uso_open env s filename
      ≡ done (
        with_count s
            (handle_of s filename hs)
            (u32 (ref_count s.ram (handle_of s filename hs) + 1)),
        handle_of s filename hs,
      )
  unfolding uso_open
  uso_open-loaded =
      let some : (handle_of s filename hs == 0) ≡ false = ground arith in
      rw (uso_get_handle-first_with s hs is filename, some, initted)

  abbrev handle : ℕ
  handle = handle_of s filename hs

  abbrev opened : Machine
  opened = with_count s handle (ref_count s.ram handle + 1)

  module _ (positive : 0 < ref_count s.ram handle)
      (small : ref_count s.ram handle + 1 < 2 ^ 32) where
    opened_count : ref_count opened.ram handle ≡ ref_count s.ram handle + 1
    opened_count = load_u32-store_self s.ram (handle + 12) (ref_count s.ram handle + 1) small

    released-opened : released opened handle ≡ with_count opened handle (ref_count s.ram handle)
    released-opened =
        let some : (ref_count s.ram handle + 1 == 0) ≡ false = ground arith in
        let less : ref_count s.ram handle + 1 - 1 ≡ ref_count s.ram handle = omega arith in
        rw (opened_count, some, less)

    closed : IsRam s.ram → released opened handle ≡ s
    closed ram =
        released-opened
        ∙ ap (λ (m : Bytes). record s { ram = m })
            (store_back s.ram (handle + 12) (ref_count s.ram handle + 1) ram)

    -- On a list of loaded files, when the library is initialized, a file of the name is loaded with
    -- a positive reference count below 2 ^ 32 - 1 and an export table, and the memory holds bytes,
    -- uso_open of the name followed by uso_close of the handle succeeds and leaves the state as it
    -- was.
    pub uso_close-uso_open :
        IsRam s.ram
        → export_syms s.ram (handle_uso s.ram handle) ≢ 0
        → (do (s', h) ← uso_open env s filename; uso_close env s' h) ≡ done s
    uso_close-uso_open ram exports =
        let mem =
          first_with-any (λ h. str_eq (handle_name s.ram h) filename) handle hs refl loaded in
        let fits : u32 (ref_count s.ram handle + 1) ≡ ref_count s.ram handle + 1 = omega arith in
        let nonzero : (ref_count s.ram handle == 0) ≡ false = ground arith in
        rw
          (
            uso_open-loaded,
            fits,
            uso_close-loaded env opened handle hs
                (with_count-IsLoaded s handle (ref_count s.ram handle + 1) hs mem is) mem
                (subst (λ (s' : Machine). export_syms s'.ram (handle_uso s'.ram handle) ≢ 0)
                  (sym (closed ram)) exports),
            closed ram,
            nonzero,
          )
          (elim (Bool-cases (in_use env s handle hs)) [ inl e ↦ rw e | inr e ↦ rw e ])
