-- ===== src/Runtime/Api/Close.antt =====
-- `uso_open` and `uso_close` on the list of loaded files.
use dragonuso.Common.{
  ℕ, ◌+◌, ◌-◌, ◌≡◌, ◌≢◌, refl, sym, inl, inr, Bool, true, false, not, ◌&&◌, List, [], ◌∷◌, arith,
  ◌==◌, if◌then◌else◌, All, Bool-cases,
}
use mathlib.Core.Path.{subst}
use dragonuso.StdLib.{any}
use dragonuso.Bytes.{Apart}
use dragonuso.Runtime.Ram.{store_u32, handle_uso, ref_count, export_syms, import_syms}
use dragonuso.Runtime.Machine.{Machine, Env, done, null_read, assert_failed}
use dragonuso.Runtime.Handles.{imports_from, blocks_close, is_uso_closeable}
use dragonuso.Runtime.Handles.Chain.{Segment-frame, AreApart, Separate}
use dragonuso.Runtime.Handles.Links.{IsLoaded}
use dragonuso.Runtime.Handles.Walk.{visit_all, first_handle-visit_all, uso_is_handle_valid-any}
use dragonuso.Runtime.Api.{uso_close, unload}

-- Another file of the list imports a symbol that the file of `handle` exports.
unfoldable pub in_use : Env → Machine → ℕ → List ℕ → Bool
in_use env s handle hs =
    any
      (λ h.
        not (h == handle)
        && imports_from env s.ram (import_syms s.ram (handle_uso s.ram h))
            (export_syms s.ram (handle_uso s.ram handle)))
      hs

module _ (env : Env) (s : Machine) (handle : ℕ) where
  visit_all-blocks_close :
      (hs : List ℕ)
      → export_syms s.ram (handle_uso s.ram handle) ≢ 0
      → visit_all (blocks_close env s handle) hs ≡ done (if in_use env s handle hs then 1 else 0)
  unfolding visit_all blocks_close in_use
  visit_all-blocks_close [] exports = refl
  visit_all-blocks_close (h ∷ hs) exports =
      let some : (export_syms s.ram (handle_uso s.ram handle) == 0) ≡ false = ground arith in
      let rest = visit_all-blocks_close hs exports in
      elim (Bool-cases (h == handle)) [
        | inl e ↦ rw (e, rest)
        | inr e ↦
            elim (Bool-cases (
              imports_from env s.ram (import_syms s.ram (handle_uso s.ram h))
                (export_syms s.ram (handle_uso s.ram handle)))) [
                  | inl f ↦ rw (e, some, f)
                  | inr f ↦ rw (e, some, f, rest)
                ]
      ]

  module _ (hs : List ℕ) (is : IsLoaded s hs) where
    pub is_uso_closeable-in_use :
        export_syms s.ram (handle_uso s.ram handle) ≢ 0
        → is_uso_closeable env s handle ≡ done (not (in_use env s handle hs))
    unfolding is_uso_closeable
    is_uso_closeable-in_use exports =
        rw
          (
            first_handle-visit_all (blocks_close env s handle) s hs is,
            visit_all-blocks_close hs exports,
          )
          (elim (Bool-cases (in_use env s handle hs)) [ inl e ↦ rw e | inr e ↦ rw e ])

    pub uso_close-invalid :
        any (λ h. h == handle) hs ≡ false → uso_close env s handle ≡ assert_failed
    unfolding uso_close
    uso_close-invalid invalid = rw (uso_is_handle_valid-any s hs is handle, invalid)

pub All-any :
    (P : ℕ → Type 0) (handle : ℕ) (hs : List ℕ)
    → any (λ h. h == handle) hs ≡ true
    → All P hs
    → P handle
All-any P handle [] mem all = cc
All-any P handle (h ∷ hs) mem all = elim (Bool-cases (h == handle)) [
  | inl e ↦ let same : h ≡ handle = ground arith in subst P same all.0
  | inr e ↦ All-any P handle hs (rw e at mem) all.1
]

Apart-links :
    (handle : ℕ) (hs : List ℕ) → All (AreApart handle) hs → All (λ h. Apart h 8 (handle + 12) 4) hs
Apart-links handle [] all = tt
Apart-links handle (h ∷ hs) all = (omega (arith, all.0), Apart-links handle hs all.1)

-- The reference count of a file in the list lies outside the links of the list.
count-Apart :
    (handle : ℕ) (hs : List ℕ)
    → any (λ h. h == handle) hs ≡ true
    → Separate hs
    → All (λ h. Apart h 8 (handle + 12) 4) hs
count-Apart handle [] mem sep = cc
count-Apart handle (h ∷ hs) mem sep = elim (Bool-cases (h == handle)) [
  | inl e ↦
      let same : h ≡ handle = ground arith in
      (omega arith, Apart-links handle hs (subst (λ (k : ℕ). All (AreApart k) hs) same sep.0))
  | inr e ↦
      let rest = rw e at mem in
      (omega (arith, All-any (AreApart h) handle hs rest sep.0), count-Apart handle hs rest sep.1)
]

-- The state with another reference count of a file.
abbrev pub with_count : Machine → ℕ → ℕ → Machine
with_count s handle count = record s { ram = store_u32 s.ram (handle + 12) count }

pub with_count-IsLoaded :
    (s : Machine) (handle count : ℕ) (hs : List ℕ)
    → any (λ h. h == handle) hs ≡ true
    → IsLoaded s hs
    → IsLoaded (with_count s handle count) hs
with_count-IsLoaded s handle count hs mem is = record {
  chain =
      Segment-frame s.ram (handle + 12) count 0 s.list_head s.list_tail 0 hs
        (count-Apart handle hs mem is.separate) is.chain;
  separate = is.separate;
}

-- The state after `uso_close` has given one reference back.
abbrev pub released : Machine → ℕ → Machine
released s handle =
    if ref_count s.ram handle == 0 then s else with_count s handle (ref_count s.ram handle - 1)

pub released-IsLoaded :
    (s : Machine) (handle : ℕ) (hs : List ℕ)
    → any (λ h. h == handle) hs ≡ true
    → IsLoaded s hs
    → IsLoaded (released s handle) hs
released-IsLoaded s handle hs mem is = elim (Bool-cases (ref_count s.ram handle == 0)) [
  | inl e ↦
      subst
        (λ (b : Bool).
          IsLoaded (if b then s else with_count s handle (ref_count s.ram handle - 1)) hs)
        (sym e) is
  | inr e ↦
      subst
        (λ (b : Bool).
          IsLoaded (if b then s else with_count s handle (ref_count s.ram handle - 1)) hs)
        (sym e) (with_count-IsLoaded s handle (ref_count s.ram handle - 1) hs mem is)
]

module _ (env : Env) (s : Machine) (handle : ℕ) (hs : List ℕ) (is : IsLoaded s hs) where
  pub uso_close-loaded :
      any (λ h. h == handle) hs ≡ true
      → export_syms (released s handle).ram (handle_uso (released s handle).ram handle) ≢ 0
      → uso_close env s handle
        ≡ done (
            if not (in_use env (released s handle) handle hs)
              && ref_count (released s handle).ram handle == 0
            then unload env (released s handle) handle
            else released s handle)
  unfolding uso_close
  uso_close-loaded mem exports = rw (
    uso_is_handle_valid-any s hs is handle,
    mem,
    is_uso_closeable-in_use env (released s handle) handle hs (released-IsLoaded s handle hs mem is)
        exports,
  )

module _ (env : Env) (s : Machine) (handle : ℕ) where
  visit_all-null_read :
      (hs : List ℕ)
      → export_syms s.ram (handle_uso s.ram handle) ≡ 0
      → any (λ h. not (h == handle)) hs ≡ true
      → visit_all (blocks_close env s handle) hs ≡ null_read
  unfolding visit_all blocks_close
  visit_all-null_read [] no_exports others = cc
  visit_all-null_read (h ∷ hs) no_exports others = elim (Bool-cases (h == handle)) [
    | inl e ↦ rw e (visit_all-null_read hs no_exports (rw e at others))
    | inr e ↦ rw (e, no_exports)
  ]

  -- On a list of loaded files in which some file is not that of the handle, is_uso_closeable of a
  -- file without an export table reads through a NULL pointer.
  pub is_uso_closeable-null_read :
      (hs : List ℕ)
      → IsLoaded s hs
      → export_syms s.ram (handle_uso s.ram handle) ≡ 0
      → any (λ h. not (h == handle)) hs ≡ true
      → is_uso_closeable env s handle ≡ null_read
  unfolding is_uso_closeable
  is_uso_closeable-null_read hs is no_exports others = rw (
    first_handle-visit_all (blocks_close env s handle) s hs is,
    visit_all-null_read hs no_exports others,
  )
