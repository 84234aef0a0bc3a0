-- ===== src/Externs/Unresolved.antt =====
-- The list of external symbols of tools/make_uso_externs.cpp, against a look at every export.
use dragonuso.Common.{
  ℕ, suc, ◌≡◌, refl, ◌∙◌, inl, inr, Bool, false, not, ◌&&◌, ◌||◌, List, [], ◌∷◌, ◌++◌, arith, ◌==◌,
  if◌then◌else◌, Bool-cases, All,
}
use mathlib.Core.List.{append-nil, append_assoc}
use dragonuso.StdLib.{Algorithms, IsSorted, any, equivalent}
use dragonuso.Text.{Str, str_eq}
use dragonuso.Text.Order.{str_eq_iff, not-ltb_self, eq_of_not-ltb}
use dragonuso.Externs.Read.{UsoSymbolInfo, UsoInfo}
use dragonuso.Externs.Generate.{
  uso_sym_compare, named, extern_from, uso_sym_is_extern, add_externs, externs_from,
  generate_uso_extern_list,
}

-- A file exports a name.
unfoldable pub exports_name : Str → UsoInfo → Bool
exports_name name u = any (λ s. str_eq s.name name) u.export_syms

-- Some file other than `uso_id` exports a name, among the files from index `i` on.
unfoldable pub exported_elsewhere : ℕ → Str → ℕ → List UsoInfo → Bool
exported_elsewhere uso_id name i [] = false
exported_elsewhere uso_id name i (u ∷ us) =
    (not (i == uso_id) && exports_name name u) || exported_elsewhere uso_id name (suc i) us

-- The names of these imports of file `i` that no other file exports.
unfoldable pub unresolved_in : List UsoInfo → ℕ → List UsoSymbolInfo → List Str
unresolved_in uso_list i [] = []
unresolved_in uso_list i (s ∷ ss) =
    let rest = unresolved_in uso_list i ss in
    if exported_elsewhere i s.name 0 uso_list then rest else s.name ∷ rest

-- The same for all files from index `i` on.
unfoldable pub unresolved : List UsoInfo → ℕ → List UsoInfo → List Str
unresolved uso_list i [] = []
unresolved uso_list i (u ∷ us) =
    unresolved_in uso_list i u.import_syms ++ unresolved uso_list (suc i) us

-- The exports of a file are sorted by name.
abbrev pub HasSortedExports : UsoInfo → Type 0
HasSortedExports u = IsSorted uso_sym_compare u.export_syms

equivalent-named :
    (name : Str) (s : UsoSymbolInfo)
    → equivalent uso_sym_compare (named name) s ≡ str_eq s.name name
unfolding uso_sym_compare
equivalent-named name s = elim (Bool-cases (str_eq s.name name)) [
  | inl e ↦
      let same : s.name ≡ name = (str_eq_iff s.name name).0 e in rw (e, same, not-ltb_self name)
  | inr e ↦ ground (arith, eq_of_not-ltb s.name name, str_eq_iff s.name name)
]

any-equivalent :
    (name : Str) (ss : List UsoSymbolInfo)
    → any (equivalent uso_sym_compare (named name)) ss ≡ any (λ s. str_eq s.name name) ss
any-equivalent name [] = refl
any-equivalent name (s ∷ ss) = rw (equivalent-named name s, any-equivalent name ss)

module _ (lib : Algorithms UsoSymbolInfo uso_sym_compare) where
  extern_from-exported_elsewhere :
      (uso_id : ℕ) (name : Str) (i : ℕ) (us : List UsoInfo)
      → All HasSortedExports us
      → extern_from lib uso_id name i us ≡ not (exported_elsewhere uso_id name i us)
  unfolding extern_from exported_elsewhere exports_name
  extern_from-exported_elsewhere uso_id name i [] sorted = refl
  extern_from-exported_elsewhere uso_id name i (u ∷ us) sorted =
      let found = lib.binary_search-any u.export_syms (named name) sorted.0 in
      let rest = extern_from-exported_elsewhere uso_id name (suc i) us sorted.1 in
      rw (found, any-equivalent name u.export_syms, rest) (ground arith)

  add_externs-unresolved_in :
      (uso_list : List UsoInfo) (i : ℕ) (externs : List Str) (ss : List UsoSymbolInfo)
      → All HasSortedExports uso_list
      → add_externs lib uso_list i externs ss ≡ externs ++ unresolved_in uso_list i ss
  unfolding add_externs unresolved_in uso_sym_is_extern
  add_externs-unresolved_in uso_list i externs [] sorted = rw append-nil
  add_externs-unresolved_in uso_list i externs (s ∷ ss) sorted =
      let step = extern_from-exported_elsewhere i s.name 0 uso_list sorted in
      elim (Bool-cases (exported_elsewhere i s.name 0 uso_list)) [
        | inl e ↦ rw (step, e) (add_externs-unresolved_in uso_list i externs ss sorted)
        | inr e ↦
            rw (step, e)
              (add_externs-unresolved_in uso_list i (externs ++ (s.name ∷ [])) ss sorted
                ∙ append_assoc externs (s.name ∷ []) (unresolved_in uso_list i ss))
      ]

  externs_from-unresolved :
      (uso_list : List UsoInfo) (i : ℕ) (externs : List Str) (us : List UsoInfo)
      → All HasSortedExports uso_list
      → externs_from lib uso_list i externs us ≡ externs ++ unresolved uso_list i us
  unfolding externs_from unresolved
  externs_from-unresolved uso_list i externs [] sorted = rw append-nil
  externs_from-unresolved uso_list i externs (u ∷ us) sorted =
      rw (add_externs-unresolved_in uso_list i externs u.import_syms sorted) (
        externs_from-unresolved uso_list (suc i) (externs ++ unresolved_in uso_list i u.import_syms)
          us sorted
        ∙ append_assoc externs (unresolved_in uso_list i u.import_syms)
            (unresolved uso_list (suc i) us))

  -- If the exports of every file are sorted by name, generate_uso_extern_list lists, file by file
  -- and in order, the names of exactly those imports that no other file exports.
  pub generate_uso_extern_list-unresolved :
      (uso_list : List UsoInfo)
      → All HasSortedExports uso_list
      → generate_uso_extern_list lib uso_list ≡ unresolved uso_list 0 uso_list
  unfolding generate_uso_extern_list
  generate_uso_extern_list-unresolved uso_list sorted =
      externs_from-unresolved uso_list 0 [] uso_list sorted
