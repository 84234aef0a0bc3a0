-- ===== src/Runtime/Api/Fixed.antt =====
-- `fixup_uso` of src/uso.c to its end.
use dragonuso.Common.{
  ℕ, ◌+◌, ◌*◌, ◌<◌, ◌≡◌, ◌≢◌, refl, sym, ap, ◌∙◌, inl, inr, Bool, true, false, not, List, arith,
  ◌==◌, count_from, All, Bool-cases,
}
use dragonuso.Common.Words.{u32}
use dragonuso.StdLib.{any}
use dragonuso.Bytes.{Bytes, Apart}
use dragonuso.Bsearch.{IsBsearch}
use dragonuso.Runtime.Ram.{import_syms, table_length, table_entry, symbol_name}
use dragonuso.Runtime.Ram.Laws.{IsRam}
use dragonuso.Runtime.Machine.{Machine, Env, done}
use dragonuso.Runtime.Search.Lookup.{IsSortedTable}
use dragonuso.Runtime.Search.Frame.{StringApart, TableApart}
use dragonuso.Runtime.Handles.Links.{IsLoaded}
use dragonuso.Runtime.Handles.Resolve.{exports_of}
use dragonuso.Runtime.Handles.Frame.{FileApart}
use dragonuso.Runtime.Fixup.{ptr_fixup, fixup_import_syms}
use dragonuso.Runtime.Fixup.Resolved.{
  unresolved, ResolvedImports, fixup_import_syms-ResolvedImports,
}
use dragonuso.Runtime.Reloc.{link_uso}
use dragonuso.Runtime.Reloc.Link.{KeepsLinks, link_uso-EndsSame}
use dragonuso.Runtime.Api.{fixup_imports, fixup_tables, fixup_uso}

-- The state of `fixup_uso` in front of its import step, with the pointer to the imports.
abbrev pub before_imports : Machine → (uso noload_base : ℕ) → Machine
before_imports s uso noload_base = record s {
  ram = ptr_fixup (fixup_tables s.ram uso noload_base) (uso + 8) uso;
}

-- What the import step of a file with a table of imports relies on: the tables of the loaded files
-- and of the main program are sorted, and neither they nor the names of the imports meet the
-- entries of the imports.
pub record CanImport (s : Machine) (hs : List ℕ) (table : ℕ) : Type 0 where
  pub ram : IsRam s.ram
  pub loaded : IsLoaded s hs
  pub sorted : All (λ h. IsSortedTable s.ram (exports_of s.ram h)) hs
  pub global_sorted : IsSortedTable s.ram s.global_symbol_table
  pub files : All (FileApart s.ram (table + 4) (table_length s.ram table * 12)) hs
  pub global : TableApart s.ram (table + 4) (table_length s.ram table * 12) s.global_symbol_table
  pub names :
      (i : ℕ)
      → i < table_length s.ram table
      → StringApart s.ram
          (u32 (table + symbol_name s.ram (table_entry table i)))
          (table + 4)
          (table_length s.ram table * 12)

module _ (env : Env) (s : Machine) (hs : List ℕ) (uso noload_base : ℕ) (Kept : ℕ → Type 0)
    (is_bsearch : IsBsearch env.bsearch) where
  abbrev started : Machine
  started = before_imports s uso noload_base

  abbrev table : ℕ
  table = import_syms started.ram uso

  abbrev entries : ℕ
  entries = table_length started.ram table

  abbrev answer : Bool
  answer = not (any (unresolved started hs table) (count_from 0 entries))

  fixup_uso-failed :
      (t : Machine)
      → import_syms (fixup_tables s.ram uso noload_base) uso ≢ 0
      → fixup_import_syms env started table ≡ done (t, false)
      → fixup_uso env s uso noload_base ≡ done (t, false)
  unfolding fixup_uso fixup_imports
  fixup_uso-failed t there step =
      let filled : (import_syms (fixup_tables s.ram uso noload_base) uso == 0) ≡ false =
        ground (arith, there) in
      rw (filled, step)

  fixup_uso-linked :
      (t : Machine) (m' : Bytes)
      → import_syms (fixup_tables s.ram uso noload_base) uso ≢ 0
      → fixup_import_syms env started table ≡ done (t, true)
      → link_uso t.ram uso ≡ done m'
      → fixup_uso env s uso noload_base ≡ done (record t { ram = m' }, true)
  unfolding fixup_uso fixup_imports
  fixup_uso-linked t m' there step linked =
      let filled : (import_syms (fixup_tables s.ram uso noload_base) uso == 0) ≡ false =
        ground (arith, there) in
      rw (filled, step, linked)

  -- What `fixup_uso` leaves: the imports are resolved; if none is missing, the memory is what
  -- `link_uso` makes of it, and only bytes at other addresses than the kept ones change.
  pub record FixedUso (s' : Machine) : Type 0 where
    pub resolved : Machine
    pub imports : ResolvedImports started hs table resolved
    pub others : s' ≡ record resolved { ram = s'.ram }
    pub linked : answer ≡ true → link_uso resolved.ram uso ≡ done s'.ram
    pub unlinked : answer ≡ false → s' ≡ resolved
    pub same : (x : ℕ) → Kept x → s'.ram x ≡ started.ram x

  -- `fixup_uso` of a file with imports returns, and answers that every import that is not weak was
  -- found: the imports are resolved and the missing ones reported as by fixup_import_syms; if none
  -- is missing, link_uso then runs to its end and leaves the memory that fixup_uso ends with, and
  -- else the state stays as the import step leaves it; nothing else of the state changes, and no
  -- byte at a kept address after the import table is pointed to, if the header of the file, the
  -- entries of its sections and its tables of relocations lie at kept addresses, these are apart
  -- from the targets of the relocations and from the entries of the imports, all relocations have
  -- known types, the tables of the loaded files and of the main program are sorted by name, each
  -- name once, and neither they nor the names of the imports meet the entries of the imports; with
  -- a bsearch that behaves as documented and a memory of bytes.
  pub fixup_uso-FixedUso :
      import_syms (fixup_tables s.ram uso noload_base) uso ≢ 0
      → CanImport started hs table
      → KeepsLinks Kept started.ram uso
      → ((x : ℕ) → Kept x → Apart x 1 (table + 4) (entries * 12))
      → (s' : Machine) × (fixup_uso env s uso noload_base ≡ done (s', answer)) × FixedUso s'
  fixup_uso-FixedUso there can keeps apart =
      let (t, step, imports) =
        fixup_import_syms-ResolvedImports env started hs table is_bsearch can.loaded can.sorted
          can.global_sorted can.files can.global can.names can.ram in
      let (m', linked, same) =
        link_uso-EndsSame Kept started.ram uso keeps t.ram
          (λ x at. imports.outside x (apart x at)) in
      elim (Bool-cases answer) [
        | inl all_found ↦ (
          record t { ram = m' },
          fixup_uso-linked t m' there (step ∙ ap (λ (b : Bool). done (t, b)) all_found) linked
              ∙ ap (λ (b : Bool). done (record t { ram = m' }, b)) (sym all_found),
          record {
            resolved = t;
            imports = imports;
            others = refl;
            linked = λ found. linked;
            unlinked = λ missing. cc;
            same = same;
          },
        )
        | inr some_missing ↦ (
          t,
          fixup_uso-failed t there (step ∙ ap (λ (b : Bool). done (t, b)) some_missing)
              ∙ ap (λ (b : Bool). done (t, b)) (sym some_missing),
          record {
            resolved = t;
            imports = imports;
            others = refl;
            linked = λ found. cc;
            unlinked = λ missing. refl;
            same = λ x at. imports.outside x (apart x at);
          },
        )
      ]
