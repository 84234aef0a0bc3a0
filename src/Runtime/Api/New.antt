-- ===== src/Runtime/Api/New.antt =====
-- `uso_open` of src/uso.c for a file with imports that is not loaded yet.
use dragonuso.Common.{
  ℕ, ◌+◌, ◌*◌, ◌≤◌, ◌<◌, ◌^◌, ◌≡◌, ◌≢◌, refl, sym, ap, ◌∙◌, Bool, true, false, not, some, List, [],
  ◌∷◌, ◌++◌, if◌then◌else◌, count_from, All, All-map,
}
use mathlib.Core.Path.{subst}
use dragonuso.StdLib.{any}
use dragonuso.Bytes.{Apart}
use dragonuso.Bsearch.{IsBsearch}
use dragonuso.Text.{Str}
use dragonuso.Runtime.Ram.{import_syms, table_length}
use dragonuso.Runtime.Machine.{Machine, Env, Run, done, assert_failed}
use dragonuso.Runtime.Handles.Chain.{AreApart, Segment, Segment-ext}
use dragonuso.Runtime.Handles.Links.{IsLoaded}
use dragonuso.Runtime.Handles.Walk.{uso_get_handle-first_with}
use dragonuso.Runtime.Fixup.{get_uso_noload_start}
use dragonuso.Runtime.Fixup.Resolved.{unresolved}
use dragonuso.Runtime.Reloc.Link.{KeepsLinks}
use dragonuso.Runtime.Api.{fixup_tables, load_file, read_load_info, open_new, uso_open, finish_open}
use dragonuso.Runtime.Api.Open.{handle_of}
use dragonuso.Runtime.Api.Loaded.{KeepsList, emit-IsLoaded, finish_open-IsLoaded}
use dragonuso.Runtime.Api.Fixed.{before_imports, CanImport, FixedUso, fixup_uso-FixedUso}

if_ready : {A : Type 0} (b : Bool) (r : Run A) → b ≡ true → (if b then r else assert_failed) ≡ r
if_ready true r ready = refl
if_ready false r ready = cc

-- A file that is not loaded is opened.
uso_open-open_new :
    (env : Env) (s : Machine) (filename : Str) (hs bytes : List ℕ)
    → s.initted ≡ true
    → IsLoaded s hs
    → handle_of s filename hs ≡ 0
    → env.fopen filename ≡ some bytes
    → uso_open env s filename ≡ open_new env s filename bytes
unfolding uso_open
uso_open-open_new env s filename hs bytes ready is new there =
    if_ready s.initted _ ready ∙ rw (uso_get_handle-first_with s hs is filename, new, there) refl

module _ (Kept : ℕ → Type 0) where
  -- The links of a handle are kept.
  abbrev pub KeepsHandle : ℕ → Type 0
  KeepsHandle h = (x : ℕ) → h ≤ x → x < h + 8 → Kept x

module _ (env : Env) (s : Machine) (filename : Str) (hs bytes : List ℕ) where
  abbrev pub new_handle : ℕ
  new_handle = (load_file env s filename bytes).1

  abbrev new_uso : ℕ
  new_uso = (load_file env s filename bytes).2

  abbrev loaded : Machine
  loaded = (load_file env s filename bytes).0

  abbrev noload_base : ℕ
  noload_base = get_uso_noload_start (read_load_info bytes) new_uso

  -- The state in front of the import step, and the table of imports.
  abbrev pub started : Machine
  started = before_imports loaded new_uso noload_base

  abbrev pub imports : ℕ
  imports = import_syms started.ram new_uso

  -- Every import that is not weak is found.
  abbrev pub all_found : Bool
  all_found =
      not (any (unresolved started hs imports) (count_from 0 (table_length started.ram imports)))

  module _ (Kept : ℕ → Type 0) (is_bsearch : IsBsearch env.bsearch) where
    -- What the bytes of the new file and its place in memory have to be like.
    pub record CanOpen : Type 0 where
      pub has_imports : import_syms (fixup_tables loaded.ram new_uso noload_base) new_uso ≢ 0
      pub can_import : CanImport started hs imports
      pub links : KeepsLinks Kept started.ram new_uso
      pub entries :
          (x : ℕ) → Kept x → Apart x 1 (imports + 4) (table_length started.ram imports * 12)
      pub handles : All (KeepsHandle Kept) hs
      pub nonnull : new_handle ≢ 0
      pub fits : new_handle < 2 ^ 32
      pub apart : All (λ k. AreApart k new_handle) hs

    fixed-IsLoaded :
        (t : Machine)
        → CanOpen
        → FixedUso env loaded hs new_uso noload_base Kept is_bsearch t
        → IsLoaded t hs
    fixed-IsLoaded t can fixed =
        let head : t.list_head ≡ started.list_head =
          ap (λ (u : Machine). u.list_head) fixed.others
          ∙ ap (λ (u : Machine). u.list_head) fixed.imports.others in
        let tail : t.list_tail ≡ started.list_tail =
          ap (λ (u : Machine). u.list_tail) fixed.others
          ∙ ap (λ (u : Machine). u.list_tail) fixed.imports.others in
        record {
          chain =
              subst (λ (c : ℕ). Segment t.ram 0 c hs t.list_tail 0) (sym head)
                (subst (λ (q : ℕ). Segment t.ram 0 started.list_head hs q 0) (sym tail)
                  (Segment-ext started.ram t.ram 0 started.list_head started.list_tail 0 hs
                    (All-map hs (λ h keeps x lo hi. fixed.same x (keeps x lo hi)) can.handles)
                    can.can_import.loaded.chain));
          separate = can.can_import.loaded.separate;
        }

    finished :
        (t : Machine) (answer : Bool)
        → CanOpen
        → KeepsList env (hs ++ new_handle ∷ [])
        → IsLoaded t hs
        → (s' : Machine) × (finish_open env filename new_handle (t, answer)
            ≡ done (s', if answer then new_handle else 0))
          × IsLoaded s' (if answer then hs ++ new_handle ∷ [] else hs)
    unfolding finish_open
    finished t true can keeps is =
        finish_open-IsLoaded env t filename hs new_handle keeps is can.nonnull can.fits can.apart
    finished t false can keeps is =
        (_, refl, emit-IsLoaded _ _ hs (emit-IsLoaded _ _ hs (emit-IsLoaded t _ hs is)))

    -- `uso_open` of a file with imports that exists and is not loaded returns: if every import that
    -- is not weak is found it answers the new handle, which then stands at the end of the list of
    -- loaded files, and else it answers NULL and the list stays, when the library is initialized,
    -- fixup_uso can fix up the file as it is put in memory, the handles of the loaded files are
    -- apart from what the relocations and the imports of the file change and from the new handle,
    -- which is not NULL, and the code of the files leaves the list alone; with a bsearch that
    -- behaves as documented.
    pub uso_open-new :
        s.initted ≡ true
        → IsLoaded s hs
        → handle_of s filename hs ≡ 0
        → env.fopen filename ≡ some bytes
        → CanOpen
        → KeepsList env (hs ++ new_handle ∷ [])
        → (s' : Machine) × (uso_open env s filename
            ≡ done (s', if all_found then new_handle else 0))
          × IsLoaded s' (if all_found then hs ++ new_handle ∷ [] else hs)
    unfolding open_new
    uso_open-new ready is new there can keeps =
        let (t, runs, fixed) =
          fixup_uso-FixedUso env loaded hs new_uso noload_base Kept is_bsearch can.has_imports
            can.can_import can.links can.entries in
        let (s', finishes, final) = finished t all_found can keeps (fixed-IsLoaded t can fixed) in
        (s', uso_open-open_new env s filename hs bytes ready is new there ∙ rw runs finishes, final)
