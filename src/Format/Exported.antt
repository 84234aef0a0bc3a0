-- ===== src/Format/Exported.antt =====
-- The exports of a .uso file in the console's memory, after the first steps of `fixup_uso` of
-- src/uso.c.
use dragonuso.Common.{
  ℕ, ◌+◌, ◌*◌, ◌-◌, ◌^◌, ◌≤◌, ◌<◌, ◌≡◌, ◌≢◌, refl, sym, ◌∙◌, inl, inr, true, false, [], map, arith,
  length, ltb, ◌==◌, if◌then◌else◌, Bool-cases,
}
use mathlib.Core.Path.{subst, fun_ext}
use dragonuso.Common.Words.{u32}
use dragonuso.Bytes.{Bytes, Apart, get}
use dragonuso.Bytes.Stdio.{File}
use dragonuso.Bsearch.{IsBsearch}
use dragonuso.Text.{Str}
use dragonuso.Elf2uso.State.{Globals}
use dragonuso.Elf2uso.Write.{UsoHeader}
use dragonuso.Runtime.Ram.{
  load_u32, sections, export_syms, num_sections, section_entry, section_data, table_length,
}
use dragonuso.Runtime.Ram.Laws.{store_outside, load_u32_ext, load_u32-store_self}
use dragonuso.Runtime.Machine.{Env}
use dragonuso.Runtime.Search.{search_symbol_table}
use dragonuso.Runtime.Fixup.{ptr_fixup, fixup_section_table, fixup_export_syms}
use dragonuso.Runtime.Fixup.Round.{fixup_sections_below}
use dragonuso.Runtime.Fixup.Exports.{FixedExports, fixup_export_syms-FixedExports}
use dragonuso.Runtime.Api.{fixup_exports, fixup_tables}
use dragonuso.Format.Reading.{AreSymbols}
use dragonuso.Format.Table.{IsTable, table_size}
use dragonuso.Format.Header.{stored_header}
use dragonuso.Format.Placed.{IsTable-frame}
use dragonuso.Format.Headed.{IsHeaded}
use dragonuso.Format.Memory.{load_u32-get, get-shift}
use dragonuso.Format.Global.{address_of, Ascending}
use dragonuso.Format.Moved.{moved, MovedTable, table_length-IsTable, search-moved}

-- An address in a section, in a memory whose section table is fixed up.
abbrev pub in_section : Bytes → ℕ → ℕ → ℕ → ℕ
in_section m uso section addr = u32 (section_data m (section_entry (sections m uso) section) + addr)

module _ (name : Str) (g : Globals) (f : File) (h : UsoHeader) (mid end : ℕ)
    (is : IsHeaded name g f h mid end) (m : Bytes) (uso noload_base : ℕ)
    (same : (j : ℕ) → j < f.size → m (uso + j) ≡ f.contents j)
    (fits : uso + h.sections_ofs < 2 ^ 32) where
  header_there : get m uso 20 ≡ stored_header h
  header_there =
      let start : uso + 0 ≡ uso = omega arith in
      subst (λ (a : ℕ). get m a 20 ≡ stored_header h) start
        (get-shift m f.contents uso 0 20 (λ j lo hi. same j (omega (arith, is.header_there.inside)))
          ∙ is.header_there.bytes)

  sections_field : sections m uso ≡ h.sections_ofs
  sections_field =
      load_u32-get m uso 4 (stored_header h) header_there (omega arith)
      ∙ omega (arith, is.header_fits.sections_ofs)

  exports_field : export_syms m uso ≡ h.export_sym_table_ofs
  exports_field =
      load_u32-get m uso 12 (stored_header h) header_there (omega arith)
      ∙ omega (arith, is.header_fits.export_sym_table_ofs)

  abbrev section_table : ℕ
  section_table = uso + h.sections_ofs

  abbrev m₁ : Bytes
  m₁ = ptr_fixup m (uso + 4) uso

  m₁-sections : sections m₁ uso ≡ section_table
  unfolding ptr_fixup
  m₁-sections =
      load_u32-store_self m (uso + 4) (u32 (uso + load_u32 m (uso + 4))) (omega arith)
      ∙ omega (arith, sections_field)

  abbrev m₂ : Bytes
  m₂ = fixup_section_table m₁ section_table noload_base (num_sections m₁ uso)

  -- In front of the section table, the sections change nothing.
  m₂_before : (x : ℕ) → x < section_table → m₂ x ≡ m₁ x
  unfolding fixup_section_table
  m₂_before x lt =
      store_outside _ section_table 0 x (inl (omega arith))
      ∙ fixup_sections_below m₁ section_table noload_base 1 (num_sections m₁ uso - 1) x
          (omega arith)

  header_before : 20 ≤ h.sections_ofs
  header_before = omega (arith, is.mid_above, is.end_above, is.sections_above)

  m₂_front : (x : ℕ) → x < section_table → Apart x 1 (uso + 4) 4 → m₂ x ≡ m x
  unfolding ptr_fixup
  m₂_front x lt out = m₂_before x lt ∙ store_outside m (uso + 4) _ x out

  m₂-sections : sections m₂ uso ≡ section_table
  m₂-sections =
      load_u32_ext m₂ m₁ (uso + 4) (λ x lo hi. m₂_before x (omega (arith, header_before)))
      ∙ m₁-sections

  m₂-export_syms : export_syms m₂ uso ≡ h.export_sym_table_ofs
  m₂-export_syms =
      load_u32_ext m₂ m (uso + 12)
        (λ x lo hi. m₂_front x (omega (arith, header_before)) (omega arith))
      ∙ exports_field

  fixup_tables_lem : fixup_tables m uso noload_base ≡ fixup_exports m₂ uso
  unfolding fixup_tables
  fixup_tables_lem = rw m₁-sections

  abbrev Found : Bytes → Type 0
  Found m' =
      (env : Env) (wanted : Str)
      → IsBsearch env.bsearch
      → search_symbol_table env m' (export_syms m' uso) wanted
        ≡ address_of wanted (map (moved (in_section m' uso)) g.export_syms)

  -- With no exports, nothing is found.
  no_exports-Found : h.export_sym_table_ofs ≡ 0 → g.export_syms ≡ [] → Found (fixup_exports m₂ uso)
  unfolding fixup_exports search_symbol_table address_of
  no_exports-Found null empty env wanted is_bsearch =
      let none_there : export_syms m₂ uso ≡ 0 = m₂-export_syms ∙ null in
      rw (none_there, none_there, empty)

  module _ (filled : h.export_sym_table_ofs ≢ 0) (above : mid ≤ h.export_sym_table_ofs)
      (below : h.export_sym_table_ofs + table_size g.export_syms ≤ end)
      (table_in : IsTable f h.export_sym_table_ofs g.export_syms) where
    abbrev table : ℕ
    table = uso + h.export_sym_table_ofs

    -- With the pointer to the exports.
    abbrev pointed : Bytes
    pointed = ptr_fixup m₂ (uso + 12) uso

    abbrev fixed : Bytes
    fixed = fixup_export_syms pointed table section_table

    table_bounds :
        (20 ≤ h.export_sym_table_ofs) × (table + table_size g.export_syms ≤ section_table)
    table_bounds = (omega (arith, is.mid_above), omega (arith, is.sections_above))

    pointed-export_syms : export_syms pointed uso ≡ table
    unfolding ptr_fixup
    pointed-export_syms =
        load_u32-store_self m₂ (uso + 12) (u32 (uso + load_u32 m₂ (uso + 12))) (omega arith)
        ∙ omega (arith, m₂-export_syms, table_bounds)

    pointed_before : (x : ℕ) → Apart x 1 (uso + 12) 4 → pointed x ≡ m₂ x
    unfolding ptr_fixup
    pointed_before x out = store_outside m₂ (uso + 12) _ x out

    pointed-sections : sections pointed uso ≡ section_table
    pointed-sections =
        load_u32_ext pointed m₂ (uso + 4) (λ x lo hi. pointed_before x (omega arith)) ∙ m₂-sections

    fixup_exports_lem : fixup_exports m₂ uso ≡ fixed
    unfolding fixup_exports
    fixup_exports_lem =
        let there : (export_syms m₂ uso == 0) ≡ false = ground (arith, m₂-export_syms, filled) in
        rw (there, pointed-export_syms, pointed-sections)

    -- The memory as the file: behind the file's end it is the file.
    abbrev view : File
    view = record {
      contents = λ j. if ltb j f.size then pointed (uso + j) else f.contents j;
      size = f.size;
      pos = 0;
    }

    view_same : (j : ℕ) → j < f.size → pointed (uso + j) ≡ view.contents j
    view_same j lt = let inside : ltb j f.size ≡ true = ground arith in rw inside refl

    view-IsTable : IsTable view h.export_sym_table_ofs g.export_syms
    view-IsTable =
        IsTable-frame f view h.export_sym_table_ofs g.export_syms (omega arith)
          (λ x lo hi. elim (Bool-cases (ltb x f.size)) [
            | inl inside ↦ rw inside (
                pointed_before (uso + x) (omega (arith, table_bounds))
                ∙ m₂_front (uso + x) (omega (arith, table_bounds)) (omega (arith, table_bounds))
                ∙ same x (ground arith))
            | inr outside ↦ rw outside refl
          ])
          table_in

    pointed-table_length : table_length pointed table ≡ length g.export_syms
    pointed-table_length =
        table_length-IsTable view uso h.export_sym_table_ofs table refl pointed view_same
          g.export_syms view-IsTable (omega (arith, table_bounds))

    table_entries : table + 4 + length g.export_syms * 12 ≤ section_table
    unfolding table_size
    table_entries = omega (arith, table_bounds)

    pointed-FixedExports : FixedExports pointed fixed table section_table
    pointed-FixedExports =
        fixup_export_syms-FixedExports pointed table section_table
          (λ i lt. inr (omega (arith, pointed-table_length, table_entries)))

    fixed_outside :
        (x : ℕ) → Apart x 1 (table + 4) (length g.export_syms * 12) → fixed x ≡ pointed x
    fixed_outside x out = pointed-FixedExports.rest x (omega (arith, pointed-table_length))

    abbrev move : ℕ → ℕ → ℕ
    move section addr = u32 (section_data pointed (section_entry section_table section) + addr)

    fixed-MovedTable : MovedTable pointed fixed table (length g.export_syms) move
    fixed-MovedTable = record {
      names = λ i lt. pointed-FixedExports.names i (omega (arith, pointed-table_length));
      ptrs = λ i lt. pointed-FixedExports.ptrs i (omega (arith, pointed-table_length));
      behind = λ x lo. fixed_outside x (inr (omega arith));
    }

    fixed-table_length : table_length fixed table ≡ length g.export_syms
    fixed-table_length =
        load_u32_ext fixed pointed table (λ x lo hi. fixed_outside x (inl (omega arith)))
        ∙ pointed-table_length

    fixed-export_syms : export_syms fixed uso ≡ table
    fixed-export_syms =
        load_u32_ext fixed pointed (uso + 12)
          (λ x lo hi. fixed_outside x (inl (omega (arith, table_bounds))))
        ∙ pointed-export_syms

    fixed-sections : sections fixed uso ≡ section_table
    fixed-sections =
        load_u32_ext fixed pointed (uso + 4)
          (λ x lo hi. fixed_outside x (inl (omega (arith, table_bounds))))
        ∙ pointed-sections

    move_lem : move ≡ in_section fixed uso
    move_lem = fun_ext λ section. fun_ext λ addr.
        let s = section_entry section_table section in
        let data_same : section_data fixed s ≡ section_data pointed s =
          load_u32_ext fixed pointed s
            (λ x lo hi. fixed_outside x (inr (omega (arith, table_entries)))) in
        rw (fixed-sections, data_same)

    table-Found : AreSymbols g.export_syms → Ascending g.export_syms → Found fixed
    table-Found are asc env wanted is_bsearch =
        rw (fixed-export_syms, ← move_lem)
          (search-moved view uso h.export_sym_table_ofs table refl pointed view_same g.export_syms
            fixed move env wanted view-IsTable are asc (omega (arith, table_bounds))
            (omega (arith, table_bounds)) fixed-MovedTable fixed-table_length is_bsearch)

  -- After the first steps of `fixup_uso`.
  pub fixup_tables-Found :
      AreSymbols g.export_syms → Ascending g.export_syms → Found (fixup_tables m uso noload_base)
  fixup_tables-Found are asc = subst Found (sym fixup_tables_lem) (elim is.exports [
    | inl (null, empty) ↦ no_exports-Found null empty
    | inr (above, below, table_in) ↦
        let filled : h.export_sym_table_ofs ≢ 0 = omega (arith, is.mid_above) in
        subst Found (sym (fixup_exports_lem filled above below table_in))
          (table-Found filled above below table_in are asc)
  ])
