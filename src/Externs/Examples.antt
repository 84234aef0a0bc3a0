-- ===== src/Externs/Examples.antt =====
-- Two .uso files, one of which imports a name that the other exports.
use dragonuso.Common.{◌≡◌, refl, List, [], ◌∷◌}
use dragonuso.StdLib.{StrictWeak, Algorithms}
use dragonuso.StdLib.Linear.{linear}
use dragonuso.Text.{strcmp}
use dragonuso.Text.Order.{not-ltb_of_ltb, not-ltb_trans}
use dragonuso.Externs.Read.{UsoSymbolInfo, UsoInfo}
use dragonuso.Externs.Generate.{uso_sym_compare, named, generate_uso_extern_list}
use dragonuso.Externs.Unresolved.{
  exports_name, exported_elsewhere, unresolved_in, unresolved, generate_uso_extern_list-unresolved,
}

pub uso_sym_compare-StrictWeak : StrictWeak uso_sym_compare
unfolding uso_sym_compare
uso_sym_compare-StrictWeak = record {
  asym = λ s t. not-ltb_of_ltb s.name t.name;
  not_less_trans = λ s t u. not-ltb_trans s.name t.name u.name;
}

abbrev pub lib : Algorithms UsoSymbolInfo uso_sym_compare
lib = linear uso_sym_compare uso_sym_compare-StrictWeak

-- The first file imports "a" and "b", and the second exports "a".
abbrev two_files : List UsoInfo
two_files =
    record { import_syms = named (b'a' ∷ []) ∷ named (b'b' ∷ []) ∷ []; export_syms = [] }
    ∷ record { import_syms = []; export_syms = named (b'a' ∷ []) ∷ [] }
    ∷ []

only_b : unresolved two_files 0 two_files ≡ (b'b' ∷ []) ∷ []
unfolding unresolved unresolved_in exported_elsewhere exports_name strcmp
only_b = refl

generate_uso_extern_list-unresolved_example :
    generate_uso_extern_list lib two_files ≡ unresolved two_files 0 two_files
generate_uso_extern_list-unresolved_example =
    generate_uso_extern_list-unresolved lib two_files (tt, ((tt, tt), tt))
