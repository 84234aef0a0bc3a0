-- ===== src/StdMap.antt =====
-- `std::map` from numbers to numbers, as the function that `find` computes.
use dragonuso.Common.{ℕ, Bool, true, false, Option, none, some, ◌==◌, if◌then◌else◌}

abbrev pub Map : Type 0
Map = ℕ → Option ℕ

abbrev pub no_entries : Map
no_entries k = none

-- `m[k] = v`
abbrev pub assign : Map → ℕ → ℕ → Map
assign m k v j = if k == j then some v else m j

-- `m.find(k) != m.end()`
abbrev pub has : Map → ℕ → Bool
has m k = elim (m k) [ some v ↦ true | none ↦ false ]

-- The value of `m[k]`. A missing key gets the value 0.
abbrev pub at : Map → ℕ → ℕ
at m k = elim (m k) [ some v ↦ v | none ↦ 0 ]

-- The map after `m[k]` was evaluated: a missing key has been added.
abbrev pub after_at : Map → ℕ → Map
after_at m k = elim (m k) [ some v ↦ m | none ↦ assign m k 0 ]
