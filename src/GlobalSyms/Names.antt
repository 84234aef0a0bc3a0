-- ===== src/GlobalSyms/Names.antt =====
-- `unexported_symbols` of tools/make_global_syms.cpp: the names that are not exported.
use dragonuso.Common.{List, [], ◌∷◌}
use dragonuso.Text.{Str}

abbrev pub unexported_symbols : List Str
unexported_symbols =
    (b'_' ∷ b'_' ∷ b'd' ∷ b's' ∷ b'o' ∷ b'_' ∷ b'h' ∷ b'a' ∷ b'n' ∷ b'd' ∷ b'l' ∷ b'e' ∷ [])
    ∷ (b'_' ∷ b'i' ∷ b'n' ∷ b'i' ∷ b't' ∷ [])
    ∷ (b'_' ∷ b'f' ∷ b'i' ∷ b'n' ∷ b'i' ∷ [])
    ∷ (b'_' ∷ b'_' ∷ b'k' ∷ b's' ∷ b'e' ∷ b'g' ∷ b'0' ∷ b'_' ∷ b's' ∷ b't' ∷ b'a' ∷ b'r' ∷ b't'
        ∷ [])
    ∷ (b'_' ∷ b'_' ∷ b'l' ∷ b'i' ∷ b'b' ∷ b'd' ∷ b'r' ∷ b'a' ∷ b'g' ∷ b'o' ∷ b'n' ∷ b'_' ∷ b't'
        ∷ b'e' ∷ b'x' ∷ b't' ∷ b'_' ∷ b's' ∷ b't' ∷ b'a' ∷ b'r' ∷ b't' ∷ [])
    ∷ (b'_' ∷ b'_' ∷ b't' ∷ b'e' ∷ b'x' ∷ b't' ∷ b'_' ∷ b's' ∷ b't' ∷ b'a' ∷ b'r' ∷ b't' ∷ [])
    ∷ (b'_' ∷ b'_' ∷ b't' ∷ b'e' ∷ b'x' ∷ b't' ∷ b'_' ∷ b'e' ∷ b'n' ∷ b'd' ∷ [])
    ∷ (b'_' ∷ b'_' ∷ b'E' ∷ b'H' ∷ b'_' ∷ b'F' ∷ b'R' ∷ b'A' ∷ b'M' ∷ b'E' ∷ b'_' ∷ b'B' ∷ b'E'
        ∷ b'G' ∷ b'I' ∷ b'N' ∷ b'_' ∷ b'_' ∷ [])
    ∷ (b'_' ∷ b'_' ∷ b'C' ∷ b'T' ∷ b'O' ∷ b'R' ∷ b'_' ∷ b'L' ∷ b'I' ∷ b'S' ∷ b'T' ∷ b'_' ∷ b'_'
        ∷ [])
    ∷ (b'_' ∷ b'_' ∷ b'C' ∷ b'T' ∷ b'O' ∷ b'R' ∷ b'_' ∷ b'E' ∷ b'N' ∷ b'D' ∷ b'_' ∷ b'_' ∷ [])
    ∷ (b'_' ∷ b'_' ∷ b'd' ∷ b'a' ∷ b't' ∷ b'a' ∷ b'_' ∷ b's' ∷ b't' ∷ b'a' ∷ b'r' ∷ b't' ∷ [])
    ∷ (b'_' ∷ b'g' ∷ b'p' ∷ [])
    ∷ (b'_' ∷ b'_' ∷ b'd' ∷ b'a' ∷ b't' ∷ b'a' ∷ b'_' ∷ b'e' ∷ b'n' ∷ b'd' ∷ [])
    ∷ (b'_' ∷ b'_' ∷ b'b' ∷ b's' ∷ b's' ∷ b'_' ∷ b's' ∷ b't' ∷ b'a' ∷ b'r' ∷ b't' ∷ [])
    ∷ (b'_' ∷ b'_' ∷ b'b' ∷ b's' ∷ b's' ∷ b'_' ∷ b'e' ∷ b'n' ∷ b'd' ∷ [])
    ∷ (b'_' ∷ b'_' ∷ b'r' ∷ b'o' ∷ b'm' ∷ b'_' ∷ b'e' ∷ b'n' ∷ b'd' ∷ [])
    ∷ (b'e' ∷ b'n' ∷ b'd' ∷ [])
    ∷ []
