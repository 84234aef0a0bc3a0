-- ===== src/Elfio/Constants.antt =====
-- Constants of the ELF format, as the ELF specification gives them.
use dragonuso.Common.{ℕ}

abbrev pub shn_undef : ℕ
shn_undef = 0

abbrev pub shn_common : ℕ
shn_common = 0xFFF2

abbrev pub sht_nobits : ℕ
sht_nobits = 8

abbrev pub sht_rel : ℕ
sht_rel = 9

abbrev pub stb_local : ℕ
stb_local = 0

abbrev pub stb_weak : ℕ
stb_weak = 2

abbrev pub stv_default : ℕ
stv_default = 0

abbrev pub elfclass32 : ℕ
elfclass32 = 1

abbrev pub elfdata2msb : ℕ
elfdata2msb = 2

abbrev pub em_mips : ℕ
em_mips = 8

abbrev pub et_rel : ℕ
et_rel = 1

abbrev pub et_exec : ℕ
et_exec = 2
