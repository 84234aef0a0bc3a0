-- ===== src/Elfio.antt =====
-- What the tools read from an ELF file through the ELFIO library (tools/elfio, not modelled): the
-- values that its calls return are parameters, gathered in a record.
mod Constants
pub use Constants.*
use dragonuso.Common.{ℕ, Option, List}
use dragonuso.Text.{Str}

-- A section. `data` is the pointer that `get_data` returns, `none` if it is NULL.
pub record ElfSection : Type 0 where
  pub name : Str
  pub type : ℕ
  pub flags : ℕ
  pub size : ℕ
  pub addr_align : ℕ
  pub contents : Option (List ℕ)

-- What `get_symbol` stores into its reference arguments.
pub record ElfSymbol : Type 0 where
  pub name : Str
  pub value : ℕ
  pub size : ℕ
  pub bind : ℕ
  pub type : ℕ
  pub section_index : ℕ
  pub other : ℕ

-- What `get_entry` stores into its reference arguments.
pub record ElfReloc : Type 0 where
  pub offset : ℕ
  pub symbol : ℕ
  pub type : ℕ
  pub addend : ℕ

-- A loaded file. The accessors take the index of the section that they look into.
pub record Elfio : Type 0 where
  pub class : ℕ
  pub encoding : ℕ
  pub machine : ℕ
  pub type : ℕ
  pub sections : List ElfSection
  pub get_symbols_num : ℕ → ℕ
  pub get_symbol : ℕ → ℕ → ElfSymbol
  pub get_entries_num : ℕ → ℕ
  pub get_entry : ℕ → ℕ → ElfReloc
