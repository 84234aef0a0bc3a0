-- ===== src/Elf2uso.antt =====
-- tools/elf2uso.cpp, which converts a relocatable ELF file to a .uso file.
pub mod State
pub mod Check
pub mod Symbols
pub mod Sections
pub mod Relocs
pub mod Layout
pub mod Output
pub mod Write
