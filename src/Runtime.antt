-- ===== src/Runtime.antt =====
-- src/uso.c, src/uso_internal.h and src/uso.h: the library on the console that loads .uso files.
pub mod Ram
pub mod Machine
pub mod Search
pub mod Fixup
pub mod Reloc
pub mod Handles
pub mod Start
pub mod Api
pub mod Examples
