-- ===== src/Externs.antt =====
-- tools/make_uso_externs.cpp, which lists the symbols that no .uso file provides.
pub mod Read
pub mod Generate
pub mod Unresolved
pub mod Examples
