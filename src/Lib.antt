-- ===== src/Lib.antt =====
-- dragonuso: shared objects for the Nintendo 64. Tools on the host turn ELF files into .uso
-- files, and a library on the console loads them. The three tools and the library meet in the
-- file format.
--
-- * tools/elf2uso.cpp reads a relocatable ELF file and writes a .uso file: Elf2uso/Check
--   (the checks of the input, with Elf2uso/Check/Convertible about the files that pass
--   them), Elf2uso/Symbols (`sym_collect` and the name lists), Elf2uso/Sections
--   (`section_collect`), Elf2uso/Relocs (`reloc_build`, with Elf2uso/Relocs/Built about
--   what it builds), Elf2uso/Layout (sizes, alignments and offsets), Elf2uso/Output (symbol
--   tables and relocations as bytes) and Elf2uso/Write (sections, header, the whole file,
--   `main`; Elf2uso/Write/Guards is about when it writes). Its global variables are the
--   record `Globals` of Elf2uso/State.
-- * tools/make_global_syms.cpp writes the symbols of the main program to a symbol table:
--   GlobalSyms (the table and `main`), GlobalSyms/Collect (`sym_collect`), GlobalSyms/Names
--   (the names that are left out); GlobalSyms/Exported is about what is collected.
-- * tools/make_uso_externs.cpp reads .uso files and lists the symbols that no other of them
--   exports: Externs/Read (reading the tables) and Externs/Generate (the list, its text,
--   `main`).
-- * src/uso.c with src/uso.h and src/uso_internal.h loads .uso files: Runtime/Ram (the
--   structures in memory and the inline functions), Runtime/Machine (the state, the calls to
--   other code, how a run ends), Runtime/Search (symbol searches), Runtime/Fixup (offsets into
--   pointers, with the places of sections in Runtime/Fixup/Sections and the addresses of
--   symbols in Runtime/Fixup/Exports, Runtime/Fixup/Imports and Runtime/Fixup/Resolved),
--   Runtime/Reloc (`apply_uso_relocs`, `link_uso`, `flush_uso`), Runtime/Handles (the list of
--   loaded files), Runtime/Start (constructors, destructors, `_prolog`, `_epilog`) and
--   Runtime/Api (`fixup_uso` and the functions of src/uso.h). Runtime/Reloc/Link is about
--   `link_uso` and Runtime/Api/Fixed about `fixup_uso`; Runtime/Api/New is about `uso_open` of
--   a file that is not loaded yet. Runtime/Api/Closeable is about which file can be closed
--   and Runtime/Api/Closed about closing it, Runtime/Handles/Pointer about which file holds a
--   pointer, and Runtime/Start/Order about the order in which code is run.
-- * src/main.cpp, src/module2.cpp and src/counter.cpp are the demo program: Demo (`main`,
--   whose endless loop is a list of rounds, and the counter) and Demo/Closing (the round that
--   closes module 2).
-- * Format follows a file from the tool that writes it to the program that reads it:
--   Format/Fields, Format/Stored, Format/Reading, Format/Table and Format/RoundTrip (a symbol
--   table), Format/Header, Format/Placed, Format/Sections, Format/Headed and Format/Whole (a
--   .uso file from elf2uso to make_uso_externs), Format/Link (several of them),
--   Format/LoadInfo, Format/Exported and Format/Opened (a .uso file from elf2uso to the search
--   for its exports in the console's memory), Format/Relocs (relocations from elf2uso to the
--   console's memory), Format/Noload (the memory of sections without data), Format/Memory,
--   Format/Global, Format/Moved, Format/Ordered, Format/Boot and Format/Console (the table of
--   the main program from its ELF file through make_global_syms to the console's memory).
-- * Swap has the swap functions of the tools on both kinds of host, Bytes storage by address
--   and files, Text names and their order. Elfio, StdLib, StdMap and Bsearch are the
--   interfaces to other code.
--
-- Every function of the program keeps its name. A loop over an index is a recursion over a
-- list of the indices or elements, and its body is a function of its own. Numbers are natural
-- numbers with the wrap-around of their width written out. `exit(1)` is a failing result with
-- its reason; messages are left out, but for those of the library, which are events.
--
-- The console's memory is a function from addresses to bytes, and pointers are addresses in
-- it. An allocation is a parameter that answers an address. `bsearch`, `fopen`,
-- `__cxa_finalize` and the code of loaded files are parameters as well, gathered in `Env`.
-- `std::sort` and `std::binary_search` are an interface with their documented behaviour, with
-- an implementation in StdLib/Linear; `bsearch` has one in Bsearch.
--
-- The walk over the list of loaded files has 2 ^ 32 as fuel: handles that do not meet are
-- fewer in a 32-bit address space (Runtime/Handles/Few), so that the walk ends before the fuel
-- does. `runs_on` is the outcome for a list that does not end. A read through a NULL pointer
-- ends a run as `null_read`, a failed `assertf` as `assert_failed`. A string in memory ends
-- within 2 ^ 32 bytes.
--
-- Not modelled: tools/elfio, a copy of another project's library, whose answers are
-- parameters; src/module1.cpp, which only writes messages to the debugger; the build files;
-- the C++ demangler in a message of the library.
pub mod Bsearch
pub mod Bytes
pub mod Common
pub mod Demo
pub mod Elf2uso
pub mod Elfio
pub mod Externs
pub mod Format
pub mod GlobalSyms
pub mod Runtime
pub mod StdLib
pub mod StdMap
pub mod Swap
pub mod Text
