-- ===== src/Format/Reading.antt =====
-- The functions of tools/make_uso_externs.cpp on symbols that stand in a file.
use dragonuso.Common.{
  ℕ, suc, ◌+◌, ◌*◌, ◌^◌, ◌≤◌, ◌<◌, ◌≡◌, refl, ap, ◌∙◌, List, [], ◌∷◌, ◌++◌, map, arith, length,
  length-append, All, count_from,
}
use mathlib.Core.List.{append-nil, append_assoc}
use dragonuso.Common.Words.{u32}
use dragonuso.Bytes.{Bytes, get}
use dragonuso.Bytes.Files.{read-seek, Holds}
use dragonuso.Bytes.Stdio.{File}
use dragonuso.Swap.{Endian}
use dragonuso.Text.{Str, c_str}
use dragonuso.Elf2uso.State.{SymbolInfo}
use dragonuso.Elf2uso.Output.{name_len_field}
use dragonuso.Externs.Read.{
  ok, UsoSymbolInfo, Failure, symbol_unread, name_unread, file_read, uso_read_symbol,
  uso_read_symbol_name, read_symbol_info, read_symbol_infos,
}
use dragonuso.Format.Fields.{
  entry_bytes, read_name_ofs, read_addr, read_section, read_name_len, name_len_field-lt,
  name_len_mask, weak_bit,
}
use dragonuso.Format.Stored.{Stored, Room, ShortNames, names_size, entry_at, entry_of}

-- A symbol whose fields fit theirs in the file, with a C string for its name.
pub record IsSymbol (s : SymbolInfo) : Type 0 where
  pub characters : All (λ c. (0 < c) × (c < 256)) s.name
  pub nonempty : 0 < length s.name
  pub short : length s.name < 2 ^ 15
  pub addr : s.addr < 2 ^ 32
  pub section : s.section < 2 ^ 16

-- What the reader makes of a symbol.
abbrev pub as_read : SymbolInfo → UsoSymbolInfo
as_read s = record { name = s.name; addr = s.addr; section = s.section; weak = s.weak }

c_str-append_nul : (cs : List ℕ) → All (λ c. (0 < c) × (c < 256)) cs → c_str (cs ++ 0 ∷ []) ≡ cs
unfolding c_str
c_str-append_nul [] h = refl
c_str-append_nul (c ∷ cs) h = ground (arith, c_str-append_nul cs h.1)

get_prefix :
    (m : Bytes) (a : ℕ) (xs ys : List ℕ)
    → get m a (length (xs ++ ys)) ≡ xs ++ ys
    → get m a (length xs) ≡ xs
get_prefix m a [] ys h = refl
get_prefix m a (x ∷ xs) ys h = ground (arith, get_prefix m (suc a) xs ys)

pub file_read-Holds :
    (f : File) (a : ℕ) (bs : List ℕ) (failure : Failure)
    → 0 < length bs
    → Holds f a bs
    → file_read f a (length bs) failure ≡ ok bs
unfolding file_read
file_read-Holds f a bs failure pos h =
    rw (read-seek f a (length bs) pos h.inside, file_read) (ap ok h.bytes)

module _ (e : Endian) (f : File) where
  uso_read_symbol_lem :
      (a n addr section name_len : ℕ)
      → n < 2 ^ 32
      → addr < 2 ^ 32
      → section < 2 ^ 16
      → name_len < 2 ^ 16
      → Holds f a (entry_bytes n addr section name_len)
      → uso_read_symbol e f a
        ≡ ok (record { name_ofs = n; addr = addr; section = section; name_len = name_len })
  unfolding uso_read_symbol
  uso_read_symbol_lem a n addr section name_len hn ha hs hl h = rw (
    file_read-Holds f a (entry_bytes n addr section name_len) symbol_unread (omega arith) h,
    read_name_ofs e n addr section name_len hn ha hs hl,
    read_addr e n addr section name_len hn ha hs hl,
    read_section e n addr section name_len hn ha hs hl,
    read_name_len e n addr section name_len hn ha hs hl,
  )

  uso_read_symbol_name_lem :
      (a : ℕ) (name : Str)
      → All (λ c. (0 < c) × (c < 256)) name
      → 0 < length name
      → Holds f a (name ++ 0 ∷ [])
      → uso_read_symbol_name e f a (length name) ≡ ok name
  unfolding uso_read_symbol_name
  uso_read_symbol_name_lem a name chars pos h =
      let held : Holds f a name = record {
        bytes = get_prefix f.contents a name (0 ∷ []) h.bytes;
        inside = omega (arith, h.inside, length-append name (0 ∷ []));
      } in
      rw (file_read-Holds f a name name_unread pos held, c_str-append_nul name chars)

  read_symbol_info_lem :
      (ofs i n : ℕ) (s : SymbolInfo)
      → IsSymbol s
      → entry_at ofs (suc i) ≤ ofs + n
      → ofs + n + (length s.name + 1) < 2 ^ 32
      → Holds f (entry_at ofs i) (entry_of n s)
      → Holds f (ofs + n) (s.name ++ 0 ∷ [])
      → read_symbol_info e f ofs i ≡ ok (as_read s)
  unfolding read_symbol_info
  read_symbol_info_lem ofs i n s is fits no_wrap entry name =
      let start : u32 (u32 (4 + ofs) + i * 12) ≡ entry_at ofs i = omega arith in
      let addr : u32 s.addr ≡ s.addr = omega (arith, is.addr) in
      let name_start : u32 (ofs + n) ≡ ofs + n = omega arith in
      rw (
        start,
        uso_read_symbol_lem (entry_at ofs i) n (u32 s.addr) s.section (name_len_field s)
            (omega arith) (omega arith) is.section (name_len_field-lt s is.short) entry,
        name_start,
        name_len_mask s is.short,
        uso_read_symbol_name_lem (ofs + n) s.name is.characters is.nonempty name,
        weak_bit s is.short,
        addr,
      )

abbrev pub AreSymbols : List SymbolInfo → Type 0
AreSymbols [] = Unit {0}
AreSymbols (s ∷ ss) = IsSymbol s × AreSymbols ss

pub AreSymbols-ShortNames : (ss : List SymbolInfo) → AreSymbols ss → ShortNames ss
AreSymbols-ShortNames [] h = tt
AreSymbols-ShortNames (s ∷ ss) h = (h.0.short, AreSymbols-ShortNames ss h.1)

pub read_symbol_infos-Stored :
    (e : Endian) (f : File) (ofs i n : ℕ) (list : List UsoSymbolInfo) (ss : List SymbolInfo)
    → AreSymbols ss
    → Room ofs i n ss
    → Stored f ofs i n ss
    → read_symbol_infos e f ofs list (count_from i (length ss)) ≡ ok (list ++ map as_read ss)
unfolding read_symbol_infos
read_symbol_infos-Stored e f ofs i n list [] are room stored = rw append-nil
read_symbol_infos-Stored e f ofs i n list (s ∷ ss) are room (entry, name, rest) =
    let room_here : names_size (s ∷ ss) ≡ length s.name + 1 + names_size ss =
      unfold names_size in refl in
    rw (read_symbol_info_lem e f ofs i n s are.0 (omega arith) (omega arith) entry name) (
      read_symbol_infos-Stored e f ofs (suc i) (n + (length s.name + 1)) (list ++ (as_read s ∷ []))
        ss are.1 (record { entries = omega arith; names = omega arith }) rest
      ∙ ap ok (append_assoc list (as_read s ∷ []) (map as_read ss)))
