-- ===== src/Elf/Read.antt =====
-- The accessors of the wrappers in source/DasHLE/Binary/ELF.h: reads of little-endian fields at their
-- offsets in the packed structures. A read outside of the buffer is undefined.
use das_hle.Base.{
  ℕ, zero, suc, ◌+◌, ◌*◌, if◌then◌else◌, List, [], ◌∷◌, drop, Outcome, ok, undefined, ◌>>=◌,
}
use das_hle.Elf.{Poly}
use das_hle.Elf.Layout.{
  Members, place, width, ehdr_32, ehdr_64, shdr_32, shdr_64, phdr_32, phdr_64, dyn_32, dyn_64,
  sym_32, sym_64,
}

-- `count` bytes from the front, as a little-endian number.
unfoldable pub read_le : ℕ → List ℕ → Outcome ℕ
read_le zero bytes = ok 0
read_le (suc count) [] = undefined
read_le (suc count) (b ∷ bytes) = do rest ← read_le count bytes; ok (b + 256 * rest)

unfoldable pub read : List ℕ → ℕ → ℕ → Outcome ℕ
read buffer offset count = read_le count (drop offset buffer)

-- A field by its offset and size in the 32-bit structure, then in the 64-bit one.
unfoldable pub field : ℕ → ℕ → ℕ → ℕ → List ℕ → Poly → Outcome ℕ
field offset32 size32 offset64 size64 buffer p =
    if p.is_64 then read buffer (p.at + offset64) size64 else read buffer (p.at + offset32) size32

-- The same by the member's index in the two structures.
abbrev member : Members → ℕ → Members → ℕ → List ℕ → Poly → Outcome ℕ
member of_32 index32 of_64 index64 =
    field (place of_32 index32) (width of_32 index32) (place of_64 index64) (width of_64 index64)

-- Ehdr32 and Ehdr64.
abbrev pub ident : List ℕ → Poly → ℕ → Outcome ℕ
ident buffer p index = field index 1 index 1 buffer p

abbrev pub header_type : List ℕ → Poly → Outcome ℕ
header_type = member ehdr_32 1 ehdr_64 1

abbrev pub machine : List ℕ → Poly → Outcome ℕ
machine = member ehdr_32 2 ehdr_64 2

abbrev pub header_version : List ℕ → Poly → Outcome ℕ
header_version = member ehdr_32 3 ehdr_64 3

abbrev pub entry : List ℕ → Poly → Outcome ℕ
entry = member ehdr_32 4 ehdr_64 4

abbrev pub phoff : List ℕ → Poly → Outcome ℕ
phoff = member ehdr_32 5 ehdr_64 5

abbrev pub shoff : List ℕ → Poly → Outcome ℕ
shoff = member ehdr_32 6 ehdr_64 6

abbrev pub header_flags : List ℕ → Poly → Outcome ℕ
header_flags = member ehdr_32 7 ehdr_64 7

abbrev pub ehsize : List ℕ → Poly → Outcome ℕ
ehsize = member ehdr_32 8 ehdr_64 8

abbrev pub phentsize : List ℕ → Poly → Outcome ℕ
phentsize = member ehdr_32 9 ehdr_64 9

abbrev pub phnum : List ℕ → Poly → Outcome ℕ
phnum = member ehdr_32 10 ehdr_64 10

abbrev pub shentsize : List ℕ → Poly → Outcome ℕ
shentsize = member ehdr_32 11 ehdr_64 11

abbrev pub shnum : List ℕ → Poly → Outcome ℕ
shnum = member ehdr_32 12 ehdr_64 12

abbrev pub shstrndx : List ℕ → Poly → Outcome ℕ
shstrndx = member ehdr_32 13 ehdr_64 13

-- Shdr32 and Shdr64.
abbrev pub section_name : List ℕ → Poly → Outcome ℕ
section_name = member shdr_32 0 shdr_64 0

abbrev pub section_type : List ℕ → Poly → Outcome ℕ
section_type = member shdr_32 1 shdr_64 1

abbrev pub section_flags : List ℕ → Poly → Outcome ℕ
section_flags = member shdr_32 2 shdr_64 2

abbrev pub section_addr : List ℕ → Poly → Outcome ℕ
section_addr = member shdr_32 3 shdr_64 3

abbrev pub section_offset : List ℕ → Poly → Outcome ℕ
section_offset = member shdr_32 4 shdr_64 4

abbrev pub section_size : List ℕ → Poly → Outcome ℕ
section_size = member shdr_32 5 shdr_64 5

abbrev pub section_link : List ℕ → Poly → Outcome ℕ
section_link = member shdr_32 6 shdr_64 6

abbrev pub section_info : List ℕ → Poly → Outcome ℕ
section_info = member shdr_32 7 shdr_64 7

abbrev pub section_addralign : List ℕ → Poly → Outcome ℕ
section_addralign = member shdr_32 8 shdr_64 8

abbrev pub section_entsize : List ℕ → Poly → Outcome ℕ
section_entsize = member shdr_32 9 shdr_64 9

-- Phdr32 and Phdr64, whose flags stand in another place.
abbrev pub segment_type : List ℕ → Poly → Outcome ℕ
segment_type = member phdr_32 0 phdr_64 0

abbrev pub segment_flags : List ℕ → Poly → Outcome ℕ
segment_flags = member phdr_32 6 phdr_64 1

abbrev pub segment_offset : List ℕ → Poly → Outcome ℕ
segment_offset = member phdr_32 1 phdr_64 2

abbrev pub segment_vaddr : List ℕ → Poly → Outcome ℕ
segment_vaddr = member phdr_32 2 phdr_64 3

abbrev pub segment_paddr : List ℕ → Poly → Outcome ℕ
segment_paddr = member phdr_32 3 phdr_64 4

abbrev pub segment_filesz : List ℕ → Poly → Outcome ℕ
segment_filesz = member phdr_32 4 phdr_64 5

abbrev pub segment_memsz : List ℕ → Poly → Outcome ℕ
segment_memsz = member phdr_32 5 phdr_64 6

abbrev pub segment_align : List ℕ → Poly → Outcome ℕ
segment_align = member phdr_32 7 phdr_64 7

-- Dyn32 and Dyn64: d_val and d_ptr are one union.
abbrev pub dyn_tag : List ℕ → Poly → Outcome ℕ
dyn_tag = member dyn_32 0 dyn_64 0

abbrev pub dyn_val : List ℕ → Poly → Outcome ℕ
dyn_val = member dyn_32 1 dyn_64 1

-- Sym32 and Sym64.
abbrev pub symbol_name : List ℕ → Poly → Outcome ℕ
symbol_name = member sym_32 0 sym_64 0

abbrev pub symbol_value : List ℕ → Poly → Outcome ℕ
symbol_value = member sym_32 1 sym_64 4

abbrev pub symbol_size : List ℕ → Poly → Outcome ℕ
symbol_size = member sym_32 2 sym_64 5

abbrev pub symbol_info : List ℕ → Poly → Outcome ℕ
symbol_info = member sym_32 3 sym_64 1

abbrev pub symbol_other : List ℕ → Poly → Outcome ℕ
symbol_other = member sym_32 4 sym_64 2

abbrev pub symbol_shndx : List ℕ → Poly → Outcome ℕ
symbol_shndx = member sym_32 5 sym_64 3

-- The bytes of a C string.
unfoldable pub until_nul : List ℕ → Outcome (List ℕ)
until_nul [] = undefined
until_nul (zero ∷ bytes) = ok []
until_nul (suc b ∷ bytes) = do rest ← until_nul bytes; ok (suc b ∷ rest)
