-- ===== src/Elf.antt =====
-- source/DasHLE/Binary/ELF.h and ELF.cpp: the types of the parser.
pub mod Layout
pub mod Read
pub mod Segment
pub mod Dynamic
pub mod Relocs
pub mod Parse
use das_hle.Base.{ℕ, Bool, List, Option}

-- The constants that the parser uses.
abbrev pub ei_class : ℕ
ei_class = 4

abbrev pub ei_data : ℕ
ei_data = 5

-- ELFMAG, of SELFMAG characters: "\177ELF".
abbrev pub elf_mag : List ℕ
elf_mag = List.◌∷◌ 0x7f (List.◌∷◌ 0x45 (List.◌∷◌ 0x4c (List.◌∷◌ 0x46 List.[])))

abbrev pub elf_class_32 : ℕ
elf_class_32 = 1

abbrev pub elf_class_64 : ℕ
elf_class_64 = 2

abbrev pub elf_data_2lsb : ℕ
elf_data_2lsb = 1

abbrev pub et_dyn : ℕ
et_dyn = 3

abbrev pub em_arm : ℕ
em_arm = 40

abbrev pub em_aarch64 : ℕ
em_aarch64 = 183

-- PT_DYNAMIC; the tags of dynamic entries, DT_*, from DT_NULL = 0 on, are written out where used.
abbrev pub pt_dynamic : ℕ
pt_dynamic = 2

-- `enum class GuestVersion`.
pub data GuestVersion : Type 0 where
  armeabi armeabi_v7a arm64_v8a : GuestVersion

-- A wrapper: a pointer into the buffer to a structure of the 32-bit or the 64-bit format. Its
-- accessors read the structure each time.
pub record Poly : Type 0 where
  pub is_64 : Bool
  pub at : ℕ

pub data RelocKind : Type 0 where
  relative symbol : RelocKind

-- The addend is a signed number of 64 bits, as its bits; a string is its bytes.
pub record RelocInfo : Type 0 where
  pub patch_offset : ℕ
  pub addend : ℕ
  pub kind : RelocKind
  pub symbol : Option (List ℕ)

pub record FuncArrayInfo : Type 0 where
  pub offset : ℕ
  pub size : ℕ

pub record Elf : Type 0 where
  pub buffer : List ℕ
  pub version : GuestVersion
  pub header : Option Poly
  pub section_headers : List Poly
  pub program_headers : List Poly
  pub str_tab : Option Poly
  pub sym_tab : Option Poly
  pub relocs : List RelocInfo
