-- ===== src/Elf/Parse.antt =====
-- ELF::parse of source/DasHLE/Binary/ELF.cpp.
pub mod AllRelocs
pub mod Class
pub mod Described
pub mod Errors
pub mod Exact
pub mod Fields
pub mod Headers
pub mod Laws
pub mod Verdict
use das_hle.Base.{
  ℕ, zero, suc, ◌+◌, Bool, true, false, not, ltb, ◌==◌, if◌then◌else◌, List, [], ◌∷◌, length, some,
  none, Outcome, ok, ◌>>=◌, ◌>>◌, fail_if, invalid_size, invalid_magic, invalid_data_encoding,
  no_pie, invalid_class, invalid_arch,
}
use das_hle.Elf.{
  Elf, Poly, GuestVersion, ei_class, ei_data, elf_mag, elf_class_32, elf_class_64, elf_data_2lsb,
  et_dyn, em_arm, em_aarch64,
}
use das_hle.Elf.Layout.{size_of_struct, ehdr_32, ehdr_64, shdr_32, shdr_64, phdr_32, phdr_64}
use das_hle.Elf.Read.{ident, header_type, machine, phoff, shoff, ehsize, phnum, shnum}
use das_hle.Elf.Dynamic.{dyn_entry_with_tag}
use das_hle.Elf.Relocs.{visit_relocs}

-- sizeof(Ehdr64) and sizeof(Ehdr32).
unfoldable pub header_size : Bool → ℕ
header_size bits64 = if bits64 then size_of_struct ehdr_64 else size_of_struct ehdr_32

-- std::equal of the identification from `index` on and the characters.
unfoldable pub starts_with : List ℕ → Poly → ℕ → List ℕ → Outcome Bool
starts_with buffer header index [] = ok true
starts_with buffer header index (c ∷ cs) = do
  byte ← ident buffer header index
  elim (byte == c) [ false ↦ ok false | true ↦ starts_with buffer header (suc index) cs ]

unfoldable pub check_platform : List ℕ → Bool → Poly → Outcome (Unit {0})
check_platform buffer bits64 header = do
  class ← ident buffer header ei_class
  fail_if (not (class == (if bits64 then elf_class_64 else elf_class_32))) invalid_class
  arch ← machine buffer header
  fail_if (not (arch == (if bits64 then em_aarch64 else em_arm))) invalid_arch

unfoldable pub check_header : List ℕ → Bool → Poly → Outcome (Unit {0})
check_header buffer bits64 header = do
  fail_if (ltb (length buffer) (header_size bits64)) invalid_size
  size ← ehsize buffer header
  fail_if (ltb (length buffer) size) invalid_size
  magic ← starts_with buffer header 0 elf_mag
  fail_if (not magic) invalid_magic
  encoding ← ident buffer header ei_data
  fail_if (not (encoding == elf_data_2lsb)) invalid_data_encoding
  type ← header_type buffer header
  fail_if (not (type == et_dyn)) no_pie
  check_platform buffer bits64 header

-- The wrappers of a table's entries.
unfoldable pub headers_at : Bool → ℕ → ℕ → ℕ → List Poly
headers_at bits64 size at zero = []
headers_at bits64 size at (suc count) =
    record { is_64 = bits64; at = at } ∷ headers_at bits64 size (at + size) count

unfoldable pub header_of : List ℕ → Outcome Poly
header_of buffer = do
  fail_if (ltb (length buffer) (size_of_struct ehdr_32)) invalid_size
  class ← ident buffer (record { is_64 = false; at = 0 }) ei_class
  ok (record { is_64 = class == elf_class_64; at = 0 })

-- The ELF with its header and the tables of sections and segments.
unfoldable pub with_headers : List ℕ → Poly → Outcome Elf
with_headers buffer header = do
  sections ← shoff buffer header
  section_count ← shnum buffer header
  segments ← phoff buffer header
  segment_count ← phnum buffer header
  ok (record {
    buffer = buffer;
    version = GuestVersion.armeabi;
    header = some header;
    section_headers =
        headers_at header.is_64
          (if header.is_64 then size_of_struct shdr_64 else size_of_struct shdr_32) sections
          section_count;
    program_headers =
        headers_at header.is_64
          (if header.is_64 then size_of_struct phdr_64 else size_of_struct phdr_32) segments
          segment_count;
    str_tab = none;
    sym_tab = none;
    relocs = [];
  })

-- DT_STRTAB and DT_SYMTAB.
unfoldable pub with_tables : Elf → Outcome Elf
with_tables elf = do
  strings ← dyn_entry_with_tag 5 elf
  let named : Elf = record elf { str_tab = some strings }
  symbols ← dyn_entry_with_tag 6 named
  ok (record named { sym_tab = some symbols })

unfoldable pub parse : List ℕ → Outcome Elf
parse buffer = do
  header ← header_of buffer
  check_header buffer header.is_64 header
  elf ← with_headers buffer header
  full ← with_tables elf
  visit_relocs full
