-- ===== src/Tests/Elf.antt =====
-- Segments as linkers lay them out, and a dynamic section.
use das_hle.Base.{
  undefined, ◌++◌, some, none, ℕ, ◌+◌, ◌<◌, ◌≡◌, refl, ◌⊎◌, false, List, [], ◌∷◌, ok, err, length,
  arith, no_pie, invalid_size, Error,
}
use das_hle.Align.{is_power_of_two}
use das_hle.Elf.{Elf, Poly, GuestVersion, RelocKind}
use das_hle.Elf.Layout.{
  size_of_struct, ehdr_32, ehdr_64, shdr_32, shdr_64, phdr_32, phdr_64, dyn_32, dyn_64, sym_32,
  sym_64, rel_32, rela_32, rel_64, rela_64,
}
use das_hle.Elf.Parse.{
  parse, header_of, check_header, check_platform, header_size, starts_with, headers_at,
  with_headers, with_tables,
}
use das_hle.Elf.Parse.Class.{TakesClass}
use das_hle.Elf.Parse.Errors.{parse_tables, parse-Refusal}
use das_hle.Elf.Parse.Verdict.{IsAccepted, Refusal}
use das_hle.Elf.Segment.{allocation_offset, offset_of, size_of}
use das_hle.Elf.Segment.Header.{IsOffset, allocation_offset_lem}
use das_hle.Elf.Segment.Laws.{size_of-short}
use das_hle.Elf.Dynamic.{dyn_entries_from}
use das_hle.Elf.Dynamic.Walk.{Walk, RunsOff, dyn_entries_from-Walks}

-- An Elf32_Phdr at 0 with p_offset 0x2ef8, p_vaddr 0x3ef8 and p_align 0x1000.
abbrev load_segment : List ℕ
load_segment =
    1 ∷ 0 ∷ 0 ∷ 0 ∷ 0xf8 ∷ 0x2e ∷ 0 ∷ 0 ∷ 0xf8 ∷ 0x3e ∷ 0 ∷ 0 ∷ 0 ∷ 0 ∷ 0 ∷ 0 ∷ 0 ∷ 1 ∷ 0 ∷ 0 ∷ 0
    ∷ 1 ∷ 0 ∷ 0 ∷ 6 ∷ 0 ∷ 0 ∷ 0 ∷ 0 ∷ 16 ∷ 0 ∷ 0 ∷ []

allocation_offset_lem_example :
    IsOffset 0x1000 0x3ef8 0x2ef8
      (allocation_offset load_segment (record { is_64 = false; at = 0 }))
unfolding das_hle.Elf.Read.field das_hle.Elf.Read.read das_hle.Elf.Read.read_le
allocation_offset_lem_example =
    allocation_offset_lem load_segment (record { is_64 = false; at = 0 }) 0x1000 0x3ef8 0x2ef8 refl
      refl refl (omega arith) (omega arith)

size_of-short_example : 0x3000 + 0x1000 < 0x3ef8 + 0x1000
size_of-short_example =
    size_of-short 0x1000 0x3ef8 0x2ef8 0x1000 0x800 0x3000 0x1000 (omega arith) (omega arith)
      (omega arith) (omega arith) (omega arith) (omega arith)
      (unfold offset_of das_hle.Align.align_down is_power_of_two das_hle.Word.not64 in refl)
      (unfold size_of das_hle.Align.align_up is_power_of_two das_hle.Word.not64
          das_hle.Word.add64 in
        refl)

-- DT_STRTAB at 0x20, then DT_NULL.
abbrev dynamic : List ℕ
dynamic = 5 ∷ 0 ∷ 0 ∷ 0 ∷ 0x20 ∷ 0 ∷ 0 ∷ 0 ∷ 0 ∷ 0 ∷ 0 ∷ 0 ∷ 0 ∷ 0 ∷ 0 ∷ 0 ∷ []

dyn_entries_from-Walks_example :
    ((found : List Poly) × Walk dynamic 5 false 0 found
      × (dyn_entries_from dynamic 5 100 false 0 ≡ ok found))
    ⊎ (RunsOff dynamic false 0 × (dyn_entries_from dynamic 5 100 false 0 ≡ undefined))
dyn_entries_from-Walks_example = dyn_entries_from-Walks dynamic 5 false 100 0 (omega arith)

finds_strings : dyn_entries_from dynamic 5 17 false 0 ≡ ok (record { is_64 = false; at = 0 } ∷ [])
unfolding dyn_entries_from das_hle.Elf.Read.field das_hle.Elf.Read.read das_hle.Elf.Read.read_le
    das_hle.Elf.Dynamic.dyn_size
finds_strings = refl

-- A file: its header, one segment, the dynamic entries and one relocation.
abbrev file_header : List ℕ
file_header =
    127 ∷ 69 ∷ 76 ∷ 70 ∷ 1 ∷ 1 ∷ 1 ∷ 0 ∷ 0 ∷ 0 ∷ 0 ∷ 0 ∷ 0 ∷ 0 ∷ 0 ∷ 0 ∷ 3 ∷ 0 ∷ 40 ∷ 0 ∷ 1 ∷ 0 ∷ 0
    ∷ 0 ∷ 0 ∷ 0 ∷ 0 ∷ 0 ∷ 52 ∷ 0 ∷ 0 ∷ 0 ∷ 0 ∷ 0 ∷ 0 ∷ 0 ∷ 0 ∷ 0 ∷ 0 ∷ 0 ∷ 52 ∷ 0 ∷ 32 ∷ 0 ∷ 1 ∷ 0
    ∷ 40 ∷ 0 ∷ 0 ∷ 0 ∷ 0 ∷ 0 ∷ []

-- PT_DYNAMIC at 0x54.
abbrev segment : List ℕ
segment =
    2 ∷ 0 ∷ 0 ∷ 0 ∷ 84 ∷ 0 ∷ 0 ∷ 0 ∷ 84 ∷ 0 ∷ 0 ∷ 0 ∷ 84 ∷ 0 ∷ 0 ∷ 0 ∷ 48 ∷ 0 ∷ 0 ∷ 0 ∷ 48 ∷ 0 ∷ 0
    ∷ 0 ∷ 6 ∷ 0 ∷ 0 ∷ 0 ∷ 4 ∷ 0 ∷ 0 ∷ 0 ∷ []

-- DT_STRTAB, DT_SYMTAB, DT_REL at 0x84, DT_RELSZ, DT_RELENT and DT_NULL.
abbrev entries : List ℕ
entries =
    5 ∷ 0 ∷ 0 ∷ 0 ∷ 0 ∷ 0 ∷ 0 ∷ 0 ∷ 6 ∷ 0 ∷ 0 ∷ 0 ∷ 0 ∷ 0 ∷ 0 ∷ 0 ∷ 17 ∷ 0 ∷ 0 ∷ 0 ∷ 132 ∷ 0 ∷ 0 ∷ 0
    ∷ 18 ∷ 0 ∷ 0 ∷ 0 ∷ 8 ∷ 0 ∷ 0 ∷ 0 ∷ 19 ∷ 0 ∷ 0 ∷ 0 ∷ 8 ∷ 0 ∷ 0 ∷ 0 ∷ 0 ∷ 0 ∷ 0 ∷ 0 ∷ 0 ∷ 0 ∷ 0
    ∷ 0 ∷ []

-- R_ARM_RELATIVE at 0x10.
abbrev relocation : List ℕ
relocation = 16 ∷ 0 ∷ 0 ∷ 0 ∷ 23 ∷ 0 ∷ 0 ∷ 0 ∷ []

abbrev pub file : List ℕ
file = file_header ++ segment ++ entries ++ relocation

abbrev pub file_elf : Elf
file_elf = record {
  buffer = file;
  version = GuestVersion.armeabi;
  header = some (record { is_64 = false; at = 0 });
  section_headers = [];
  program_headers = record { is_64 = false; at = 0x34 } ∷ [];
  str_tab = some (record { is_64 = false; at = 0x54 });
  sym_tab = some (record { is_64 = false; at = 0x5c });
  relocs =
      record { patch_offset = 0x10; addend = 0; kind = RelocKind.relative; symbol = none } ∷ [];
}

file-parses : parse file ≡ ok file_elf
unfolding parse header_of check_header check_platform header_size starts_with headers_at
    with_headers with_tables das_hle.Elf.Relocs.visit_relocs das_hle.Elf.Relocs.visit_rel
    das_hle.Elf.Relocs.visit_rela das_hle.Elf.Relocs.visit_jmprel das_hle.Elf.Relocs.with_entries
    das_hle.Elf.Relocs.visit_table das_hle.Elf.Relocs.visit_rel_array
    das_hle.Elf.Relocs.visit_rel_array_32 das_hle.Elf.Relocs.add_reloc
    das_hle.Elf.Relocs.is_relative_reloc das_hle.Elf.Relocs.push das_hle.Elf.Dynamic.optional
    das_hle.Elf.Dynamic.dyn_entry_with_tag das_hle.Elf.Dynamic.the_only
    das_hle.Elf.Dynamic.dyn_entries_with_tag das_hle.Elf.Dynamic.dyn_entries_in dyn_entries_from
    das_hle.Elf.Dynamic.dyn_size das_hle.Elf.Dynamic.segments_of_type das_hle.Elf.Dynamic.of_type
    das_hle.Elf.Dynamic.is_64_bits das_hle.Elf.Read.field das_hle.Elf.Read.read
    das_hle.Elf.Read.read_le
file-parses = refl

-- The same header with ET_EXEC for ET_DYN.
abbrev executable : List ℕ
executable =
    127 ∷ 69 ∷ 76 ∷ 70 ∷ 1 ∷ 1 ∷ 1 ∷ 0 ∷ 0 ∷ 0 ∷ 0 ∷ 0 ∷ 0 ∷ 0 ∷ 0 ∷ 0 ∷ 2 ∷ 0 ∷ 40 ∷ 0 ∷ 1 ∷ 0 ∷ 0
    ∷ 0 ∷ 0 ∷ 0 ∷ 0 ∷ 0 ∷ 52 ∷ 0 ∷ 0 ∷ 0 ∷ 0 ∷ 0 ∷ 0 ∷ 0 ∷ 0 ∷ 0 ∷ 0 ∷ 0 ∷ 52 ∷ 0 ∷ 32 ∷ 0 ∷ 1 ∷ 0
    ∷ 40 ∷ 0 ∷ 0 ∷ 0 ∷ 0 ∷ 0 ∷ []

refuses_executable : parse executable ≡ err no_pie
unfolding parse header_of check_header header_size starts_with das_hle.Elf.Read.field
    das_hle.Elf.Read.read das_hle.Elf.Read.read_le
refuses_executable = refl

parse-Refusal_example :
    ((length executable < 52) × (parse executable ≡ err invalid_size))
    ⊎ ((header : Poly) × TakesClass executable header
        × ((IsAccepted executable header × (parse executable ≡ parse_tables executable header))
            ⊎ ((e : Error) × Refusal executable header e × (parse executable ≡ err e))))
parse-Refusal_example = parse-Refusal executable

-- The static_asserts on the sizes of the structures.
sizes :
    (size_of_struct ehdr_32 ≡ 0x34)
    × (size_of_struct ehdr_64 ≡ 0x40)
    × (size_of_struct shdr_32 ≡ 0x28)
    × (size_of_struct shdr_64 ≡ 0x40)
    × (size_of_struct phdr_32 ≡ 0x20)
    × (size_of_struct phdr_64 ≡ 0x38)
    × (size_of_struct dyn_32 ≡ 0x08)
    × (size_of_struct dyn_64 ≡ 0x10)
    × (size_of_struct sym_32 ≡ 0x10)
    × (size_of_struct sym_64 ≡ 0x18)
    × (size_of_struct rel_32 ≡ 0x08)
    × (size_of_struct rela_32 ≡ 0x0c)
    × (size_of_struct rel_64 ≡ 0x10)
    × (size_of_struct rela_64 ≡ 0x18)
sizes = (refl, refl, refl, refl, refl, refl, refl, refl, refl, refl, refl, refl, refl, refl)
