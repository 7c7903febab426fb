-- ===== src/Tests/Relocs.antt =====
-- ELF::parse on a file with the three tables of relocations.
use das_hle.Base.{ℕ, ◌≡◌, ◌↔◌, refl, false, List, [], ◌∷◌, ◌++◌, some, none, ok}
use das_hle.Elf.{Elf, Poly, GuestVersion, RelocInfo, RelocKind}
use das_hle.Elf.Parse.{
  parse, header_of, check_header, check_platform, header_size, starts_with, headers_at,
  with_headers, with_tables,
}
use das_hle.Elf.Parse.Exact.{Describes, parse_iff}
use das_hle.Elf.Dynamic.{is_64_bits}
use das_hle.Elf.Relocs.{visit_relocs}
use das_hle.Elf.Relocs.Arrays.{Adds}
use das_hle.Elf.Relocs.Tables.{AreRelocs}
use das_hle.Elf.Relocs.Exactly.{visit_relocs_iff}

abbrev word : ℕ → List ℕ
word low = low ∷ 0 ∷ 0 ∷ 0 ∷ []

-- A dynamic entry.
abbrev entry : ℕ → ℕ → List ℕ
entry tag value = word tag ++ word value

abbrev header : List ℕ
header =
    127 ∷ 69 ∷ 76 ∷ 70 ∷ 1 ∷ 1 ∷ 1 ∷ 0 ∷ 0 ∷ 0 ∷ 0 ∷ 0 ∷ 0 ∷ 0 ∷ 0 ∷ 0 ∷ 3 ∷ 0 ∷ 40 ∷ 0 ∷ 1 ∷ 0 ∷ 0
    ∷ 0 ∷ 0 ∷ 0 ∷ 0 ∷ 0 ∷ 52 ∷ 0 ∷ 0 ∷ 0 ∷ 0 ∷ 0 ∷ 0 ∷ 0 ∷ 0 ∷ 0 ∷ 0 ∷ 0 ∷ 52 ∷ 0 ∷ 32 ∷ 0 ∷ 1 ∷ 0
    ∷ 40 ∷ 0 ∷ 0 ∷ 0 ∷ 0 ∷ 0 ∷ []

-- PT_DYNAMIC at 84.
abbrev segment : List ℕ
segment = entry 2 84 ++ entry 84 84 ++ entry 96 96 ++ entry 6 4

abbrev dynamic : List ℕ
dynamic =
    entry 5 240
    ++ entry 6 208
    ++ entry 17 180
    ++ entry 18 8
    ++ entry 19 8
    ++ entry 7 188
    ++ entry 8 12
    ++ entry 9 12
    ++ entry 23 200
    ++ entry 2 8
    ++ entry 20 17
    ++ entry 0 0

-- R_ARM_RELATIVE at 16, R_ARM_RELATIVE at 20 with an addend, and R_ARM_JUMP_SLOT at 24 of symbol 1.
abbrev relocations : List ℕ
relocations = entry 16 23 ++ entry 20 23 ++ word 5 ++ word 24 ++ (22 ∷ 1 ∷ 0 ∷ 0 ∷ [])

-- Symbol 1 is named "f".
abbrev symbols : List ℕ
symbols = entry 0 0 ++ entry 0 0 ++ entry 1 0 ++ entry 0 0

abbrev three_tables : List ℕ
three_tables = header ++ (segment ++ (dynamic ++ (relocations ++ (symbols ++ (0 ∷ 102 ∷ 0 ∷ [])))))

abbrev three_relocs : List RelocInfo
three_relocs =
    record { patch_offset = 16; addend = 0; kind = RelocKind.relative; symbol = none }
    ∷ record { patch_offset = 20; addend = 5; kind = RelocKind.relative; symbol = none }
    ∷ record { patch_offset = 24; addend = 0; kind = RelocKind.symbol; symbol = some (102 ∷ []) }
    ∷ []

abbrev three_elf : Elf
three_elf = record {
  buffer = three_tables;
  version = GuestVersion.armeabi;
  header = some (record { is_64 = false; at = 0 });
  section_headers = [];
  program_headers = record { is_64 = false; at = 52 } ∷ [];
  str_tab = some (record { is_64 = false; at = 84 });
  sym_tab = some (record { is_64 = false; at = 92 });
  relocs = three_relocs;
}

three_tables-parse : parse three_tables ≡ ok three_elf
unfolding parse header_of check_header check_platform header_size starts_with headers_at
    with_headers with_tables das_hle.Elf.Relocs.visit_relocs das_hle.Elf.Relocs.visit_rel
    das_hle.Elf.Relocs.visit_rela das_hle.Elf.Relocs.visit_jmprel das_hle.Elf.Relocs.with_entries
    das_hle.Elf.Relocs.visit_table das_hle.Elf.Relocs.visit_plt das_hle.Elf.Relocs.visit_rel_array
    das_hle.Elf.Relocs.visit_rela_array das_hle.Elf.Relocs.visit_rela_array_32
    das_hle.Elf.Relocs.rela_addend das_hle.Elf.Relocs.sign_extend
    das_hle.Elf.Relocs.visit_rel_array_32 das_hle.Elf.Relocs.add_reloc
    das_hle.Elf.Relocs.is_relative_reloc das_hle.Elf.Relocs.is_symbol_reloc das_hle.Elf.Relocs.push
    das_hle.Elf.Dynamic.optional das_hle.Elf.Dynamic.dyn_entry_with_tag das_hle.Elf.Dynamic.the_only
    das_hle.Elf.Dynamic.dyn_entries_with_tag das_hle.Elf.Dynamic.dyn_entries_in
    das_hle.Elf.Dynamic.dyn_entries_from das_hle.Elf.Dynamic.symbol_by_index
    das_hle.Elf.Dynamic.string_by_offset das_hle.Elf.Read.until_nul das_hle.Elf.Dynamic.dyn_size
    das_hle.Elf.Dynamic.segments_of_type das_hle.Elf.Dynamic.of_type das_hle.Elf.Dynamic.is_64_bits
    das_hle.Elf.Read.field das_hle.Elf.Read.read das_hle.Elf.Read.read_le
three_tables-parse = refl

parse_iff_example : (parse three_tables ≡ ok three_elf) ↔ Describes three_tables three_elf
parse_iff_example = parse_iff three_tables three_elf

-- The file is described by its object.
three_tables-Describes : Describes three_tables three_elf
three_tables-Describes = (parse_iff three_tables three_elf).0 three_tables-parse

-- The object before visitRelocs.
abbrev bare_elf : Elf
bare_elf = record three_elf { relocs = [] }

visit_relocs_iff_example :
    (visit_relocs bare_elf ≡ ok three_elf) ↔ Adds bare_elf three_elf (AreRelocs bare_elf)
visit_relocs_iff_example = visit_relocs_iff bare_elf three_elf (unfold is_64_bits in refl)
