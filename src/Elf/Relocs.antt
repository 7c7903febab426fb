-- ===== src/Elf/Relocs.antt =====
-- The relocations in source/DasHLE/Binary/ELF.cpp: visitRel, visitRela, visitJmprel and visitRelocs.
-- They return the ELF with what they push; an ELF whose parse failed is not used any more.
pub mod Arrays
pub mod Complete
pub mod Exactly
pub mod Entries
pub mod Extends
pub mod Found
pub mod Laws
pub mod Tables
pub mod Visits
use das_hle.Base.{
  ℕ, zero, suc, ◌+◌, ◌-◌, ◌%◌, ◌/◌, ◌^◌, Bool, ◌||◌, leb, ◌==◌, if◌then◌else◌, List, [], ◌∷◌, ◌++◌,
  some, none, Outcome, ok, err, undefined, ◌>>=◌, invalid_relocation,
}
use das_hle.Elf.{Elf, Poly, RelocInfo, RelocKind}
use das_hle.Elf.Layout.{size_of_struct, rel_32, rela_32, rel_64, rela_64}
use das_hle.Elf.Read.{read, dyn_val, symbol_name}
use das_hle.Elf.Dynamic.{
  is_64_bits, dyn_entry_with_tag, symbol_by_index, string_by_offset, optional,
}

-- R_ARM_RELATIVE and R_AARCH64_RELATIVE.
unfoldable pub is_relative_reloc : ℕ → Bool
is_relative_reloc type = type == 23 || (type == 1027)

-- R_ARM_ABS32, R_ARM_GLOB_DAT, R_ARM_JUMP_SLOT and those of AARCH64.
unfoldable pub is_symbol_reloc : ℕ → Bool
is_symbol_reloc type =
    type == 2 || (type == 21) || (type == 22) || (type == 257) || (type == 1025) || (type == 1026)

-- A signed number of 32 bits as one of 64.
unfoldable pub sign_extend : ℕ → ℕ
sign_extend v = if leb 0x80000000 v then v + (2 ^ 64 - 2 ^ 32) else v

unfoldable pub push : RelocInfo → Elf → Elf
push reloc elf = record elf { relocs = elf.relocs ++ (reloc ∷ []) }

-- One step of the loops: the addend is read where the entry is kept.
unfoldable pub add_reloc : ℕ → Outcome ℕ → Outcome ℕ → Elf → Outcome Elf
add_reloc info offset_of addend_of elf =
    if is_relative_reloc (info % 256)
    then (do
      offset ← offset_of
      addend ← addend_of
      ok (
          push
            (record {
              patch_offset = offset;
              addend = addend;
              kind = RelocKind.relative;
              symbol = none;
            })
            elf))
    else if is_symbol_reloc (info % 256)
    then (do
      symbol ← symbol_by_index (info / 256) elf
      name_offset ← symbol_name elf.buffer symbol
      name ← string_by_offset name_offset elf
      offset ← offset_of
      addend ← addend_of
      ok (
          push
            (record {
              patch_offset = offset;
              addend = addend;
              kind = RelocKind.symbol;
              symbol = some name;
            })
            elf))
    else err invalid_relocation

unfoldable pub visit_rel_array_32 : ℕ → ℕ → Elf → Outcome Elf
visit_rel_array_32 at zero elf = ok elf
visit_rel_array_32 at (suc size) elf = do
  info ← read elf.buffer (at + 4) 4
  next ← add_reloc info (read elf.buffer at 4) (ok 0) elf
  visit_rel_array_32 (at + size_of_struct rel_32) size next

unfoldable pub rela_addend : List ℕ → ℕ → Outcome ℕ
rela_addend buffer at = do addend ← read buffer (at + 8) 4; ok (sign_extend addend)

unfoldable pub visit_rela_array_32 : ℕ → ℕ → Elf → Outcome Elf
visit_rela_array_32 at zero elf = ok elf
visit_rela_array_32 at (suc size) elf = do
  info ← read elf.buffer (at + 4) 4
  next ← add_reloc info (read elf.buffer at 4) (rela_addend elf.buffer at) elf
  visit_rela_array_32 (at + size_of_struct rela_32) size next

-- The 64-bit arrays are not supported by the source.
unfoldable pub visit_rel_array : ℕ → ℕ → Elf → Outcome Elf
visit_rel_array at size elf =
    if is_64_bits elf then err invalid_relocation else visit_rel_array_32 at size elf

unfoldable pub visit_rela_array : ℕ → ℕ → Elf → Outcome Elf
visit_rela_array at size elf =
    if is_64_bits elf then err invalid_relocation else visit_rela_array_32 at size elf

-- The array of a table given by its address, size and size of an entry; a size of 0 divides by zero.
unfoldable pub visit_table : (ℕ → ℕ → Elf → Outcome Elf) → Poly → Poly → Poly → Elf → Outcome Elf
visit_table visit entry entry_size entry_ent elf = do
  size ← dyn_val elf.buffer entry_size
  ent ← dyn_val elf.buffer entry_ent
  at ← dyn_val elf.buffer entry
  if ent == 0 then undefined else visit at (size / ent) elf

-- The three entries that a table wants; where one is missing there is nothing to visit.
unfoldable pub with_entries :
    ℕ → ℕ → ℕ → (Poly → Poly → Poly → Elf → Outcome Elf) → Elf → Outcome Elf
with_entries tag_a tag_b tag_c visit elf = do
  a ← optional (dyn_entry_with_tag tag_a elf)
  b ← optional (dyn_entry_with_tag tag_b elf)
  c ← optional (dyn_entry_with_tag tag_c elf)
  elim a [
    | none ↦ ok elf
    | some entry_a ↦ elim b [
      | none ↦ ok elf
      | some entry_b ↦ elim c [ none ↦ ok elf | some entry_c ↦ visit entry_a entry_b entry_c elf ]
    ]
  ]

-- DT_REL, DT_RELSZ and DT_RELENT.
unfoldable pub visit_rel : Elf → Outcome Elf
visit_rel elf = with_entries 17 18 19 (visit_table visit_rel_array) elf

-- DT_RELA, DT_RELASZ and DT_RELAENT.
unfoldable pub visit_rela : Elf → Outcome Elf
visit_rela elf = with_entries 7 8 9 (visit_table visit_rela_array) elf

unfoldable pub visit_plt : Poly → Poly → Poly → Elf → Outcome Elf
visit_plt entry entry_size entry_type elf = do
  type ← dyn_val elf.buffer entry_type
  at ← dyn_val elf.buffer entry
  size ← dyn_val elf.buffer entry_size
  if type == 17
      then visit_rel_array at
          (size / (if is_64_bits elf then size_of_struct rel_64 else size_of_struct rel_32)) elf
      else if type == 7
      then visit_rela_array at
          (size / (if is_64_bits elf then size_of_struct rela_64 else size_of_struct rela_32)) elf
      else err invalid_relocation

-- DT_JMPREL, DT_PLTRELSZ and DT_PLTREL.
unfoldable pub visit_jmprel : Elf → Outcome Elf
visit_jmprel elf = with_entries 23 2 20 visit_plt elf

unfoldable pub visit_relocs : Elf → Outcome Elf
visit_relocs elf = do
  with_rel ← visit_rel elf
  with_rela ← visit_rela with_rel
  visit_jmprel with_rela
